-- ===== src/Config.antt =====
-- pkg/librevm/config.go: the configuration of a session. A method on `*Config` that returns its
-- receiver is a function from configurations to configurations.
pub mod With
pub mod Disks
pub mod Overwrite
pub mod Normalize
use ovm_next.Base.{Text, codes, ℕ, ℤ, pos, Bool, false, List, [], ◌∷◌, Option, none, some}
use ovm_next.Define.{gvisor, default_raw_disk_version, var_disk_mount_point, var_data_disk_uuid}
use ovm_next.FilePath.{join}

pub record RawDisk : Type 0 where
  pub raw_disk_path : Text
  pub uuid : Text
  pub mnt : Text
  pub version : Text

pub record Config : Type 0 where
  pub run_mode : Text
  pub session_id : Text
  pub cpus : ℤ
  pub memory_mb : ℕ
  pub work_dir : Text
  pub env : List Text
  pub var_disk : RawDisk
  pub external_disks : List RawDisk
  pub network : Text
  pub mounts : List Text
  pub forward_unix : List Text
  pub podman_proxy_api_file : Text
  pub manage_api_file : Text
  pub ssh_key_private_file_symbol_links : Text
  pub ssh_key_public_file_symbol_links : Text
  pub proxy : Bool
  pub log_level : Text
  pub log_to : Text
  pub report_url : Text

abbrev pub mode_container : Text
mode_container = codes "docker"

abbrev pub mode_cfg_gen : Text
mode_cfg_gen = codes "cfggen"

-- `getSessionDir`; the home directory is `none` where `os.UserHomeDir` fails.
unfoldable pub get_session_dir : Option Text → Text → Text
unfolding join
get_session_dir none name = join (codes "/tmp" ∷ name ∷ [])
get_session_dir (some home) name = join (home ∷ codes ".cache" ∷ codes "ovm-krun" ∷ name ∷ [])

-- `getDefaultVarDiskPath`
unfoldable pub get_default_var_disk_path : Option Text → Text → Text
unfolding get_session_dir
get_default_var_disk_path home id =
    join (get_session_dir home id ∷ codes "data" ∷ codes "data.img" ∷ [])

-- `getLogFilePath`
unfoldable pub get_log_file_path : Option Text → Text → Text
unfolding get_session_dir
get_log_file_path home id = join (get_session_dir home id ∷ codes "logs" ∷ codes "ovm.log" ∷ [])

abbrev pub no_disk : RawDisk
no_disk = record { raw_disk_path = []; uuid = []; mnt = []; version = [] }

-- `DefaultConfig`
unfoldable pub default_config : Option Text → Text → Config
default_config home id = record {
  run_mode = [];
  session_id = id;
  cpus = pos 0;
  memory_mb = 0;
  work_dir = codes "/";
  env = [];
  var_disk = record {
    raw_disk_path = get_default_var_disk_path home id;
    uuid = var_data_disk_uuid;
    mnt = var_disk_mount_point;
    version = default_raw_disk_version;
  };
  external_disks = [];
  network = gvisor;
  mounts = [];
  forward_unix = [];
  podman_proxy_api_file = [];
  manage_api_file = [];
  ssh_key_private_file_symbol_links = [];
  ssh_key_public_file_symbol_links = [];
  proxy = false;
  log_level = codes "info";
  log_to = get_log_file_path home id;
  report_url = [];
}
