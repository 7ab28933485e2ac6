-- ===== src/Commands.antt =====
-- The configuration that the commands start with: cmd/revm/start.go and cmd/revm/init.go.
pub mod Generated
use ovm_next.Base.{
  Text, codes, ◌==◌, ℕ, ℤ, Bool, false, List, [], ◌∷◌, if◌then◌else◌, Option, none, some,
}
use ovm_next.Define.{default_raw_disk_version, var_disk_mount_point, var_data_disk_uuid}
use ovm_next.FilePath.{abs, clean, join}
use ovm_next.Config.{Config, RawDisk, default_config, mode_container, mode_cfg_gen}
use ovm_next.Config.With.{
  with_mode, with_cpus, with_memory, with_network, with_podman_proxy_api_file, with_manage_api_file,
  with_export_ssh_key_private_file, with_export_ssh_key_public_file, with_report_endpoint,
  with_proxy, with_log_level_and_log_file, with_env, with_mount, with_forward_unix,
}
use ovm_next.Config.Disks.{with_disk, with_var_data_disk}
use ovm_next.Config.Overwrite.{overwrite_cfg_from}

-- The flags of the command `docker`, as the command line library returns them.
pub record StartFlags : Type 0 where
  pub session_id : Text
  pub log_level : Text
  pub log_to : Text
  pub cpus : ℤ
  pub memory_in_mb : ℕ
  pub vnetwork_type : Text
  pub using_system_proxy : Bool
  pub envs : List Text
  pub raw_disk : List Text
  pub mount : List Text
  pub forward_unix : List Text
  pub var_disk : Text
  pub podman_proxy_api_file : Text
  pub manage_api_file : Text
  pub export_ssh_key_private_file : Text
  pub export_ssh_key_public_file : Text
  pub report_events : Text
  pub ovm_report_url : Text

module _ (home : Option Text) (fresh : ℕ → Text) where
  -- The chain of calls in `dockerLifeCycle`.
  unfoldable pub start_config : StartFlags → Config
  start_config f =
      let base =
        with_log_level_and_log_file f.log_level f.log_to (default_config home f.session_id) in
      let sized = with_memory f.memory_in_mb (with_cpus f.cpus (with_mode mode_container base)) in
      let linked = with_proxy f.using_system_proxy (with_network f.vnetwork_type sized) in
      let (disked, _) = with_disk fresh f.raw_disk (with_env f.envs linked) 0 in
      let shared = with_forward_unix f.forward_unix (with_mount f.mount disked) in
      let served = with_manage_api_file f.manage_api_file (
        with_podman_proxy_api_file f.podman_proxy_api_file
          (with_var_data_disk f.var_disk shared)) in
      let exported =
        with_export_ssh_key_public_file f.export_ssh_key_public_file
          (with_export_ssh_key_private_file f.export_ssh_key_private_file served) in
      with_report_endpoint f.ovm_report_url (with_report_endpoint f.report_events exported)

  -- ... and the configuration file over it, where `LoadFile` reads one.
  abbrev pub overwritten : Config → Option Config → Config
  overwritten cfg none = cfg
  overwritten cfg (some file) = overwrite_cfg_from cfg file

  unfoldable pub session_config : StartFlags → Option Config → Config
  session_config flags file = overwritten (start_config flags) file

-- The flags of the command `init`.
pub record InitFlags : Type 0 where
  pub workspace : Text
  pub name : Text
  pub data_disk_version : Text
  pub volume : List Text
  pub cpus : ℤ
  pub memory_in_mb : ℕ
  pub report_url : Text

abbrev pub default_ovm_session_id : Text
default_ovm_session_id = codes "oomol-studio-19452"

abbrev pub ovm_source_disk_uuid : Text
ovm_source_disk_uuid = codes "44f7d1c0-122c-4402-a20e-c1166cbbad6d"

abbrev pub base_dir : Text → InitFlags → Text
base_dir cwd f = abs cwd (clean (join (f.workspace ∷ f.name ∷ [])))

abbrev pub below : Text → List Text → Text
below dir parts = join (dir ∷ parts)

-- The configuration of `generateOVMCfgAction`.
unfoldable pub generated_config : Text → InitFlags → Config
generated_config cwd f =
    let dir = base_dir cwd f in
    record {
      run_mode = mode_cfg_gen;
      session_id = default_ovm_session_id;
      cpus = f.cpus;
      memory_mb = f.memory_in_mb;
      work_dir = [];
      env = [];
      var_disk = record {
        raw_disk_path = below dir (codes "data" ∷ codes "data.img" ∷ []);
        uuid = var_data_disk_uuid;
        mnt = var_disk_mount_point;
        version =
            if f.data_disk_version == [] then default_raw_disk_version else f.data_disk_version;
      };
      external_disks =
          record {
            raw_disk_path = below dir (codes "data" ∷ codes "source.ext4" ∷ []);
            uuid = ovm_source_disk_uuid;
            mnt = join (codes "/mnt" ∷ ovm_source_disk_uuid ∷ []);
            version = default_raw_disk_version;
          }
          ∷ [];
      network = [];
      mounts = f.volume;
      forward_unix = [];
      podman_proxy_api_file = below dir (codes "socks" ∷ codes "podman-api.sock" ∷ []);
      manage_api_file = below dir (codes "socks" ∷ codes "ovm_restapi.socks" ∷ []);
      ssh_key_private_file_symbol_links = below dir (codes "data" ∷ codes "sshkey" ∷ []);
      ssh_key_public_file_symbol_links = below dir (codes "data" ∷ codes "sshkey.pub" ∷ []);
      proxy = false;
      log_level = codes "info";
      log_to = below dir (codes "logs" ∷ codes "ovm.log" ∷ []);
      report_url = f.report_url;
    }
