-- ===== src/Build/Spec.antt =====
-- The machine that is built: `MachineSpec` and the runtime state of pkg/define/struct.go.
use ovm_next.Base.{Text, ℕ, Bool, false, List, []}
use ovm_next.Mount.{Mount}
use ovm_next.Storage.Disk.{BlkDev}
use ovm_next.Forward.Rules.{Rules}
use ovm_next.Lifecycle.Readiness.{Readiness, new_readiness}

-- `SSHInfo`
pub record SshInfo : Type 0 where
  pub host_ssh_private_key_file : Text
  pub host_ssh_public_key : Text
  pub host_ssh_private_key : Text
  pub host_ssh_proxy_listen_addr : Text
  pub guest_ssh_server_listen_addr : Text
  pub guest_ssh_private_key_file : Text
  pub guest_ssh_authorized_keys : Text
  pub guest_ssh_pid_file : Text

-- `ProxySetting`
pub record ProxySetting : Type 0 where
  pub use_proxy : Bool
  pub http_proxy : Text
  pub https_proxy : Text

-- `PodmanInfo`
pub record PodmanInfo : Type 0 where
  pub host_podman_proxy_addr : Text
  pub guest_podman_api_listen_addr : Text
  pub guest_podman_run_with_envs : List Text

-- `GuestAgentCfg`
pub record GuestAgentCfg : Type 0 where
  pub workdir : Text
  pub args : List Text
  pub env : List Text

-- `Machine`, without the field `Cmdline`, which nothing sets.
pub record Machine : Type 0 where
  pub workspace_dir : Text
  pub memory_in_mb : ℕ
  pub cpus : ℕ
  pub root_fs : Text
  pub blk_devs : List BlkDev
  pub gvp_ctl_addr : Text
  pub gvp_vnet_addr : Text
  pub virtual_network_mode : Text
  pub log_file : Text
  pub mounts : List Mount
  pub ssh_info : SshInfo
  pub podman_info : PodmanInfo
  pub vm_ctl_addr : Text
  pub run_mode : Text
  pub ignition_listen_addr : Text
  pub guest_agent : GuestAgentCfg
  pub proxy_setting : ProxySetting
  pub unix_socket_forwards : Rules
  pub tty : Bool
  pub readiness : Readiness

abbrev no_ssh : SshInfo
no_ssh = record {
  host_ssh_private_key_file = [];
  host_ssh_public_key = [];
  host_ssh_private_key = [];
  host_ssh_proxy_listen_addr = [];
  guest_ssh_server_listen_addr = [];
  guest_ssh_private_key_file = [];
  guest_ssh_authorized_keys = [];
  guest_ssh_pid_file = [];
}

-- `newMachineBuilder`; the zero values are Go's.
unfoldable pub new_machine : Text → Machine
new_machine mode = record {
  workspace_dir = [];
  memory_in_mb = 0;
  cpus = 0;
  root_fs = [];
  blk_devs = [];
  gvp_ctl_addr = [];
  gvp_vnet_addr = [];
  virtual_network_mode = [];
  log_file = [];
  mounts = [];
  ssh_info = no_ssh;
  podman_info = record {
    host_podman_proxy_addr = [];
    guest_podman_api_listen_addr = [];
    guest_podman_run_with_envs = [];
  };
  vm_ctl_addr = [];
  run_mode = mode;
  ignition_listen_addr = [];
  guest_agent = record { workdir = []; args = []; env = [] };
  proxy_setting = record { use_proxy = false; http_proxy = []; https_proxy = [] };
  unix_socket_forwards = [];
  tty = false;
  readiness = new_readiness;
}
