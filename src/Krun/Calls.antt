-- ===== src/Krun/Calls.antt =====
-- The functions of libkrun as far as this code calls them, and what a host answers. The arguments
-- are those that the machine decides; context and file descriptors are left out.
use ovm_next.Base.{
  ℕ, Text, codes, ◌==◌, contains, if◌then◌else◌, Bool, not, ◌&&◌, List, [], Option, none, some,
  Result, ok, err,
}
use ovm_next.Base.Action.{Action, try}
use ovm_next.Build.Url.{Url}
use ovm_next.Forward.Routes.{RouteError}

-- `KRUN_LOG_LEVEL_...`
pub data KrunLevel : Type 0 where
  level_error level_warn level_info level_debug level_trace : KrunLevel

-- `logLevel`
unfoldable pub log_level : Text → KrunLevel
log_level env =
    if env == codes "trace"
    then level_trace
    else if env == codes "debug"
    then level_debug
    else if env == codes "1"
    then level_debug
    else if env == codes "info"
    then level_info
    else if env == codes "warn"
    then level_warn
    else level_error

pub data KrunCall : Type 0 where
  init_log : KrunLevel → KrunCall
  create_ctx : KrunCall
  set_vm_config : ℕ → ℕ → KrunCall
  set_rlimits : List Text → KrunCall
  set_root : Text → KrunCall
  disable_implicit_console add_console_multiport : KrunCall
  add_console_port_tty add_console_port_inout : Text → KrunCall
  disable_implicit_vsock : KrunCall
  -- Whether `KRUN_TSI_HIJACK_INET` is set.
  add_vsock : Bool → KrunCall
  add_vsock_port : ℕ → Text → KrunCall
  add_net_unixstream add_net_unixgram : Text → KrunCall
  add_disk : Text → KrunCall
  add_virtiofs : Text → Text → KrunCall
  set_gpu_options set_nested_virt : KrunCall
  set_workdir : Text → KrunCall
  set_exec : Text → List Text → List Text → KrunCall

pub data KrunError : Type 0 where
  -- `errCode`, and the panic of `must`
  failed panicked : KrunCall → KrunError
  no_console no_log : KrunError
  bad_address : Text → KrunError
  route : RouteError → KrunError
  unknown_network not_regular unresolved not_directory : Text → KrunError

pub record KrunHost (W : Type 0) : Type 1 where
  pub linux : Bool
  -- The variable LIBKRUN_DEBUG.
  pub debug : Text
  -- A call, and whether it returns an id or 0.
  pub call : KrunCall → W → W × Bool
  -- `krun_check_nested_virt() == 1`
  pub nests : W → Bool
  -- The main console: a copy of the standard input, or a new terminal.
  pub open_console : Bool → W → W × Bool
  pub open_log : Text → W → W × Bool
  -- `url.Parse`
  pub parse_url : Text → Option Url
  pub is_regular : Text → W → Bool
  -- `filepath.EvalSymlinks` of the absolute path
  pub resolve : Text → W → Option Text
  pub is_directory : Text → W → Bool

abbrev pub Krun : Type 0 → Type 0 → Type 0
Krun W A = Action KrunError W A

-- The path that is left once the URL is read.
abbrev path_of_url : Text → Option Url → Result KrunError Text
path_of_url raw none = err (bad_address raw)
path_of_url raw (some url) =
    if url.scheme == []
    then err (bad_address raw)
    else if url.path == []
    then err (bad_address raw)
    else ok url.path

module _ {W : Type 0} (host : KrunHost W) where
  -- `network.ParseUnixAddr`, its path
  unfoldable pub parse_unix_addr : Text → Result KrunError Text
  parse_unix_addr raw =
      if not (contains raw (codes "unix://")) && not (contains raw (codes "unixgram://"))
      then err (bad_address raw)
      else path_of_url raw (host.parse_url raw)

  -- `must`
  unfoldable pub must : KrunCall → Krun W (Unit {0})
  must c = try (panicked c) (host.call c)

  -- `if ret != 0 { return errCode(ret) }`
  unfoldable pub check : KrunCall → Krun W (Unit {0})
  check c = try (failed c) (host.call c)

  -- `_ = ...`
  unfoldable pub ignore : KrunCall → Krun W (Unit {0})
  ignore c w = ((host.call c w).0, ok tt)
