-- ===== src/Session/Launch.antt =====
-- `New` and `GenerateVMConfig` of pkg/librevm/vm.go, `setupLoggers` and `WriteCfg` of
-- pkg/librevm/config.go, and `newLegacyReporter` of pkg/librevm/ovm.go. Building and checking log
-- levels, JSON and URLs are parameters.
use ovm_next.Base.{
  ℕ, Text, codes, ◌==◌, has_prefix, trim_space, decimal, if◌then◌else◌, Bool, ◌||◌, List, [], ◌∷◌,
  ◌++◌, Option, none, some, Result, ok, err, pos,
}
use ovm_next.Base.Action.{Action, ◌>>=◌, pure, fail, try, of_result}
use ovm_next.FilePath.{dir}
use ovm_next.Config.{Config, get_session_dir, get_log_file_path}
use ovm_next.Config.Normalize.{ConfigError, HostLimits, normalize_config}
use ovm_next.Build.Url.{Url}
use ovm_next.Http.Client.{Client, with_timeout, new_unix_client, new_tcp_client}
use ovm_next.Lifecycle.Events.{Dispatcher, no_reporters, add_reporter}
use ovm_next.Lifecycle.Legacy.{event_error, event_success, event_exit}
use ovm_next.Network.Address.{Addr, AddrError, parse_unix_addr, parse_tcp_addr}
use ovm_next.Session.Setup.{Session}

pub data LaunchError : Type 0 where
  no_given_config : LaunchError
  blank_level blank_log unknown_level no_log_dir no_log : LaunchError
  config : ConfigError → LaunchError
  no_config_dir no_config_file : LaunchError

pub record LaunchHost (W : Type 0) : Type 0 where
  pub limits : HostLimits
  pub home : Option Text
  -- `logrus.ParseLevel`
  pub is_level : Text → Bool
  pub parse_url : Text → Option Url
  -- `json.Marshal` of a configuration
  pub encode : Config → Text
  pub make_dir : Text → ℕ → W → W × Bool
  -- Whether a file is there and longer than `maxLogFileSize`
  pub is_long : Text → W → Bool
  pub truncate : Text → W → W
  pub open_log : Text → W → W × Bool
  pub write_file : Text → Text → ℕ → W → W × Bool

module _ {W : Type 0} (host : LaunchHost W) where
  abbrev pub cut_log : Text → Action LaunchError W (Unit {0})
  cut_log path w = (if host.is_long path w then host.truncate path w else w, ok tt)

  -- `setupLoggers`, once its defaults are in place
  unfoldable pub set_up_at : Text → Text → Action LaunchError W (Unit {0})
  set_up_at level log_to =
      if trim_space level == []
      then fail blank_level
      else if trim_space log_to == []
      then fail blank_log
      else if host.is_level level
      then (do
        _ ← try no_log_dir (host.make_dir (dir log_to) 0o755)
        _ ← cut_log log_to
        try no_log (host.open_log log_to))
      else fail unknown_level

  -- `setupLoggers`
  unfoldable pub setup_loggers : Text → Text → Text → Action LaunchError W (Unit {0})
  setup_loggers level log_to session_id =
      set_up_at (if level == [] then codes "info" else level)
        (if log_to == [] then get_log_file_path host.home session_id else log_to)

  abbrev pub unix_client : Result AddrError Addr → Option Client
  unix_client (err e) = none
  unix_client (ok addr) = some (new_unix_client addr.path (with_timeout (pos 1000) ∷ []))

  abbrev pub tcp_client : Result AddrError Addr → Option Client
  tcp_client (err e) = none
  tcp_client (ok addr) =
      some (
        new_tcp_client (addr.host ++ codes ":" ++ decimal addr.port) (with_timeout (pos 1000) ∷ []))

  -- `newClient` of pkg/librevm/ovm.go
  unfoldable pub client_for : Text → Option Client
  client_for endpoint =
      if has_prefix endpoint (codes "unix://") || has_prefix endpoint (codes "unixgram://")
      then unix_client (parse_unix_addr host.parse_url endpoint)
      else if has_prefix endpoint (codes "tcp://")
      then tcp_client (parse_tcp_addr host.parse_url endpoint)
      else none

  -- `newLegacyReporter`: the client that it reports with, if there is one
  unfoldable pub legacy_reporter : Text → Option Client
  legacy_reporter endpoint = if endpoint == [] then none else client_for endpoint

  -- `addReporter`, which takes no reporter for nothing; the only reporter has the number 0.
  abbrev pub reporting : Option Client → Dispatcher
  reporting none = no_reporters
  reporting (some client) = (add_reporter {E = Unit {0}} 0 no_reporters).0

  abbrev pub session_of : Config → Session W
  session_of cfg = record {
    cfg = cfg;
    session_dir = get_session_dir host.home cfg.session_id;
    machine = none;
    agent = none;
    cleanup = [];
    dispatcher = reporting (legacy_reporter cfg.report_url);
  }

  -- `New`
  unfoldable pub new_vm : Option Config → Action LaunchError W (Session W)
  new_vm none = fail no_given_config
  new_vm (some given) = do
    _ ← setup_loggers given.log_level given.log_to given.session_id
    cfg ← of_result config (normalize_config host.limits given)
    pure (session_of cfg)

  -- `WriteCfg`
  unfoldable pub write_cfg : Config → Text → Action LaunchError W (Unit {0})
  write_cfg cfg path = do
    _ ← try no_config_dir (host.make_dir (dir path) 0o755)
    try no_config_file (host.write_file path (host.encode cfg) 0o600)

  -- What is emitted once the configuration is written, or not; the exit comes last.
  abbrev pub emitted : Result LaunchError (Unit {0}) → List Text
  emitted (ok _) = event_success ∷ event_exit ∷ []
  emitted (err e) = event_error ∷ event_exit ∷ []

  abbrev pub written :
      W × Result LaunchError (Unit {0}) → W × (List Text × Result LaunchError (Unit {0}))
  written (w, r) = (w, (emitted r, r))

  abbrev pub logged :
      Config
      → Text
      → W × Result LaunchError (Unit {0})
      → W × (List Text × Result LaunchError (Unit {0}))
  logged cfg path (w, err e) = (w, ([], err e))
  logged cfg path (w, ok _) = written (write_cfg cfg path w)

  -- `GenerateVMConfig`: the events that it emits, and its result
  unfoldable pub generate_vm_config :
      Config → Text → W → W × (List Text × Result LaunchError (Unit {0}))
  generate_vm_config cfg path w =
      logged cfg path (setup_loggers cfg.log_level cfg.log_to cfg.session_id w)
