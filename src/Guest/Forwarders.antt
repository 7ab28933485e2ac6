-- ===== src/Guest/Forwarders.antt =====
-- cmd/guest-agent/pkg/service/unix_forwarder.go up to the listening sockets: `StartUnixForwarder` for
-- each of the rules of `StartUnixForwarders`.
use ovm_next.Base.{◌==◌, if◌then◌else◌, List, [], ◌∷◌, Result, ok, err}
use ovm_next.Base.Action.{Action, ◌>>=◌, fail, try}
use ovm_next.FilePath.{dir}
use ovm_next.Forward.Hosts.{ForwardRule, start_unix_forwarders}
use ovm_next.Forward.Rules.{Rules}
use ovm_next.Guest.System.{System, Removal, removed, absent, refused}

pub data ForwarderError : Type 0 where
  no_guest_path no_host_path not_removed no_directory not_listening : ForwarderError

module _ {W : Type 0} (sys : System W) where
  -- `if err := os.Remove(path); err != nil && !errors.Is(err, os.ErrNotExist)`
  abbrev pub cleared : W × Removal → W × Result ForwarderError (Unit {0})
  cleared (w, removed) = (w, ok tt)
  cleared (w, absent) = (w, ok tt)
  cleared (w, refused) = (w, err not_removed)

  -- `StartUnixForwarder`
  unfoldable pub start_unix_forwarder : ForwardRule → Action ForwarderError W (Unit {0})
  start_unix_forwarder rule =
      if rule.guest_path == []
      then fail no_guest_path
      else if rule.host_path == []
      then fail no_host_path
      else (do
        _ ← λ w. cleared (sys.remove rule.guest_path w)
        _ ← try no_directory (sys.make_dir (dir rule.guest_path) 0o755)
        try not_listening (sys.listen rule.guest_path))

  -- The loop of `StartUnixForwarders`: an error is logged, and the next rule is started.
  unfoldable pub start_each : List ForwardRule → W → W
  start_each [] w = w
  start_each (rule ∷ rules) w = start_each rules (start_unix_forwarder rule w).0

  -- `StartUnixForwarders`
  unfoldable pub start_forwarders : Rules → W → W
  start_forwarders rules = start_each (start_unix_forwarders rules)
