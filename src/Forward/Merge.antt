-- ===== src/Forward/Merge.antt =====
-- pkg/librevm/vm.go, `mergeAutoForwardUnixRule`: the built-in rule for the ssh agent beside the
-- user's rules.
pub mod Laws
use ovm_next.Base.{
  Text, codes, ◌==◌, if◌then◌else◌, Bool, true, false, List, [], ◌∷◌, ◌++◌, ◌≡◌, refl, Result, ok,
  err, ◌>>=◌, Option, none, some,
}
use ovm_next.Forward.Rules.{Rules, lookup}
use ovm_next.Forward.Parse.{ParseError, parse_rules}
use ovm_next.Forward.Parse.RoundTrip.{format_rule}

-- `[]string, bool, string` of a call without error.
pub record Merged : Type 0 where
  pub specs : List Text
  pub should_start : Bool
  pub existing_host_path : Text

abbrev merge_with : List Text → Text → Text → Option Text → Merged
merge_with specs guest_path host_path (some existing) = record {
  specs = specs;
  should_start = existing == host_path;
  existing_host_path = existing;
}
merge_with specs guest_path host_path none = record {
  specs = specs ++ format_rule guest_path host_path ∷ [];
  should_start = true;
  existing_host_path = [];
}

-- `mergeAutoForwardUnixRule`
unfoldable pub merge_auto_rule : List Text → Text → Text → Result ParseError Merged
merge_auto_rule specs guest_path host_path = do
  rules ← parse_rules specs
  ok (merge_with specs guest_path host_path (lookup guest_path rules))

-- `OOSSHAgentGuestSocket` of pkg/service/ssh/oo_ssh_agent.go
abbrev pub agent_guest_socket : Text
agent_guest_socket = codes "/opt/ssh_auth/oo-ssh-agent.sock"
