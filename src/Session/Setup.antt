-- ===== src/Session/Setup.antt =====
-- `VM.init`, with `configureOOSSHAgentForward`, `createUserSymlinks` and `newProvider`, and
-- `VM.Close`, of pkg/librevm/vm.go; `NewOOSSHAgentService` of pkg/service/ssh/oo_ssh_agent.go.
use ovm_next.Base.{
  Text, codes, ◌==◌, if◌then◌else◌, Bool, true, false, List, [], ◌∷◌, ◌++◌, Option, some, Result,
  ok, err,
}
use ovm_next.Base.Action.{◌>>=◌, pure}
use ovm_next.FilePath.{join}
use ovm_next.Config.{Config}
use ovm_next.Forward.Parse.{ParseError}
use ovm_next.Forward.Merge.{Merged, merge_auto_rule, agent_guest_socket}
use ovm_next.Lifecycle.Cleanup.{Callback, clean}
use ovm_next.Lifecycle.Events.{Dispatcher, Call, close}
use ovm_next.Build.Paths.{get_podman_socket_file, get_vm_ctl_socket_file, get_ssh_private_key_file}
use ovm_next.Build.Spec.{Machine}
use ovm_next.Build.Host.{BuildHost, BuildError, Build}
use ovm_next.Build.Workspace.{create_symlink}
use ovm_next.Build.Assembly.{build_machine, building}

pub data SessionError : Type 0 where
  merge : ParseError → SessionError
  build : BuildError → SessionError
  symlinks : BuildError → SessionError
  provider : SessionError

-- `VM`: `agent` is the socket of the built-in ssh agent where it is to be started.
pub record Session (W : Type 0) : Type 0 where
  pub cfg : Config
  pub session_dir : Text
  pub machine : Option Machine
  pub agent : Option Text
  pub cleanup : List (Callback W)
  pub dispatcher : Dispatcher

-- `filepath.Join(vm.sessionDir, "socks", "oo-ssh-agent.sock")`
unfoldable pub agent_socket : Text → Text
agent_socket session_dir = join (session_dir ∷ codes "socks" ∷ codes "oo-ssh-agent.sock" ∷ [])

module _ {W : Type 0} where
  abbrev pub with_agent : Session W → Merged → Session W
  with_agent vm m = record vm {
    cfg = record vm.cfg { forward_unix = m.specs };
    agent = if m.should_start then some (agent_socket vm.session_dir) else vm.agent;
  }

  -- The merged rules, and the agent if its own socket is forwarded.
  abbrev pub with_merged : Session W → Result ParseError Merged → Result SessionError (Session W)
  with_merged vm (err e) = err (SessionError.merge e)
  with_merged vm (ok m) = ok (with_agent vm m)

  -- `configureOOSSHAgentForward`; the upstream socket is empty where no ssh agent runs.
  unfoldable pub configure_agent_forward : Text → Session W → Result SessionError (Session W)
  configure_agent_forward upstream vm =
      if upstream == []
      then ok vm
      else with_merged vm
          (merge_auto_rule vm.cfg.forward_unix agent_guest_socket (agent_socket vm.session_dir))

  -- `Close`: the cleanup, and the calls that the reporters get.
  unfoldable pub close_session : {E : Type 0} → Session W → W → Session W × W × List (Call E)
  close_session vm w =
      let (left, w') = clean vm.cleanup w in
      let (dispatcher, calls) = close vm.dispatcher in
      (record vm { cleanup = left; dispatcher = dispatcher }, w', calls)

module _ {W : Type 0} (host : BuildHost W) where
  -- One link, unless its path is empty.
  unfoldable pub link_unless_empty : Text → Text → Build W (Unit {0})
  link_unless_empty target path = if path == [] then pure tt else create_symlink host target path

  -- `createUserSymlinks`
  unfoldable pub create_user_symlinks : Config → Text → Build W (Unit {0})
  create_user_symlinks cfg dir = do
    _ ← link_unless_empty (get_podman_socket_file dir) cfg.podman_proxy_api_file
    _ ← link_unless_empty (get_vm_ctl_socket_file dir) cfg.manage_api_file
    _ ← link_unless_empty (get_ssh_private_key_file dir) cfg.ssh_key_private_file_symbol_links
    link_unless_empty (get_ssh_private_key_file dir ++ codes ".pub")
        cfg.ssh_key_public_file_symbol_links

-- What `init` returns: the session, and whether it is started.
abbrev pub Start : Type 0 → Type 0
Start W = W × (Session W × Result SessionError (Unit {0}))

module _ {W : Type 0} where
  -- The error of a step behind the machine, once the machine's cleanup has run.
  abbrev pub abandon : Session W → List (Callback W) → SessionError → W → Start W
  abandon vm funcs e w = ((clean funcs w).1, (vm, err e))

  -- behind `newProvider`
  abbrev pub provided : Session W → Machine → List (Callback W) → W × Bool → Start W
  provided vm m funcs (w, false) = abandon vm funcs SessionError.provider w
  provided vm m funcs (w, true) = (w, (record vm { machine = some m; cleanup = funcs }, ok tt))

module _ {W : Type 0} (host : BuildHost W) (create_vm : Machine → W → W × Bool) where
  -- behind `createUserSymlinks`
  abbrev pub linked :
      Session W → Machine → List (Callback W) → W × Result BuildError (Unit {0}) → Start W
  linked vm m funcs (w, err e) = abandon vm funcs (SessionError.symlinks e) w
  linked vm m funcs (w, ok _) = provided vm m funcs (create_vm m w)

  -- behind `buildMachine`
  abbrev pub started : Session W → W × Result BuildError (Machine × List (Callback W)) → Start W
  started vm (w, err e) = (w, (vm, err (SessionError.build e)))
  started vm (w, ok (m, funcs)) =
      linked vm m funcs (create_user_symlinks host vm.cfg vm.session_dir w)

  -- behind `configureOOSSHAgentForward`
  abbrev pub forwarded : Session W → Result SessionError (Session W) → W → Start W
  forwarded vm (err e) w = (w, (vm, err e))
  forwarded vm (ok vm') w = started vm' (build_machine host vm'.cfg vm'.session_dir w)

  -- `init`; the upstream socket is what the agent's package finds.
  unfoldable pub init : Text → Session W → W → Start W
  init upstream vm w = forwarded vm (configure_agent_forward upstream vm) w

-- What a run computes with.
unfoldable pub starting : Unit {0}
unfolding building configure_agent_forward merge_auto_rule agent_socket link_unless_empty
    create_user_symlinks init
starting = tt
