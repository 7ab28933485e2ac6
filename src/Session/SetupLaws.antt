-- ===== src/Session/SetupLaws.antt =====
-- What starting a session leaves to its end, and whom the built-in ssh agent serves.
use ovm_next.Base.{
  Text, Bool, true, false, List, [], none, some, Result, ok, err, ◌≡◌, refl, sym, ap, ◌∙◌, subst,
}
use ovm_next.Storage.Disk.{full}
use ovm_next.Forward.Rules.{lookup}
use ovm_next.Forward.Parse.RoundTrip.{IsSocketPath}
use ovm_next.Forward.Merge.{agent_guest_socket}
use ovm_next.Lifecycle.Cleanup.{Callback, clean}
use ovm_next.Build.Spec.{Machine}
use ovm_next.Build.Host.{BuildHost, BuildError}
use ovm_next.Build.Assembly.{build_machine}
use ovm_next.Build.Properties.{IsBuilt, build_machine-IsBuilt, given_back, build_machine-given_back}
use ovm_next.Session.Setup.{
  Session, SessionError, agent_socket, configure_agent_forward, create_user_symlinks, linked,
  provided, started, init,
}
use ovm_next.Session.Serving.{configure_agent_forward-IsServing}

module _ {W : Type 0} (host : BuildHost W) (create_vm : Machine → W → W × Bool) where
  -- How a start from the world `w₀` ends: where the machine is not built, with the error and the world
  -- of `build_machine`; where a later step fails, with its error, and with the workspace and its lock
  -- given back in the world that the step left.
  pub data IsSettled (vm : Session W) (w₀ : W)
      : W × (Session W × Result SessionError (Unit {0})) → Type 0 where
    unbuilt :
        (w : W) (e : BuildError)
        → build_machine host vm.cfg vm.session_dir w₀ ≡ (w, err e)
        → IsSettled vm w₀ (w, (vm, err (SessionError.build e)))
    unlinked :
        (v w : W) (m : Machine) (funcs : List (Callback W)) (e : BuildError)
        → build_machine host vm.cfg vm.session_dir w₀ ≡ (v, ok (m, funcs))
        → create_user_symlinks host vm.cfg vm.session_dir v ≡ (w, err e)
        → IsSettled vm w₀ (
          given_back host (full host.disks vm.session_dir) vm.session_dir w,
          (vm, err (SessionError.symlinks e)),
        )
    unprovided :
        (v u w : W) (m : Machine) (funcs : List (Callback W))
        → build_machine host vm.cfg vm.session_dir w₀ ≡ (v, ok (m, funcs))
        → create_user_symlinks host vm.cfg vm.session_dir v ≡ (u, ok tt)
        → create_vm m u ≡ (w, false)
        → IsSettled vm w₀ (
          given_back host (full host.disks vm.session_dir) vm.session_dir w,
          (vm, err SessionError.provider),
        )
    running :
        (v u w : W) (m : Machine) (funcs : List (Callback W))
        → build_machine host vm.cfg vm.session_dir w₀ ≡ (v, ok (m, funcs))
        → create_user_symlinks host vm.cfg vm.session_dir v ≡ (u, ok tt)
        → create_vm m u ≡ (w, true)
        → IsBuilt host vm.cfg (full host.disks vm.session_dir) m
        → ((x : W)
            → clean funcs x
              ≡ ([], given_back host (full host.disks vm.session_dir) vm.session_dir x))
        → IsSettled vm w₀ (w, (record vm { machine = some m; cleanup = funcs }, ok tt))

  module _ (vm : Session W) (w₀ v : W) (m : Machine) (funcs : List (Callback W))
      (made : build_machine host vm.cfg vm.session_dir w₀ ≡ (v, ok (m, funcs))) where
    owned :
        (x : W)
        → clean funcs x ≡ ([], given_back host (full host.disks vm.session_dir) vm.session_dir x)
    owned = build_machine-given_back host vm.cfg vm.session_dir w₀ v m funcs made

    init-IsSettled_from :
        (e : SessionError) (w : W)
        → IsSettled vm w₀
            (given_back host (full host.disks vm.session_dir) vm.session_dir w, (vm, err e))
        → IsSettled vm w₀ ((clean funcs w).1, (vm, err e))
    init-IsSettled_from e w h = subst (λ r. IsSettled vm w₀ (r.1, (vm, err e))) (sym (owned w)) h

    provided-IsSettled :
        (u : W) (r : W × Bool)
        → create_user_symlinks host vm.cfg vm.session_dir v ≡ (u, ok tt)
        → create_vm m u ≡ r
        → IsSettled vm w₀ (provided vm m funcs r)
    provided-IsSettled u (w, true) s c =
        IsSettled.running v u w m funcs made s c
          (build_machine-IsBuilt host vm.cfg vm.session_dir w₀ v m funcs made) owned
    provided-IsSettled u (w, false) s c =
        init-IsSettled_from SessionError.provider w (IsSettled.unprovided v u w m funcs made s c)

    linked-IsSettled :
        (r : W × Result BuildError (Unit {0}))
        → create_user_symlinks host vm.cfg vm.session_dir v ≡ r
        → IsSettled vm w₀ (linked host create_vm vm m funcs r)
    linked-IsSettled (u, ok tt) s = provided-IsSettled u (create_vm m u) s refl
    linked-IsSettled (w, err e) s =
        init-IsSettled_from (SessionError.symlinks e) w (IsSettled.unlinked v w m funcs e made s)

  started-IsSettled :
      (vm : Session W) (w : W) (r : W × Result BuildError (Machine × List (Callback W)))
      → build_machine host vm.cfg vm.session_dir w ≡ r
      → IsSettled vm w (started host create_vm vm r)
  started-IsSettled vm w (v, err e) h = IsSettled.unbuilt v e h
  started-IsSettled vm w (v, ok (m, funcs)) h =
      linked-IsSettled vm w v m funcs h (create_user_symlinks host vm.cfg vm.session_dir v) refl

  -- Once the rules of the built-in ssh agent are merged: a start whose machine is not built ends as the
  -- building did; a start that fails behind the machine has removed the workspace and given its lock
  -- back in the world that the failing step left; a start that succeeds has a machine as its
  -- configuration asks for, and keeps a cleanup that removes the workspace and gives its lock back.
  pub init-IsSettled :
      (upstream : Text) (vm vm' : Session W) (w : W)
      → configure_agent_forward upstream vm ≡ ok vm'
      → IsSettled vm' w (init host create_vm upstream vm w)
  unfolding init
  init-IsSettled upstream vm vm' w e =
      rw e (started-IsSettled vm' w (build_machine host vm'.cfg vm'.session_dir w) refl)

  settled_machine :
      (vm vm' : Session W) (r : W × (Session W × Result SessionError (Unit {0}))) {w₀ w' : W}
      → IsSettled vm w₀ r
      → r ≡ (w', (vm', ok tt))
      → (m : Machine) × (vm'.machine ≡ some m)
        × (vm'.cfg ≡ vm.cfg)
        × (vm'.agent ≡ vm.agent)
        × IsBuilt host vm.cfg (full host.disks vm.session_dir) m
  settled_machine vm vm' r (IsSettled.unbuilt w e f) h = absurd cc
  settled_machine vm vm' r (IsSettled.unlinked v w m funcs e f g) h = absurd cc
  settled_machine vm vm' r (IsSettled.unprovided v u w m funcs f g k) h = absurd cc
  settled_machine vm vm' r (IsSettled.running v u w m funcs f g k is_built own) h =
      let same : record vm { machine = some m; cleanup = funcs } ≡ vm' = cc in
      (
        m,
        ap (λ x. x.machine) (sym same),
        ap (λ x. x.cfg) (sym same),
        ap (λ x. x.agent) (sym same),
        is_built,
      )

  -- If the built-in ssh agent of a started session is to run, the machine forwards the agent's
  -- guest socket to just the socket that the agent listens on; the path of that socket is absolute
  -- and has no blank at its end, and no agent is set before.
  pub init-IsServing :
      (upstream socket : Text) (vm vm' : Session W) (w w' : W)
      → vm.agent ≡ none
      → IsSocketPath (agent_socket vm.session_dir)
      → init host create_vm upstream vm w ≡ (w', (vm', ok tt))
      → vm'.agent ≡ some socket
      → (m : Machine) × (vm'.machine ≡ some m)
        × (lookup agent_guest_socket m.unix_socket_forwards ≡ some socket)
  unfolding init
  init-IsServing upstream socket vm vm' w w' idle path e agent =
      go (configure_agent_forward upstream vm) refl
    where
      go :
          (r : Result SessionError (Session W))
          → configure_agent_forward upstream vm ≡ r
          → (m : Machine) × (vm'.machine ≡ some m)
            × (lookup agent_guest_socket m.unix_socket_forwards ≡ some socket)
      go (err x) c = absurd (let h = rw c at e in cc)
      go (ok vm₁) c =
          let (m, machine, cfg, agents, is_built) =
            settled_machine vm₁ vm' (init host create_vm upstream vm w)
              (init-IsSettled upstream vm vm₁ w c) e in
          (
            m,
            machine,
            configure_agent_forward-IsServing upstream vm vm₁ idle path c socket
                (sym agents ∙ agent) m.unix_socket_forwards is_built.forwards,
          )
