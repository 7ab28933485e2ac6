-- ===== src/Build/Properties.antt =====
-- The machine that `buildMachine` returns, and what is left behind when it fails.
use ovm_next.Base.{
  Text, codes, ℕ, ◌==◌, ==_iff, List, [], ◌∷◌, ◌++◌, Result, ok, err, ◌≡◌, refl, ap, subst, inl,
  inr, some, to_u8, decimal, join_host_port, Bool-cases,
}
use ovm_next.Base.Action.{◌>>=◌}
use ovm_next.Base.Ensures.{Ensures, Holds, returns, fails, ◌⟫◌, weaken, of_ok}
use ovm_next.Config.{Config, mode_container}
use ovm_next.Machine.{with_resources}
use ovm_next.Storage.Disk.{full}
use ovm_next.Forward.Parse.{parse_rules}
use ovm_next.Forward.Hosts.{setup_vsock}
use ovm_next.Lifecycle.Cleanup.{Callback, clean, add}
use ovm_next.Lifecycle.Cleanup.Laws.{clean-undo}
use ovm_next.Build.Url.{string_of_url, unix_url}
use ovm_next.Build.Paths.{get_socket_file, get_ssh_private_key_file, get_rootfs_dir}
use ovm_next.Build.Spec.{Machine, new_machine}
use ovm_next.Build.Host.{BuildHost, BuildError}
use ovm_next.Build.Workspace.{setup_workspace}
use ovm_next.Build.Rootfs.{home_volume}
use ovm_next.Build.Services.{proxy_envs, listen_ip}
use ovm_next.Build.Guest.{final_env}
use ovm_next.Build.Steps.{setup_workspace-IsPlaced, IsPlaced}
use ovm_next.Build.Result.{mounts_with, IsCompleted, assemble_guest-IsCompleted}
use ovm_next.FilePath.{join}
use ovm_next.Build.Served.{
  socket_in, key_in, IsConnected, IsReachable, IsServed, assemble_host-IsServed,
}
use ovm_next.Build.Assembly.{
  assemble_host, assemble_guest, callbacks_of, finish, build_in, build_machine,
}

module _ {W : Type 0} (host : BuildHost W) where
  -- The machine of a configuration whose workspace is `ws`.
  pub record IsBuilt (cfg : Config) (ws : Text) (m : Machine) : Type 0 where
    pub workspace : m.workspace_dir ≡ ws
    pub mode : m.run_mode ≡ codes "container"
    pub log_file : m.log_file ≡ cfg.log_to
    pub resources :
        with_resources cfg.memory_mb (to_u8 cfg.cpus)
        ≡ ok (record { memory_in_mb = m.memory_in_mb; cpus = m.cpus })
    pub network : m.virtual_network_mode ≡ cfg.network
    pub ssh : IsReachable cfg.network m.ssh_info
    pub connected : IsConnected host cfg.network ws m.gvp_ctl_addr m.gvp_vnet_addr
    pub key_file : m.ssh_info.host_ssh_private_key_file ≡ key_in ws
    pub podman_proxy :
        m.podman_info.host_podman_proxy_addr
        ≡ string_of_url (unix_url (socket_in ws (codes "podman-api.sock")))
    pub podman_listens :
        (port : ℕ) × (m.podman_info.guest_podman_api_listen_addr
          ≡ join_host_port (listen_ip cfg.network) (decimal port))
    pub podman_envs : m.podman_info.guest_podman_run_with_envs ≡ proxy_envs m.proxy_setting
    pub root_fs : m.root_fs ≡ full host.disks (join (ws ∷ codes "rootfs" ∷ []))
    -- The home directory, then what the configuration asks for.
    pub mounts :
        (home : Text) × (host.home ≡ some home)
        × (m.mounts
            ≡ mounts_with host cfg.mounts (mounts_with host (home_volume host home ∷ []) []))
    pub forwards : parse_rules cfg.forward_unix ≡ ok m.unix_socket_forwards
    -- The forwards reach the virtual machine.
    pub ports : (ports : List (ℕ × Text)) × (setup_vsock m.unix_socket_forwards ≡ ok ports)
    pub guest_env : m.guest_agent.env ≡ final_env host.log_level cfg.env
    pub ignition :
        m.ignition_listen_addr ≡ string_of_url (unix_url (socket_in ws (codes "ign.sock")))
    pub api : m.vm_ctl_addr ≡ string_of_url (unix_url (socket_in ws (codes "vmctl.sock")))

  built :
      (cfg : Config) (ws : Text) (m₁ m₂ : Machine)
      → IsServed host cfg (record (new_machine (codes "container")) { workspace_dir = ws }) m₁
      → IsCompleted host cfg m₁ m₂
      → IsBuilt cfg ws m₂
  unfolding new_machine setup_vsock get_socket_file get_ssh_private_key_file get_rootfs_dir
  built cfg ws m₁ m₂ s c =
      let e₁ = s.same in
      let e₂ = c.same in
      let (routes, routed) = c.routed in
      record {
        workspace = rw (e₂, e₁) refl;
        mode = rw (e₂, e₁) refl;
        log_file = rw (e₂, e₁) refl;
        resources = rw (e₂, e₁) s.checked;
        network = rw (e₂, e₁) refl;
        ssh = rw (e₂, e₁) s.reachable;
        connected = rw (e₂, e₁) s.connected;
        key_file = rw (e₂, e₁) s.key_file;
        podman_proxy = rw (e₂, e₁) refl;
        podman_listens = rw (e₂, e₁) (s.port, refl);
        podman_envs = rw (e₂, e₁) refl;
        root_fs = rw (e₂, e₁) refl;
        mounts = rw (e₂, e₁) (s.home, s.found, refl);
        forwards = rw e₂ c.parsed;
        ports = rw (e₂, routed) (_, refl);
        guest_env = rw e₂ refl;
        ignition = rw (e₂, e₁) refl;
        api = rw (e₂, e₁) refl;
      }

  assembly-IsBuilt :
      (cfg : Config) (ws : Text) (m : Machine)
      → m ≡ record (new_machine (codes "container")) { workspace_dir = ws }
      → Ensures (IsBuilt cfg ws) (assemble_host host cfg m >>= assemble_guest host cfg)
  assembly-IsBuilt cfg ws m e = rw e (
      assemble_host-IsServed host cfg
        (record (new_machine (codes "container")) { workspace_dir = ws })
      ⟫ λ m₁ s. weaken (λ m₂ c. built cfg ws m₁ m₂ s c) (assemble_guest-IsCompleted host cfg m₁))

  -- Removing the workspace, then giving its lock back and removing the lock's file.
  abbrev pub given_back : Text → Text → W → W
  given_back ws path w =
      (host.remove (path ++ codes ".lock")
        (host.unlock (ws ++ codes ".lock") (host.remove_all path w).0).0).0

  callbacks_of-undo :
      (m : Machine) (path : Text) (w : W)
      → clean (callbacks_of host m path) w ≡ ([], given_back m.workspace_dir path w)
  unfolding add
  callbacks_of-undo m path w = (clean-undo (callbacks_of host m path) w).0

  -- An assembly that fails is cleaned up behind, one that succeeds is returned with its cleanup.
  abbrev pub IsFinished :
      Text
      → Text
      → W × Result BuildError Machine
      → W × Result BuildError (Machine × List (Callback W))
      → Type 0
  IsFinished ws path (v, err e) result = result ≡ (given_back ws path v, err e)
  IsFinished ws path (v, ok m) result =
      (funcs : List (Callback W)) × (result ≡ (v, ok (m, funcs)))
      × ((u : W) → clean funcs u ≡ ([], given_back ws path u))

  finish-IsFinished :
      (m : Machine) (path : Text) (r : W × Result BuildError Machine)
      → IsFinished m.workspace_dir path r (finish host (callbacks_of host m path) r)
  finish-IsFinished m path (v, err e) = ap (λ x. (x.1, err e)) (callbacks_of-undo m path v)
  finish-IsFinished m path (v, ok m') = (callbacks_of host m path, refl, callbacks_of-undo m path)

  -- Once the workspace of a container is set up: if one of the later steps fails, the machine fails
  -- with that step's error, and the workspace is removed and then the lock given back, in the
  -- world that the step left; if all succeed, nothing is cleaned up, and the cleanup that is
  -- returned with the machine does just that.
  pub build_machine-IsFinished :
      (cfg : Config) (path : Text) (w w₁ : W) (m : Machine)
      → cfg.run_mode ≡ mode_container
      → setup_workspace host path (new_machine (codes "container")) w ≡ (w₁, ok m)
      → IsFinished m.workspace_dir path
          ((assemble_host host cfg m >>= assemble_guest host cfg) w₁)
          (build_machine host cfg path w)
  unfolding build_machine
  build_machine-IsFinished cfg path w w₁ m mode e =
      let container = (==_iff cfg.run_mode mode_container).1 mode in
      rw (container, e)
        (finish-IsFinished m path ((assemble_host host cfg m >>= assemble_guest host cfg) w₁))

  finish-eq-ok :
      (funcs fs : List (Callback W)) (r : W × Result BuildError Machine) {w' : W} {m : Machine}
      → finish host funcs r ≡ (w', ok (m, fs))
      → r ≡ (w', ok m)
  finish-eq-ok funcs fs (v, ok m') e = cc
  finish-eq-ok funcs fs (v, err x) e = cc

  build_in-IsBuilt :
      (cfg : Config) (path : Text) (fs : List (Callback W)) (r : W × Result BuildError Machine)
      {w' : W} {m : Machine}
      → Holds (IsPlaced host path (new_machine (codes "container"))) r
      → build_in host cfg path r ≡ (w', ok (m, fs))
      → IsBuilt cfg (full host.disks path) m
  build_in-IsBuilt cfg path fs r (returns {w} {a = m₀} (home, found, near, same)) e =
      of_ok (assembly-IsBuilt cfg (full host.disks path) m₀ same) (
        finish-eq-ok (callbacks_of host m₀ path) fs
          ((assemble_host host cfg m₀ >>= assemble_guest host cfg) w) e)
  build_in-IsBuilt cfg path fs r fails e = cc

  pub build_machine-IsBuilt :
      (cfg : Config) (path : Text) (w w' : W) (m : Machine) (funcs : List (Callback W))
      → build_machine host cfg path w ≡ (w', ok (m, funcs))
      → IsBuilt cfg (full host.disks path) m
  unfolding build_machine
  build_machine-IsBuilt cfg path w w' m funcs e =
      elim (Bool-cases (cfg.run_mode == mode_container)) [
        | inl container ↦
            build_in-IsBuilt cfg path funcs
              (setup_workspace host path (new_machine (codes "container")) w)
              ((setup_workspace-IsPlaced host path (new_machine (codes "container"))).from w)
              (rw container at e)
        | inr other ↦ absurd (let bad = rw other at e in cc)
      ]

  finish-given_back :
      (m₀ m : Machine) (path : Text) (r : W × Result BuildError Machine) {w' : W}
      {funcs : List (Callback W)}
      → finish host (callbacks_of host m₀ path) r ≡ (w', ok (m, funcs))
      → (v : W) → clean funcs v ≡ ([], given_back m₀.workspace_dir path v)
  finish-given_back m₀ m path (u, ok m') {funcs} e v =
      let same : callbacks_of host m₀ path ≡ funcs = cc in
      subst (λ fs. clean fs v ≡ ([], given_back m₀.workspace_dir path v)) same
        (callbacks_of-undo m₀ path v)
  finish-given_back m₀ m path (u, err x) e v = cc

  build_in-given_back :
      (cfg : Config) (path : Text) (funcs : List (Callback W)) (r : W × Result BuildError Machine)
      {w' : W} {m : Machine}
      → Holds (IsPlaced host path (new_machine (codes "container"))) r
      → build_in host cfg path r ≡ (w', ok (m, funcs))
      → (v : W) → clean funcs v ≡ ([], given_back (full host.disks path) path v)
  build_in-given_back cfg path funcs r {m} (returns {w} {a = m₀} (home, found, near, same)) e v =
      let placed : m₀.workspace_dir ≡ full host.disks path = ap (λ x. x.workspace_dir) same in
      subst (λ ws. clean funcs v ≡ ([], given_back ws path v)) placed
        (finish-given_back m₀ m path ((assemble_host host cfg m₀ >>= assemble_guest host cfg) w) e
          v)
  build_in-given_back cfg path funcs r fails e v = cc

  -- The cleanup that is returned with a machine removes the workspace, then gives its lock back.
  pub build_machine-given_back :
      (cfg : Config) (path : Text) (w w' : W) (m : Machine) (funcs : List (Callback W))
      → build_machine host cfg path w ≡ (w', ok (m, funcs))
      → (v : W) → clean funcs v ≡ ([], given_back (full host.disks path) path v)
  unfolding build_machine
  build_machine-given_back cfg path w w' m funcs e v =
      elim (Bool-cases (cfg.run_mode == mode_container)) [
        | inl container ↦
            build_in-given_back cfg path funcs
              (setup_workspace host path (new_machine (codes "container")) w)
              ((setup_workspace-IsPlaced host path (new_machine (codes "container"))).from w)
              (rw container at e) v
        | inr other ↦ absurd (let bad = rw other at e in cc)
      ]
