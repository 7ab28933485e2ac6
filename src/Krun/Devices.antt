-- ===== src/Krun/Devices.antt =====
-- The devices that a virtual machine gets.
use ovm_next.Base.{
  Text, codes, ◌==◌, if◌then◌else◌, Bool, true, false, List, [], ◌∷◌, ◌++◌, append-nil, map, Option,
  none, some, ok, ◌≡◌, refl, sym, ap, subst, ◌∙◌, Bool-cases, inl, inr,
}
use ovm_next.Base.Action.{◌>>=◌, pure}
use ovm_next.Define.{gvisor, tsi}
use ovm_next.Mount.{Mount}
use ovm_next.Storage.Disk.{BlkDev}
use ovm_next.Forward.Routes.{Route, build_routes}
use ovm_next.Build.Spec.{Machine}
use ovm_next.Krun.Calls.{
  KrunCall, KrunHost, Krun, log_level, parse_unix_addr, check, ignore, init_log, create_ctx,
  set_vm_config, set_rlimits, set_root, disable_implicit_console, add_console_multiport,
  add_console_port_tty, add_console_port_inout, disable_implicit_vsock, add_vsock, add_vsock_port,
  add_net_unixstream, add_net_unixgram, add_disk, add_virtiofs, set_gpu_options, set_nested_virt,
  set_workdir, set_exec,
}
use ovm_next.Krun.Create.{
  ignition_port, init, set_resources, set_root_fs, add_stdio_redirect, add_log_and_signal,
  setup_console, setup_vsock, setup_gvisor, setup_network, attach_disk, share_resolved, share,
  add_disks, add_shares, setup_storage, setup_gpu, setup_nested_virt, set_guest_agent, create,
}
use ovm_next.Krun.Adds.{
  Device, port, disk, shared, devices_of, IsKrunHost, Adds, ◌⟫◌, must-Adds, check-Adds, nothing,
  read-Adds, known-Adds, quiet-Adds, add_ports-Adds,
}

module _ {W : Type 0} (host : KrunHost W) (devices : W → List Device)
    (laws : IsKrunHost host devices) (m : Machine) where
  console-Adds : Adds host devices [] (setup_console host m)
  unfolding setup_console add_stdio_redirect add_log_and_signal
  console-Adds = must-Adds laws disable_implicit_console ⟫ λ _.
      check-Adds laws add_console_multiport ⟫ λ _.
      quiet-Adds _ (host.open_console m.tty) (laws.console m.tty) ⟫ λ _.
      check-Adds laws (add_console_port_tty (codes "default-tty-console")) ⟫ λ _. stdio m.tty ⟫ λ _.
      quiet-Adds _ (host.open_log m.log_file) (laws.log m.log_file) ⟫ λ _.
      check-Adds laws (add_console_port_inout (codes "guest-logs"))
    where
      stdio : (b : Bool) → Adds host devices [] (if b then pure tt else add_stdio_redirect host m)
      stdio true = nothing tt
      stdio false = check-Adds laws (add_console_port_inout (codes "krun-stdin")) ⟫ λ _.
          check-Adds laws (add_console_port_inout (codes "krun-stdout")) ⟫ λ _.
          check-Adds laws (add_console_port_inout (codes "krun-stderr"))

  abbrev pub ports_of : List Route → List Device
  ports_of = map (λ r. port r.vsock_port r.host_path)

  vsock-Adds :
      (path : Text) (routes : List Route)
      → parse_unix_addr host m.ignition_listen_addr ≡ ok path
      → build_routes m.unix_socket_forwards ≡ ok routes
      → Adds host devices (port ignition_port path ∷ ports_of routes) (setup_vsock host m)
  unfolding setup_vsock
  vsock-Adds path routes read built = must-Adds laws disable_implicit_vsock ⟫ λ _.
      must-Adds laws (add_vsock (m.virtual_network_mode == tsi)) ⟫ λ _. known-Adds _ _ read (
        check-Adds laws (add_vsock_port ignition_port path) ⟫ λ _.
        known-Adds _ _ built (add_ports-Adds laws m routes))

  choice-Adds :
      {ds : List Device} (b : Bool) {s t : Krun W (Unit {0})}
      → Adds host devices ds s
      → Adds host devices ds t
      → Adds host devices ds (if b then s else t)
  choice-Adds true h k = h
  choice-Adds false h k = k

  network-Adds : Adds host devices [] (setup_network host m)
  unfolding setup_network setup_gvisor
  network-Adds =
      choice-Adds (m.virtual_network_mode == gvisor)
        (read-Adds _ (parse_unix_addr host m.gvp_vnet_addr) ⟫ λ path. stream host.linux path)
        (choice-Adds (m.virtual_network_mode == tsi) (nothing tt)
          (record { lem = λ w w' a e. absurd cc }))
    where
      stream :
          (b : Bool) (path : Text)
          → Adds host devices []
              (check host (if b then add_net_unixstream path else add_net_unixgram path))
      stream true path = check-Adds laws (add_net_unixstream path)
      stream false path = check-Adds laws (add_net_unixgram path)

  attach_disk-Adds : (path : Text) → Adds host devices (disk path ∷ []) (attach_disk host m path)
  unfolding attach_disk
  attach_disk-Adds path = record {
    lem = λ w w' a e. elim (Bool-cases (host.is_regular path w)) [
      | inl regular ↦ (check-Adds laws (add_disk path)).lem w w' a (rw regular at e)
      | inr other ↦ absurd (let bad = rw other at e in cc)
    ];
  }

  share-Adds :
      (tag path : Text)
      → Adds host devices (shared tag (laws.real_path path) ∷ []) (share host m tag path)
  unfolding share
  share-Adds tag path = record { lem = λ w w' a e. go (host.resolve path w) w w' refl e }
    where
      go :
          (r : Option Text) (w w' : W) {a : Unit {0}}
          → host.resolve path w ≡ r
          → share_resolved host m tag path r w ≡ (w', ok a)
          → devices w' ≡ devices w ++ shared tag (laws.real_path path) ∷ []
      go none w w' r e = absurd cc
      go (some real) w w' {a} r e = elim (Bool-cases (host.is_directory real w)) [
        | inl directory ↦
            subst (λ p. devices w' ≡ devices w ++ shared tag p ∷ []) (laws.resolved path real w r)
              ((check-Adds laws (add_virtiofs tag real)).lem w w' a (rw directory at e))
        | inr other ↦ absurd (let bad = rw other at e in cc)
      ]

  disks-Adds :
      (ds : List BlkDev) → Adds host devices (map (λ d. disk d.path) ds) (add_disks host m ds)
  unfolding add_disks
  disks-Adds [] = nothing tt
  disks-Adds (d ∷ ds) = attach_disk-Adds d.path ⟫ λ _. disks-Adds ds

  shares-Adds :
      (ss : List Mount)
      → Adds host devices
          (map (λ s. shared s.tag (laws.real_path s.source)) ss)
          (add_shares host m ss)
  unfolding add_shares
  shares-Adds [] = nothing tt
  shares-Adds (s ∷ ss) = share-Adds s.tag s.source ⟫ λ _. shares-Adds ss

  ignore-Adds : (c : KrunCall) → devices_of c ≡ [] → Adds host devices [] (ignore host c)
  unfolding ignore
  ignore-Adds c none_ = record {
    lem = λ w w' a e.
        let same : (host.call c w).0 ≡ w' = cc in
        ap devices (sym same) ∙ laws.plain c w none_ ∙ sym (append-nil (devices w));
  }

  nested-Adds : Adds host devices [] (setup_nested_virt host m)
  unfolding setup_nested_virt
  nested-Adds = record {
    lem = λ w w' a e.
        (choice-Adds (host.nests w) (ignore-Adds set_nested_virt refl) (nothing tt)).lem w w' a e;
  }

  agent-Adds : Adds host devices [] (set_guest_agent host m)
  unfolding set_guest_agent
  agent-Adds = must-Adds laws (set_workdir m.guest_agent.workdir) ⟫ λ _.
      must-Adds laws (set_exec (codes "/.bin/guest-agent") m.guest_agent.args m.guest_agent.env)

  init-Adds : Adds host devices [] (init host m)
  unfolding init
  init-Adds = check-Adds laws (init_log (log_level host.debug)) ⟫ λ _. check-Adds laws create_ctx

  resources-Adds : Adds host devices [] (set_resources host m)
  unfolding set_resources
  resources-Adds = must-Adds laws (set_vm_config _ _) ⟫ λ _.
      must-Adds laws (set_rlimits (codes "6=4096:8192" ∷ []))

  root-Adds : Adds host devices [] (set_root_fs host m)
  unfolding set_root_fs
  root-Adds = must-Adds laws (set_root m.root_fs)

  storage-Adds :
      Adds host devices
        (map (λ d. disk d.path) m.blk_devs
          ++ map (λ s. shared s.tag (laws.real_path s.source)) m.mounts)
        (setup_storage host m)
  unfolding setup_storage
  storage-Adds = disks-Adds m.blk_devs ⟫ λ _. shares-Adds m.mounts

  gpu-Adds : Adds host devices [] (setup_gpu host m)
  unfolding setup_gpu
  gpu-Adds = choice-Adds host.linux (nothing tt) (ignore-Adds set_gpu_options refl)

  -- The devices of a machine: the port of its ignition server and those of its forwards, then
  -- its disks, then its mounts, each in the order of the machine.
  abbrev pub devices_for : Text → List Route → List Device
  devices_for path routes =
      port ignition_port path
      ∷ (ports_of routes
          ++ (map (λ d. disk d.path) m.blk_devs
              ++ map (λ s. shared s.tag (laws.real_path s.source)) m.mounts))

  rest-Adds :
      Adds host devices
        (map (λ d. disk d.path) m.blk_devs
          ++ map (λ s. shared s.tag (laws.real_path s.source)) m.mounts
          ++ [])
        (setup_storage host m >>= λ _.
          setup_gpu host m >>= λ _. setup_nested_virt host m >>= λ _. set_guest_agent host m)
  rest-Adds = storage-Adds ⟫ λ _. gpu-Adds ⟫ λ _. nested-Adds ⟫ λ _. agent-Adds

  -- On a host that behaves as documented: where the address of the ignition server is read as a
  -- path and the forwards have routes, a virtual machine that is created has just these
  -- devices more than before, in this order.
  pub create-devices :
      (path : Text) (routes : List Route) (w w' : W)
      → parse_unix_addr host m.ignition_listen_addr ≡ ok path
      → build_routes m.unix_socket_forwards ≡ ok routes
      → create host m w ≡ (w', ok tt)
      → devices w' ≡ devices w ++ devices_for path routes
  unfolding create
  create-devices path routes w w' read built e =
      (init-Adds ⟫ λ _. resources-Adds ⟫ λ _. root-Adds ⟫ λ _. console-Adds ⟫ λ _.
      vsock-Adds path routes read built ⟫ λ _. network-Adds ⟫ λ _. rest-Adds).lem
        w w' tt e
      ∙ ap (λ ds. devices w ++ port ignition_port path ∷ (ports_of routes ++ ds))
          (append-nil (
            map (λ d. disk d.path) m.blk_devs
            ++ map (λ s. shared s.tag (laws.real_path s.source)) m.mounts))
