-- ===== src/Build/Steps.antt =====
-- What each step of building a machine does to the machine where it succeeds.
use ovm_next.Base.{
  Text, ℕ, ◌==◌, ==_iff, false, List, [], ◌∷◌, ok, ◌≡◌, refl, ◌⊎◌, inl, inr, Option, none, some,
}
use ovm_next.Base.Ensures.{Ensures, ◌⟫◌, behind, done, failed, unless, of_result-Ensures}
use ovm_next.Define.{gvisor, tsi}
use ovm_next.Machine.{Resources, with_resources}
use ovm_next.Storage.Disk.{full}
use ovm_next.Build.Url.{string_of_url, unix_url}
use ovm_next.Build.Paths.{
  get_ssh_private_key_file, get_rootfs_dir, get_ign_socket_file, get_vm_ctl_socket_file,
}
use ovm_next.Build.Spec.{Machine}
use ovm_next.Build.Host.{BuildHost, BuildError, known}
use ovm_next.Build.Workspace.{
  setup_workspace, set_resources, ssh_info_of, configure_ssh, is_foreign,
}
use ovm_next.Build.Network.{
  with_gvisor, with_tsi, configure_gvisor, configure_tsi, configure_network,
}
use ovm_next.Build.Rootfs.{
  with_user_provided_rootfs, with_built_in_rootfs, with_mount_user_home, set_mounts, home_volume,
}
use ovm_next.Build.Services.{with_podman, configure_podman, configure_vm_ctl_api}
use ovm_next.Build.Guest.{with_agent, install_guest_agent, configure_guest_agent}

known-Ensures :
    {W A : Type 0} (x : BuildError) (o : Option A)
    → Ensures {E = BuildError} {W = W} (λ a. o ≡ some a) (known x o)
known-Ensures x none = failed
known-Ensures x (some a) = done refl

module _ {W : Type 0} (host : BuildHost W) where
  abbrev pub IsPlaced : Text → Machine → Machine → Type 0
  IsPlaced path m m' =
      (home : Text) × (host.home ≡ some home)
      × (is_foreign host home (full host.disks path) ≡ false)
      × (m' ≡ record m { workspace_dir = full host.disks path })

  -- A workspace is where its path leads, which is in the home directory or starts like `/tmp`.
  pub setup_workspace-IsPlaced :
      (path : Text) (m : Machine) → Ensures (IsPlaced path m) (setup_workspace host path m)
  unfolding setup_workspace
  setup_workspace-IsPlaced path m =
      unless (path == []) (λ empty. failed)
        (λ given. known-Ensures BuildError.no_home host.home ⟫ λ home found.
          unless (is_foreign host home (full host.disks path)) (λ far. failed)
            (λ near. behind _ λ _. behind _ λ _. done (home, found, near, refl)))

  pub set_resources-Ensures :
      (memory_in_mb cpus : ℕ) (m : Machine)
      → Ensures
          (λ m'.
            (r : Resources) × (with_resources memory_in_mb cpus ≡ ok r)
            × (m' ≡ record m { memory_in_mb = r.memory_in_mb; cpus = r.cpus }))
          (set_resources host memory_in_mb cpus m)
  unfolding set_resources
  set_resources-Ensures memory_in_mb cpus m =
      of_result-Ensures BuildError.resources (with_resources memory_in_mb cpus) ⟫ λ r same.
      done (r, same, refl)

  pub configure_ssh-Ensures :
      (m : Machine)
      → Ensures
          (λ m'.
            (keys : Text × Text) × (m' ≡ record m {
              ssh_info = ssh_info_of host (get_ssh_private_key_file m.workspace_dir) keys;
            }))
          (configure_ssh host m)
  unfolding configure_ssh
  configure_ssh-Ensures m =
      behind _ λ _. behind _ λ keys. behind _ λ _. behind _ λ _. done (keys, refl)

  pub configure_network-Ensures :
      (mode : Text) (m : Machine)
      → Ensures
          (λ m'.
            (port : ℕ) × (((mode ≡ gvisor)
                × (m' ≡ with_gvisor host (record m { virtual_network_mode = mode }) port))
              ⊎ ((mode ≡ tsi)
                  × (m' ≡ with_tsi host (record m { virtual_network_mode = mode }) port))))
          (configure_network host mode m)
  unfolding configure_network configure_gvisor configure_tsi
  configure_network-Ensures mode m =
      unless (mode == gvisor)
        (λ g. behind _ λ _.
          behind _
            λ _. behind _ λ _. behind _ λ port. done (port, inl ((==_iff mode gvisor).0 g, refl)))
        (λ _.
          unless (mode == tsi)
            (λ t. behind _ λ port. done (port, inr ((==_iff mode tsi).0 t, refl))) (λ _. failed))

  with_user_provided_rootfs-Ensures :
      (path : Text) (m : Machine)
      → Ensures
          (λ m'. m' ≡ record m { root_fs = full host.disks path })
          (with_user_provided_rootfs host path m)
  unfolding with_user_provided_rootfs
  with_user_provided_rootfs-Ensures path m = record {
    from = λ w.
        (unless {P = λ m'. m' ≡ record m { root_fs = full host.disks path }} (path == [])
            (λ _. failed) (λ _. unless (host.lstat _ w) (λ _. done refl) (λ _. failed))).from
          w;
  }

  pub with_built_in_rootfs-Ensures :
      (m : Machine)
      → Ensures
          (λ m'. m' ≡ record m { root_fs = full host.disks (get_rootfs_dir m.workspace_dir) })
          (with_built_in_rootfs host m)
  unfolding with_built_in_rootfs
  with_built_in_rootfs-Ensures m =
      unless (m.workspace_dir == []) (λ _. failed)
        (λ _.
          behind _
            λ _. behind _ λ _. with_user_provided_rootfs-Ensures (get_rootfs_dir m.workspace_dir) m)

  pub with_mount_user_home-Ensures :
      (m : Machine)
      → Ensures
          (λ m'.
            (home : Text) × (host.home ≡ some home)
            × (m' ≡ set_mounts host (home_volume host home ∷ []) m))
          (with_mount_user_home host m)
  unfolding with_mount_user_home
  with_mount_user_home-Ensures m =
      known-Ensures BuildError.no_home host.home ⟫ λ home found. done (home, found, refl)

  pub configure_podman-Ensures :
      (m : Machine)
      → Ensures (λ m'. (port : ℕ) × (m' ≡ with_podman m port)) (configure_podman host m)
  unfolding configure_podman
  configure_podman-Ensures m = behind _ λ port. behind _ λ _. done (port, refl)

  pub configure_vm_ctl_api-Ensures :
      (m : Machine)
      → Ensures
          (λ m'. m' ≡ record m {
            vm_ctl_addr = string_of_url (unix_url (get_vm_ctl_socket_file m.workspace_dir));
          })
          (configure_vm_ctl_api host m)
  unfolding configure_vm_ctl_api
  configure_vm_ctl_api-Ensures m = behind _ λ _. behind _ λ _. done refl

  pub configure_guest_agent-Ensures :
      (envs : List Text) (m : Machine)
      → Ensures
          (λ m'.
            m'
            ≡ with_agent host envs (record m {
              ignition_listen_addr = string_of_url (unix_url (get_ign_socket_file m.workspace_dir));
            }))
          (configure_guest_agent host envs m)
  unfolding configure_guest_agent install_guest_agent
  configure_guest_agent-Ensures envs m =
      unless (m.workspace_dir == []) (λ _. failed)
        (λ _. behind _ λ _. behind _ λ _.
          unless (m.root_fs == []) (λ _. failed)
            (λ _. behind _ λ _. behind _ λ _. behind _ λ _. behind _ λ _. done refl))
