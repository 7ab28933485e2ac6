-- ===== src/Build/Paths.antt =====
-- pkg/librevm/paths.go: where a workspace keeps its files.
use ovm_next.Base.{Text, codes, [], ◌∷◌}
use ovm_next.FilePath.{join, clean}

module _ (workspace_dir : Text) where
  -- `GetSocketFile`
  unfoldable pub get_socket_file : Text → Text
  get_socket_file name = clean (join (workspace_dir ∷ codes "socks" ∷ name ∷ []))

  -- `GetPodmanSocketFile`
  abbrev pub get_podman_socket_file : Text
  get_podman_socket_file = get_socket_file (codes "podman-api.sock")

  -- `GetVNetSocketFile`
  abbrev pub get_vnet_socket_file : Text
  get_vnet_socket_file = get_socket_file (codes "vnet.sock")

  -- `GetGVPCtlSocketFile`
  abbrev pub get_gvp_ctl_socket_file : Text
  get_gvp_ctl_socket_file = get_socket_file (codes "gvpctl.sock")

  -- `GetVMCtlSocketFile`
  abbrev pub get_vm_ctl_socket_file : Text
  get_vm_ctl_socket_file = get_socket_file (codes "vmctl.sock")

  -- `GetIgnSocketFile`
  abbrev pub get_ign_socket_file : Text
  get_ign_socket_file = get_socket_file (codes "ign.sock")

  -- `GetSSHPrivateKeyFile`
  unfoldable pub get_ssh_private_key_file : Text
  get_ssh_private_key_file = clean (join (workspace_dir ∷ codes "ssh" ∷ codes "key" ∷ []))

  -- `GetRootfsDir`
  unfoldable pub get_rootfs_dir : Text
  get_rootfs_dir = join (workspace_dir ∷ codes "rootfs" ∷ [])
