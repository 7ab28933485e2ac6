-- ===== src/Build/Workspace.antt =====
-- The workspace of a machine and its lock: `setupWorkspace` and `lock`, and the parts of the
-- machine that need no network: `withResources`, `configureSSH`, `createSymlink`.
use ovm_next.Base.{
  Text, codes, ◌==◌, has_prefix, Bool, if◌then◌else◌, not, ◌&&◌, [], ◌++◌, Result, ok, err, ℕ,
}
use ovm_next.Base.Action.{◌>>=◌, pure, fail, try, of_result}
use ovm_next.FilePath.{dir}
use ovm_next.Storage.Disk.{full}
use ovm_next.Machine.{with_resources}
use ovm_next.Build.Paths.{get_ssh_private_key_file}
use ovm_next.Build.Spec.{Machine, SshInfo}
use ovm_next.Build.Host.{
  BuildHost, Locking, BuildError, Build, make_dir, remove_stale, write, needed, known,
}

module _ {W : Type 0} (host : BuildHost W) where
  -- What `select` in `lock` does; the lock is given back if the context ends first.
  abbrev pub lock_outcome : Text → W × Locking → W × Result BuildError (Unit {0})
  lock_outcome file (w, Locking.locked) = (w, ok tt)
  lock_outcome file (w, Locking.refused) = (w, err BuildError.lock_failed)
  lock_outcome file (w, Locking.cancelled) = ((host.unlock file w).0, err BuildError.context_done)

  -- `lock`, of the workspace
  unfoldable pub lock : Text → Build W (Unit {0})
  lock workspace w =
      lock_outcome (workspace ++ codes ".lock") (host.lock (workspace ++ codes ".lock") w)

  -- `!underTmp && !underHome`
  abbrev pub is_foreign : Text → Text → Bool
  is_foreign home path = not (has_prefix path (codes "/tmp")) && not (has_prefix path home)

  -- `setupWorkspace`
  unfoldable pub setup_workspace : Text → Machine → Build W Machine
  setup_workspace workspace_path m =
      if workspace_path == [] then fail BuildError.workspace_empty else do
        home ← known BuildError.no_home host.home
        if is_foreign home (full host.disks workspace_path)
            then fail (BuildError.workspace_foreign (full host.disks workspace_path))
            else do
              _ ← make_dir host (full host.disks workspace_path) 0o755
              _ ← lock (full host.disks workspace_path)
              pure (record m { workspace_dir = full host.disks workspace_path })

  -- `withResources` on the machine
  unfoldable pub set_resources : ℕ → ℕ → Machine → Build W Machine
  set_resources memory_in_mb cpus m = do
    r ← of_result BuildError.resources (with_resources memory_in_mb cpus)
    pure (record m { memory_in_mb = r.memory_in_mb; cpus = r.cpus })

  -- The keys of a machine, in the files that `configureSSH` writes.
  abbrev pub ssh_info_of : Text → Text × Text → SshInfo
  ssh_info_of key_path (private_key, public_key) = record {
    host_ssh_private_key_file = key_path;
    host_ssh_public_key = public_key;
    host_ssh_private_key = private_key;
    host_ssh_proxy_listen_addr = [];
    guest_ssh_server_listen_addr = [];
    guest_ssh_private_key_file = codes "/run/dropbear/private.key";
    guest_ssh_authorized_keys = codes "/run/dropbear/authorized_keys";
    guest_ssh_pid_file = codes "/run/dropbear/dropbear.pid";
  }

  -- `configureSSH`
  unfoldable pub configure_ssh : Machine → Build W Machine
  configure_ssh m =
      let key_path = get_ssh_private_key_file m.workspace_dir in
      do
        _ ← make_dir host (dir key_path) 0o700
        keys ← λ w. needed BuildError.key_failed (host.generate_key w)
        _ ← write host key_path keys.0 0o600
        _ ← write host (key_path ++ codes ".pub") keys.1 0o644
        pure (record m { ssh_info = ssh_info_of key_path keys })

  -- `createSymlink`
  unfoldable pub create_symlink : Text → Text → Build W (Unit {0})
  create_symlink target link_path = do
    _ ← make_dir host (dir link_path) 0o755
    _ ← remove_stale host link_path
    try BuildError.symlink_failed (host.symlink target link_path)
