-- ===== src/Build/Host.antt =====
-- What building a machine asks of its host: the calls of the operating system, of the packages
-- flock and sysproxy, of the key generator and of the embedded root file system.
use ovm_next.Base.{Text, ℕ, Bool, Option, Result}
use ovm_next.Base.Action.{Action, try}
use ovm_next.Storage.Step.{DiskError}
use ovm_next.Storage.Host.{DiskHost}
use ovm_next.Machine.{ResourceError}
use ovm_next.Forward.Parse.{ParseError}
use ovm_next.Forward.Routes.{RouteError}
use ovm_next.Build.Url.{Url}

-- `os.Remove`
pub data Removal : Type 0 where
  removed absent not_removed : Removal

-- Waiting for the lock: it is taken, taking it fails, or the context ends before.
pub data Locking : Type 0 where
  locked refused cancelled : Locking

-- `sysproxy.GetHTTP`
pub data SystemProxy : Type 0 where
  unknown disabled : SystemProxy
  enabled : Url → SystemProxy

pub record BuildHost (W : Type 0) : Type 1 where
  pub disks : DiskHost W
  -- The tag of a mount for its target.
  pub tag_of : Text → Text
  pub linux : Bool
  pub log_level : Text
  -- `none` where the call fails.
  pub home : Option Text
  pub executable : Option Text
  pub stdin_is_terminal : Bool
  pub stdout_is_terminal : Bool
  pub stderr_is_terminal : Bool
  pub proxy : W → SystemProxy
  pub lstat : Text → W → Bool
  pub read_file : Text → W → Option Text
  -- A path, its data and its permissions.
  pub write_file : Text → Text → ℕ → W → W × Bool
  pub mkdir_all : Text → ℕ → W → W × Bool
  pub remove : Text → W → W × Removal
  pub remove_all : Text → W → W × Bool
  pub symlink : Text → Text → W → W × Bool
  pub lock : Text → W → W × Locking
  pub unlock : Text → W → W × Bool
  pub extract_rootfs : Text → W → W × Bool
  -- The private and the public key.
  pub generate_key : W → W × Option (Text × Text)
  -- `GetAvailablePort(0)`
  pub available_port : W → W × Option ℕ

pub data BuildError : Type 0 where
  unsupported_mode : Text → BuildError
  workspace_empty : BuildError
  workspace_foreign : Text → BuildError
  no_home mkdir_failed remove_failed write_failed symlink_failed : BuildError
  lock_failed context_done : BuildError
  key_failed no_port : BuildError
  invalid_network : Text → BuildError
  proxy_failed : BuildError
  extract_failed rootfs_empty no_shell : BuildError
  no_executable no_agent : BuildError
  resources : ResourceError → BuildError
  disk : DiskError → BuildError
  forward : ParseError → BuildError
  route : RouteError → BuildError

abbrev pub Build : Type 0 → Type 0 → Type 0
Build W A = Action BuildError W A

-- `if err := os.Remove(path); err != nil && !os.IsNotExist(err) { return err }`
abbrev pub unless_failed : {W : Type 0} → W × Removal → W × Result BuildError (Unit {0})
unless_failed (w, Removal.removed) = (w, Result.ok tt)
unless_failed (w, Removal.absent) = (w, Result.ok tt)
unless_failed (w, Removal.not_removed) = (w, Result.err BuildError.remove_failed)

module _ {W : Type 0} (host : BuildHost W) where
  abbrev pub make_dir : Text → ℕ → Build W (Unit {0})
  make_dir path mode = try BuildError.mkdir_failed (host.mkdir_all path mode)

  abbrev pub remove_stale : Text → Build W (Unit {0})
  remove_stale path w = unless_failed (host.remove path w)

  abbrev pub write : Text → Text → ℕ → Build W (Unit {0})
  write path data_of mode = try BuildError.write_failed (host.write_file path data_of mode)

-- What a call returns, or an error where it returns nothing.
abbrev pub needed : {W A : Type 0} → BuildError → W × Option A → W × Result BuildError A
needed e (w, Option.some a) = (w, Result.ok a)
needed e (w, Option.none) = (w, Result.err e)

abbrev pub known : {W A : Type 0} → BuildError → Option A → Build W A
known e (Option.some a) w = (w, Result.ok a)
known e (Option.none) w = (w, Result.err e)
