-- ===== src/Storage/Host.antt =====
-- What the storage code asks of its host: the calls of the operating system, of the blkid library
-- behind `ProbeRAWDisk` and `SetUUID`, of the embedded image, and of the uuid package.
use ovm_next.Base.{Text, Bool, true, Option, some, none, ◌≡◌, ◌≢◌}
use ovm_next.Define.{xattr_disk_version_key}

pub data Stat : Type 0 where
  present missing unreadable : Stat

pub record ProbeInfo : Type 0 where
  pub uuid : Text
  pub fs_type : Text

-- A call that may fail returns the world after it and whether it succeeded.
pub record DiskHost (W : Type 0) : Type 1 where
  pub cwd : Text
  pub stat : Text → W → Stat
  pub probe : Text → W → Option ProbeInfo
  -- Path and key; empty where there is no value.
  pub get_xattr : Text → Text → W → Text
  pub set_xattr : Text → Text → Text → W → W × Bool
  pub extract : Text → W → W × Bool
  pub set_uuid : Text → Text → W → W × Bool
  -- `os.Remove`; a file that is not there counts as removed.
  pub remove : Text → W → W × Bool
  pub new_uuid : W → W × Text

-- What a raw disk on the host holds, as far as this code reads it; the version is empty where the
-- disk has no version attribute.
pub record Image : Type 0 where
  pub uuid : Text
  pub fs_type : Text
  pub version : Text

-- The disks at other paths are untouched.
abbrev pub Frame : {W : Type 0} → (Text → W → Option Image) → Text → W → W → Type 0
Frame image_at p w w' = (q : Text) → q ≢ p → image_at q w' ≡ image_at q w

-- The documented behaviour of the calls, in terms of the disks that they read and write.
pub record IsDiskHost {W : Type 0} (host : DiskHost W) (image_at : Text → W → Option Image)
    : Type 0 where
  pub probe_image :
      (p : Text) (w : W) (d : Image)
      → image_at p w ≡ some d
      → host.probe p w ≡ some (record { uuid = d.uuid; fs_type = d.fs_type })
  pub probe_none : (p : Text) (w : W) → image_at p w ≡ none → host.probe p w ≡ none
  pub get_image :
      (p : Text) (w : W) (d : Image)
      → image_at p w ≡ some d
      → host.get_xattr p xattr_disk_version_key w ≡ d.version
  pub extracted :
      (p : Text) (w w' : W)
      → host.extract p w ≡ (w', true)
      → ((d : Image) × (image_at p w' ≡ some d)) × Frame image_at p w w'
  pub uuid_set :
      (p u : Text) (w w' : W) (d : Image)
      → host.set_uuid p u w ≡ (w', true)
      → image_at p w ≡ some d
      → (image_at p w' ≡ some (record d { uuid = u })) × Frame image_at p w w'
  pub xattr_set :
      (p v : Text) (w w' : W) (d : Image)
      → host.set_xattr p xattr_disk_version_key v w ≡ (w', true)
      → image_at p w ≡ some d
      → (image_at p w' ≡ some (record d { version = v })) × Frame image_at p w w'
  pub removed : (p : Text) (w w' : W) → host.remove p w ≡ (w', true) → Frame image_at p w w'
  pub new_uuid_image : (p : Text) (w : W) → image_at p (host.new_uuid w).0 ≡ image_at p w
