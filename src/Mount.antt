-- ===== src/Mount.antt =====
-- Mounts: pkg/define/struct.go (`Mount`), pkg/filesystem/virtio.go on the host and
-- cmd/guest-agent/pkg/service/mount.go in the guest.
pub mod Volume
pub mod Guest
use ovm_next.Base.{Text, codes, Bool, ◌≡◌, ℕ}

-- `define.Mount`
pub record Mount : Type 0 where
  pub read_only : Bool
  pub source : Text
  pub tag : Text
  pub target : Text
  pub kind : Text
  pub opts : Text
  pub uuid : Text

-- `VirtIOFs`, which the guest calls `virtiofsType`
abbrev pub virtiofs : Text
virtiofs = codes "virtiofs"
