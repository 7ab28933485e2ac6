-- ===== src/Storage/Step.antt =====
-- The errors of the storage code, and the steps that may end in one.
unfoldable pub use ovm_next.Base.Action.{◌>>=◌}
pub use ovm_next.Base.Action.{Action, >>=-eq-ok, pure, fail, try, try-eq-ok}

pub data DiskError : Type 0 where
  empty_path stat_failed inspect_failed extract_failed uuid_failed remove_failed : DiskError
  xattr_failed xattr_key_empty xattr_key_foreign xattr_value_empty : DiskError

abbrev pub Step : Type 0 → Type 0 → Type 0
Step W A = Action DiskError W A
