-- ===== src/Config/Disks.antt =====
-- `WithVarDataDisk` and `WithDisk` of pkg/librevm/config.go: reading disk specs. A call of
-- `uuid.NewString` takes the next value of the supply `fresh`; its state is the number of calls.
pub mod Laws
pub mod RoundTrip
use ovm_next.Base.{
  Text, codes, ◌==◌, trim_space, cut, split, to_lower, equal_fold, ℕ, suc, Bool, true, false, List,
  [], ◌∷◌, ◌++◌, if◌then◌else◌, Option, none, some, ◌≡◌, refl,
}
use ovm_next.Define.{default_raw_disk_version, var_disk_mount_point, var_data_disk_uuid}
use ovm_next.Config.{Config, RawDisk, no_disk, default_config}

abbrev pub comma : ℕ
comma = b','

abbrev pub equals : ℕ
equals = b'='

-- One round of the loop of `WithVarDataDisk` over the options.
unfoldable pub read_version : Text → Text → Text
read_version version part = elim (cut equals (trim_space part)) [
  | none ↦ version
  | some (key, val) ↦
      if equal_fold (trim_space key) (codes "version")
      then (if trim_space val == [] then version else trim_space val)
      else version
]

unfoldable pub read_versions : Text → List Text → Text
read_versions version [] = version
read_versions version (part ∷ parts) = read_versions (read_version version part) parts

-- `WithVarDataDisk`
unfoldable pub with_var_data_disk : Text → Config → Config
with_var_data_disk spec c =
    let trimmed = trim_space spec in
    let (first, options) = split comma trimmed in
    let path = trim_space first in
    if trimmed == [] then c else if path == [] then c else record c {
      var_disk = record {
        raw_disk_path = path;
        uuid = var_data_disk_uuid;
        mnt = var_disk_mount_point;
        version = read_versions default_raw_disk_version options;
      };
    }

-- The `switch` over an option's key.
unfoldable pub set_option : RawDisk → Text → Text → RawDisk
set_option raw key val =
    if key == codes "uuid"
    then record raw { uuid = val }
    else if key == codes "version"
    then record raw { version = val }
    else if key == codes "mnt"
    then record raw { mnt = val }
    else raw

-- One round of the loop of `WithDisk` over the options of a spec.
unfoldable pub read_option : RawDisk → Text → RawDisk
read_option raw part = if trim_space part == [] then raw else elim (cut equals (trim_space part)) [
  | none ↦ raw
  | some (key, val) ↦ set_option raw (to_lower (trim_space key)) (trim_space val)
]

unfoldable pub read_options : RawDisk → List Text → RawDisk
read_options raw [] = raw
read_options raw (part ∷ parts) = read_options (read_option raw part) parts

unfoldable pub fill_version : RawDisk → RawDisk
fill_version raw =
    if raw.version == [] then record raw { version = default_raw_disk_version } else raw

unfoldable pub add_disk : Config → RawDisk → Config
add_disk c raw = record c { external_disks = c.external_disks ++ raw ∷ [] }

module _ (fresh : ℕ → Text) where
  -- An empty uuid is drawn from the supply.
  unfoldable pub fill_uuid : RawDisk → ℕ → RawDisk × ℕ
  fill_uuid raw n = if raw.uuid == [] then (record raw { uuid = fresh n }, suc n) else (raw, n)

  -- One round of the outer loop of `WithDisk`, on a trimmed spec that is not empty.
  unfoldable pub read_disk : Text → ℕ → RawDisk × ℕ
  read_disk spec n =
      let (first, options) = split comma spec in
      fill_uuid
        (fill_version (read_options (record no_disk { raw_disk_path = trim_space first }) options))
        n

  -- `WithDisk`
  unfoldable pub with_disk : List Text → Config → ℕ → Config × ℕ
  with_disk [] c n = (c, n)
  with_disk (spec ∷ specs) c n =
      let (raw, n') = read_disk (trim_space spec) n in
      let blank = trim_space spec == [] in
      with_disk specs (if blank then c else add_disk c raw) (if blank then n else n')

unfoldable pub reading_disks : Unit {0}
unfolding with_disk add_disk read_disk fill_uuid fill_version read_options read_option set_option
    trim_space cut split to_lower equal_fold ◌==◌ with_var_data_disk read_versions read_version
reading_disks = tt
