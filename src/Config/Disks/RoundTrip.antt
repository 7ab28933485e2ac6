-- ===== src/Config/Disks/RoundTrip.antt =====
-- Reading a disk that is written as "path,uuid=...,version=...,mnt=...".
use ovm_next.Base.{
  Text, codes, ◌==◌, ==_iff, trim_space, trim_right, is_space, cut, split, to_lower, ℕ, false, List,
  [], ◌∷◌, ◌++◌, ◌≡◌, ◌≢◌, refl, ap, ◌∙◌, Lacks, split-append, split_of_Lacks, trim_right-append,
  trim_right-cons, trim_space-cons, IsTrimmed, arith,
}
use ovm_next.Config.{Config, RawDisk, no_disk}
use ovm_next.Config.Disks.Laws.{with_disk_given, with_disk_none}
use ovm_next.Config.Disks.{
  comma, equals, set_option, read_option, read_options, fill_version, fill_uuid, read_disk,
  add_disk, with_disk,
}

-- A value that can be written into a spec: no comma, and no blank at either end.
pub record IsWord (s : Text) : Type 0 where
  pub trimmed : IsTrimmed s
  pub end_trimmed : trim_right s ≡ s
  pub lacks : Lacks comma s

-- The path of a spec, which is absolute.
pub data IsDiskPath : Text → Type 0 where
  disk_path : (p : Text) → IsWord (b'/' ∷ p) → IsDiskPath (b'/' ∷ p)

-- `key=value`
abbrev pub field : Text → Text → Text
field key val = key ++ equals ∷ val

abbrev pub format_disk : RawDisk → Text
format_disk raw =
    raw.raw_disk_path
    ++ comma
      ∷ (field (codes "uuid") raw.uuid
          ++ comma ∷ (field (codes "version") raw.version ++ comma ∷ field (codes "mnt") raw.mnt))

pub record IsWritable (raw : RawDisk) : Type 0 where
  pub path : IsDiskPath raw.raw_disk_path
  pub uuid : IsWord raw.uuid
  pub version : IsWord raw.version
  pub mnt : IsWord raw.mnt
  pub uuid_given : raw.uuid ≢ []
  pub version_given : raw.version ≢ []

trim_right-field :
    (key val : Text) → trim_right val ≡ val → trim_right (field key val) ≡ field key val
trim_right-field key val e =
    trim_right-append key equals val (trim_right-cons equals val refl ∙ ap (◌∷◌ equals) e)

trim_space-field :
    (c : ℕ) (key val : Text)
    → is_space c ≡ false
    → trim_right val ≡ val
    → trim_space (c ∷ field key val) ≡ c ∷ field key val
trim_space-field c key val visible e =
    trim_space-cons c (field key val) visible ∙ ap (◌∷◌ c) (trim_right-field key val e)

module _ (raw : RawDisk) (val : Text) (w : IsWord val) where
  read_uuid : read_option raw (field (codes "uuid") val) ≡ record raw { uuid = val }
  unfolding read_option cut set_option to_lower ◌==◌ trim_space
  read_uuid = rw (trim_space-field b'u' (codes "uid") val refl w.end_trimmed, w.trimmed) refl

  read_version : read_option raw (field (codes "version") val) ≡ record raw { version = val }
  unfolding read_option cut set_option to_lower ◌==◌ trim_space
  read_version = rw (trim_space-field b'v' (codes "ersion") val refl w.end_trimmed, w.trimmed) refl

  read_mnt : read_option raw (field (codes "mnt") val) ≡ record raw { mnt = val }
  unfolding read_option cut set_option to_lower ◌==◌ trim_space
  read_mnt = rw (trim_space-field b'm' (codes "nt") val refl w.end_trimmed, w.trimmed) refl

==_of_≢ : {s : Text} → s ≢ [] → (s == []) ≡ false
==_of_≢ {s} h = ground (arith, ==_iff s [])

Lacks-append : (s t : Text) → Lacks comma s → Lacks comma t → Lacks comma (s ++ t)
Lacks-append [] t h k = k
Lacks-append (c ∷ s) t (a, h) k = (a, Lacks-append s t h k)

pub IsDiskPath-IsWord : (path : Text) → IsDiskPath path → IsWord path
IsDiskPath-IsWord _ (disk_path p w) = w

module _ (raw : RawDisk) (w : IsWritable raw) where
  Lacks-field : (key val : Text) → Lacks comma key → IsWord val → Lacks comma (field key val)
  Lacks-field key val h v = Lacks-append key (equals ∷ val) h ((λ e. cc), v.lacks)

  split-format : split comma (format_disk raw) ≡ (
    raw.raw_disk_path,
    field (codes "uuid") raw.uuid
        ∷ field (codes "version") raw.version
        ∷ field (codes "mnt") raw.mnt
        ∷ [],
  )
  split-format =
      rw
        (
          split-append comma raw.raw_disk_path _ (IsDiskPath-IsWord raw.raw_disk_path w.path).lacks,
          split-append comma (field (codes "uuid") raw.uuid) _
              (Lacks-field (codes "uuid") raw.uuid (ground arith) w.uuid),
          split-append comma (field (codes "version") raw.version) _
              (Lacks-field (codes "version") raw.version (ground arith) w.version),
          split_of_Lacks comma (field (codes "mnt") raw.mnt)
              (Lacks-field (codes "mnt") raw.mnt (ground arith) w.mnt),
        )
        refl

module _ (fresh : ℕ → Text) (raw : RawDisk) (w : IsWritable raw) (n : ℕ) where
  abbrev options : List Text
  options =
      field (codes "uuid") raw.uuid
      ∷ field (codes "version") raw.version
      ∷ field (codes "mnt") raw.mnt
      ∷ []

  read_options-format :
      (path : Text)
      → read_options (record no_disk { raw_disk_path = path }) options
        ≡ record raw { raw_disk_path = path }
  unfolding read_options
  read_options-format path =
      rw
        (
          read_uuid _ raw.uuid w.uuid,
          read_version _ raw.version w.version,
          read_mnt _ raw.mnt w.mnt,
        )
        refl

  fill_writable : fill_uuid fresh (fill_version raw) n ≡ (raw, n)
  unfolding fill_uuid fill_version
  fill_writable = rw (==_of_≢ w.version_given, ==_of_≢ w.uuid_given) refl

  read_disk-format : read_disk fresh (format_disk raw) n ≡ (raw, n)
  unfolding read_disk
  read_disk-format =
      rw
        (
          split-format raw w,
          (IsDiskPath-IsWord raw.raw_disk_path w.path).trimmed,
          read_options-format raw.raw_disk_path,
        )
        fill_writable

trim_right-part : (s t : Text) → trim_right t ≡ t → trim_right (s ++ comma ∷ t) ≡ s ++ comma ∷ t
trim_right-part s t e =
    trim_right-append s comma t (trim_right-cons comma t refl ∙ ap (◌∷◌ comma) e)

trim_space-path :
    (path t : Text)
    → IsDiskPath path
    → trim_right t ≡ t
    → trim_space (path ++ comma ∷ t) ≡ path ++ comma ∷ t
trim_space-path _ t (disk_path p w) e =
    trim_space-cons b'/' (p ++ comma ∷ t) refl ∙ ap (◌∷◌ b'/') (trim_right-part p t e)

trim_space-format :
    (raw : RawDisk) → IsWritable raw → trim_space (format_disk raw) ≡ format_disk raw
trim_space-format raw w = trim_space-path raw.raw_disk_path _ w.path (
    trim_right-part (field (codes "uuid") raw.uuid) _ (
      trim_right-part (field (codes "version") raw.version) _
        (trim_right-field (codes "mnt") raw.mnt w.mnt.end_trimmed)))

append-==-[] : (s : Text) (c : ℕ) (t : Text) → ((s ++ c ∷ t) == []) ≡ false
unfolding ◌==◌
append-==-[] [] c t = refl
append-==-[] (d ∷ s) c t = refl

-- A disk whose fields are all written in one spec is added as it is, and no uuid is generated, if
-- its path is absolute, its uuid and version are not empty, and no field holds a comma or has a
-- blank at an end.
pub with_disk-format_disk :
    (fresh : ℕ → Text) (raw : RawDisk) (c : Config) (n : ℕ)
    → IsWritable raw
    → with_disk fresh (format_disk raw ∷ []) c n ≡ (add_disk c raw, n)
with_disk-format_disk fresh raw c n w =
    with_disk_given fresh (format_disk raw) [] c n
      (rw (trim_space-format raw w) (append-==-[] raw.raw_disk_path comma _))
    ∙ rw (trim_space-format raw w, read_disk-format fresh raw w n) (with_disk_none fresh _ _)
