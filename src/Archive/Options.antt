-- ===== src/Archive/Options.antt =====
-- `Archiver`, its setters and the flags of the disk writer.
use ovm_next.Base.{
  Text, ℕ, ◌==◌, if◌then◌else◌, Bool, true, false, List, [], ◌∷◌, ◌++◌, Option, none, some,
}

pub record Archiver : Type 0 where
  pub filename : Text
  -- Whether a reader is set, which takes precedence over the file name.
  pub has_reader : Bool
  pub pending_chdir : Text
  pub verbose : ℕ
  pub patterns : List Text
  pub bytes_per_block : ℕ
  pub fast_read : Bool
  pub sparse : Bool
  pub include_file_attribute : Bool
  pub transform : List (Text × Text)

-- `NewArchiver`
abbrev pub new_archiver : Archiver
new_archiver = record {
  filename = [];
  has_reader = false;
  pending_chdir = [];
  verbose = 0;
  patterns = [];
  bytes_per_block = 262144;
  fast_read = false;
  sparse = false;
  include_file_attribute = false;
  transform = [];
}

-- `WithArchiveFilePath`
abbrev pub with_archive_file_path : Text → Archiver → Archiver
with_archive_file_path filename t = record t { filename = filename }

-- `SetReader`, of a reader that is there
abbrev pub set_reader : Archiver → Archiver
set_reader t = record t { has_reader = true }

-- `SetVerbose`
abbrev pub set_verbose : ℕ → Archiver → Archiver
set_verbose level t = record t { verbose = level }

-- `SetSparse`
abbrev pub set_sparse : Bool → Archiver → Archiver
set_sparse sparse t = record t { sparse = sparse }

-- `SetBytesPerBlock`
abbrev pub set_bytes_per_block : ℕ → Archiver → Archiver
set_bytes_per_block size t = record t { bytes_per_block = size }

-- `WithPattern`
abbrev pub with_pattern : Text → Archiver → Archiver
with_pattern pattern t = record t { patterns = t.patterns ++ pattern ∷ [] }

-- `SetFastRead`
abbrev pub set_fast_read : Bool → Archiver → Archiver
set_fast_read fast_read t = record t { fast_read = fast_read }

-- `IncludeFileAttribute`
abbrev pub include_attributes : Archiver → Archiver
include_attributes t = record t { include_file_attribute = true }

-- `transform[oldName] = newName`
unfoldable pub set_name : Text → Text → List (Text × Text) → List (Text × Text)
set_name old new [] = (old, new) ∷ []
set_name old new ((name, target) ∷ names) =
    let rest = set_name old new names in
    if name == old then (name, new) ∷ names else (name, target) ∷ rest

-- `WithTransform`
abbrev pub with_transform : Text → Text → Archiver → Archiver
with_transform old new t = record t { transform = set_name old new t.transform }

-- `SetChdir`
abbrev pub set_chdir : Text → Archiver → Archiver
set_chdir dir t = record t { pending_chdir = dir }

-- `transform[name]`
unfoldable pub new_name : List (Text × Text) → Text → Option Text
new_name [] name = none
new_name ((old, new) ∷ names) name =
    let rest = new_name names name in if old == name then some new else rest

-- The flags of `archive_write_disk_set_options`.
pub data Flag : Type 0 where
  time perm owner acl xattr fflags secure_symlinks secure_nodotdot : Flag
  secure_noabsolutepaths unlink sparse_flag : Flag

-- `defaultExtractFlags`
abbrev default_extract_flags : List Flag
default_extract_flags =
    time ∷ secure_symlinks ∷ secure_nodotdot ∷ secure_noabsolutepaths ∷ unlink ∷ []

-- `extractFlags` in `ModeX`
unfoldable pub extract_flags : Archiver → List Flag
extract_flags t =
    default_extract_flags
    ++ (if t.include_file_attribute then perm ∷ owner ∷ acl ∷ xattr ∷ fflags ∷ [] else [])
    ++ (if t.sparse then sparse_flag ∷ [] else [])

-- Where the bytes of the archive come from.
pub data Source : Type 0 where
  reader stdin : Source
  file : Text → Source

-- The `switch` of `readArchive`
unfoldable pub source_of : Archiver → Source
source_of t =
    if t.has_reader
    then reader
    else if t.filename == []
    then stdin
    else if t.filename == b'-' ∷ []
    then stdin
    else file t.filename
