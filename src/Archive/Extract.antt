-- ===== src/Archive/Extract.antt =====
-- `readArchive`: the loop over the entries of an archive, and `ModeX` around it.
use ovm_next.Base.{
  Text, ◌==◌, if◌then◌else◌, Bool, true, false, ◌&&◌, List, [], ◌∷◌, Option, none, some, Result, ok,
  err,
}
use ovm_next.Base.Action.{Action, ◌>>=◌, pure, try}
use ovm_next.Archive.Options.{Archiver, Flag, new_name, extract_flags}

-- An entry has a name, and the name of another entry if it is a hard link.
pub record Entry : Type 0 where
  pub pathname : Text
  pub hardlink : Text

-- What `archive_read_next_header` returns; the end of the list is `ARCHIVE_EOF`. A warning comes
-- with an entry.
pub data Header : Type 0 where
  entry : Entry → Header
  retry fatal : Header

pub data Code : Type 0 where
  code_ok code_failed code_fatal : Code

pub data ArchiveError : Type 0 where
  cancelled no_getwd no_writer no_matcher open_failed chdir_failed unreadable : ArchiveError
  not_extracted : Text → ArchiveError

pub record Library (W : Type 0) : Type 1 where
  -- `ctx.Done()`
  pub is_cancelled : W → Bool
  -- Whether every inclusion pattern has matched.
  pub all_matched : W → Bool
  pub read_header : Header → W → W
  pub is_excluded : Entry → W → W × Bool
  pub skip_data : W → W
  pub extract : Entry → W → W × Code
  pub getwd : W → Option Text
  pub chdir : Text → W → W × Bool
  -- `archive_match_new` and `archive_match_include_pattern` for each pattern
  pub match_new : List Text → W → W × Bool
  pub match_free : W → W
  pub write_disk_new : List Flag → W → W × Bool
  pub write_free : W → W
  pub open_archive : Archiver → W → W × Bool
  pub close_archive : W → W

-- The entry under its new names; `none` is an entry that is dropped.
abbrev pub with_hardlink : Entry → Option Text → Entry
with_hardlink e none = e
with_hardlink e (some new) = record e { hardlink = new }

unfoldable pub renamed_link : List (Text × Text) → Entry → Entry
renamed_link names e = if e.hardlink == [] then e else with_hardlink e (new_name names e.hardlink)

abbrev pub renamed_by : List (Text × Text) → Entry → Option Text → Option Entry
renamed_by names e none = some (renamed_link names e)
renamed_by names e (some new) =
    if new == [] then none else some (renamed_link names (record e { pathname = new }))

unfoldable pub renamed : List (Text × Text) → Entry → Option Entry
renamed names e = renamed_by names e (new_name names e.pathname)

module _ {W : Type 0} (lib : Library W) where
  abbrev pub Extraction : Type 0
  Extraction = W × Result ArchiveError (Unit {0})

  -- behind `archive_read_extract2`: whether to go on. A fatal error of a cancelled extraction is
  -- the cancellation.
  abbrev pub extracted : Text → W × Code → Extraction
  extracted name (w, code_ok) = (w, ok tt)
  extracted name (w, code_failed) = (w, err (not_extracted name))
  extracted name (w, code_fatal) =
      (w, err (if lib.is_cancelled w then cancelled else not_extracted name))

  -- An entry that is not excluded.
  abbrev pub extract_renamed : Text → Option Entry → W → Extraction
  extract_renamed name none w = (lib.skip_data w, ok tt)
  extract_renamed name (some e) w = extracted name (lib.extract e w)

  abbrev pub extract_unless : List (Text × Text) → Entry → W × Bool → Extraction
  extract_unless names e (w, true) = (lib.skip_data w, ok tt)
  extract_unless names e (w, false) = extract_renamed e.pathname (renamed names e) w

  -- One entry.
  unfoldable pub extract_entry : List (Text × Text) → Entry → Action ArchiveError W (Unit {0})
  extract_entry names e w =
      if e.pathname == [] then (w, ok tt) else extract_unless names e (lib.is_excluded e w)

  -- One header, once it is read.
  unfoldable pub take_header : List (Text × Text) → Header → Action ArchiveError W (Unit {0})
  take_header names (entry e) w = extract_entry names e w
  take_header names retry w = (w, ok tt)
  take_header names fatal w = (w, err (if lib.is_cancelled w then cancelled else unreadable))

  -- The loop, with the check behind it.
  unfoldable pub read_entries : Archiver → List Header → Action ArchiveError W (Unit {0})
  read_entries t [] w = if lib.is_cancelled w then (w, err cancelled) else (w, ok tt)
  read_entries t (h ∷ hs) w =
      let rest = read_entries t hs in
      if lib.is_cancelled w
      then (w, err cancelled)
      else if t.fast_read && lib.all_matched w
      then (w, ok tt)
      else (take_header t.transform h >>= λ _. rest) (lib.read_header h w)

  -- `doChdir`
  unfoldable pub do_chdir : Archiver → Action ArchiveError W (Unit {0})
  do_chdir t =
      if t.pending_chdir == [] then pure tt else try chdir_failed (lib.chdir t.pending_chdir)

  -- A step, and what `defer` has left to do.
  abbrev pub finally : (W → W) → Extraction → Extraction
  finally release (w, r) = (release w, r)

  abbrev opened : Archiver → List Header → W × Bool → Extraction
  opened t headers (w, false) = (w, err open_failed)
  opened t headers (w, true) =
      finally lib.close_archive ((do_chdir t >>= λ _. read_entries t headers) w)

  -- `readArchive`
  unfoldable pub read_archive : Archiver → List Header → Action ArchiveError W (Unit {0})
  read_archive t headers w = opened t headers (lib.open_archive t w)

  abbrev written : Archiver → List Header → W × Bool → Extraction
  written t headers (w, false) = (w, err no_writer)
  written t headers (w, true) = finally lib.write_free (read_archive t headers w)

  abbrev matched : Archiver → List Header → W × Bool → Extraction
  matched t headers (w, false) = (w, err no_matcher)
  matched t headers (w, true) =
      finally lib.match_free (written t headers (lib.write_disk_new (extract_flags t) w))

  abbrev located : Archiver → List Header → Option Text → W → Extraction
  located t headers none w = (w, err no_getwd)
  located t headers (some cwd) w =
      finally (λ v. (lib.chdir cwd v).0) (matched t headers (lib.match_new t.patterns w))

  -- `ModeX`
  unfoldable pub mode_x : Archiver → List Header → Action ArchiveError W (Unit {0})
  mode_x t headers w = located t headers (lib.getwd w) w
