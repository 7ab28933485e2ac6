-- ===== src/Examples/Archives.antt =====
-- Archives, with a library whose world is the list of the names that were extracted.
use ovm_next.Base.{Text, codes, ◌==◌, Bool, true, false, [], ◌∷◌, ◌++◌, some, ok, List, ◌≡◌, refl}
use ovm_next.Forward.Rules.{lookup}
use ovm_next.Archive.Options.{Archiver, new_archiver, with_transform, set_name, new_name}
use ovm_next.Archive.Extract.{
  Entry, Header, entry, retry, code_ok, Library, renamed, renamed_link, read_entries,
}
use ovm_next.Archive.Laws.{before_fatal, selected, extract_each, IsQuiet, read_entries-extract_each}

abbrev skips : Entry → Bool
skips e = e.pathname == codes "x"

abbrev log_library : Library (List Text)
log_library = record {
  is_cancelled = λ w. false;
  all_matched = λ w. false;
  read_header = λ h w. w;
  is_excluded = λ e w. (w, skips e);
  skip_data = λ w. w;
  extract = λ e w. (w ++ e.pathname ∷ [], code_ok);
  getwd = λ w. some (codes "/");
  chdir = λ p w. (w, true);
  match_new = λ ps w. (w, true);
  match_free = λ w. w;
  write_disk_new = λ fs w. (w, true);
  write_free = λ w. w;
  open_archive = λ t w. (w, true);
  close_archive = λ w. w;
}

log_library-IsQuiet : IsQuiet log_library skips
log_library-IsQuiet = record {
  never = λ w. refl;
  read = λ h w. refl;
  match = λ e w. refl;
  skip = λ w. refl;
}

abbrev named : Text → Header
named name = entry (record { pathname = name; hardlink = [] })

abbrev headers : List Header
headers = named (codes "a") ∷ retry ∷ named (codes "x") ∷ named (codes "b") ∷ named (codes "c") ∷ []

abbrev renaming : Archiver
renaming = with_transform (codes "a") (codes "d") (with_transform (codes "b") [] new_archiver)

read_entries-extract_each_example :
    read_entries log_library renaming headers []
    ≡ extract_each log_library
        (before_fatal headers).1
        (selected renaming.transform skips (before_fatal headers).0)
        []
read_entries-extract_each_example =
    read_entries-extract_each log_library renaming skips log_library-IsQuiet refl headers []

-- `a` becomes `d`, `b` is dropped, `x` is excluded.
test_extracted :
    extract_each log_library
      (before_fatal headers).1
      (selected renaming.transform skips (before_fatal headers).0)
      []
    ≡ (codes "d" ∷ codes "c" ∷ [], ok tt)
unfolding lookup before_fatal selected extract_each renamed renamed_link new_name set_name ◌==◌
test_extracted = refl
