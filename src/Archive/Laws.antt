-- ===== src/Archive/Laws.antt =====
-- Which entries of an archive are extracted, in which order and under which names.
use ovm_next.Base.{
  Text, ◌==◌, ==_iff, ==_refl, if◌then◌else◌, Bool, true, false, ◌&&◌, ◌||◌, List, [], ◌∷◌, Option,
  none, some, ok, err, ◌≡◌, ◌≢◌, refl, ap, ◌∙◌, Bool-cases, inl, inr, arith,
}
use ovm_next.Base.Action.{Action, >>=-eq, continue}
use ovm_next.Forward.Rules.{lookup}
use ovm_next.Archive.Options.{Archiver, set_name, new_name}
use ovm_next.Archive.Extract.{
  Entry, Header, entry, retry, fatal, ArchiveError, unreadable, Library, renamed, renamed_by,
  renamed_link, with_hardlink, extracted, extract_entry, take_header, read_entries,
}

-- The transform of `WithTransform` renames the name it is for and leaves the others alone.
pub new_name-set_name :
    (old new name : Text) (names : List (Text × Text))
    → (new_name (set_name old new names) old ≡ some new)
      × (name ≢ old → new_name (set_name old new names) name ≡ new_name names name)
unfolding set_name new_name
new_name-set_name old new name [] =
    (rw (==_refl old) refl, λ other. ground (arith, ==_iff old name))
new_name-set_name old new name ((n, target) ∷ names) =
    let (set, frame) = new_name-set_name old new name names in
    elim (Bool-cases (n == old)) [
      | inl same ↦ (
        rw (same, same) refl,
        λ other.
            let apart : (n == name) ≡ false = ground (arith, ==_iff n name, ==_iff n old) in
            rw (same, apart) refl,
      )
      | inr differs ↦ (
        rw (differs, differs) set,
        λ other. elim (Bool-cases (n == name)) [
          | inl here ↦ rw (differs, here) refl
          | inr there ↦ rw (differs, there) (frame other)
        ],
      )
    ]

-- The entries in front of a fatal error, and whether there is one.
unfoldable pub before_fatal : List Header → List Entry × Bool
before_fatal [] = ([], false)
before_fatal (entry e ∷ hs) = (e ∷ (before_fatal hs).0, (before_fatal hs).1)
before_fatal (retry ∷ hs) = before_fatal hs
before_fatal (fatal ∷ hs) = ([], true)

module _ (names : List (Text × Text)) (skips : Entry → Bool) where
  -- The name that the transforms give a name: its own, if none is for it.
  abbrev pub moved_to : Text → Option Text → Text
  moved_to name none = name
  moved_to name (some new) = new

  abbrev pub moved : Text → Text
  moved name = moved_to name (lookup name names)

  -- The entries that have a name, are not excluded and do not move to nothing; each behind the name
  -- that it has in the archive, with the name that it moves to, and if it is a hard link, with the
  -- name that the linked entry moves to.
  unfoldable pub selected : List Entry → List (Text × Entry)
  selected [] = []
  selected (e ∷ es) =
      let rest = selected es in
      if e.pathname == [] || skips e || moved e.pathname == []
      then rest
      else (
        e.pathname,
        record {
          pathname = moved e.pathname;
          hardlink = if e.hardlink == [] then [] else moved e.hardlink;
        },
      )
        ∷ rest

  new_name-lookup : (ns : List (Text × Text)) (name : Text) → new_name ns name ≡ lookup name ns
  unfolding new_name lookup
  new_name-lookup [] name = refl
  new_name-lookup ((old, new) ∷ ns) name = rw (new_name-lookup ns name) refl

  link_moved :
      (path link : Text) (o : Option Text)
      → (if link == []
          then record { pathname = path; hardlink = link }
          else with_hardlink (record { pathname = path; hardlink = link }) o)
        ≡ record { pathname = path; hardlink = if link == [] then [] else moved_to link o }
  link_moved path link o = elim (Bool-cases (link == [])) [
    | inl none_ ↦
        rw none_ (ap (λ l. record { pathname = path; hardlink = l }) ((==_iff link []).0 none_))
    | inr some_ ↦ rw some_ (with_link o)
  ]
    where
      with_link :
          (o : Option Text)
          → with_hardlink (record { pathname = path; hardlink = link }) o
            ≡ record { pathname = path; hardlink = moved_to link o }
      with_link none = refl
      with_link (some new) = refl

  renamed_by-moved :
      (e : Entry) (o : Option Text)
      → (e.pathname == []) ≡ false
      → renamed_by names e o ≡ (
          if moved_to e.pathname o == []
          then none
          else some (record {
            pathname = moved_to e.pathname o;
            hardlink = if e.hardlink == [] then [] else moved e.hardlink;
          }))
  unfolding renamed_link
  renamed_by-moved e none named =
      rw (named, new_name-lookup names e.hardlink)
        (ap some (link_moved e.pathname e.hardlink (lookup e.hardlink names)))
  renamed_by-moved e (some new) named = elim (Bool-cases (new == [])) [
    | inl gone ↦ rw gone refl
    | inr there ↦
        rw (there, new_name-lookup names e.hardlink)
          (ap some (link_moved new e.hardlink (lookup e.hardlink names)))
  ]

  -- An entry that has a name gets the names that `moved` says.
  pub renamed-moved :
      (e : Entry)
      → (e.pathname == []) ≡ false
      → renamed names e ≡ (
          if moved e.pathname == []
          then none
          else some (record {
            pathname = moved e.pathname;
            hardlink = if e.hardlink == [] then [] else moved e.hardlink;
          }))
  unfolding renamed
  renamed-moved e named =
      rw (new_name-lookup names e.pathname) (renamed_by-moved e (lookup e.pathname names) named)

module _ {W : Type 0} (lib : Library W) where
  -- Extracting entries one after the other, up to the first that fails.
  unfoldable pub extract_each : Bool → List (Text × Entry) → Action ArchiveError W (Unit {0})
  extract_each failing [] w = (w, if failing then err unreadable else ok tt)
  extract_each failing ((name, e) ∷ es) w =
      continue (extracted lib name (lib.extract e w)) (λ _. extract_each failing es)

  -- A library whose reading, matching and skipping leave the world as it is, and an extraction
  -- that is not cancelled.
  pub record IsQuiet (skips : Entry → Bool) : Type 0 where
    pub never : (w : W) → lib.is_cancelled w ≡ false
    pub read : (h : Header) (w : W) → lib.read_header h w ≡ w
    pub match : (e : Entry) (w : W) → lib.is_excluded e w ≡ (w, skips e)
    pub skip : (w : W) → lib.skip_data w ≡ w

  module _ (t : Archiver) (skips : Entry → Bool) (quiet : IsQuiet skips)
      (slow : t.fast_read ≡ false) where
    not_fast : (b : Bool) → (t.fast_read && b) ≡ false
    not_fast b = rw slow refl

    -- One round of the loop.
    round :
        (h : Header) (hs : List Header) (w : W)
        → read_entries lib t (h ∷ hs) w
          ≡ continue (take_header lib t.transform h w) (λ _. read_entries lib t hs)
    unfolding read_entries
    round h hs w =
        rw (quiet.never w, not_fast (lib.all_matched w), quiet.read h w)
          (>>=-eq (take_header lib t.transform h) (λ _. read_entries lib t hs) w)

    -- Reading an archive extracts just the entries that have a name, are not excluded and are not
    -- renamed to nothing, in the order of the archive and under their new names, up to the first
    -- that fails or a fatal error of the archive; there is no fast reading, and nothing but
    -- extracting has an effect.
    pub read_entries-extract_each :
        (hs : List Header) (w : W)
        → read_entries lib t hs w
          ≡ extract_each (before_fatal hs).1 (selected t.transform skips (before_fatal hs).0) w
    unfolding read_entries take_header extract_entry before_fatal selected extract_each
    read_entries-extract_each [] w = rw (quiet.never w) refl
    read_entries-extract_each (retry ∷ hs) w = round retry hs w ∙ read_entries-extract_each hs w
    read_entries-extract_each (fatal ∷ hs) w = round fatal hs w ∙ rw (quiet.never w) refl
    read_entries-extract_each (entry e ∷ hs) w =
        let rest = read_entries-extract_each hs in
        round (entry e) hs w ∙ elim (Bool-cases (e.pathname == [])) [
          | inl nameless ↦ rw nameless (rest w)
          | inr named ↦ elim (Bool-cases (skips e)) [
            | inl out ↦ rw (named, quiet.match e w, out, quiet.skip w) (rest w)
            | inr kept ↦ elim (Bool-cases (moved t.transform skips e.pathname == [])) [
              | inl dropped ↦
                  rw
                    (
                      named,
                      quiet.match e w,
                      kept,
                      renamed-moved t.transform skips e named,
                      dropped,
                      quiet.skip w,
                    )
                    (rest w)
              | inr stays ↦
                  rw (named, quiet.match e w, kept, renamed-moved t.transform skips e named, stays)
                    (λ i.
                      continue (extracted lib e.pathname (lib.extract (entry_of e) w))
                        (λ _ v. rest v i))
            ]
          ]
        ]
      where
        entry_of : Entry → Entry
        entry_of e = record {
          pathname = moved t.transform skips e.pathname;
          hardlink = if e.hardlink == [] then [] else moved t.transform skips e.hardlink;
        }
