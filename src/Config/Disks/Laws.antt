-- ===== src/Config/Disks/Laws.antt =====
-- The disks that `WithDisk` adds to a configuration.
use ovm_next.Base.{
  Text, ◌==◌, ==_iff, trim_space, split, ℕ, true, false, List, [], ◌∷◌, ◌++◌, ◌≡◌, ◌≢◌, refl, All,
  All-append, arith, Bool-cases, inl, inr,
}
use ovm_next.Config.{Config, RawDisk, no_disk}
use ovm_next.Config.Disks.{
  comma, read_options, fill_version, fill_uuid, read_disk, add_disk, with_disk,
}

-- A disk with a version and a uuid.
abbrev pub IsComplete : RawDisk → Type 0
IsComplete raw = (raw.version ≢ []) × (raw.uuid ≢ [])

module _ (fresh : ℕ → Text) where
  pub with_disk_none : (c : Config) (n : ℕ) → with_disk fresh [] c n ≡ (c, n)
  unfolding with_disk
  with_disk_none c n = refl

  with_disk_blank :
      (spec : Text) (specs : List Text) (c : Config) (n : ℕ)
      → (trim_space spec == []) ≡ true
      → with_disk fresh (spec ∷ specs) c n ≡ with_disk fresh specs c n
  unfolding with_disk
  with_disk_blank spec specs c n h = rw h refl

  pub with_disk_given :
      (spec : Text) (specs : List Text) (c : Config) (n : ℕ)
      → (trim_space spec == []) ≡ false
      → with_disk fresh (spec ∷ specs) c n ≡ (
          let (raw, n') = read_disk fresh (trim_space spec) n in
          with_disk fresh specs (add_disk c raw) n')
  unfolding with_disk
  with_disk_given spec specs c n h = rw h refl

fill_version-version : (raw : RawDisk) → (fill_version raw).version ≢ []
unfolding fill_version
fill_version-version raw = elim (Bool-cases (raw.version == [])) [
  | inl h ↦ rw h (λ e. cc)
  | inr h ↦ rw h (λ e. ground (arith, ==_iff raw.version []))
]

module _ (fresh : ℕ → Text) (named : (n : ℕ) → fresh n ≢ []) where
  fill_uuid-IsComplete :
      (raw : RawDisk) (n : ℕ) → raw.version ≢ [] → IsComplete (fill_uuid fresh raw n).0
  unfolding fill_uuid
  fill_uuid-IsComplete raw n version = elim (Bool-cases (raw.uuid == [])) [
    | inl h ↦ rw h (version, named n)
    | inr h ↦ rw h (version, λ e. ground (arith, ==_iff raw.uuid []))
  ]

  read_disk-IsComplete : (spec : Text) (n : ℕ) → IsComplete (read_disk fresh spec n).0
  unfolding read_disk
  read_disk-IsComplete spec n =
      let parts = split comma spec in
      let raw = read_options (record no_disk { raw_disk_path = trim_space parts.0 }) parts.1 in
      fill_uuid-IsComplete (fill_version raw) n (fill_version-version raw)

  -- If every external disk of the configuration has a version and a uuid, so has every one after
  -- `WithDisk`, whatever the specs, as long as no generated uuid is empty.
  pub with_disk-IsComplete :
      (specs : List Text) (c : Config) (n : ℕ)
      → All IsComplete c.external_disks
      → All IsComplete (with_disk fresh specs c n).0.external_disks
  unfolding add_disk
  with_disk-IsComplete [] c n h = rw (with_disk_none fresh c n) h
  with_disk-IsComplete (spec ∷ specs) c n h = elim (Bool-cases (trim_space spec == [])) [
    | inl blank ↦ rw (with_disk_blank fresh spec specs c n blank) (with_disk-IsComplete specs c n h)
    | inr given ↦ rw (with_disk_given fresh spec specs c n given) (
        with_disk-IsComplete specs _ _ (
          All-append IsComplete c.external_disks _ h
            (read_disk-IsComplete (trim_space spec) n, tt)))
  ]

-- Calls of `WithDisk` in a row add what one call with all specs adds.
pub with_disk-append :
    (fresh : ℕ → Text) (specs more : List Text) (c : Config) (n : ℕ)
    → with_disk fresh (specs ++ more) c n
      ≡ with_disk fresh more (with_disk fresh specs c n).0 (with_disk fresh specs c n).1
unfolding with_disk
with_disk-append fresh [] more c n = refl
with_disk-append fresh (spec ∷ specs) more c n = with_disk-append fresh specs more _ _
