-- ===== src/Storage/VarLaws.antt =====
-- What preparing the var disk ensures.
use ovm_next.Base.{
  Text, ◌==◌, ==_iff, if◌then◌else◌, Bool, true, false, not, ◌&&◌, ◌||◌, Option, none, some,
  Option-cases, ok, err, ◌≡◌, ◌≢◌, refl, sym, ◌∙◌, subst, ap, Bool-cases, inl, inr, arith, [],
}
use ovm_next.Define.{var_data_disk_uuid}
use ovm_next.Storage.Step.{◌>>=◌, DiskError}
use ovm_next.Storage.Host.{DiskHost, IsDiskHost, Image, Stat}
use ovm_next.Storage.Disk.{disk_version_xattrs, recreate_raw_disk}
use ovm_next.Storage.Var.{reconcile_existing_var, reconcile_var_raw_disk}
use ovm_next.Storage.Laws.{
  IsCanonical, IsWritten, version_state, inspect_image, inspect-none, needs_disk_regeneration_image,
  recreate_raw_disk-IsWritten, generate_raw_disk-IsWritten,
}

-- The disk is the var disk, and its version is the one that is asked for.
abbrev pub is_current : Image → Text → Bool
is_current d v = d.uuid == var_data_disk_uuid && not (v == []) && d.version == v

version_choice :
    {A : Type 0} (b c e : Bool) (again keep : A)
    → (b ≡ false → e ≡ true → c ≡ false)
    → (if not (version_state b c e).1 || (version_state b c e).0 then again else keep)
      ≡ (if not b && e then keep else again)
version_choice true c e again keep h = refl
version_choice false true true again keep h = absurd (let k = h refl refl in cc)
version_choice false true false again keep h = refl
version_choice false false true again keep h = refl
version_choice false false false again keep h = refl

module _ {W : Type 0} (host : DiskHost W) (image_at : Text → W → Option Image)
    (laws : IsDiskHost host image_at) (p : Text) (canonical : IsCanonical p) where
  -- A version that is asked for and found is not empty.
  found_version :
      (d : Image) (v : Text)
      → (v == []) ≡ false
      → (d.version == v) ≡ true
      → (d.version == []) ≡ false
  found_version d v h k = rw (sym ((==_iff d.version v).0 k)) at h

  -- An existing disk is kept if it is current and is written anew otherwise.
  pub reconcile_existing_var_lem :
      (d : Image) (v : Text) (w : W)
      → image_at p w ≡ some d
      → reconcile_existing_var host p v w ≡ (
          if is_current d v
          then (w, ok tt)
          else recreate_raw_disk host p var_data_disk_uuid (disk_version_xattrs v) w)
  unfolding reconcile_existing_var ◌>>=◌
  reconcile_existing_var_lem d v w e = elim (Bool-cases (d.uuid == var_data_disk_uuid)) [
    | inr other ↦ rw (inspect_image host image_at laws p canonical d w e, other) refl
    | inl same ↦
        rw
          (
            inspect_image host image_at laws p canonical d w e,
            same,
            needs_disk_regeneration_image host image_at laws p canonical d v w e,
          )
          (version_choice (v == []) (d.version == []) (d.version == v) _ _ (found_version d v))
  ]

  kept :
      (d : Image) (v : Text) (w : W)
      → image_at p w ≡ some d
      → is_current d v ≡ true
      → IsWritten image_at p var_data_disk_uuid v w w
  kept d v w e h = record {
    image = (
      d,
      e,
      ground (arith, ==_iff d.uuid var_data_disk_uuid),
      λ given. ground (arith, ==_iff d.version v),
    );
    frame = λ q other. refl;
  }

  current_of :
      (d : Image) (v : Text)
      → d.uuid ≡ var_data_disk_uuid
      → v ≢ []
      → d.version ≡ v
      → is_current d v ≡ true
  current_of d v u given same =
      ground (arith, ==_iff d.uuid var_data_disk_uuid, ==_iff v [], ==_iff d.version v)

  existing_image :
      (d : Image) (v : Text) (w w' : W)
      → image_at p w ≡ some d
      → reconcile_existing_var host p v w ≡ (w', ok tt)
      → IsWritten image_at p var_data_disk_uuid v w w'
  existing_image d v w w' at e =
      let step = sym (reconcile_existing_var_lem d v w at) ∙ e in
      elim (Bool-cases (is_current d v)) [
        | inl current ↦
            let same : w ≡ w' = (let r = rw current at step in ap (λ x. x.0) r) in
            subst (IsWritten image_at p var_data_disk_uuid v w) same (kept d v w at current)
        | inr stale ↦
            recreate_raw_disk-IsWritten host image_at laws p canonical var_data_disk_uuid v w w'
              (rw stale at step)
      ]

  existing_none :
      (v : Text) (w : W)
      → image_at p w ≡ none
      → reconcile_existing_var host p v w ≡ (w, err DiskError.inspect_failed)
  unfolding reconcile_existing_var ◌>>=◌
  existing_none v w e = rw (inspect-none host image_at laws p canonical w e) refl

  existing :
      (v : Text) (w w' : W)
      → reconcile_existing_var host p v w ≡ (w', ok tt)
      → IsWritten image_at p var_data_disk_uuid v w w'
  existing v w w' e = elim (Option-cases (image_at p w)) [
    | inl nothing ↦ absurd (let bad = sym (existing_none v w nothing) ∙ e in cc)
    | inr (d, at) ↦ existing_image d v w w' at e
  ]

  -- On a host that behaves as documented, and at a canonical path: if preparing the var disk succeeds, the disk has the var disk's uuid and, if a version is asked
  -- for, that version, and no other disk changed.
  pub reconcile_var_raw_disk-IsWritten :
      (v : Text) (w w' : W)
      → reconcile_var_raw_disk host p v w ≡ (w', ok tt)
      → IsWritten image_at p var_data_disk_uuid v w w'
  unfolding reconcile_var_raw_disk
  reconcile_var_raw_disk-IsWritten v w w' e = go (host.stat p w) refl
    where
      go : (s : Stat) → host.stat p w ≡ s → IsWritten image_at p var_data_disk_uuid v w w'
      go Stat.missing h =
          generate_raw_disk-IsWritten host image_at laws p canonical var_data_disk_uuid v w w'
            (rw h at e)
      go Stat.unreadable h = absurd (let bad = rw h at e in cc)
      go Stat.present h = existing v w w' (rw h at e)

  -- On a host that behaves as documented, and at a canonical path: a disk that is on the host as the var disk in the version that is asked for is left as it is,
  -- and preparing it succeeds, whatever else the host does.
  pub reconcile_var_raw_disk_of_current :
      (d : Image) (v : Text) (w : W)
      → host.stat p w ≡ Stat.present
      → image_at p w ≡ some d
      → d.uuid ≡ var_data_disk_uuid
      → v ≢ []
      → d.version ≡ v
      → reconcile_var_raw_disk host p v w ≡ (w, ok tt)
  unfolding reconcile_var_raw_disk
  reconcile_var_raw_disk_of_current d v w s at u given same =
      rw s (reconcile_existing_var_lem d v w at ∙ rw (current_of d v u given same) refl)
