-- ===== src/Storage/ExternalLaws.antt =====
-- What preparing a user's disk ensures.
use ovm_next.Base.{
  Text, codes, ◌==◌, ==_iff, if◌then◌else◌, Bool, true, false, not, ◌&&◌, Option, some, ok, ◌≡◌,
  ◌≢◌, refl, sym, ◌∙◌, subst, ap, Bool-cases, inl, inr, arith, [], ◌++◌,
}
use ovm_next.Config.{RawDisk}
use ovm_next.Storage.Step.{pure, ◌>>=◌, >>=-eq-ok}
use ovm_next.Storage.Host.{DiskHost, IsDiskHost, Image, Frame}
use ovm_next.Storage.Disk.{disk_version_xattrs, generate_raw_disk, recreate_raw_disk, default_mount}
use ovm_next.Storage.External.{handle_existing, create_disk, draw_uuid}
use ovm_next.Storage.Laws.{
  IsCanonical, IsWritten, version_state, inspect_image, needs_disk_regeneration_image,
  recreate_raw_disk-IsWritten, generate_raw_disk-IsWritten,
}

-- The disk has a version, another one is asked for.
abbrev pub is_outdated : Image → Text → Bool
is_outdated d v = not (v == []) && not (d.version == []) && not (d.version == v)

version_outdated :
    {A : Type 0} (b c e : Bool) (again keep : A)
    → (if (version_state b c e).1 && (version_state b c e).0 then again else keep)
      ≡ (if not b && not c && not e then again else keep)
version_outdated true c e again keep = refl
version_outdated false true e again keep = refl
version_outdated false false e again keep = refl

module _ {W : Type 0} (host : DiskHost W) (image_at : Text → W → Option Image)
    (laws : IsDiskHost host image_at) (spec : RawDisk)
    (canonical : IsCanonical spec.raw_disk_path) where
  -- The spec of a disk that exists with the contents `d`.
  abbrev pub adopted : Image → RawDisk
  adopted d = record spec {
    uuid = d.uuid;
    mnt = if spec.mnt == [] then default_mount host d.uuid else spec.mnt;
  }

  handle_existing_lem :
      (d : Image) (w : W)
      → image_at spec.raw_disk_path w ≡ some d
      → handle_existing host spec w ≡ (
          if is_outdated d spec.version
          then (recreate_raw_disk host spec.raw_disk_path d.uuid (disk_version_xattrs spec.version)
                >>= λ _. pure (adopted d))
              w
          else (w, ok (adopted d)))
  unfolding handle_existing ◌>>=◌
  handle_existing_lem d w e =
      rw
        (
          inspect_image host image_at laws spec.raw_disk_path canonical d w e,
          needs_disk_regeneration_image host image_at laws spec.raw_disk_path canonical d
              spec.version w e,
        )
        (version_outdated (spec.version == []) (d.version == []) (d.version == spec.version) _ _)

  -- On a host that behaves as documented, and at a canonical path: an existing disk of the user without a version is left as it is, and so is one in the version
  -- that is asked for: the disk is adopted with the uuid that it has.
  pub handle_existing_of_current :
      (d : Image) (w : W)
      → image_at spec.raw_disk_path w ≡ some d
      → is_outdated d spec.version ≡ false
      → handle_existing host spec w ≡ (w, ok (adopted d))
  handle_existing_of_current d w e h = handle_existing_lem d w e ∙ rw h refl

  outdated_written :
      (d : Image) (w w' : W) (spec' : RawDisk)
      → (recreate_raw_disk host spec.raw_disk_path d.uuid (disk_version_xattrs spec.version)
            >>= λ _. pure (adopted d))
          w
        ≡ (w', ok spec')
      → (spec' ≡ adopted d) × IsWritten image_at spec.raw_disk_path d.uuid spec.version w w'
  outdated_written d w w' spec' e =
      let (_, w1, first, rest) =
        >>=-eq-ok
          (recreate_raw_disk host spec.raw_disk_path d.uuid (disk_version_xattrs spec.version))
          (λ _. pure (adopted d)) w e in
      let written =
        recreate_raw_disk-IsWritten host image_at laws spec.raw_disk_path canonical d.uuid
          spec.version w w1 first in
      let same : w1 ≡ w' = ap (λ x. x.0) rest in
      (cc, subst (IsWritten image_at spec.raw_disk_path d.uuid spec.version w) same written)

  -- The returned spec is the adopted one, the disk has the uuid of `d` and, where `d` is outdated,
  -- the version of the spec, and no other disk changed.
  abbrev pub IsAdopted : Image → W → W → RawDisk → Type 0
  IsAdopted d w w' spec' =
      (spec' ≡ adopted d)
      × ((d' : Image) × (image_at spec.raw_disk_path w' ≡ some d')
          × (d'.uuid ≡ d.uuid)
          × (is_outdated d spec.version ≡ true → d'.version ≡ spec.version))
      × Frame image_at spec.raw_disk_path w w'

  -- On a host that behaves as documented, and at a canonical path: if preparing an existing disk of the user succeeds, the disk keeps its uuid, whatever uuid was
  -- asked for; if it has a version and another one is asked for, it has that one afterwards; and no
  -- other disk changed.
  pub handle_existing-keeps_uuid :
      (d : Image) (w w' : W) (spec' : RawDisk)
      → image_at spec.raw_disk_path w ≡ some d
      → handle_existing host spec w ≡ (w', ok spec')
      → IsAdopted d w w' spec'
  handle_existing-keeps_uuid d w w' spec' at e =
      let step = sym (handle_existing_lem d w at) ∙ e in
      elim (Bool-cases (is_outdated d spec.version)) [
        | inr current ↦
            let r : (w, ok (adopted d)) ≡ (w', ok spec') = rw current at step in
            let same : w ≡ w' = ap (λ x. x.0) r in
            (
              cc,
              (
                d,
                subst (λ v. image_at spec.raw_disk_path v ≡ some d) same at,
                refl,
                λ outdated. cc,
              ),
              subst (Frame image_at spec.raw_disk_path w) same (λ q other. refl),
            )
        | inl outdated ↦
            let (same, written) = outdated_written d w w' spec' (rw outdated at step) in
            let (d', at', u, v) = written.image in
            (
              same,
              (d', at', u, λ _. v (λ e. ground (arith, ==_iff spec.version []))),
              written.frame,
            )
      ]

  draw_uuid_lem :
      (w w' : W) (uuid : Text)
      → draw_uuid host spec.uuid w ≡ (w', ok uuid)
      → (spec.uuid ≢ [] → uuid ≡ spec.uuid) × ((q : Text) → image_at q w' ≡ image_at q w)
  draw_uuid_lem w w' uuid e = elim (Bool-cases (spec.uuid == [])) [
    | inl unset ↦
        let r : ((host.new_uuid w).0, ok (host.new_uuid w).1) ≡ (w', ok uuid) = rw unset at e in
        let same : (host.new_uuid w).0 ≡ w' = ap (λ x. x.0) r in
        (
          λ given. absurd (given ((==_iff spec.uuid []).0 unset)),
          subst (λ v. (q : Text) → image_at q v ≡ image_at q w) same (λ q. laws.new_uuid_image q w),
        )
    | inr set ↦
        let r : (w, ok spec.uuid) ≡ (w', ok uuid) = rw set at e in
        let same : w ≡ w' = ap (λ x. x.0) r in
        (λ given. cc, subst (λ v. (q : Text) → image_at q v ≡ image_at q w) same (λ q. refl))
  ]

  filled_mount : (uuid : Text) → (if spec.mnt == [] then codes "/mnt/" ++ uuid else spec.mnt) ≢ []
  filled_mount uuid = elim (Bool-cases (spec.mnt == [])) [
    | inl unset ↦ rw unset (λ e. cc)
    | inr set ↦ rw set (λ e. ground (arith, ==_iff spec.mnt []))
  ]

  abbrev created : Text → RawDisk
  created uuid = record spec {
    uuid = uuid;
    mnt = if spec.mnt == [] then codes "/mnt/" ++ uuid else spec.mnt;
  }

  -- On a host that behaves as documented, and at a canonical path: if making a missing disk of the user succeeds, it has the uuid in the spec that is returned,
  -- which is the one asked for if there is one, and the version asked for if there is one; its mount
  -- point is not empty, and no other disk changed.
  pub create_disk-IsWritten :
      (w w' : W) (spec' : RawDisk)
      → create_disk host spec w ≡ (w', ok spec')
      → IsWritten image_at spec.raw_disk_path spec'.uuid spec.version w w'
        × (spec.uuid ≢ [] → spec'.uuid ≡ spec.uuid)
        × (spec'.mnt ≢ [])
  unfolding create_disk
  create_disk-IsWritten w w' spec' e =
      let (uuid, w1, drawn, e1) = >>=-eq-ok (draw_uuid host spec.uuid) _ w e in
      let (_, w2, generated, e2) =
        >>=-eq-ok
          (generate_raw_disk host spec.raw_disk_path uuid (disk_version_xattrs spec.version))
          (λ _. pure (created uuid)) w1 e1 in
      let (given, unchanged) = draw_uuid_lem w w1 uuid drawn in
      let written =
        generate_raw_disk-IsWritten host image_at laws spec.raw_disk_path canonical uuid
          spec.version w1 w2 generated in
      let at_end : w2 ≡ w' = ap (λ x. x.0) e2 in
      let result : created uuid ≡ spec' = cc in
      subst
        (λ s.
          IsWritten image_at spec.raw_disk_path s.uuid spec.version w w'
          × (spec.uuid ≢ [] → s.uuid ≡ spec.uuid)
          × (s.mnt ≢ []))
        result
        (
          subst (IsWritten image_at spec.raw_disk_path uuid spec.version w) at_end record {
            image = written.image;
            frame = λ q other. written.frame q other ∙ unchanged q;
          },
          given,
          filled_mount uuid,
        )
