-- ===== src/Storage/Devices.antt =====
-- The block device that preparing the var disk adds to the machine.
use ovm_next.Base.{
  Text, ◌==◌, ==_iff, if◌then◌else◌, false, List, [], ◌∷◌, ◌++◌, Option, some, ok, ◌≡◌, ◌≢◌, refl,
  ap, sym, ◌∙◌, subst, arith,
}
use ovm_next.Define.{var_data_disk_uuid}
use ovm_next.Storage.Step.{◌>>=◌, >>=-eq-ok}
use ovm_next.Storage.Host.{DiskHost, IsDiskHost, Image}
use ovm_next.Storage.Disk.{BlkDev, abs_disk_path, add_raw_disk_to_blk_list}
use ovm_next.Storage.Var.{reconcile_var_raw_disk, with_var_disk}
use ovm_next.Storage.Laws.{IsCanonical, IsWritten, full_canonical, inspect_image}
use ovm_next.Storage.VarLaws.{reconcile_var_raw_disk-IsWritten}

module _ {W : Type 0} (host : DiskHost W) (image_at : Text → W → Option Image)
    (laws : IsDiskHost host image_at) (p : Text) (canonical : IsCanonical p) where
  -- The device of the disk at `p` with the contents `d`, mounted at `mnt`.
  abbrev pub device : Image → Text → BlkDev
  device d mnt = record { uuid = d.uuid; fs_type = d.fs_type; path = p; mount_to = mnt }

  given_mount :
      (info : BlkDev) (mnt : Text)
      → mnt ≢ []
      → (if mnt == [] then info else record info { mount_to = mnt })
        ≡ record info { mount_to = mnt }
  given_mount info mnt given =
      let set : (mnt == []) ≡ false = ground (arith, ==_iff mnt []) in rw set refl

  add_raw_disk_image :
      (d : Image) (mnt : Text) (devs : List BlkDev) (w : W)
      → image_at p w ≡ some d
      → mnt ≢ []
      → add_raw_disk_to_blk_list host p mnt devs w ≡ (w, ok (devs ++ device d mnt ∷ []))
  unfolding add_raw_disk_to_blk_list ◌>>=◌
  add_raw_disk_image d mnt devs w at given =
      rw
        (
          full_canonical host image_at laws p canonical,
          inspect_image host image_at laws p canonical d w at,
        )
        (ap (λ dev. (w, ok (devs ++ dev ∷ []))) (given_mount _ mnt given))

  abs_disk_path_lem : (w : W) → p ≢ [] → abs_disk_path host p w ≡ (w, ok p)
  unfolding abs_disk_path
  abs_disk_path_lem w given =
      let set : (p == []) ≡ false = ground (arith, ==_iff p []) in
      rw (set, full_canonical host image_at laws p canonical) refl

  -- What holds when the var disk is prepared.
  abbrev pub IsPrepared : Text → Text → List BlkDev → List BlkDev → W → W → Type 0
  IsPrepared version mnt devs devs' w w' =
      ((d : Image) × (devs' ≡ devs ++ device d mnt ∷ [])
        × (d.uuid ≡ var_data_disk_uuid)
        × (image_at p w' ≡ some d))
      × IsWritten image_at p var_data_disk_uuid version w w'

  prepared :
      (version mnt : Text) (devs devs' : List BlkDev) (w w' : W)
      → mnt ≢ []
      → (reconcile_var_raw_disk host p version >>= λ _. add_raw_disk_to_blk_list host p mnt devs) w
        ≡ (w', ok devs')
      → IsPrepared version mnt devs devs' w w'
  prepared version mnt devs devs' w w' given e =
      let (_, w2, reconciled, e2) =
        >>=-eq-ok (reconcile_var_raw_disk host p version)
          (λ _. add_raw_disk_to_blk_list host p mnt devs) w e in
      let written =
        reconcile_var_raw_disk-IsWritten host image_at laws p canonical version w w2 reconciled in
      let (d, at, named, _) = written.image in
      let step = sym (add_raw_disk_image d mnt devs w2 at given) ∙ e2 in
      let same : w2 ≡ w' = ap (λ x. x.0) step in
      let added : devs' ≡ devs ++ device d mnt ∷ [] = cc in
      (
        (d, added, named, subst (λ v. image_at p v ≡ some d) same at),
        subst (IsWritten image_at p var_data_disk_uuid version w) same written,
      )

  -- On a host that behaves as documented, at a canonical path and with a mount point: if preparing
  -- the var disk succeeds, the machine has one more block device: the disk at the
  -- configured path, with the var disk's uuid, to be mounted where the configuration says; and the
  -- disk has the version that is asked for.
  pub with_var_disk-device :
      (version mnt uuid : Text) (devs devs' : List BlkDev) (w w' : W)
      → p ≢ []
      → mnt ≢ []
      → with_var_disk host
          (record { raw_disk_path = p; uuid = uuid; mnt = mnt; version = version })
          devs
          w
        ≡ (w', ok devs')
      → IsPrepared version mnt devs devs' w w'
  unfolding with_var_disk ◌>>=◌
  with_var_disk-device version mnt uuid devs devs' w w' path given e =
      prepared version mnt devs devs' w w' given (rw (abs_disk_path_lem w path) at e)
