-- ===== src/Mount/Guest/Devices.antt =====
-- Which block devices are mounted when `MountBlockDevices` succeeds.
use ovm_next.Base.{
  Text, codes, ◌==◌, if◌then◌else◌, true, false, List, [], ◌∷◌, ◌++◌, append-nil, Option, none,
  some, ok, err, ◌≡◌, refl, sym, ap, ◌∙◌, subst, Bool-cases, inl, inr, All,
}
use ovm_next.Mount.{Mount}
use ovm_next.Storage.Disk.{BlkDev}
use ovm_next.Mount.Guest.{
  Action, MountError, Guest, mount, mount_each, sort_devices, device_mount, is_var,
  mount_block_devices, mount_sorted,
}
use ovm_next.Mount.Guest.Laws.{
  IsGuest, or_else, or_else_assoc, or_else-none, first_source, mount-IsMounting, mount_each-carried,
  then_rest_ok,
}

module _ (var : Option Mount) (external : List Mount) (d : BlkDev) (disks : List BlkDev) where
  pub sort_var :
      is_var d ≡ true
      → sort_devices var external (d ∷ disks) ≡ sort_devices (some (device_mount d)) external disks
  unfolding sort_devices
  sort_var h = rw h refl

  pub sort_external :
      is_var d ≡ false
      → sort_devices var external (d ∷ disks)
        ≡ sort_devices var (external ++ device_mount d ∷ []) disks
  unfolding sort_devices
  sort_external h = rw h refl

-- What the first device for the target is named by; the var disk is not among them.
abbrev pub first_device : Text → List BlkDev → Option Text
first_device t [] = none
first_device t (d ∷ disks) =
    let rest = first_device t disks in
    if is_var d then rest else if d.mount_to == t then some (codes "UUID=" ++ d.uuid) else rest

-- No var disk has this mount point.
abbrev pub IsElsewhere : Text → List BlkDev → Type 0
IsElsewhere t = All (λ d. is_var d ≡ true → (d.mount_to == t) ≡ false)

first_source-append :
    (t : Text) (ms ns : List Mount)
    → first_source Action.uuid_action t (ms ++ ns)
      ≡ or_else (first_source Action.uuid_action t ms) (first_source Action.uuid_action t ns)
first_source-append t [] ns = refl
first_source-append t (m ∷ ms) ns = elim (Bool-cases (m.target == t)) [
  | inl this ↦ rw this refl
  | inr other ↦ rw other (first_source-append t ms ns)
]

no_more : (var : Option Mount) (external : List Mount) → (sort_devices var external []).1 ≡ external
unfolding sort_devices
no_more var external = refl

-- The external devices are those that are not the var disk, in order.
sort_devices-first :
    (t : Text) (var : Option Mount) (external : List Mount) (disks : List BlkDev)
    → first_source Action.uuid_action t (sort_devices var external disks).1
      ≡ or_else (first_source Action.uuid_action t external) (first_device t disks)
sort_devices-first t var external [] =
    ap (first_source Action.uuid_action t) (no_more var external ∙ sym (append-nil external))
    ∙ first_source-append t external []
sort_devices-first t var external (d ∷ disks) = elim (Bool-cases (is_var d)) [
  | inl it_is ↦
      rw (sort_var var external d disks it_is, it_is)
        (sort_devices-first t (some (device_mount d)) external disks)
  | inr other ↦
      let h = sort_devices-first t var (external ++ device_mount d ∷ []) disks in
      rw (sort_external var external d disks other, other)
        (h
          ∙ ap (λ x. or_else x (first_device t disks))
              (first_source-append t external (device_mount d ∷ []))
          ∙ or_else_assoc (first_source Action.uuid_action t external)
              (first_source Action.uuid_action t (device_mount d ∷ [])) (first_device t disks)
          ∙ ap (or_else (first_source Action.uuid_action t external)) (head_device d))
]
  where
    head_device :
        (d : BlkDev)
        → or_else (first_source Action.uuid_action t (device_mount d ∷ [])) (first_device t disks)
          ≡ (if d.mount_to == t then some (codes "UUID=" ++ d.uuid) else first_device t disks)
    head_device d = elim (Bool-cases (d.mount_to == t)) [
      | inl this ↦ rw this refl
      | inr away ↦ rw away refl
    ]

-- The var disk that is found has its mount point elsewhere, too.
sort_devices-elsewhere :
    (t : Text) (var : Option Mount) (external : List Mount) (disks : List BlkDev)
    → IsElsewhere t disks
    → ((m : Mount) → var ≡ some m → (m.target == t) ≡ false)
    → (m : Mount) → (sort_devices var external disks).0 ≡ some m
    → (m.target == t) ≡ false
unfolding sort_devices
sort_devices-elsewhere t var external [] h k m e = k m e
sort_devices-elsewhere t var external (d ∷ disks) (this, h) k m e = elim (Bool-cases (is_var d)) [
  | inl it_is ↦
      sort_devices-elsewhere t (some (device_mount d)) external disks h
        (λ n f.
          let same : device_mount d ≡ n = cc in
          subst (λ (x : Mount). (x.target == t) ≡ false) same (this it_is))
        m (rw (sort_var var external d disks it_is) at e)
  | inr other ↦
      sort_devices-elsewhere t var (external ++ device_mount d ∷ []) disks h k m
        (rw (sort_external var external d disks other) at e)
]

no_devices : (external : List Mount) → (sort_devices none external []).0 ≡ none
unfolding sort_devices
no_devices external = refl

sort_devices_without_var :
    (external : List Mount) (disks : List BlkDev)
    → All (λ d. is_var d ≡ false) disks
    → (sort_devices none external disks).0 ≡ none
sort_devices_without_var external [] h = no_devices external
sort_devices_without_var external (d ∷ disks) (other, h) =
    rw (sort_external none external d disks other)
      (sort_devices_without_var (external ++ device_mount d ∷ []) disks h)

module _ {W : Type 0} (guest : Guest W) where
  mount_sorted-none :
      (sorted : Option Mount × List Mount) (w : W)
      → sorted.0 ≡ none
      → mount_sorted guest sorted w ≡ (w, err MountError.no_var_disk)
  mount_sorted-none (none, external) w h = refl
  mount_sorted-none (some var, external) w h = cc

  -- Block devices of which none is the var disk are refused, and nothing is mounted.
  pub mount_block_devices_without_var :
      (disk : BlkDev) (disks : List BlkDev) (w : W)
      → All (λ d. is_var d ≡ false) (disk ∷ disks)
      → mount_block_devices guest (disk ∷ disks) w ≡ (w, err MountError.no_var_disk)
  unfolding mount_block_devices
  mount_block_devices_without_var disk disks w h =
      mount_sorted-none (sort_devices none [] (disk ∷ disks)) w
        (sort_devices_without_var [] (disk ∷ disks) h)

  module _ (carried : Text → W → Option Text) (laws : IsGuest guest carried) where
    mount_sorted-carried :
        (t : Text) (sorted : Option Mount × List Mount) (w w' : W)
        → ((m : Mount) → sorted.0 ≡ some m → (m.target == t) ≡ false)
        → mount_sorted guest sorted w ≡ (w', ok tt)
        → carried t w' ≡ or_else (carried t w) (first_source Action.uuid_action t sorted.1)
    mount_sorted-carried t (none, external) w w' away e = absurd cc
    mount_sorted-carried t (some var, external) w w' away e =
        let (v, first, rest) =
          then_rest_ok guest carried laws (mount guest var Action.uuid_action w)
            (mount_each guest Action.uuid_action external) w' e in
        let h = mount-IsMounting guest carried laws var Action.uuid_action w v first in
        mount_each-carried guest carried laws Action.uuid_action external v w' t rest
        ∙ ap (λ x. or_else x (first_source Action.uuid_action t external))
            (h.rest t (away var refl))

    -- In a guest that behaves as documented, if mounting the block devices succeeds: at every place
    -- that is not the mount point of a var disk, what was mounted still is, and else the first of
    -- the other devices with that mount point is mounted there, by its uuid, if there is one.
    pub mount_block_devices-carried :
        (disks : List BlkDev) (w w' : W) (t : Text)
        → IsElsewhere t disks
        → mount_block_devices guest disks w ≡ (w', ok tt)
        → carried t w' ≡ or_else (carried t w) (first_device t disks)
    unfolding mount_block_devices
    mount_block_devices-carried [] w w' t away e =
        let same : w ≡ w' = ap (λ x. x.0) e in
        ap (carried t) (sym same) ∙ sym (or_else-none (carried t w))
    mount_block_devices-carried (disk ∷ disks) w w' t away e =
        mount_sorted-carried t (sort_devices none [] (disk ∷ disks)) w w'
          (sort_devices-elsewhere t none [] (disk ∷ disks) away (λ m f. absurd cc)) e
        ∙ ap (or_else (carried t w)) (sort_devices-first t none [] (disk ∷ disks))
