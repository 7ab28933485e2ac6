-- ===== src/Mount/Guest/Laws.antt =====
-- What the guest's table of mounts names when mounting succeeds.
use ovm_next.Base.{
  Text, codes, ◌==◌, ==_iff, Bool, true, false, not, List, [], ◌∷◌, ◌++◌, append_assoc,
  if◌then◌else◌, Option, none, some, Result, ok, err, ◌≡◌, refl, ap, sym, ◌∙◌, subst, Bool-cases,
  inl, inr,
}
use ovm_next.Mount.{Mount, virtiofs}
use ovm_next.Mount.Guest.{
  Action, MountError, Guest, make_mount_cmdline, option_args, mount, mount_each, then_rest,
  then_line, run_line, then_mount,
}

abbrev pub is_some : Option Text → Bool
is_some none = false
is_some (some s) = true

-- What stands stays.
abbrev pub or_else : Option Text → Option Text → Option Text
or_else (some s) other = some s
or_else none other = other

pub or_else_assoc : (x y z : Option Text) → or_else (or_else x y) z ≡ or_else x (or_else y z)
or_else_assoc (some s) y z = refl
or_else_assoc none y z = refl

pub or_else-none : (x : Option Text) → or_else x none ≡ x
or_else-none none = refl
or_else-none (some s) = refl

-- What a mount is made of, as the program `mount` is told.
abbrev pub source_of : Action → Mount → Text
source_of Action.uuid_action m = codes "UUID=" ++ m.uuid
source_of Action.virtio_fs_action m = m.tag
source_of Action.pseudo_fs_action m = m.kind

-- What the first mount for the target is made of
abbrev pub first_source : Action → Text → List Mount → Option Text
first_source action t [] = none
first_source action t (m ∷ ms) =
    if m.target == t then some (source_of action m) else first_source action t ms

-- The documented behaviour of the guest: its table of mounts names for a target what was mounted
-- there last, by the last two arguments of a `mount` that succeeds, and a target is mounted if it is
-- named there.
pub record IsGuest {W : Type 0} (guest : Guest W) (carried : Text → W → Option Text) : Type 0 where
  pub listed : (t : Text) (w : W) → guest.is_mounted t w ≡ is_some (carried t w)
  pub carries :
      (front : List Text) (source target : Text) (w w' : W)
      → guest.run_mount (front ++ source ∷ target ∷ []) w ≡ (w', true)
      → carried target w' ≡ some source
  pub others :
      (front : List Text) (source target t : Text) (w : W)
      → (target == t) ≡ false
      → carried t (guest.run_mount (front ++ source ∷ target ∷ []) w).0 ≡ carried t w
  pub mkdir : (t p : Text) (w : W) → carried t (guest.mkdir_all p w).0 ≡ carried t w

-- The line, if it is one, ends in the two arguments.
abbrev HasEnd : Text → Text → Result MountError (List Text) → Type 0
HasEnd source target line =
    (args : List Text)
    → line ≡ ok args
    → (front : List Text) × (args ≡ front ++ source ∷ target ∷ [])

err-HasEnd : (s t : Text) (x : MountError) → HasEnd s t (err x)
err-HasEnd s t x args e = absurd cc

ok-HasEnd : (s t a b : Text) (front : List Text) → HasEnd s t (ok (front ++ a ∷ b ∷ s ∷ t ∷ []))
ok-HasEnd s t a b front args e =
    let same : front ++ a ∷ b ∷ s ∷ t ∷ [] ≡ args = cc in
    (front ++ a ∷ b ∷ [], sym same ∙ sym (append_assoc front (a ∷ b ∷ []) (s ∷ t ∷ [])))

if-HasEnd :
    (s t : Text) (b : Bool) (x y : Result MountError (List Text))
    → HasEnd s t x
    → HasEnd s t y
    → HasEnd s t (if b then x else y)
if-HasEnd s t true x y h k = h
if-HasEnd s t false x y h k = k

-- The last arguments of a command line are what is mounted, and where.
make_mount_cmdline-HasEnd :
    (m : Mount) (action : Action)
    → HasEnd (source_of action m) m.target (make_mount_cmdline m action)
unfolding make_mount_cmdline
make_mount_cmdline-HasEnd m Action.uuid_action =
    let s = codes "UUID=" ++ m.uuid in
    let ordered = if m.kind == codes "ext4" then codes "-o" ∷ codes "data=ordered" ∷ [] else [] in
    if-HasEnd s m.target (m.uuid == []) _ _ (err-HasEnd s m.target _) (
      if-HasEnd s m.target (m.kind == []) _ _ (err-HasEnd s m.target _)
        (ok-HasEnd s m.target (codes "-t") m.kind (option_args m ++ ordered)))
make_mount_cmdline-HasEnd m Action.virtio_fs_action =
    if-HasEnd m.tag m.target (not (m.kind == virtiofs)) _ _ (err-HasEnd m.tag m.target _) (
      if-HasEnd m.tag m.target (m.tag == []) _ _ (err-HasEnd m.tag m.target _)
        (ok-HasEnd m.tag m.target (codes "-t") m.kind (option_args m)))
make_mount_cmdline-HasEnd m Action.pseudo_fs_action =
    if-HasEnd m.kind m.target (m.kind == []) _ _ (err-HasEnd m.kind m.target _)
      (ok-HasEnd m.kind m.target (codes "-t") m.kind (option_args m))

module _ {W : Type 0} (guest : Guest W) (carried : Text → W → Option Text)
    (laws : IsGuest guest carried) where
  abbrev Outcome : Type 0
  Outcome = W × Result MountError (Unit {0})

  -- A target carries the source, and the others what they carried.
  pub record IsMounting (target source : Text) (w w' : W) : Type 0 where
    pub this : carried target w' ≡ some source
    pub rest : (t : Text) → (target == t) ≡ false → carried t w' ≡ carried t w

  then_mount_ok :
      (args : List Text) (r : W × Bool) (w' : W)
      → then_mount guest args r ≡ (w', ok tt)
      → r ≡ (w', true)
  then_mount_ok args (w, true) w' e = cc
  then_mount_ok args (w, false) w' e = cc

  run_mount-IsMounting :
      (front args : List Text) (source target : Text) (w w' : W)
      → args ≡ front ++ source ∷ target ∷ []
      → guest.run_mount args w ≡ (w', true)
      → IsMounting target source w w'
  run_mount-IsMounting front args source target w w' same ran =
      let e = subst (λ a. guest.run_mount a w ≡ (w', true)) same ran in
      record {
        this = laws.carries front source target w w' e;
        rest = λ t other.
            subst (λ v. carried t v ≡ carried t w) (ap (λ (r : W × Bool). r.0) e)
              (laws.others front source target t w other);
      }

  run_line-IsMounting :
      (m : Mount) (action : Action) (line : Result MountError (List Text)) (w w' : W)
      → make_mount_cmdline m action ≡ line
      → run_line guest line w ≡ (w', ok tt)
      → IsMounting m.target (source_of action m) w w'
  run_line-IsMounting m action (err x) w w' k e = absurd cc
  run_line-IsMounting m action (ok args) w w' k e =
      let (front, same) = make_mount_cmdline-HasEnd m action args k in
      run_mount-IsMounting front args (source_of action m) m.target w w' same
        (then_mount_ok args (guest.run_mount args w) w' e)

  then_line-IsMounting :
      (m : Mount) (action : Action) (r : W × Bool) (w' : W)
      → then_line guest m action r ≡ (w', ok tt)
      → IsMounting m.target (source_of action m) r.0 w'
  then_line-IsMounting m action (w, false) w' e = absurd cc
  then_line-IsMounting m action (w, true) w' e =
      run_line-IsMounting m action (make_mount_cmdline m action) w w' refl e

  pub mount-IsMounting :
      (m : Mount) (action : Action) (w w' : W)
      → mount guest m action w ≡ (w', ok tt)
      → IsMounting m.target (source_of action m) w w'
  unfolding mount
  mount-IsMounting m action w w' e =
      let h = then_line-IsMounting m action (guest.mkdir_all m.target w) w' e in
      record { this = h.this; rest = λ t other. h.rest t other ∙ laws.mkdir t m.target w }

  pub then_rest_ok :
      (r : Outcome) (rest : W → Outcome) (w' : W)
      → then_rest guest r rest ≡ (w', ok tt)
      → (v : W) × (r ≡ (v, ok tt)) × (rest v ≡ (w', ok tt))
  then_rest_ok (v, ok tt) rest w' e = (v, refl, e)
  then_rest_ok (v, err x) rest w' e = absurd cc

  -- One round: a target that is mounted already or is mounted now.
  round : Action → Mount → W → Outcome
  round action m w = if guest.is_mounted m.target w then (w, ok tt) else mount guest m action w

  standing : (x y z : Option Text) → is_some x ≡ true → or_else x y ≡ or_else x z
  standing none y z h = absurd cc
  standing (some s) y z h = refl

  missing : (x : Option Text) → is_some x ≡ false → x ≡ none
  missing none h = refl
  missing (some s) h = absurd cc

  round-carried :
      (action : Action) (m : Mount) (w v : W) (t : Text) (later : Option Text)
      → round action m w ≡ (v, ok tt)
      → or_else (carried t v) later
        ≡ or_else (carried t w) (if m.target == t then some (source_of action m) else later)
  unfolding round
  round-carried action m w v t later e = elim (Bool-cases (guest.is_mounted m.target w)) [
    | inl there ↦
        let r : (w, ok tt) ≡ (v, ok tt) = rw there at e in
        let same : w ≡ v = ap (λ x. x.0) r in
        let unchanged : carried t v ≡ carried t w = ap (carried t) (sym same) in
        elim (Bool-cases (m.target == t)) [
          | inl this ↦
              let stood : is_some (carried t w) ≡ true =
                ap (λ x. is_some (carried x w)) (sym ((==_iff m.target t).0 this))
                ∙ sym (laws.listed m.target w)
                ∙ there in
              ap (λ x. or_else x later) unchanged ∙ standing (carried t w) _ _ stood
          | inr other ↦ rw (other, unchanged) refl
        ]
    | inr absent ↦
        let h = mount-IsMounting m action w v (rw absent at e) in
        elim (Bool-cases (m.target == t)) [
          | inl this ↦
              let same = (==_iff m.target t).0 this in
              let bare : carried t w ≡ none = missing (carried t w) (
                ap (λ x. is_some (carried x w)) (sym same)
                ∙ sym (laws.listed m.target w)
                ∙ absent) in
              let now : carried t v ≡ some (source_of action m) =
                ap (λ x. carried x v) (sym same) ∙ h.this in
              rw (this, bare, now) refl
          | inr other ↦ rw (other, h.rest t other) refl
        ]
  ]

  mount_each-cons :
      (action : Action) (m : Mount) (ms : List Mount) (w : W)
      → mount_each guest action (m ∷ ms) w
        ≡ then_rest guest (round action m w) (mount_each guest action ms)
  unfolding mount_each round
  mount_each-cons action m ms w = refl

  mount_each-nil :
      (action : Action) (w w' : W) → mount_each guest action [] w ≡ (w', ok tt) → w ≡ w'
  unfolding mount_each
  mount_each-nil action w w' e = ap (λ x. x.0) e

  -- In a guest that behaves as documented, if mounting a list of mounts succeeds: a target that was
  -- mounted carries what it carried, and any other what the first mount for it is made of.
  pub mount_each-carried :
      (action : Action) (ms : List Mount) (w w' : W) (t : Text)
      → mount_each guest action ms w ≡ (w', ok tt)
      → carried t w' ≡ or_else (carried t w) (first_source action t ms)
  mount_each-carried action [] w w' t e =
      ap (carried t) (sym (mount_each-nil action w w' e)) ∙ sym (or_else-none (carried t w))
  mount_each-carried action (m ∷ ms) w w' t e =
      let (v, first, rest) =
        then_rest_ok (round action m w) (mount_each guest action ms) w'
          (sym (mount_each-cons action m ms w) ∙ e) in
      mount_each-carried action ms v w' t rest
      ∙ round-carried action m w v t (first_source action t ms) first
