-- ===== src/Guest/ForwarderLaws.antt =====
-- One rule that cannot be served does not keep the others from being served.
use ovm_next.Base.{
  ℕ, Text, ◌==◌, ==_iff, if◌then◌else◌, Bool, true, false, List, [], ◌∷◌, ◌++◌, Result, ok, err,
  ◌≡◌, ◌≢◌, refl, sym, subst, Bool-cases, inl, inr, All,
}
use ovm_next.Base.Action.{Action, ◌>>=◌, >>=-eq, continue, try, outcome}
use ovm_next.FilePath.{dir}
use ovm_next.Forward.Hosts.{ForwardRule}
use ovm_next.Guest.System.{System, Removal, removed, absent, refused}
use ovm_next.Guest.Forwarders.{
  ForwarderError, no_directory, not_listening, cleared, start_unix_forwarder, start_each,
  start_forwarders,
}
use ovm_next.Guest.Keeping.{IsKept}
use ovm_next.Forward.Rules.{Rules}
use ovm_next.Forward.Hosts.{start_unix_forwarders}

module _ {W : Type 0} (sys : System W) where
  -- The calls of one rule, one after the other.
  listen_at : ForwardRule → Action ForwarderError W (Unit {0})
  listen_at rule = do
    _ ← λ w. cleared sys (sys.remove rule.guest_path w)
    _ ← try no_directory (sys.make_dir (dir rule.guest_path) 0o755)
    try not_listening (sys.listen rule.guest_path)

  outcome_world : {E : Type 0} (e : E) (x : W × Bool) → (outcome e x).0 ≡ x.0
  outcome_world e (w, true) = refl
  outcome_world e (w, false) = refl

  cleared_world : (x : W × Removal) → (cleared sys x).0 ≡ x.0
  cleared_world (w, removed) = refl
  cleared_world (w, absent) = refl
  cleared_world (w, refused) = refl

  continue_world :
      {A B : Type 0} (Q : W → Type 0) (x : W × Result ForwarderError A)
      (f : A → Action ForwarderError W B)
      → Q x.0
      → ((a : A) (w : W) → Q w → Q (f a w).0)
      → Q (continue x f).0
  continue_world Q (w, ok a) f q k = k a w q
  continue_world Q (w, err e) f q k = q

  bind_world :
      {A B : Type 0} (Q : W → Type 0) (m : Action ForwarderError W A)
      (f : A → Action ForwarderError W B) (w : W)
      → Q (m w).0
      → ((a : A) (v : W) → Q v → Q (f a v).0)
      → Q ((m >>= f) w).0
  bind_world Q m f w q k = rw (>>=-eq m f w) (continue_world Q (m w) f q k)

  -- A property that the calls for a path keep is kept by its rule, whatever fails.
  pub start_unix_forwarder_keeps :
      (Q : W → Type 0) (rule : ForwardRule)
      → ((w : W) → Q w → Q (sys.remove rule.guest_path w).0)
      → ((w : W) → Q w → Q (sys.make_dir (dir rule.guest_path) 0o755 w).0)
      → ((w : W) → Q w → Q (sys.listen rule.guest_path w).0)
      → (w : W) → Q w
      → Q (start_unix_forwarder sys rule w).0
  unfolding start_unix_forwarder listen_at
  start_unix_forwarder_keeps Q rule removes makes listens w q =
      if_keeps (rule.guest_path == []) _ _ q (
        if_keeps (rule.host_path == []) _ _ q (
          bind_world Q _ _ w
            (subst Q (sym (cleared_world (sys.remove rule.guest_path w))) (removes w q))
            λ _ v q₁.
              bind_world Q _ _ v
                (subst Q
                  (sym (outcome_world no_directory (sys.make_dir (dir rule.guest_path) 0o755 v)))
                  (makes v q₁))
                λ _ u q₂.
                  subst Q (sym (outcome_world not_listening (sys.listen rule.guest_path u)))
                    (listens u q₂)))
    where
      if_keeps :
          (b : Bool) (m n : Action ForwarderError W (Unit {0}))
          → Q (m w).0
          → Q (n w).0
          → Q ((if b then m else n) w).0
      if_keeps true m n h k = h
      if_keeps false m n h k = k

  pub start_forwarders_keeps :
      (Q : W → Type 0)
      → IsKept Q sys
      → (rules : Rules) (w : W) → Q w
      → Q (start_forwarders sys rules w)
  unfolding start_forwarders start_each
  start_forwarders_keeps Q kept rules w q = go (start_unix_forwarders rules) w q
    where
      go : (rules : List ForwardRule) (w : W) → Q w → Q (start_each sys rules w)
      go [] w q = q
      go (rule ∷ rules) w q = go rules (start_unix_forwarder sys rule w).0 (
          start_unix_forwarder_keeps Q rule (kept.remove rule.guest_path)
            (kept.make_dir (dir rule.guest_path) 0o755) (kept.listen rule.guest_path) w q)

  -- The documented behaviour of sockets: a path that is listened on stays so through the calls for
  -- other paths, and a listening that succeeds is one. A path is free behind a removal that is not
  -- refused, and it stays so where its directory is made; a free path in a directory that takes its
  -- socket can be listened on.
  pub record IsListening (listening free takes : Text → W → Bool) : Type 0 where
    pub removes :
        (p q : Text) (w : W) → p ≢ q → listening q w ≡ true → listening q (sys.remove p w).0 ≡ true
    pub makes :
        (p q : Text) (mode : ℕ) (w : W)
        → listening q w ≡ true
        → listening q (sys.make_dir p mode w).0 ≡ true
    pub keeps :
        (p q : Text) (w : W) → p ≢ q → listening q w ≡ true → listening q (sys.listen p w).0 ≡ true
    pub listens :
        (p : Text) (w : W) → (sys.listen p w).1 ≡ true → listening p (sys.listen p w).0 ≡ true
    pub frees : (p : Text) (w : W) → (sys.remove p w).1 ≢ refused → free p (sys.remove p w).0 ≡ true
    pub stays_free :
        (p : Text) (mode : ℕ) (w : W)
        → free p w ≡ true
        → free p (sys.make_dir (dir p) mode w).0 ≡ true
    pub binds : (p : Text) (w : W) → free p w ≡ true → takes p w ≡ true → (sys.listen p w).1 ≡ true

  -- A rule with both of its paths, when it is its turn: what is at its path in the guest can be
  -- removed, and the directory of that path can be made and takes the socket.
  pub record IsServable (takes : Text → W → Bool) (rule : ForwardRule) (w : W) : Type 0 where
    pub guest : rule.guest_path ≢ []
    pub host : rule.host_path ≢ []
    pub removable : (sys.remove rule.guest_path w).1 ≢ refused
    pub placeable :
        (sys.make_dir (dir rule.guest_path) 0o755 (sys.remove rule.guest_path w).0).1 ≡ true
    pub takes_socket :
        takes rule.guest_path
          (sys.make_dir (dir rule.guest_path) 0o755 (sys.remove rule.guest_path w).0).0
        ≡ true

  module _ (listening free takes : Text → W → Bool) (laws : IsListening listening free takes) where
    cleared_ok : (x : W × Removal) → x.1 ≢ refused → cleared sys x ≡ (x.0, ok tt)
    cleared_ok (w, removed) h = refl
    cleared_ok (w, absent) h = refl
    cleared_ok (w, refused) h = absurd (h refl)

    outcome_ok : {E : Type 0} (e : E) (x : W × Bool) → x.1 ≡ true → outcome e x ≡ (x.0, ok tt)
    outcome_ok e (w, true) h = refl
    outcome_ok e (w, false) h = cc

    not_empty : (s : Text) → s ≢ [] → (s == []) ≡ false
    not_empty s h = elim (Bool-cases (s == [])) [
      | inl same ↦ absurd (h ((==_iff s []).0 same))
      | inr other ↦ other
    ]

    start_listens :
        (rule : ForwardRule) (w : W)
        → IsServable takes rule w
        → listening rule.guest_path (start_unix_forwarder sys rule w).0 ≡ true
    unfolding start_unix_forwarder
    start_listens rule w s =
        let v = (sys.remove rule.guest_path w).0 in
        let u = (sys.make_dir (dir rule.guest_path) 0o755 v).0 in
        let bound =
          laws.binds rule.guest_path u
            (laws.stays_free rule.guest_path 0o755 v (laws.frees rule.guest_path w s.removable))
            s.takes_socket in
        let third : Action ForwarderError W (Unit {0}) =
          try not_listening (sys.listen rule.guest_path) in
        let second : Action ForwarderError W (Unit {0}) =
          try no_directory (sys.make_dir (dir rule.guest_path) 0o755) >>= λ _. third in
        rw
          (
            not_empty rule.guest_path s.guest,
            not_empty rule.host_path s.host,
            >>=-eq (λ x. cleared sys (sys.remove rule.guest_path x)) (λ _. second) w,
            cleared_ok (sys.remove rule.guest_path w) s.removable,
            >>=-eq (try no_directory (sys.make_dir (dir rule.guest_path) 0o755)) (λ _. third) v,
            outcome_ok no_directory (sys.make_dir (dir rule.guest_path) 0o755 v) s.placeable,
            outcome_ok not_listening (sys.listen rule.guest_path u) bound,
          )
          (laws.listens rule.guest_path u bound)

    start_each_keeps :
        (q : Text) (rules : List ForwardRule) (w : W)
        → All (λ (r : ForwardRule). q ≢ r.guest_path) rules
        → listening q w ≡ true
        → listening q (start_each sys rules w) ≡ true
    unfolding start_each
    start_each_keeps q [] w h l = l
    start_each_keeps q (rule ∷ rules) w (other, others) l =
        let apart : rule.guest_path ≢ q = λ e. other (sym e) in
        start_each_keeps q rules (start_unix_forwarder sys rule w).0 others (
          start_unix_forwarder_keeps (λ v. listening q v ≡ true) rule
            (λ v. laws.removes rule.guest_path q v apart)
            (λ v. laws.makes (dir rule.guest_path) q 0o755 v)
            (λ v. laws.keeps rule.guest_path q v apart) w l)

    start_each-append :
        (before rules : List ForwardRule) (w : W)
        → start_each sys (before ++ rules) w ≡ start_each sys rules (start_each sys before w)
    unfolding start_each
    start_each-append [] rules w = refl
    start_each-append (rule ∷ before) rules w =
        start_each-append before rules (start_unix_forwarder sys rule w).0

    start_each_from :
        (rule : ForwardRule) (after : List ForwardRule) (w : W)
        → All (λ (r : ForwardRule). rule.guest_path ≢ r.guest_path) after
        → IsServable takes rule w
        → listening rule.guest_path (start_each sys (rule ∷ after) w) ≡ true
    unfolding start_each
    start_each_from rule after w others s =
        start_each_keeps rule.guest_path after (start_unix_forwarder sys rule w).0 others
          (start_listens rule w s)

    -- On a system that behaves as documented: a rule that can be served when it is its turn, and
    -- whose path in the guest no later rule has, is listened for when all rules were started,
    -- whatever becomes of the others.
    pub start_each-listens :
        (before after : List ForwardRule) (rule : ForwardRule) (w : W)
        → All (λ (r : ForwardRule). rule.guest_path ≢ r.guest_path) after
        → IsServable takes rule (start_each sys before w)
        → listening rule.guest_path (start_each sys (before ++ rule ∷ after) w) ≡ true
    start_each-listens before after rule w others s =
        rw (start_each-append before (rule ∷ after) w)
          (start_each_from rule after (start_each sys before w) others s)
