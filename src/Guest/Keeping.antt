-- ===== src/Guest/Keeping.antt =====
-- What the calls of the agent leave alone: a property `Q` of the system that each call keeps is kept
-- by the sequences of them.
use ovm_next.Base.{
  ℕ, zero, suc, Text, Bool, true, false, if◌then◌else◌, List, Option, none, some, Result, ok, ◌≡◌,
  ap, subst,
}
use ovm_next.Base.Action.{Action, ◌>>=◌, >>=-eq-ok, pure, fail, try, try-eq-ok, lift, lift-eq-ok}
use ovm_next.Guest.Polling.{Polled, retry, attempted}
use ovm_next.Guest.System.{System}

module _ {W : Type 0} (Q : W → Type 0) where
  -- A step that succeeds keeps `Q`.
  pub record Keeps {E A : Type 0} (m : Action E W A) : Type 0 where
    pub from : (w w' : W) (a : A) → m w ≡ (w', ok a) → Q w → Q w'

  pub keep_all : {E A : Type 0} (m : Action E W A) → ((w : W) → Q w → Q (m w).0) → Keeps m
  keep_all {E} {A} m h = record {
    from = λ w w' a e q. subst Q (ap (λ (r : W × Result E A). r.0) e) (h w q);
  }

  pub keep_bind :
      {E A B : Type 0} (m : Action E W A) (f : A → Action E W B)
      → Keeps m
      → ((a : A) → Keeps (f a))
      → Keeps (m >>= f)
  keep_bind m f h k = record {
    from = λ w w' b e q.
        let (a, v, first, rest) = >>=-eq-ok m f w e in
        (k a).from v w' b rest (h.from w v a first q);
  }

  pub keep_try :
      {E : Type 0} (e : E) (call : W → W × Bool)
      → ((w : W) → Q w → Q (call w).0)
      → Keeps (try e call)
  keep_try e call h = record {
    from = λ w w' a ok_ q. subst Q (ap (λ (r : W × Bool). r.0) (try-eq-ok e call w ok_)) (h w q);
  }

  pub keep_pure : {E A : Type 0} (a : A) → Keeps {E = E} (pure a)
  keep_pure a = keep_all (pure a) (λ w q. q)

  pub keep_fail : {E A : Type 0} (e : E) → Keeps {A = A} (fail e)
  keep_fail e = keep_all (fail e) (λ w q. q)

  pub keep_lift : {D E A : Type 0} (f : D → E) (m : Action D W A) → Keeps m → Keeps (lift f m)
  keep_lift f m h = record { from = λ w w' a e q. h.from w w' a (lift-eq-ok f m w e) q }

  pub keep_if :
      {E A : Type 0} (b : Bool) (m n : Action E W A)
      → Keeps m
      → Keeps n
      → Keeps (if b then m else n)
  keep_if true m n h k = h
  keep_if false m n h k = k

  module _ {A : Type 0} (tick : W → W × Bool) (attempt : W → W × Option A)
      (ticks : (w : W) → Q w → Q (tick w).0) (attempts : (w : W) → Q w → Q (attempt w).0) where
    attempted_keeps :
        (x : W × Option A) (rest : W × Polled A)
        → Q x.0
        → Q rest.0
        → Q (attempted tick attempt x rest).0
    attempted_keeps (w, some a) rest h k = h
    attempted_keeps (w, none) rest h k = k

    if_keeps : (b : Bool) (x y : W × Polled A) → Q x.0 → Q y.0 → Q (if b then x else y).0
    if_keeps true x y h k = h
    if_keeps false x y h k = k

    pub retry_keeps : (fuel : ℕ) (w : W) → Q w → Q (retry tick attempt fuel w).0
    unfolding retry
    retry_keeps zero w q = q
    retry_keeps (suc fuel) w q =
        let v = (attempt w).0 in
        let q₁ = attempts w q in
        let q₂ = ticks v q₁ in
        attempted_keeps (attempt w) _ q₁
          (if_keeps (tick v).1 _ _ (retry_keeps fuel (tick v).0 q₂) q₂)

  -- The calls of the agent that are not mounts.
  pub record IsKept (sys : System W) : Type 0 where
    pub tick : (w : W) → Q w → Q (sys.tick w).0
    pub make_dir : (p : Text) (mode : ℕ) (w : W) → Q w → Q (sys.make_dir p mode w).0
    pub write_file : (p s : Text) (mode : ℕ) (w : W) → Q w → Q (sys.write_file p s mode w).0
    pub remove : (p : Text) (w : W) → Q w → Q (sys.remove p w).0
    pub run_dropbear : (args : List Text) (w : W) → Q w → Q (sys.run_dropbear args w).0
    pub set_link_up : (name : Text) (w : W) → Q w → Q (sys.set_link_up name w).0
    pub open_dhcp : (name : Text) (w : W) → Q w → Q (sys.open_dhcp name w).0
    pub request_lease : (w : W) → Q w → Q (sys.request_lease w).0
    pub close_dhcp : (w : W) → Q w → Q (sys.close_dhcp w)
    pub configure_interface :
        (name conf : Text) (w : W) → Q w → Q (sys.configure_interface name conf w).0
    pub listen : (p : Text) (w : W) → Q w → Q (sys.listen p w).0
