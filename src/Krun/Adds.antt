-- ===== src/Krun/Adds.antt =====
-- Steps of libkrun's configuration by the devices that they add.
use ovm_next.Base.{
  ℕ, Text, Bool, true, List, [], ◌∷◌, ◌++◌, append_assoc, append-nil, map, some, Result, ok, ◌≡◌,
  sym, ap, ◌∙◌,
}
use ovm_next.Base.Action.{◌>>=◌, >>=-eq-ok, pure, try, try-eq-ok, of_result, of_result-eq-ok}
use ovm_next.Forward.Routes.{Route}
use ovm_next.Build.Spec.{Machine}
use ovm_next.Krun.Calls.{
  KrunCall, KrunError, failed, panicked, KrunHost, Krun, must, check, add_vsock_port, add_disk,
  add_virtiofs,
}
use ovm_next.Krun.Create.{add_ports}

-- What the guest sees of a call.
pub data Device : Type 0 where
  port : ℕ → Text → Device
  disk : Text → Device
  -- A shared directory, by its tag and its path on the host
  shared : Text → Text → Device

abbrev pub devices_of : KrunCall → List Device
devices_of (add_vsock_port n path) = port n path ∷ []
devices_of (add_disk path) = disk path ∷ []
devices_of (add_virtiofs tag path) = shared tag path ∷ []
devices_of _ = []

module _ {W : Type 0} (host : KrunHost W) (devices : W → List Device) where
  -- The documented behaviour of the calls: one that succeeds adds its device behind the others, one
  -- that fails adds none, and nothing else adds any.
  pub record IsKrunHost : Type 0 where
    -- `filepath.EvalSymlinks`, of links that stay as they are
    pub real_path : Text → Text
    pub resolved : (p real : Text) (w : W) → host.resolve p w ≡ some real → real ≡ real_path p
    pub added :
        (c : KrunCall) (w w' : W)
        → host.call c w ≡ (w', true)
        → devices w' ≡ devices w ++ devices_of c
    pub plain : (c : KrunCall) (w : W) → devices_of c ≡ [] → devices (host.call c w).0 ≡ devices w
    pub console : (tty : Bool) (w : W) → devices (host.open_console tty w).0 ≡ devices w
    pub log : (path : Text) (w : W) → devices (host.open_log path w).0 ≡ devices w

  -- A step that adds these devices where it succeeds.
  pub record Adds {A : Type 0} (ds : List Device) (s : Krun W A) : Type 0 where
    pub lem : (w w' : W) (a : A) → s w ≡ (w', ok a) → devices w' ≡ devices w ++ ds

module _ {W : Type 0} {host : KrunHost W} {devices : W → List Device} where
  infixl 1 ◌⟫◌
  pub ◌⟫◌ :
      {A B : Type 0} {ds es : List Device} {s : Krun W A} {f : A → Krun W B}
      → Adds host devices ds s
      → ((a : A) → Adds host devices es (f a))
      → Adds host devices (ds ++ es) (s >>= f)
  ◌⟫◌ {ds} {es} {s} {f} h k = record {
    lem = λ w w' b e.
        let (a, v, first, second) = >>=-eq-ok s f w e in
        (k a).lem v w' b second
        ∙ ap (λ xs. xs ++ es) (h.lem w v a first)
        ∙ append_assoc (devices w) ds es;
  }

  pub nothing : {A : Type 0} (a : A) → Adds host devices [] (pure {E = KrunError} {W = W} a)
  nothing a = record {
    lem =
        λ w w' b e. let same : w ≡ w' = cc in ap devices (sym same) ∙ sym (append-nil (devices w));
  }

  pub read-Adds :
      {D A : Type 0} (f : D → KrunError) (r : Result D A)
      → Adds host devices {A = A} [] (of_result f r)
  read-Adds f r = record {
    lem = λ w w' a e.
        let (same, _) = of_result-eq-ok f r w e in ap devices same ∙ sym (append-nil (devices w));
  }

  pub known-Adds :
      {D A B : Type 0} (f : D → KrunError) {r : Result D A} {a : A} {ds : List Device}
      (k : A → Krun W B)
      → r ≡ ok a
      → Adds host devices ds (k a)
      → Adds host devices ds (of_result f r >>= k)
  known-Adds f {r} {a} {ds} k known h = record {
    lem = λ w w' b e.
        let (a', v, first, second) = >>=-eq-ok (of_result f r) k w e in
        let (still, found) = of_result-eq-ok f r w first in
        let same : a' ≡ a = cc in let then_ = rw (same, still) at second in h.lem w w' b then_;
  }

  pub quiet-Adds :
      (e : KrunError) (call : W → W × Bool)
      → ((w : W) → devices (call w).0 ≡ devices w)
      → Adds host devices [] (try e call)
  quiet-Adds x call still = record {
    lem = λ w w' a e.
        let done : call w ≡ (w', true) = try-eq-ok x call w e in
        ap (λ r. devices r.0) (sym done) ∙ still w ∙ sym (append-nil (devices w));
  }

module _ {W : Type 0} {host : KrunHost W} {devices : W → List Device}
    (laws : IsKrunHost host devices) where
  pub must-Adds : (c : KrunCall) → Adds host devices (devices_of c) (must host c)
  unfolding must
  must-Adds c = record {
    lem = λ w w' a e. laws.added c w w' (try-eq-ok (panicked c) (host.call c) w e);
  }

  pub check-Adds : (c : KrunCall) → Adds host devices (devices_of c) (check host c)
  unfolding check
  check-Adds c = record {
    lem = λ w w' a e. laws.added c w w' (try-eq-ok (failed c) (host.call c) w e);
  }

  pub add_ports-Adds :
      (m : Machine) (rs : List Route)
      → Adds host devices (map (λ r. port r.vsock_port r.host_path) rs) (add_ports host m rs)
  unfolding add_ports
  add_ports-Adds m [] = nothing tt
  add_ports-Adds m (r ∷ rs) =
      check-Adds (add_vsock_port r.vsock_port r.host_path) ⟫ λ _. add_ports-Adds m rs
