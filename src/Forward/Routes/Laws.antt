-- ===== src/Forward/Routes/Laws.antt =====
-- What the routes of a set of rules are.
use ovm_next.Base.{
  Text, ==_iff, ==_refl, false, List, [], ◌∷◌, ◌≡◌, refl, ℕ, zero, suc, ◌+◌, ◌-◌, ◌≤◌, ◌<◌, map, ok,
  err, All, length, arith, some, none, ap, ◌∙◌,
}
use mathlib.Core.List.{Permᴰ}
use native.Mathlib.Decide.{dec_lt}
use ovm_next.Forward.Rules.{Rules, value_at, lookup, HasDistinctKeys}
use ovm_next.Forward.Routes.{
  base_port, u32_limit, Route, index_overflow, port_by_index, is_used, route_of, prepend,
  build_loop, keys_of,
}

-- The routes of the keys in their order, the ports counted up from index `i`.
abbrev pub numbered : (Text → Text) → List Text → ℕ → List Route
numbered f [] i = []
numbered f (key ∷ keys) i = route_of key f (base_port + i) ∷ numbered f keys (suc i)

is_used_of_below : (port : ℕ) (used : List ℕ) → All (λ p. p < port) used → is_used port used ≡ false
unfolding is_used
is_used_of_below port [] h = refl
is_used_of_below port (p ∷ ps) h = ground (arith, is_used_of_below port ps h.1)

All-below_mono : (m n : ℕ) (used : List ℕ) → m ≤ n → All (λ p. p < m) used → All (λ p. p < n) used
All-below_mono m n [] h below = tt
All-below_mono m n (p ∷ ps) h below = (omega arith, All-below_mono m n ps h below.1)

-- The invariant of the loop: every port used so far is below the next one.
below_next :
    (i : ℕ) (used : List ℕ)
    → All (λ p. p < base_port + i) used
    → All (λ p. p < base_port + suc i) ((base_port + i) ∷ used)
below_next i used h =
    (omega arith, All-below_mono (base_port + i) (base_port + suc i) used (omega arith) h)

port_by_index_in_range : (i : ℕ) → base_port + i < u32_limit → port_by_index i ≡ ok (base_port + i)
unfolding port_by_index
port_by_index_in_range i h = ground arith

port_by_index_overflow :
    (i : ℕ) → u32_limit ≤ base_port + i → port_by_index i ≡ err (index_overflow i)
unfolding port_by_index
port_by_index_overflow i h = ground arith

build_loop_step :
    (f : Text → Text) (key : Text) (keys : List Text) (i : ℕ) (used : List ℕ)
    → base_port + i < u32_limit
    → All (λ p. p < base_port + i) used
    → build_loop f (key ∷ keys) i used
      ≡ prepend
          (route_of key f (base_port + i))
          (build_loop f keys (suc i) ((base_port + i) ∷ used))
unfolding build_loop
build_loop_step f key keys i used h below =
    rw (port_by_index_in_range i h, is_used_of_below (base_port + i) used below)

pub build_loop-numbered :
    (f : Text → Text) (keys : List Text) (i : ℕ) (used : List ℕ)
    → base_port + i + length keys ≤ u32_limit
    → All (λ p. p < base_port + i) used
    → build_loop f keys i used ≡ ok (numbered f keys i)
build_loop-numbered f [] i used h below = unfold build_loop in refl
build_loop-numbered f (key ∷ keys) i used h below =
    build_loop_step f key keys i used (omega arith) below
    ∙ ap (prepend (route_of key f (base_port + i))) (
        build_loop-numbered f keys (suc i) ((base_port + i) ∷ used) (omega arith)
          (below_next i used below))

-- Past the last port the loop stops with an error, whatever the keys.
pub build_loop_overflow :
    (f : Text → Text) (keys : List Text) (i : ℕ) (used : List ℕ)
    → base_port + i ≤ u32_limit
    → u32_limit < base_port + i + length keys
    → All (λ p. p < base_port + i) used
    → build_loop f keys i used ≡ err (index_overflow (u32_limit - base_port))
build_loop_overflow f [] i used h k below = absurd (omega arith)
build_loop_overflow f (key ∷ keys) i used h k below = elim (dec_lt (base_port + i) u32_limit) [
  | yes p ↦
      build_loop_step f key keys i used p below
      ∙ ap (prepend (route_of key f (base_port + i))) (
          build_loop_overflow f keys (suc i) ((base_port + i) ∷ used) (omega arith) (omega arith)
            (below_next i used below))
  | no p ↦
      let last : i ≡ u32_limit - base_port = omega arith in
      let stop = port_by_index_overflow i (omega arith) in
      unfold build_loop in rw (stop, build_loop) (ap (λ n. err (index_overflow n)) last)
]

-- What the routes list, against the keys that they number.
pub numbered-guest_path :
    (f : Text → Text) (keys : List Text) (i : ℕ)
    → map (λ r. r.guest_path) (numbered f keys i) ≡ keys
numbered-guest_path f [] i = refl
numbered-guest_path f (key ∷ keys) i = ap (◌∷◌ key) (numbered-guest_path f keys (suc i))

abbrev pub entry : Route → Text × Text
entry r = (r.guest_path, r.host_path)

pub numbered-entry :
    (f : Text → Text) (keys : List Text) (i : ℕ)
    → map entry (numbered f keys i) ≡ map (λ key. (key, f key)) keys
numbered-entry f [] i = refl
numbered-entry f (key ∷ keys) i = ap (◌∷◌ (key, f key)) (numbered-entry f keys (suc i))

-- The numbers from `start` on, `n` of them.
abbrev pub consecutive : ℕ → ℕ → List ℕ
consecutive start zero = []
consecutive start (suc n) = start ∷ consecutive (start + 1) n

pub numbered-vsock_port :
    (f : Text → Text) (keys : List Text) (i : ℕ)
    → map (λ r. r.vsock_port) (numbered f keys i) ≡ consecutive (base_port + i) (length keys)
numbered-vsock_port f [] i = refl
numbered-vsock_port f (key ∷ keys) i =
    let next : base_port + suc i ≡ base_port + i + 1 = omega arith in
    ap (◌∷◌ (base_port + i)) (rw (← next) (numbered-vsock_port f keys (suc i)))

pub length_of_perm {ℓ} : {A : Type ℓ} {l l' : List A} → Permᴰ l l' → length l ≡ length l'
length_of_perm Permᴰ.nil = refl
length_of_perm (Permᴰ.cons e p) = ap suc (length_of_perm p)
length_of_perm (Permᴰ.swap e e') = refl
length_of_perm (Permᴰ.trans p q) = length_of_perm p ∙ length_of_perm q

pub length-keys_of : (m : Rules) → length (keys_of m) ≡ length m
length-keys_of [] = refl
length-keys_of (rule ∷ m) = ap suc (length-keys_of m)

-- Looking every key up again gives the entries back.
abbrev pub IsListed : Rules → Text × Text → Type 0
IsListed m rule = lookup rule.0 m ≡ some rule.1

All-IsListed_cons :
    (k v : Text) (m l : Rules)
    → lookup k m ≡ none
    → All (IsListed m) l
    → All (IsListed ((k, v) ∷ m)) l
unfolding lookup
All-IsListed_cons k v m [] h a = tt
All-IsListed_cons k v m (rule ∷ l) h (p, a) =
    (ground (arith, ==_iff k rule.0), All-IsListed_cons k v m l h a)

pub All-IsListed : (m : Rules) → HasDistinctKeys m → All (IsListed m) m
All-IsListed [] d = tt
All-IsListed ((k, v) ∷ m) (fresh, d) =
    (unfold lookup in rw (==_refl k), All-IsListed_cons k v m m fresh (All-IsListed m d))

value_at_of_lookup : (k v : Text) (m : Rules) → lookup k m ≡ some v → value_at k m ≡ v
value_at_of_lookup k v m e = ground arith

pub relist : (m l : Rules) → All (IsListed m) l → map (λ key. (key, value_at key m)) (keys_of l) ≡ l
relist m [] a = refl
relist m ((k, v) ∷ l) (p, a) = cc (value_at_of_lookup k v m p, relist m l a)
