-- ===== src/Base/Decimal.antt =====
-- Numbers in decimal (`strconv.FormatUint`), and `host:port` (`net.JoinHostPort`).
use Prim.Native.Nat.{ℕ, zero, suc, ◌+◌, ◌-◌, ◌*◌, ◌/◌, ◌%◌, ◌≤◌, ◌<◌}
use native.Mathlib.Omega.{arith}
use mathlib.Core.Path.{◌≡◌, refl, ap, ◌∙◌}
use mathlib.Core.Logic.{inl, inr}
use mathlib.Core.Option.{Option, none, some}
use mathlib.Core.Bool.{Bool, true, false, ◌&&◌}
use mathlib.Core.List.{[], ◌∷◌, ◌++◌}
use ovm_next.Base.Tests.{ltb, leb, ltb→lt, if◌then◌else◌, Bool-cases}
use ovm_next.Base.Strings.{Text, codes, contains}

-- The digits of `n` in front of a text; more steps than digits are enough.
digits : ℕ → ℕ → Text → Text
digits zero n s = s
digits (suc fuel) n s = elim (ltb n 10) [
  | true ↦ (b'0' + n) ∷ s
  | false ↦ digits fuel (n / 10) ((b'0' + n % 10) ∷ s)
]

unfoldable pub decimal : ℕ → Text
unfolding digits
decimal n = digits (suc n) n []

-- `net.JoinHostPort`: an address with a colon or a percent sign gets brackets.
unfoldable pub join_host_port : Text → Text → Text
unfolding contains
join_host_port host port =
    if contains host (codes ":")
    then codes "[" ++ host ++ codes "]:" ++ port
    else if contains host (codes "%")
    then codes "[" ++ host ++ codes "]:" ++ port
    else host ++ codes ":" ++ port

-- The number that decimal digits go on to write, behind those of `n`; `none` at another character.
unfoldable pub value : ℕ → Text → Option ℕ
value n [] = some n
value n (c ∷ s) =
    let rest = value (n * 10 + (c - b'0')) s in if leb b'0' c && leb c b'9' then rest else none

value-digit : (n d : ℕ) (s : Text) → d < 10 → value n ((b'0' + d) ∷ s) ≡ value (n * 10 + d) s
unfolding value
value-digit n d s small =
    let same : n * 10 + (b'0' + d - b'0') ≡ n * 10 + d = omega arith in
    let low : leb b'0' (b'0' + d) ≡ true = ground arith in
    let high : leb (b'0' + d) b'9' ≡ true = ground arith in rw (same, low, high) refl

value-digits : (fuel n : ℕ) (s : Text) → n < fuel → value 0 (digits fuel n s) ≡ value n s
unfolding digits
value-digits zero n s less = absurd (omega arith)
value-digits (suc fuel) n s less = elim (Bool-cases (ltb n 10)) [
  | inl small ↦
      let plain : 0 * 10 + n ≡ n = omega arith in
      rw (small, digits) (value-digit 0 n s (ltb→lt n 10 small) ∙ ap (λ k. value k s) plain)
  | inr large ↦
      let ten : 10 ≤ n = ground arith in
      let same : n / 10 * 10 + n % 10 ≡ n = omega arith in
      rw (large, digits)
        (value-digits fuel (n / 10) ((b'0' + n % 10) ∷ s) (omega arith)
          ∙ value-digit (n / 10) (n % 10) s (omega arith)
          ∙ ap (λ k. value k s) same)
]

-- A number is read back from its digits.
pub value-decimal : (n : ℕ) → value 0 (decimal n) ≡ some n
unfolding decimal value
value-decimal n = value-digits (suc n) n [] (omega arith)

-- Whether a text has decimal digits alone.
unfoldable pub all_digits : Text → Bool
all_digits [] = true
all_digits (c ∷ s) = leb b'0' c && leb c b'9' && all_digits s

digits_cons : (d : ℕ) (s : Text) → d < 10 → all_digits s ≡ true → all_digits ((b'0' + d) ∷ s) ≡ true
unfolding all_digits
digits_cons d s small h =
    let low : leb b'0' (b'0' + d) ≡ true = ground arith in
    let high : leb (b'0' + d) b'9' ≡ true = ground arith in rw (low, high) h

all_digits-digits :
    (fuel n : ℕ) (s : Text) → n < fuel → all_digits s ≡ true → all_digits (digits fuel n s) ≡ true
unfolding digits
all_digits-digits zero n s less h = absurd (omega arith)
all_digits-digits (suc fuel) n s less h = elim (Bool-cases (ltb n 10)) [
  | inl small ↦ rw (small, digits) (digits_cons n s (ltb→lt n 10 small) h)
  | inr large ↦
      let ten : 10 ≤ n = ground arith in
      rw (large, digits)
        (all_digits-digits fuel (n / 10) ((b'0' + n % 10) ∷ s) (omega arith)
          (digits_cons (n % 10) s (omega arith) h))
]

pub all_digits-decimal : (n : ℕ) → all_digits (decimal n) ≡ true
unfolding decimal all_digits
all_digits-decimal n = all_digits-digits (suc n) n [] (omega arith) refl

digits_nonempty :
    (fuel n : ℕ) (c : ℕ) (s : Text) → (d : ℕ) × (t : Text) × (digits fuel n (c ∷ s) ≡ d ∷ t)
unfolding digits
digits_nonempty zero n c s = (c, s, refl)
digits_nonempty (suc fuel) n c s = elim (Bool-cases (ltb n 10)) [
  | inl small ↦ (b'0' + n, c ∷ s, rw (small, digits) refl)
  | inr large ↦
      let (d, t, e) = digits_nonempty fuel (n / 10) (b'0' + n % 10) (c ∷ s) in
      (d, t, rw (large, digits) e)
]

pub decimal-cons : (n : ℕ) → (d : ℕ) × (t : Text) × (decimal n ≡ d ∷ t)
unfolding decimal digits
decimal-cons n = elim (Bool-cases (ltb n 10)) [
  | inl small ↦ (b'0' + n, [], rw (small, digits) refl)
  | inr large ↦
      let (d, t, e) = digits_nonempty n (n / 10) (b'0' + n % 10) [] in (d, t, rw (large, digits) e)
]
