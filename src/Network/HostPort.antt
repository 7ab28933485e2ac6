-- ===== src/Network/HostPort.antt =====
-- Go's `net.SplitHostPort`, `strconv.ParseUint(s, 10, 16)` and `fmt.Sscanf(s, "%d", &n)`.
use ovm_next.Base.{
  ℕ, zero, suc, ◌-◌, ◌*◌, ◌+◌, ◌<◌, ltb, leb, eqb, eqb_iff, Text, codes, ◌==◌, cut, trim_left,
  is_space, if◌then◌else◌, Bool, true, false, not, ◌&&◌, ◌||◌, [], ◌∷◌, ◌++◌, Option, none, some,
  Result, ok, err, ◌≡◌, refl, value, value-decimal, decimal, all_digits, all_digits-decimal,
  decimal-cons, arith, lt→ltb, ℤ, pos, negsuc, Bool-cases, inl, inr,
}

pub data AddressError : Type 0 where
  missing_port too_many_colons missing_bracket unexpected_bracket : AddressError
  bad_number out_of_range : AddressError

-- `-n`
abbrev negate : ℕ → ℤ
negate zero = pos 0
negate (suc n) = negsuc n

-- `strings.Contains` of one character
unfoldable pub has_char : ℕ → Text → Bool
has_char c [] = false
has_char c (d ∷ s) = eqb d c || has_char c s

abbrev grow_last : ℕ → ℕ → Text → Option (Text × Text) → Option (Text × Text)
grow_last sep c s (some (before, after)) = some (c ∷ before, after)
grow_last sep c s none = if eqb c sep then some ([], s) else none

-- The text in front of the last `sep` and behind it.
unfoldable pub cut_last : ℕ → Text → Option (Text × Text)
cut_last sep [] = none
cut_last sep (c ∷ s) = grow_last sep c s (cut_last sep s)

-- A host in brackets: what is behind the opening one, up to the last colon.
abbrev in_brackets : Text → Text → Option (Text × Text) → Result AddressError (Text × Text)
in_brackets before port none = if has_char b']' port then err missing_port else err missing_bracket
in_brackets before port (some (host, [])) =
    if has_char b'[' (host ++ codes "]:" ++ port) || has_char b']' port
    then err unexpected_bracket
    else ok (host, port)
in_brackets before port (some (host, c ∷ rest)) =
    if eqb c b':' then err too_many_colons else err missing_port

abbrev split_at_colon : Text → Text → Result AddressError (Text × Text)
split_at_colon [] port =
    if has_char b'[' port || has_char b']' port then err unexpected_bracket else ok ([], port)
split_at_colon (c ∷ before) port =
    if eqb c b'['
    then in_brackets before port (cut b']' before)
    else if has_char b':' (c ∷ before)
    then err too_many_colons
    else if has_char b'[' (c ∷ before)
        || has_char b'[' port
        || has_char b']' (c ∷ before)
        || has_char b']' port
    then err unexpected_bracket
    else ok (c ∷ before, port)

abbrev split_of_cut : Option (Text × Text) → Result AddressError (Text × Text)
split_of_cut none = err missing_port
split_of_cut (some (before, port)) = split_at_colon before port

-- `net.SplitHostPort`
unfoldable pub split_host_port : Text → Result AddressError (Text × Text)
split_host_port s = split_of_cut (cut_last b':' s)

abbrev in_u16 : Option ℕ → Result AddressError ℕ
in_u16 none = err bad_number
in_u16 (some n) = if ltb n 65536 then ok n else err out_of_range

-- `strconv.ParseUint(s, 10, 16)`
unfoldable pub parse_u16 : Text → Result AddressError ℕ
parse_u16 s = if s == [] then err bad_number else in_u16 (value 0 s)

-- A text of digits has no other character.
pub has_char-digits :
    (c : ℕ) (s : Text)
    → (leb b'0' c && leb c b'9') ≡ false
    → all_digits s ≡ true
    → has_char c s ≡ false
unfolding has_char all_digits
has_char-digits c [] other h = refl
has_char-digits c (d ∷ s) other h = elim (Bool-cases (leb b'0' d && leb d b'9')) [
  | inl digit ↦
      let apart : eqb d c ≡ false = ground arith in
      let rest : all_digits s ≡ true = ground arith in
      rw (apart, has_char-digits c s other rest) refl
  | inr not_digit ↦ absurd (ground arith)
]

cut_last_of_absent : (c : ℕ) (s : Text) → has_char c s ≡ false → cut_last c s ≡ none
unfolding has_char cut_last
cut_last_of_absent c [] h = refl
cut_last_of_absent c (d ∷ s) h = elim (Bool-cases (eqb d c)) [
  | inl same ↦ absurd (let bad = rw same at h in cc)
  | inr other ↦ rw (cut_last_of_absent c s (rw other at h), other) refl
]

pub cut_last-append :
    (c : ℕ) (s t : Text) → has_char c t ≡ false → cut_last c (s ++ c ∷ t) ≡ some (s, t)
unfolding cut_last
cut_last-append c [] t h = rw (cut_last_of_absent c t h, (eqb_iff c c).1 refl) refl
cut_last-append c (d ∷ s) t h = rw (cut_last-append c s t h) refl

-- An address without brackets is split where it was joined.
pub split-join_decimal :
    (host : Text) (c : ℕ) (s : Text) (n : ℕ)
    → host ≡ c ∷ s
    → eqb c b'[' ≡ false
    → has_char b':' host ≡ false
    → has_char b'[' host ≡ false
    → has_char b']' host ≡ false
    → split_host_port (host ++ b':' ∷ decimal n) ≡ ok (host, decimal n)
unfolding split_host_port
split-join_decimal host c s n e first colon opening closing =
    let none_of = λ (d : ℕ) (other : (leb b'0' d && leb d b'9') ≡ false).
      has_char-digits d (decimal n) other (all_digits-decimal n) in
    let cut : cut_last b':' (host ++ b':' ∷ decimal n) ≡ some (host, decimal n) =
      cut_last-append b':' host (decimal n) (none_of b':' refl) in
    rw (cut, e)
      (rw
        (
          first,
          sym_at b':' e colon,
          sym_at b'[' e opening,
          sym_at b']' e closing,
          none_of b'[' refl,
          none_of b']' refl,
        )
        refl)
  where
    sym_at : (d : ℕ) → host ≡ c ∷ s → has_char d host ≡ false → has_char d (c ∷ s) ≡ false
    sym_at d e h = rw e at h

-- A port is read back.
pub parse_u16-decimal : (n : ℕ) → n < 65536 → parse_u16 (decimal n) ≡ ok n
unfolding parse_u16 ◌==◌
parse_u16-decimal n small =
    let (d, t, e) = decimal-cons n in
    let read : value 0 (d ∷ t) ≡ some n = rw⁻¹ e (value-decimal n) in
    rw (e, read, lt→ltb n 65536 small) refl

-- The digits at the front of a text.
unfoldable pub scan_digits : ℕ → Text → ℕ
scan_digits n [] = n
scan_digits n (c ∷ s) =
    let rest = scan_digits (n * 10 + (c - b'0')) s in if leb b'0' c && leb c b'9' then rest else n

starts_with_digit : Text → Bool
starts_with_digit [] = false
starts_with_digit (c ∷ s) = leb b'0' c && leb c b'9'

-- `strconv.ParseInt` on the digits behind a sign
abbrev signed : Bool → Text → Result AddressError ℤ
signed negative s =
    if not (starts_with_digit s)
    then err bad_number
    else if negative
    then (if ltb 9223372036854775808 (scan_digits 0 s)
        then err out_of_range
        else ok (negate (scan_digits 0 s)))
    else if ltb (scan_digits 0 s) 9223372036854775808
    then ok (pos (scan_digits 0 s))
    else err out_of_range

abbrev scan_signed : Text → Result AddressError ℤ
scan_signed [] = err bad_number
scan_signed (c ∷ s) =
    if eqb c b'-'
    then signed true s
    else if eqb c b'+'
    then signed false s
    else signed false (c ∷ s)

-- `fmt.Sscanf(s, "%d", &n)`: what follows the number is left unread.
unfoldable pub scan_int : Text → Result AddressError ℤ
unfolding starts_with_digit
scan_int s = scan_signed (trim_left s)

scan_digits-value : (n k : ℕ) (s : Text) → value n s ≡ some k → scan_digits n s ≡ k
unfolding value scan_digits
scan_digits-value n k [] e = cc
scan_digits-value n k (c ∷ s) e = elim (Bool-cases (leb b'0' c && leb c b'9')) [
  | inl digit ↦ rw digit (scan_digits-value (n * 10 + (c - b'0')) k s (rw digit at e))
  | inr other ↦ absurd (let bad = rw other at e in cc)
]

-- ... and scanned back.
pub scan_int-decimal : (n : ℕ) → n < 65536 → scan_int (decimal n) ≡ ok (pos n)
unfolding scan_int trim_left all_digits
scan_int-decimal n small =
    let (d, t, e) = decimal-cons n in
    let written = all_digits-decimal n in
    let digits = rw e at written in
    let digit : (leb b'0' d && leb d b'9') ≡ true = ground arith in
    let visible : is_space d ≡ false = ground arith in
    let plus : eqb d b'+' ≡ false = ground arith in
    let minus : eqb d b'-' ≡ false = ground arith in
    let read : scan_digits 0 (d ∷ t) ≡ n =
      scan_digits-value 0 n (d ∷ t) (rw⁻¹ e (value-decimal n)) in
    let fits : ltb n 9223372036854775808 ≡ true = ground arith in
    rw (e, visible, minus, plus, digit, read, fits) refl
