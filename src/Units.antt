-- ===== src/Units.antt =====
-- pkg/filesystem/strongunits.go: storage units on a `uint64`, whose products wrap around.
use ovm_next.Base.{ℕ, ◌*◌, ◌/◌, ◌%◌, ◌<◌, ◌≡◌, arith}

abbrev pub u64_limit : ℕ
u64_limit = 18446744073709551616

-- The units of `ToBytes`: `B`, `KiB`, `MiB` and `GiB`.
pub data Unit64 : Type 0 where
  b kib mib gib : Unit64

-- `kibToB`, `mibToB` and `gibToB`
abbrev pub factor : Unit64 → ℕ
factor Unit64.b = 1
factor Unit64.kib = 1024
factor Unit64.mib = 1048576
factor Unit64.gib = 1073741824

-- The four methods `ToBytes`.
unfoldable pub to_bytes : Unit64 → ℕ → ℕ
to_bytes u n = n * factor u % u64_limit

-- `ToKiB`, `ToMib` and `ToGiB` on a number of bytes: the shifts by 10, 20 and 30.
unfoldable pub of_bytes : Unit64 → ℕ → ℕ
of_bytes u n = n / factor u

-- An amount whose bytes fit a `uint64` is the same after a conversion to bytes and back.
pub of_bytes-to_bytes :
    (u : Unit64) (n : ℕ) → n * factor u < u64_limit → of_bytes u (to_bytes u n) ≡ n
unfolding of_bytes to_bytes
of_bytes-to_bytes Unit64.b n h = omega arith
of_bytes-to_bytes Unit64.kib n h = omega arith
of_bytes-to_bytes Unit64.mib n h = omega arith
of_bytes-to_bytes Unit64.gib n h = omega arith

-- Any amount is reduced to the part that fits by a conversion to bytes and back.
pub of_bytes_wrap : (u : Unit64) (n : ℕ) → of_bytes u (to_bytes u n) ≡ n % (u64_limit / factor u)
unfolding of_bytes to_bytes
of_bytes_wrap Unit64.b n = omega arith
of_bytes_wrap Unit64.kib n = omega arith
of_bytes_wrap Unit64.mib n = omega arith
of_bytes_wrap Unit64.gib n = omega arith
