-- ===== src/Base/Int.antt =====
-- Go's signed `int`, without its bounds: `negsuc n` is -(n + 1).
use Prim.Native.Nat.{ℕ, ◌-◌, ◌%◌}
use mathlib.Core.Bool.{Bool, false}
use ovm_next.Base.Tests.{ltb}

pub data ℤ : Type 0 where
  pos : ℕ → ℤ
  negsuc : ℕ → ℤ

-- `0 < n`
abbrev pub is_positive : ℤ → Bool
is_positive (pos n) = ltb 0 n
is_positive (negsuc n) = false

-- `k < n`
abbrev pub exceeds : ℕ → ℤ → Bool
exceeds k (pos n) = ltb k n
exceeds k (negsuc n) = false

-- The conversion `uint8(n)`.
abbrev pub to_u8 : ℤ → ℕ
to_u8 (pos n) = n % 256
to_u8 (negsuc n) = 255 - n % 256
