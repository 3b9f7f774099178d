-- ===== src/Prelude/Int.antt =====
-- Go's signed integers: a whole number, and the test that it fits a width.
use Prim.Native.Nat.{ℕ, ◌^◌, ◌-◌}
use mathlib.Core.Bool.{Bool, true, false}
use playback_service.Prelude.Tests.{ltb}

-- `negsuc n` is -(n + 1).
pub data ℤ : Type 0 where
  pos : ℕ → ℤ
  negsuc : ℕ → ℤ

-- The size of an integer on its side of zero: -2 ^ k and 2 ^ k - 1 have the same.
abbrev pub magnitude : ℤ → ℕ
magnitude (pos n) = n
magnitude (negsuc n) = n

-- Whether a whole number fits a signed integer of `w` bits.
abbrev pub fits : ℕ → ℤ → Bool
fits w z = ltb (magnitude z) (2 ^ (w - 1))

abbrev pub is_negative : ℤ → Bool
is_negative (pos n) = false
is_negative (negsuc n) = true
