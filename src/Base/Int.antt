-- ===== src/Base/Int.antt =====
-- Signed integers, as a sign and a magnitude: `negsuc n` is -(n + 1).
use Prim.Native.Nat.{ℕ, ◌<◌}
use mathlib.Core.Bool.{Bool, true, false}

pub data ℤ : Type 0 where
  pos : ℕ → ℤ
  negsuc : ℕ → ℤ

abbrev pub is_negative : ℤ → Bool
is_negative (pos n) = false
is_negative (negsuc n) = true

-- `x as usize` of an integer that is not negative.
abbrev pub magnitude : ℤ → ℕ
magnitude (pos n) = n
magnitude (negsuc n) = 0

-- Between zero and a bound.
abbrev pub Below : ℕ → ℤ → Type 0
Below bound (pos n) = n < bound
Below bound (negsuc n) = ⊥
