-- ===== src/Markdown/Coordinates.antt =====
-- `i32` as the reader computes with it: comparison, saturating arithmetic, and the cast from `u32`.
use sony_prs.Base.{
  ℕ, zero, suc, ◌+◌, ◌-◌, ◌%◌, ◌^◌, Bool, true, false, ltb, leb, min, if◌then◌else◌, ℤ, pos, negsuc,
}

-- `i32::MAX`.
abbrev pub i32_max : ℕ
i32_max = 2 ^ 31 - 1

infixl 60 ◌+ℤ◌
abbrev pub ◌+ℤ◌ : ℤ → ℤ → ℤ
pos a +ℤ pos b = pos (a + b)
pos a +ℤ negsuc b = if ltb b a then pos (a - b - 1) else negsuc (b - a)
negsuc a +ℤ pos b = if ltb a b then pos (b - a - 1) else negsuc (a - b)
negsuc a +ℤ negsuc b = negsuc (a + b + 1)

abbrev pub negate : ℤ → ℤ
negate (pos zero) = pos 0
negate (pos (suc n)) = negsuc n
negate (negsuc n) = pos (n + 1)

-- The nearest `i32`.
abbrev pub saturate : ℤ → ℤ
saturate (pos n) = pos (min n i32_max)
saturate (negsuc n) = negsuc (min n i32_max)

abbrev pub saturating_add : ℤ → ℤ → ℤ
saturating_add a b = saturate (a +ℤ b)

abbrev pub saturating_sub : ℤ → ℤ → ℤ
saturating_sub a b = saturate (a +ℤ negate b)

abbrev pub le : ℤ → ℤ → Bool
le (pos a) (pos b) = leb a b
le (pos a) (negsuc b) = false
le (negsuc a) (pos b) = true
le (negsuc a) (negsuc b) = leb b a

-- `n as i32` of a `u32`.
abbrev pub as_i32 : ℕ → ℤ
as_i32 n = if leb n i32_max then pos n else negsuc (2 ^ 32 - 1 - n)

abbrev wrap : ℤ → ℤ
wrap (pos n) = as_i32 (n % 2 ^ 32)
wrap (negsuc n) = as_i32 (2 ^ 32 - 1 - n % 2 ^ 32)

-- A difference of two `i32` that wraps, as in a release build.
abbrev pub wrapping_sub : ℤ → ℤ → ℤ
wrapping_sub a b = wrap (a +ℤ negate b)
