-- ===== src/X50/Words.antt =====
-- Little-endian integers in byte strings: `put_u32`, `put_u64`, `read_u32` and `read_u64`.
use sony_prs.Base.{
  ℕ, zero, suc, ◌+◌, ◌-◌, ◌*◌, ◌/◌, ◌%◌, ◌^◌, ◌<◌, ◌≡◌, refl, ap, List, [], ◌∷◌, ◌++◌, Option, none,
  some, arith, leb, if◌then◌else◌, length, take, drop, Result, ok, err, le→leb, length-append,
  take-length-append, drop-length-append,
}
use native.Mathlib.Nat.{pow-suc, div-lt_iff_lt-mul}
use sony_prs.X50.{Error, protocol}

-- `value.to_le_bytes()` of an integer of `count` bytes.
unfoldable pub to_le_bytes : ℕ → ℕ → List ℕ
to_le_bytes zero value = []
to_le_bytes (suc count) value = (value % 256) ∷ to_le_bytes count (value / 256)

-- `from_le_bytes`.
unfoldable pub from_le_bytes : List ℕ → ℕ
from_le_bytes [] = 0
from_le_bytes (b ∷ bs) = b + 256 * from_le_bytes bs

abbrev pub put_u32 : List ℕ → ℕ → List ℕ
put_u32 output value = output ++ to_le_bytes 4 value

abbrev pub put_u64 : List ℕ → ℕ → List ℕ
put_u64 output value = output ++ to_le_bytes 8 value

-- `bytes.get(start..end)`.
unfoldable pub get_range : List ℕ → ℕ → ℕ → Option (List ℕ)
get_range bytes start stop =
    if leb start stop
    then (if leb stop (length bytes) then some (take (stop - start) (drop start bytes)) else none)
    else none

unfoldable pub read_u32 : List ℕ → ℕ → Result Error ℕ
read_u32 bytes offset = elim (get_range bytes offset (offset + 4)) [
  | none ↦ err protocol
  | some slice ↦ ok (from_le_bytes slice)
]

unfoldable pub read_u64 : List ℕ → ℕ → Result Error ℕ
read_u64 bytes offset = elim (get_range bytes offset (offset + 8)) [
  | none ↦ err protocol
  | some slice ↦ ok (from_le_bytes slice)
]

pub length-to_le_bytes : (count value : ℕ) → length (to_le_bytes count value) ≡ count
unfolding to_le_bytes
length-to_le_bytes zero value = refl
length-to_le_bytes (suc count) value = ap suc (length-to_le_bytes count (value / 256))

div_256 : (count value : ℕ) → value < 256 ^ suc count → value / 256 < 256 ^ count
div_256 count value h = (div-lt_iff_lt-mul (omega arith)).1 (rw (← pow-suc) h)

-- An integer that fits its width is read back from its bytes.
pub from-to_le_bytes :
    (count value : ℕ) → value < 256 ^ count → from_le_bytes (to_le_bytes count value) ≡ value
unfolding from_le_bytes to_le_bytes
from-to_le_bytes zero value h = omega arith
from-to_le_bytes (suc count) value h =
    omega (arith, from-to_le_bytes count (value / 256) (div_256 count value h))

-- A part between two others is read at its offset.
pub get_range-append :
    (before word after : List ℕ) (size : ℕ)
    → length word ≡ size
    → get_range (before ++ (word ++ after)) (length before) (length before + size) ≡ some word
unfolding get_range
get_range-append before word after size e =
    let whole = length-append before (word ++ after) in
    let part = length-append word after in
    rw (
      le→leb (length before) (length before + size) (omega arith),
      le→leb (length before + size) (length (before ++ (word ++ after))) (omega arith),
      drop-length-append before (word ++ after),
      sub (length before) size,
      ← e,
      take-length-append word after,
    )
  where
    sub : (a b : ℕ) → a + b - a ≡ b
    sub a b = omega arith

module _ (before after : List ℕ) (value : ℕ) where
  -- A word of 32 bits is read behind what stands before it, and one of 64 bits.
  pub read_u32-append :
      value < 2 ^ 32
      → read_u32 (before ++ (to_le_bytes 4 value ++ after)) (length before) ≡ ok value
  unfolding read_u32
  read_u32-append h =
      rw
        (
          get_range-append before (to_le_bytes 4 value) after 4 (length-to_le_bytes 4 value),
          read_u32,
        )
        (rw (from-to_le_bytes 4 value h))

  pub read_u64-append :
      value < 2 ^ 64
      → read_u64 (before ++ (to_le_bytes 8 value ++ after)) (length before) ≡ ok value
  unfolding read_u64
  read_u64-append h =
      rw
        (
          get_range-append before (to_le_bytes 8 value) after 8 (length-to_le_bytes 8 value),
          read_u64,
        )
        (rw (from-to_le_bytes 8 value h))
