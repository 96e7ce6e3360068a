-- ===== src/Text/Number.antt =====
-- Printing of unsigned integers (`{}`, `{:x}`, `{:08x}`) and `from_str_radix`, which `parse` is
-- at radix ten. The radix is between 2 and 16.
pub mod Digits
pub mod RoundTrip
use native.Mathlib.Nat.{div-add-mod, pow-suc, pow-zero, div-lt_iff_lt-mul}
use native.Mathlib.Decide.{ℕ_discrete}
use sony_prs.Base.{
  sym, le→ltb, ℕ, zero, suc, ◌+◌, ◌-◌, ◌*◌, ◌/◌, ◌%◌, ◌^◌, ◌≤◌, ◌<◌, ◌≡◌, ◌≢◌, refl, ap, ◌∙◌, false,
  ◌&&◌, [], ◌∷◌, ◌++◌, Option, none, some, arith, ltb, leb, ◌==◌, if◌then◌else◌, All, All-append,
  length-append, length-replicate, length, Bool-cases, Option-cases, ltb→le, inl, inr, replicate,
  is_empty,
}
use sony_prs.Text.{Str, is_whitespace}
use sony_prs.Text.Split.{IsWord, Free}

unfoldable pub digit_char : ℕ → ℕ
digit_char d = if ltb d 10 then b'0' + d else b'a' + d - 10

-- `char::to_digit(radix)`.
unfoldable pub to_digit : ℕ → ℕ → Option ℕ
to_digit radix c =
    let d =
      if leb b'0' c && leb c b'9'
      then c - b'0'
      else if leb b'a' c && leb c b'f'
      then c - b'a' + 10
      else if leb b'A' c && leb c b'F'
      then c - b'A' + 10
      else radix in
    if ltb d radix then some d else none

-- The digits of `n` in front of `out`, the lowest first; the fuel is above `n`.
unfoldable pub emit : ℕ → ℕ → ℕ → Str → Str
emit zero radix n out = out
emit (suc f) radix n out =
    let out' = digit_char (n % radix) ∷ out in
    let rest = emit f radix (n / radix) out' in if n / radix == 0 then out' else rest

unfoldable pub to_radix : ℕ → ℕ → Str
unfolding emit
to_radix radix n = emit (suc n) radix n []

-- `{n}`.
abbrev pub decimal : ℕ → Str
decimal n = to_radix 10 n

-- `{n:08x}`.
unfoldable pub hex8 : ℕ → Str
unfolding to_radix
hex8 n = let s = to_radix 16 n in replicate (8 - length s) b'0' ++ s

-- The loop of `from_str_radix`; a number above `max` is an overflow.
unfoldable pub scan : ℕ → ℕ → ℕ → Str → Option ℕ
scan radix max n [] = some n
scan radix max n (c ∷ s) = elim (to_digit radix c) [
  | none ↦ none
  | some d ↦ if ltb max (n * radix + d) then none else scan radix max (n * radix + d) s
]

-- `uN::from_str_radix(s, radix)` with `uN::MAX = max`: one leading `+` is allowed.
unfoldable pub from_str_radix : ℕ → ℕ → Str → Option ℕ
unfolding scan to_digit
from_str_radix radix max [] = none
from_str_radix radix max (c ∷ s) =
    if c == b'+'
    then (if is_empty s then none else scan radix max 0 s)
    else scan radix max 0 (c ∷ s)

-- `s.parse::<uN>()`.
abbrev pub parse : ℕ → Str → Option ℕ
parse max s = from_str_radix 10 max s

abbrev pub IsRadix : ℕ → Type 0
IsRadix radix = (2 ≤ radix) × (radix ≤ 16)
