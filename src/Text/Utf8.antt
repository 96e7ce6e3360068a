-- ===== src/Text/Utf8.antt =====
-- UTF-8: `str::as_bytes`, `str::len` and `String::from_utf8`.
use sony_prs.Base.{
  ℕ, zero, suc, ◌+◌, ◌-◌, ◌*◌, ◌/◌, ◌%◌, ◌≤◌, ◌<◌, ◌≡◌, ◌⊎◌, refl, sym, append_assoc, lt→ltb, Bool,
  ◌&&◌, List, [], ◌∷◌, ◌++◌, Option, none, some, arith, ltb, leb, ◌==◌, if◌then◌else◌, All, length,
}
use sony_prs.Text.{Str}

-- The bytes of one character.
unfoldable pub encode_char : ℕ → List ℕ
encode_char c =
    if ltb c 0x80
    then c ∷ []
    else if ltb c 0x800
    then (0xc0 + c / 64) ∷ (0x80 + c % 64) ∷ []
    else if ltb c 0x10000
    then (0xe0 + c / 4096) ∷ (0x80 + c / 64 % 64) ∷ (0x80 + c % 64) ∷ []
    else (0xf0 + c / 262144) ∷ (0x80 + c / 4096 % 64) ∷ (0x80 + c / 64 % 64) ∷ (0x80 + c % 64) ∷ []

-- `s.as_bytes()`.
unfoldable pub to_bytes : Str → List ℕ
to_bytes [] = []
to_bytes (c ∷ s) = encode_char c ++ to_bytes s

-- `s.len()`, in bytes.
abbrev pub byte_len : Str → ℕ
byte_len s = length (to_bytes s)

-- The decoder's state: between characters, or with `more` continuation bytes to come, the next
-- one in the range from `lo` to `hi`, and the bits so far.
pub data State : Type 0 where
  start : State
  cont : (more bits lo hi : ℕ) → State

pub data Step : Type 0 where
  reject : Step
  char : ℕ → Step
  next : State → Step

between : ℕ → ℕ → ℕ → Bool
between lo hi b = leb lo b && leb b hi

first : ℕ → Step
unfolding between
first b =
    if ltb b 0x80
    then char b
    else if between 0xc2 0xdf b
    then next (cont 0 (b - 0xc0) 0x80 0xbf)
    else if b == 0xe0
    then next (cont 1 0 0xa0 0xbf)
    else if b == 0xed
    then next (cont 1 0xd 0x80 0x9f)
    else if between 0xe1 0xef b
    then next (cont 1 (b - 0xe0) 0x80 0xbf)
    else if b == 0xf0
    then next (cont 2 0 0x90 0xbf)
    else if between 0xf1 0xf3 b
    then next (cont 2 (b - 0xf0) 0x80 0xbf)
    else if b == 0xf4
    then next (cont 2 4 0x80 0x8f)
    else reject

unfoldable pub step : State → ℕ → Step
unfolding first
step start b = first b
step (cont zero bits lo hi) b = if between lo hi b then char (bits * 64 + (b - 0x80)) else reject
step (cont (suc more) bits lo hi) b =
    if between lo hi b then next (cont more (bits * 64 + (b - 0x80)) 0x80 0xbf) else reject

abbrev at_end : State → Option Str
at_end start = some []
at_end (cont more bits lo hi) = none

abbrev pub cons_char : ℕ → Option Str → Option Str
cons_char c none = none
cons_char c (some s) = some (c ∷ s)

unfoldable pub decode : State → List ℕ → Option Str
unfolding step
decode st [] = at_end st
decode st (b ∷ bs) = elim (step st b) [
  | reject ↦ none
  | char c ↦ cons_char c (decode start bs)
  | next st' ↦ decode st' bs
]

-- `String::from_utf8(bytes)`.
abbrev pub from_utf8 : List ℕ → Option Str
from_utf8 = decode start

-- What a `char` can be: a code point up to 0x10ffff that is no surrogate.
abbrev pub IsScalar : ℕ → Type 0
IsScalar c = (c < 0xd800) ⊎ ((0xe000 ≤ c) × (c < 0x110000))

decode-encode_char :
    (c : ℕ) (bs : List ℕ)
    → IsScalar c
    → decode start (encode_char c ++ bs) ≡ cons_char c (decode start bs)
unfolding decode encode_char
decode-encode_char c bs h = ground arith

decode-nil : decode start [] ≡ some []
unfolding decode
decode-nil = refl

-- A text is read back from its bytes.
pub from_utf8-to_bytes : (s : Str) → All IsScalar s → from_utf8 (to_bytes s) ≡ some s
unfolding to_bytes
from_utf8-to_bytes [] h = decode-nil
from_utf8-to_bytes (c ∷ s) h = rw (decode-encode_char c (to_bytes s) h.0, from_utf8-to_bytes s h.1)

pub to_bytes-append : (s t : Str) → to_bytes (s ++ t) ≡ to_bytes s ++ to_bytes t
unfolding to_bytes
to_bytes-append [] t = refl
to_bytes-append (c ∷ s) t =
    rw (to_bytes-append s t) (sym (append_assoc (encode_char c) (to_bytes s) (to_bytes t)))

-- Texts over ASCII are their bytes.
pub to_bytes_ascii : (s : Str) → All (λ c. c < 0x80) s → to_bytes s ≡ s
unfolding to_bytes
to_bytes_ascii [] h = refl
to_bytes_ascii (c ∷ s) h = rw (to_bytes_ascii s h.1) (unfold encode_char in rw (lt→ltb c 0x80 h.0))
