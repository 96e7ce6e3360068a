-- ===== src/Text/Number/RoundTrip.antt =====
-- `from_str_radix` on what is printed, and its bound.
use sony_prs.Base.{
  ℕ, zero, suc, ◌+◌, ◌-◌, ◌*◌, ◌^◌, ◌≤◌, ◌<◌, ◌≡◌, refl, ◌∙◌, false, [], ◌∷◌, ◌++◌, some, arith,
  ltb, All, All-append, length-append, length-replicate, length, Bool-cases, Option-cases, ltb→le,
  inl, inr, replicate, is_empty,
}
use sony_prs.Text.{Str, is_whitespace}
use sony_prs.Text.Split.{IsWord}
use sony_prs.Text.Number.{to_digit, to_radix, hex8, scan, from_str_radix, IsRadix}
use sony_prs.Text.Number.Digits.{
  scan-emit, IsDigit, to_radix-IsDigit, to_radix-filled, All-Free, to_radix-le,
}

scan-start :
    (radix max : ℕ) (s : Str)
    → All IsDigit s
    → is_empty s ≡ false
    → from_str_radix radix max s ≡ scan radix max 0 s
scan-start radix max [] h k = cc
scan-start radix max (c ∷ s) h k = unfold from_str_radix in rw h.0.1

-- What is printed is read back, at every radix.
pub from_str_radix-to_radix :
    (radix max n : ℕ)
    → IsRadix radix
    → n ≤ max
    → from_str_radix radix max (to_radix radix n) ≡ some n
unfolding scan
from_str_radix-to_radix radix max n r h =
    scan-start radix max _ (to_radix-IsDigit radix n r) (to_radix-filled radix n)
    ∙ (unfold to_radix in scan-emit (suc n) radix max n [] r (omega arith) h)

scan-zeros :
    (radix max k : ℕ) (s : Str)
    → IsRadix radix
    → scan radix max 0 (replicate k b'0' ++ s) ≡ scan radix max 0 s
unfolding scan to_digit
scan-zeros radix max zero s r = refl
scan-zeros radix max (suc k) s r = ground (arith, scan-zeros radix max k s r)

zeros-IsDigit : (k : ℕ) → All IsDigit (replicate k b'0')
unfolding is_whitespace
zeros-IsDigit zero = tt
zeros-IsDigit (suc k) = ((refl, refl, refl, omega arith), zeros-IsDigit k)

hex-IsRadix : IsRadix 16
hex-IsRadix = omega arith

hex8-IsDigit : (n : ℕ) → All IsDigit (hex8 n)
unfolding hex8
hex8-IsDigit n =
    All-append IsDigit (replicate (8 - length (to_radix 16 n)) b'0') (to_radix 16 n)
      (zeros-IsDigit _) (to_radix-IsDigit 16 n hex-IsRadix)

hex8-filled : (n : ℕ) → is_empty (hex8 n) ≡ false
unfolding hex8
hex8-filled n = filled (8 - length (to_radix 16 n))
  where
    filled : (k : ℕ) → is_empty (replicate k b'0' ++ to_radix 16 n) ≡ false
    filled zero = to_radix-filled 16 n
    filled (suc k) = refl

pub hex8-IsWord : (n : ℕ) → IsWord (hex8 n)
hex8-IsWord n = record { free = All-Free (hex8 n) (hex8-IsDigit n); filled = hex8-filled n }

pub from_str_radix-hex8 : (max n : ℕ) → n ≤ max → from_str_radix 16 max (hex8 n) ≡ some n
unfolding hex8 scan
from_str_radix-hex8 max n h =
    scan-start 16 max (hex8 n) (hex8-IsDigit n) (hex8-filled n)
    ∙ scan-zeros 16 max (8 - length (to_radix 16 n)) (to_radix 16 n) hex-IsRadix
    ∙ scan-emit (suc n) 16 max n [] hex-IsRadix (omega arith) h

-- Eight hexadecimal digits, for a number of 32 bits.
pub length-hex8 : (n : ℕ) → n < 2 ^ 32 → length (hex8 n) ≡ 8
unfolding hex8
length-hex8 n h = omega (
  arith,
  length-append (replicate (8 - length (to_radix 16 n)) b'0') (to_radix 16 n),
  length-replicate {A = ℕ} (8 - length (to_radix 16 n)) b'0',
  to_radix-le 16 n 7 hex-IsRadix h,
)

All-ascii : (s : Str) → All IsDigit s → All (λ c. c < 0x80) s
All-ascii [] h = tt
All-ascii (c ∷ s) h = (h.0.3, All-ascii s h.1)

pub to_radix_ascii : (radix n : ℕ) → IsRadix radix → All (λ c. c < 0x80) (to_radix radix n)
to_radix_ascii radix n r = All-ascii (to_radix radix n) (to_radix-IsDigit radix n r)

pub hex8_ascii : (n : ℕ) → All (λ c. c < 0x80) (hex8 n)
hex8_ascii n = All-ascii (hex8 n) (hex8-IsDigit n)

scan-le_max : (radix max n : ℕ) (s : Str) (m : ℕ) → n ≤ max → scan radix max n s ≡ some m → m ≤ max
unfolding scan
scan-le_max radix max n [] m h e = ground arith
scan-le_max radix max n (c ∷ s) m h e = elim (Option-cases (to_digit radix c)) [
  | inl q ↦ cc (rw (q, scan) at e)
  | inr (d, q) ↦
      let e' = rw (q, scan) at e in
      elim (Bool-cases (ltb max (n * radix + d))) [
        | inl over ↦ cc (rw over at e')
        | inr fits ↦ scan-le_max radix max (n * radix + d) s m (ltb→le max _ fits) (rw fits at e')
      ]
]

-- A number that is read is at most the type's maximum.
pub from_str_radix-le_max :
    (radix max : ℕ) (s : Str) (n : ℕ) → from_str_radix radix max s ≡ some n → n ≤ max
unfolding from_str_radix
from_str_radix-le_max radix max [] n h = cc
from_str_radix-le_max radix max (c ∷ s) n h = ground (
  arith,
  scan-le_max radix max 0 s n (omega arith),
  scan-le_max radix max 0 (c ∷ s) n (omega arith),
)
