-- ===== src/Text/Number/Digits.antt =====
-- The digits of a number, and what reading them gives.
use native.Mathlib.Nat.{div-add-mod, pow-suc, pow-zero, div-lt_iff_lt-mul}
use native.Mathlib.Decide.{ℕ_discrete}
use sony_prs.Base.{
  sym, le→ltb, ℕ, zero, suc, ◌+◌, ◌*◌, ◌/◌, ◌%◌, ◌^◌, ◌≤◌, ◌<◌, ◌≡◌, ◌≢◌, refl, ap, ◌∙◌, false, [],
  ◌∷◌, some, arith, ◌==◌, All, length, Bool-cases, inl, inr, is_empty,
}
use sony_prs.Text.{Str, is_whitespace}
use sony_prs.Text.Split.{IsWord, Free}
use sony_prs.Text.Number.{digit_char, to_digit, emit, to_radix, scan, IsRadix}

pub to_digit-digit_char :
    (radix d : ℕ) → radix ≤ 16 → d < radix → to_digit radix (digit_char d) ≡ some d
unfolding to_digit digit_char
to_digit-digit_char radix d h k = ground arith

pub scan-digit :
    (radix max n d : ℕ) (s : Str)
    → radix ≤ 16
    → d < radix
    → n * radix + d ≤ max
    → scan radix max n (digit_char d ∷ s) ≡ scan radix max (n * radix + d) s
unfolding scan
scan-digit radix max n d s h k m =
    rw (to_digit-digit_char radix d h k, scan) (rw (le→ltb max (n * radix + d) m))

pub div_mod : (n radix : ℕ) → 0 < radix → n / radix * radix + n % radix ≡ n
div_mod n radix h = grind (arith, div-add-mod)

pub mod_self : (n radix : ℕ) → 0 < radix → n / radix ≡ 0 → 0 * radix + n % radix ≡ n
mod_self n radix h e = sym (ap (λ (t : ℕ). t * radix + n % radix) e) ∙ div_mod n radix h

pub div_lt : (n radix : ℕ) → 2 ≤ radix → n / radix ≢ 0 → n / radix < n
div_lt n radix h e = grind (arith, div_mod n radix)

pub div_le : (n radix : ℕ) → 2 ≤ radix → n / radix ≤ n
div_le n radix h = grind (arith, div_mod n radix)

-- One round of `emit`.
pub emit_last :
    (f radix n : ℕ) (out : Str)
    → n / radix ≡ 0
    → emit (suc f) radix n out ≡ digit_char (n % radix) ∷ out
unfolding emit
emit_last f radix n out e = rw e

pub emit_more :
    (f radix n : ℕ) (out : Str)
    → n / radix ≢ 0
    → emit (suc f) radix n out ≡ emit f radix (n / radix) (digit_char (n % radix) ∷ out)
unfolding emit
emit_more f radix n out e = ground arith

pub scan-emit :
    (f radix max n : ℕ) (out : Str)
    → IsRadix radix
    → n < f
    → n ≤ max
    → scan radix max 0 (emit f radix n out) ≡ scan radix max n out
scan-emit zero radix max n out r h m = absurd (omega arith)
scan-emit (suc f) radix max n out r h m = elim (ℕ_discrete (n / radix) 0) [
  | yes e ↦ rw (emit_last f radix n out e) (
      scan-digit radix max 0 (n % radix) out r.1 (omega arith)
        (omega (arith, mod_self n radix (omega arith) e))
      ∙ ap (λ t. scan radix max t out) (mod_self n radix (omega arith) e))
  | no e ↦ rw (emit_more f radix n out e) (
      scan-emit f radix max (n / radix) _ r (omega (arith, div_lt n radix r.0 e))
        (omega (arith, div_le n radix r.0))
      ∙ scan-digit radix max (n / radix) (n % radix) out r.1 (omega arith)
          (omega (arith, div_mod n radix (omega arith)))
      ∙ ap (λ t. scan radix max t out) (div_mod n radix (omega arith)))
]

-- What `emit` writes: digits only, at least one.
abbrev pub IsDigit : ℕ → Type 0
IsDigit c = (is_whitespace c ≡ false) × ((c == b'+') ≡ false) × ((c == b'=') ≡ false) × (c < 0x80)

pub digit_char-IsDigit : (d : ℕ) → d < 16 → IsDigit (digit_char d)
unfolding digit_char is_whitespace
digit_char-IsDigit d h = ground arith

pub emit-IsDigit :
    (f radix n : ℕ) (out : Str) → IsRadix radix → All IsDigit out → All IsDigit (emit f radix n out)
unfolding emit
emit-IsDigit zero radix n out r h = h
emit-IsDigit (suc f) radix n out r h =
    let d = digit_char-IsDigit (n % radix) (omega arith) in
    let ih = emit-IsDigit f radix (n / radix) (digit_char (n % radix) ∷ out) r (d, h) in
    elim (Bool-cases (n / radix == 0)) [ inl e ↦ rw e (d, h) | inr e ↦ rw e ih ]

pub emit-filled :
    (f radix n : ℕ) (out : Str) → is_empty out ≡ false → is_empty (emit f radix n out) ≡ false
unfolding emit
emit-filled zero radix n out h = h
emit-filled (suc f) radix n out h =
    ground (arith, emit-filled f radix (n / radix) (digit_char (n % radix) ∷ out) refl)

pub to_radix-IsDigit : (radix n : ℕ) → IsRadix radix → All IsDigit (to_radix radix n)
unfolding to_radix
to_radix-IsDigit radix n r = emit-IsDigit (suc n) radix n [] r tt

pub to_radix-filled : (radix n : ℕ) → is_empty (to_radix radix n) ≡ false
unfolding to_radix emit
to_radix-filled radix n =
    ground (arith, emit-filled n radix (n / radix) (digit_char (n % radix) ∷ []) refl)

pub All-Free : (s : Str) → All IsDigit s → Free is_whitespace s
All-Free [] h = tt
All-Free (c ∷ s) h = (h.0.0, All-Free s h.1)

-- A printed number is a word, over ASCII.
pub to_radix-IsWord : (radix n : ℕ) → IsRadix radix → IsWord (to_radix radix n)
to_radix-IsWord radix n r = record {
  free = All-Free (to_radix radix n) (to_radix-IsDigit radix n r);
  filled = to_radix-filled radix n;
}

pub div-pow : (n radix k : ℕ) → 0 < radix → n < radix ^ suc k → n / radix < radix ^ k
div-pow n radix k h lt = (div-lt_iff_lt-mul h).1 (rw (← pow-suc) lt)

pub emit-le :
    (k f radix n : ℕ) (out : Str)
    → IsRadix radix
    → n < radix ^ suc k
    → length (emit f radix n out) ≤ suc k + length out
emit-le k zero radix n out r h = unfold emit in omega arith
emit-le zero (suc f) radix n out r h =
    rw
      (emit_last f radix n out
        (omega (arith, div-pow n radix zero (omega arith) h, pow-zero radix)))
      (omega arith)
emit-le (suc k) (suc f) radix n out r h = elim (ℕ_discrete (n / radix) 0) [
  | yes e ↦ rw (emit_last f radix n out e) (omega arith)
  | no e ↦ rw (emit_more f radix n out e) (
      omega (
        arith,
        emit-le k f radix (n / radix) (digit_char (n % radix) ∷ out) r
            (div-pow n radix (suc k) (omega arith) h),
      ))
]

pub to_radix-le :
    (radix n k : ℕ) → IsRadix radix → n < radix ^ suc k → length (to_radix radix n) ≤ suc k
unfolding to_radix
to_radix-le radix n k r h = omega (arith, emit-le k (suc n) radix n [] r h)
