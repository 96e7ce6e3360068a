-- ===== src/T1/Damage/Scan.antt =====
-- The bounds that the scan leaves, against the pixels that differ.
use sony_prs.Base.{
  ℕ, zero, suc, ◌+◌, ◌≤◌, ◌<◌, ◌≡◌, ◌⊎◌, inl, inr, refl, subst, Bool, true, false, arith,
  if◌then◌else◌,
}
use native.Mathlib.Decide.{ℕ_discrete}
use sony_prs.T1.Damage.{Bounds, extend, scan_row, scan_rows, no_bounds}

-- A pixel within the bounds.
pub record Encloses (b : Bounds) (x y : ℕ) : Type 0 where
  pub left : b.left ≤ x
  pub right : x < b.right
  pub top : b.top ≤ y
  pub bottom : y < b.bottom

-- The bounds `c` reach at least as far as `b`.
pub record Widens (b c : Bounds) : Type 0 where
  pub left : c.left ≤ b.left
  pub right : b.right ≤ c.right
  pub top : c.top ≤ b.top
  pub bottom : b.bottom ≤ c.bottom

Widens-refl : (b : Bounds) → Widens b b
Widens-refl b = omega arith

Widens-trans : {b c d : Bounds} → Widens b c → Widens c d → Widens b d
Widens-trans h k = omega arith

Encloses-Widens : {b c : Bounds} {x y : ℕ} → Encloses b x y → Widens b c → Encloses c x y
Encloses-Widens h k = omega arith

extend-Widens : (b : Bounds) (x y : ℕ) → Widens b (extend b x y)
unfolding extend
extend-Widens b x y = omega arith

extend-Encloses : (b : Bounds) (x y : ℕ) → Encloses (extend b x y) x y
unfolding extend
extend-Encloses b x y = omega arith

branch-Widens : (t : Bool) (b : Bounds) (x y : ℕ) → Widens b (if t then extend b x y else b)
branch-Widens true b x y = extend-Widens b x y
branch-Widens false b x y = Widens-refl b

branch-Encloses :
    (t : Bool) (b : Bounds) (x y : ℕ) → t ≡ true → Encloses (if t then extend b x y else b) x y
branch-Encloses true b x y h = extend-Encloses b x y
branch-Encloses false b x y h = cc

-- Bounds that hold the new pixel and the old bounds hold the extended ones.
branch-smallest :
    (t : Bool) (b c : Bounds) (x y : ℕ)
    → Widens b c
    → (t ≡ true → Encloses c x y)
    → Widens (if t then extend b x y else b) c
unfolding extend
branch-smallest true b c x y h k = let e = k refl in omega arith
branch-smallest false b c x y h k = h

module _ (differs : ℕ → Bool) (y : ℕ) where
  scan_row-Widens : (count x : ℕ) (b : Bounds) → Widens b (scan_row differs y count x b)
  unfolding scan_row
  scan_row-Widens zero x b = Widens-refl b
  scan_row-Widens (suc count) x b =
      Widens-trans (branch-Widens (differs x) b x y) (scan_row-Widens count (suc x) _)

  scan_row-Encloses :
      (count x : ℕ) (b : Bounds) (z : ℕ)
      → x ≤ z
      → z < x + count
      → differs z ≡ true
      → Encloses (scan_row differs y count x b) z y
  unfolding scan_row
  scan_row-Encloses zero x b z h k d = absurd (omega arith)
  scan_row-Encloses (suc count) x b z h k d = elim (ℕ_discrete x z) [
    | yes e ↦
        subst (λ w. Encloses (scan_row differs y (suc count) x b) w y) e
          (Encloses-Widens (branch-Encloses (differs x) b x y (rw e d))
            (scan_row-Widens count (suc x) _))
    | no e ↦ scan_row-Encloses count (suc x) _ z (omega arith) (omega arith) d
  ]

  scan_row_smallest :
      (c : Bounds) (count x : ℕ) (b : Bounds)
      → ((z : ℕ) → x ≤ z → z < x + count → differs z ≡ true → Encloses c z y)
      → Widens b c
      → Widens (scan_row differs y count x b) c
  unfolding scan_row
  scan_row_smallest c zero x b all h = h
  scan_row_smallest c (suc count) x b all h =
      scan_row_smallest c count (suc x) _ (λ z lo hi d. all z (omega arith) (omega arith) d)
        (branch-smallest (differs x) b c x y h (λ d. all x (omega arith) (omega arith) d))

module _ (differs : ℕ → ℕ → Bool) (width : ℕ) where
  scan_rows-Widens : (count y : ℕ) (b : Bounds) → Widens b (scan_rows differs width count y b)
  unfolding scan_rows
  scan_rows-Widens zero y b = Widens-refl b
  scan_rows-Widens (suc count) y b =
      Widens-trans (scan_row-Widens (λ x. differs x y) y width 0 b)
        (scan_rows-Widens count (suc y) _)

  scan_rows-Encloses :
      (count y : ℕ) (b : Bounds) (x z : ℕ)
      → x < width
      → y ≤ z
      → z < y + count
      → differs x z ≡ true
      → Encloses (scan_rows differs width count y b) x z
  unfolding scan_rows
  scan_rows-Encloses zero y b x z hx h k d = absurd (omega arith)
  scan_rows-Encloses (suc count) y b x z hx h k d = elim (ℕ_discrete y z) [
    | yes e ↦
        subst (λ w. Encloses (scan_rows differs width (suc count) y b) x w) e
          (Encloses-Widens
            (scan_row-Encloses (λ x. differs x y) y width 0 b x (omega arith) (omega arith)
              (rw e d))
            (scan_rows-Widens count (suc y) _))
    | no e ↦ scan_rows-Encloses count (suc y) _ x z hx (omega arith) (omega arith) d
  ]

  scan_rows_smallest :
      (c : Bounds) (count y : ℕ) (b : Bounds)
      → ((x z : ℕ) → x < width → y ≤ z → z < y + count → differs x z ≡ true → Encloses c x z)
      → Widens b c
      → Widens (scan_rows differs width count y b) c
  unfolding scan_rows
  scan_rows_smallest c zero y b all h = h
  scan_rows_smallest c (suc count) y b all h =
      scan_rows_smallest c count (suc y) _
        (λ x z hx lo hi d. all x z hx (omega arith) (omega arith) d)
        (scan_row_smallest (λ x. differs x y) y c width 0 b
          (λ x _ hi d. all x y (omega arith) (omega arith) (omega arith) d) h)

-- Nothing was found, or the bounds hold a pixel.
abbrev pub IsFilled : ℕ → Bounds → Type 0
IsFilled width b = (b.left ≡ width) ⊎ ((b.left < b.right) × (b.top < b.bottom))

branch-IsFilled :
    (width : ℕ) (t : Bool) (b : Bounds) (x y : ℕ)
    → IsFilled width b
    → IsFilled width (if t then extend b x y else b)
branch-IsFilled width true b x y h = unfold extend in inr (omega arith, omega arith)
branch-IsFilled width false b x y h = h

scan_row-IsFilled :
    (width : ℕ) (differs : ℕ → Bool) (y count x : ℕ) (b : Bounds)
    → IsFilled width b
    → IsFilled width (scan_row differs y count x b)
unfolding scan_row
scan_row-IsFilled width differs y zero x b h = h
scan_row-IsFilled width differs y (suc count) x b h =
    scan_row-IsFilled width differs y count (suc x) _ (branch-IsFilled width (differs x) b x y h)

scan_rows-IsFilled :
    (differs : ℕ → ℕ → Bool) (width count y : ℕ) (b : Bounds)
    → IsFilled width b
    → IsFilled width (scan_rows differs width count y b)
unfolding scan_rows
scan_rows-IsFilled differs width zero y b h = h
scan_rows-IsFilled differs width (suc count) y b h =
    scan_rows-IsFilled differs width count (suc y) _
      (scan_row-IsFilled width (λ x. differs x y) y width 0 b h)

-- The bounds of the whole screen: every pixel that differs is inside, and they are the smallest.
module _ (differs : ℕ → ℕ → Bool) (width height : ℕ) where
  abbrev pub scanned : Bounds
  scanned = scan_rows differs width height 0 (no_bounds width height)

  pub scanned-Encloses :
      (x y : ℕ) → x < width → y < height → differs x y ≡ true → Encloses scanned x y
  scanned-Encloses x y hx hy d =
      scan_rows-Encloses differs width height 0 (no_bounds width height) x y hx (omega arith)
        (omega arith) d

  pub scanned_smallest :
      (c : Bounds)
      → ((x y : ℕ) → x < width → y < height → differs x y ≡ true → Encloses c x y)
      → c.left ≤ width
      → c.top ≤ height
      → Widens scanned c
  scanned_smallest c all hl ht =
      scan_rows_smallest differs width c height 0 (no_bounds width height)
        (λ x y hx _ hy d. all x y hx (omega arith) d) (omega arith)

  pub scanned-IsFilled : IsFilled width scanned
  scanned-IsFilled = scan_rows-IsFilled differs width height 0 (no_bounds width height) (inl refl)

  pub scanned-le : scanned.left ≤ width
  scanned-le = (scan_rows-Widens differs width height 0 (no_bounds width height)).left
