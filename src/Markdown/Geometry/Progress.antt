-- ===== src/Markdown/Geometry/Progress.antt =====
-- The width of the progress line.
use sony_prs.Base.{ℕ, ◌+◌, ◌-◌, ◌*◌, ◌/◌, ◌%◌, ◌^◌, ◌≤◌, ◌<◌, ◌≡◌, refl, arith, min}
use sony_prs.T1.{u32_max, saturating_add}
use native.Mathlib.Nat.{
  mul-le-mul, mul-le-mul_left, le-div_iff_mul-le, div-mul-le_self, div-le_of_le-mul, mul-div_cancel,
}
use sony_prs.Markdown.Geometry.{ReadingProgress, new_progress, filled_width}

-- A progress that `ReadingProgress::new` makes of a count that fits `u32`.
record IsProgress (p : ReadingProgress) : Type 0 where
  current : p.current_page < p.page_count
  count : p.page_count ≤ u32_max

new_progress-IsProgress : (c n : ℕ) → n ≤ u32_max → IsProgress (new_progress c n)
unfolding new_progress
new_progress-IsProgress c n h = record { current = ground arith; count = ground arith }

-- Neither the product nor the quotient leaves its machine type.
filled_width-exact :
    (p : ReadingProgress) (w : ℕ)
    → IsProgress p
    → w ≤ u32_max
    → (filled_width p w ≡ w * (p.current_page + 1) / p.page_count) × (filled_width p w ≤ w)
unfolding filled_width
filled_width-exact p w s h =
    let visible : saturating_add p.current_page 1 ≡ p.current_page + 1 =
      omega (arith, s.current, s.count) in
    let bound : p.current_page + 1 ≤ u32_max = omega (arith, s.current, s.count) in
    let all : p.current_page + 1 ≤ p.page_count = omega (arith, s.current) in
    let product : w * (p.current_page + 1) ≤ u32_max * u32_max = mul-le-mul h bound in
    let small : w * (p.current_page + 1) ≤ p.page_count * w =
      omega (arith, mul-le-mul_left w all) in
    let quotient : w * (p.current_page + 1) / p.page_count ≤ w =
      div-le_of_le-mul p.page_count small in
    let exact : min (w * (p.current_page + 1)) (2 ^ 64 - 1) ≡ w * (p.current_page + 1) =
      omega (arith, product) in
    let fits : w * (p.current_page + 1) / p.page_count % 2 ^ 32
        ≡ w * (p.current_page + 1) / p.page_count =
      omega (arith, quotient, h) in
    rw (visible, exact, fits) (refl, quotient)

current_page_mono :
    (c d n : ℕ)
    → c ≤ d
    → (new_progress c n).current_page ≤ (new_progress d n).current_page
      × ((new_progress c n).page_count ≡ (new_progress d n).page_count)
unfolding new_progress
current_page_mono c d n h = ground arith

current_page_last :
    (c n : ℕ) → n ≤ c + 1 → (new_progress c n).current_page + 1 ≡ (new_progress c n).page_count
unfolding new_progress
current_page_last c n h = ground arith

div_mono : (a b k : ℕ) → 0 < k → a ≤ b → a / k ≤ b / k
div_mono a b k h le = (le-div_iff_mul-le h).1 (omega (arith, div-mul-le_self a k))

filled_width_mono :
    (p q : ReadingProgress) (w : ℕ)
    → IsProgress p
    → IsProgress q
    → p.page_count ≡ q.page_count
    → p.current_page ≤ q.current_page
    → w ≤ u32_max
    → filled_width p w ≤ filled_width q w
filled_width_mono p q w s t same h hw =
    rw ((filled_width-exact p w s hw).0, (filled_width-exact q w t hw).0, same)
      (div_mono (w * (p.current_page + 1)) (w * (q.current_page + 1)) q.page_count
        (omega (arith, t.current)) (mul-le-mul_left w (omega arith)))

filled_width_full :
    (p : ReadingProgress) (w : ℕ)
    → IsProgress p
    → p.current_page + 1 ≡ p.page_count
    → w ≤ u32_max
    → filled_width p w ≡ w
filled_width_full p w s last hw =
    rw ((filled_width-exact p w s hw).0, last) (mul-div_cancel w (omega (arith, s.current)))

-- The progress line, for any page, count of pages and width that fit `u32`: it is no longer at an
-- earlier page than at a later one, never longer than the display is wide, and exactly as long at
-- the last page and at any page number behind it.
pub filled_width_lem :
    (w n c d e : ℕ)
    → w ≤ u32_max
    → n ≤ u32_max
    → c ≤ d
    → (filled_width (new_progress c n) w ≤ filled_width (new_progress d n) w)
      × (filled_width (new_progress d n) w ≤ w)
      × (filled_width (new_progress (n - 1 + e) n) w ≡ w)
filled_width_lem w n c d e hw hn h =
    let valid = λ (i : ℕ). new_progress-IsProgress i n hn in
    let (order, count) = current_page_mono c d n h in
    (
      filled_width_mono (new_progress c n) (new_progress d n) w (valid c) (valid d) count order hw,
      (filled_width-exact (new_progress d n) w (valid d) hw).1,
      filled_width_full (new_progress (n - 1 + e) n) w (valid (n - 1 + e))
          (current_page_last (n - 1 + e) n (omega arith)) hw,
    )
