-- ===== src/T1/Damage.antt =====
-- `changed_region` of damage.rs. An image is the list of its bytes, two for a pixel.
pub mod Scan
pub mod Correct
use sony_prs.Base.{
  ℕ, zero, suc, ◌+◌, ◌-◌, ◌*◌, Bool, true, false, ◌||◌, ◌&&◌, not, List, Option, none, some, min,
  max, ltb, ◌==◌, if◌then◌else◌, length, get_or, Result, ok, err,
}
use sony_prs.T1.{u32_max}
use sony_prs.T1.Region.{DisplayRegion, DamageOptions, expand_region}

pub data Error : Type 0 where
  invalid_data invalid_input : Error

-- The comparison of the two bytes of the pixel at column `x` of row `y`.
unfoldable pub pixel_differs : List ℕ → List ℕ → ℕ → ℕ → ℕ → Bool
pixel_differs current previous width x y =
    let offset = y * width * 2 + x * 2 in
    not (
      get_or current offset 0 == get_or previous offset 0
      && get_or current (suc offset) 0 == get_or previous (suc offset) 0)

-- The variables `left`, `top`, `right` and `bottom` of the scan.
pub record Bounds : Type 0 where
  pub left : ℕ
  pub top : ℕ
  pub right : ℕ
  pub bottom : ℕ

unfoldable pub extend : Bounds → ℕ → ℕ → Bounds
extend b x y = record {
  left = min b.left x;
  top = min b.top y;
  right = max b.right (x + 1);
  bottom = max b.bottom (y + 1);
}

-- The inner loop, with `count` columns left from column `x` on.
unfoldable pub scan_row : (ℕ → Bool) → ℕ → ℕ → ℕ → Bounds → Bounds
scan_row differs y zero x b = b
scan_row differs y (suc count) x b =
    scan_row differs y count (suc x) (if differs x then extend b x y else b)

-- The outer loop, with `count` rows left from row `y` on.
unfoldable pub scan_rows : (ℕ → ℕ → Bool) → ℕ → ℕ → ℕ → Bounds → Bounds
scan_rows differs width zero y b = b
scan_rows differs width (suc count) y b =
    scan_rows differs width count (suc y) (scan_row (λ x. differs x y) y width 0 b)

abbrev pub no_bounds : ℕ → ℕ → Bounds
no_bounds width height = record { left = width; top = height; right = 0; bottom = 0 }

abbrev pub to_region : Bounds → DisplayRegion
to_region b = record {
  left = b.left;
  top = b.top;
  width = b.right - b.left;
  height = b.bottom - b.top;
}

unfoldable pub changed_region :
    List ℕ → List ℕ → ℕ → ℕ → DamageOptions → Result Error (Option DisplayRegion)
changed_region current previous width height options =
    let expected = width * height * 2 in
    let b =
      scan_rows (pixel_differs current previous width) width height 0 (no_bounds width height) in
    if ltb u32_max (width * height) || ltb u32_max expected
    then err invalid_data
    else if not (length current == expected) || not (length previous == expected)
    then err invalid_input
    else if width == 0 || height == 0
    then ok none
    else if b.left == width
    then ok none
    else ok (some (expand_region (to_region b) width height options))
