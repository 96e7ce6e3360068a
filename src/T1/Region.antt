-- ===== src/T1/Region.antt =====
-- `DisplayRegion` of framebuffer.rs, and `expand_region` and `align_up` of damage.rs.
use sony_prs.Base.{
  ℕ, ◌+◌, ◌-◌, ◌*◌, ◌/◌, ◌%◌, ◌≤◌, ◌<◌, ◌≡◌, Bool, ◌||◌, ◌&&◌, arith, min, max, leb, ◌==◌,
  if◌then◌else◌,
}
use native.Mathlib.Nat.{div-add-mod'}
use sony_prs.T1.{u32_max, saturating_add}

pub record DisplayRegion : Type 0 where
  pub left : ℕ
  pub top : ℕ
  pub width : ℕ
  pub height : ℕ

abbrev pub full : ℕ → ℕ → DisplayRegion
full width height = record { left = 0; top = 0; width = width; height = height }

unfoldable pub bounded : DisplayRegion → ℕ → ℕ → DisplayRegion
bounded r width height =
    let left = min r.left width in
    let top = min r.top height in
    record {
      left = left;
      top = top;
      width = min r.width (width - left);
      height = min r.height (height - top);
    }

abbrev pub right : DisplayRegion → ℕ
right r = saturating_add r.left r.width

abbrev pub bottom : DisplayRegion → ℕ
bottom r = saturating_add r.top r.height

unfoldable pub contains : DisplayRegion → DisplayRegion → Bool
contains r other =
    leb r.left other.left
    && leb r.top other.top
    && leb (right other) (right r)
    && leb (bottom other) (bottom r)

pub record DamageOptions : Type 0 where
  pub padding_x : ℕ
  pub padding_y : ℕ
  pub align_x : ℕ
  pub align_y : ℕ

abbrev pub default_options : DamageOptions
default_options = record { padding_x = 0; padding_y = 0; align_x = 1; align_y = 1 }

unfoldable pub align_up : ℕ → ℕ → ℕ
align_up value alignment =
    let remainder = value % alignment in
    if leb alignment 1
    then value
    else if remainder == 0
    then value
    else saturating_add value (alignment - remainder)

-- One axis of `expand_region`: the low edge, then the high edge.
unfoldable pub low_edge : ℕ → ℕ → ℕ → ℕ
low_edge start padding align = (start - padding) / max align 1 * max align 1

unfoldable pub high_edge : ℕ → ℕ → ℕ → ℕ → ℕ → ℕ
unfolding align_up
high_edge start size padding align limit =
    min (align_up (saturating_add (saturating_add start size) padding) (max align 1)) limit

unfoldable pub expand_region : DisplayRegion → ℕ → ℕ → DamageOptions → DisplayRegion
expand_region region width height options =
    let r = bounded region width height in
    let left = low_edge r.left options.padding_x options.align_x in
    let top = low_edge r.top options.padding_y options.align_y in
    let right = high_edge r.left r.width options.padding_x options.align_x width in
    let bottom = high_edge r.top r.height options.padding_y options.align_y height in
    if r.width == 0 || r.height == 0
    then r
    else record { left = left; top = top; width = right - left; height = bottom - top }

-- A pixel of a region.
pub record Covers (r : DisplayRegion) (x y : ℕ) : Type 0 where
  pub left : r.left ≤ x
  pub right : x < r.left + r.width
  pub top : r.top ≤ y
  pub bottom : y < r.top + r.height

-- A region on a screen.
pub record IsWithin (r : DisplayRegion) (width height : ℕ) : Type 0 where
  pub right : r.left + r.width ≤ width
  pub bottom : r.top + r.height ≤ height

low_edge-le : (start padding align : ℕ) → low_edge start padding align ≤ start
unfolding low_edge
low_edge-le start padding align = omega (arith, div-add-mod' (start - padding) (max align 1))

align_up-le : (value alignment : ℕ) → value ≤ u32_max → value ≤ align_up value alignment
unfolding align_up
align_up-le value alignment h = ground arith

high_edge-le :
    (start size padding align limit : ℕ)
    → start + size ≤ limit
    → limit ≤ u32_max
    → start + size ≤ high_edge start size padding align limit
unfolding high_edge
high_edge-le start size padding align limit h k = omega (
  arith,
  align_up-le (saturating_add (saturating_add start size) padding) (max align 1) (omega arith),
)

high_edge-le_limit :
    (start size padding align limit : ℕ) → high_edge start size padding align limit ≤ limit
unfolding high_edge
high_edge-le_limit start size padding align limit = omega arith

bounded-IsWithin :
    (r : DisplayRegion) (width height : ℕ) → IsWithin (bounded r width height) width height
unfolding bounded
bounded-IsWithin r width height = record { right = omega arith; bottom = omega arith }

Covers-bounded :
    (r : DisplayRegion) (width height x y : ℕ)
    → x < width
    → y < height
    → Covers r x y
    → Covers (bounded r width height) x y
unfolding bounded
Covers-bounded r width height x y hx hy c = record {
  left = omega arith;
  right = omega arith;
  top = omega arith;
  bottom = omega arith;
}

-- What was in the region, on a screen of 32-bit sizes, is in the expanded region.
pub Covers-expand_region :
    (r : DisplayRegion) (width height : ℕ) (options : DamageOptions) (x y : ℕ)
    → width ≤ u32_max
    → height ≤ u32_max
    → x < width
    → y < height
    → Covers r x y
    → Covers (expand_region r width height options) x y
unfolding expand_region
Covers-expand_region r width height o x y hw hh hx hy c =
    let b = bounded r width height in
    let w = bounded-IsWithin r width height in
    ground (
      arith,
      Covers-bounded r width height x y hx hy c,
      w,
      low_edge-le b.left o.padding_x o.align_x,
      low_edge-le b.top o.padding_y o.align_y,
      high_edge-le b.left b.width o.padding_x o.align_x width w.right hw,
      high_edge-le b.top b.height o.padding_y o.align_y height w.bottom hh,
    )

-- The expanded region stays on the screen.
pub expand_region-IsWithin :
    (r : DisplayRegion) (width height : ℕ) (options : DamageOptions)
    → IsWithin (expand_region r width height options) width height
unfolding expand_region
expand_region-IsWithin r width height o =
    let b = bounded r width height in
    let w = bounded-IsWithin r width height in
    ground (
      arith,
      w,
      low_edge-le b.left o.padding_x o.align_x,
      low_edge-le b.top o.padding_y o.align_y,
      high_edge-le_limit b.left b.width o.padding_x o.align_x width,
      high_edge-le_limit b.top b.height o.padding_y o.align_y height,
    )

-- With the default options a region on the screen is left as it is.
pub expand_region_default :
    (r : DisplayRegion) (width height : ℕ)
    → width ≤ u32_max
    → height ≤ u32_max
    → IsWithin r width height
    → expand_region r width height default_options ≡ r
unfolding expand_region bounded low_edge high_edge
expand_region_default r width height hw hh w = ground arith
