-- ===== src/T1/Orientation.antt =====
-- orientation.rs: the two orientations, and the mapping of touch points to the active screen.
use sony_prs.Markdown.Geometry.{Viewport}
use sony_prs.Base.{ℕ, ℤ, Below, Bool, true, false, String}

pub data ReaderOrientation : Type 0 where
  portrait landscape : ReaderOrientation

pub record Point : Type 0 where
  pub x : ℤ
  pub y : ℤ

unfoldable pub viewport : ReaderOrientation → Viewport
viewport portrait = record { width = 600; height = 800 }
viewport landscape = record { width = 800; height = 600 }

unfoldable pub framebuffer_rotation : ReaderOrientation → ℕ
framebuffer_rotation portrait = 3
framebuffer_rotation landscape = 0

unfoldable pub label : ReaderOrientation → String
label portrait = "Portrait"
label landscape = "Landscape"

unfoldable pub toggle : ReaderOrientation → ReaderOrientation
toggle portrait = landscape
toggle landscape = portrait

unfoldable pub is_landscape : ReaderOrientation → Bool
is_landscape portrait = false
is_landscape landscape = true

unfoldable pub map_touch_point : ReaderOrientation → ℤ → ℤ → Point
map_touch_point portrait raw_x raw_y = record { x = raw_y; y = raw_x }
map_touch_point landscape raw_x raw_y = record { x = raw_x; y = raw_y }

unfoldable pub map_multitouch_point : ReaderOrientation → ℤ → ℤ → Point
map_multitouch_point portrait raw_x raw_y = record { x = raw_x; y = raw_y }
map_multitouch_point landscape raw_x raw_y = record { x = raw_y; y = raw_x }

-- A point on the screen.
pub record OnScreen (v : Viewport) (p : Point) : Type 0 where
  pub x : Below v.width p.x
  pub y : Below v.height p.y
