-- ===== src/Markdown/Geometry/Surface.antt =====
-- The parts of the reader's surface: the status bar, the page and the progress area.
use sony_prs.Base.{ℕ, ◌+◌, ◌-◌, ◌≤◌, ◌≡◌, arith, Option, none, some, pos}
use sony_prs.Markdown.Coordinates.{i32_max}
use sony_prs.Markdown.Geometry.{
  Rect, ReaderLayout, effective_viewport, progress_line_bounds, progress_indicator_bounds,
}

-- The reserved heights fit the display, whose height fits `i32`.
pub record IsSurface (l : ReaderLayout) : Type 0 where
  pub height : l.display_viewport.height ≤ i32_max
  pub reserved : l.status_bar_height + l.progress_line ≤ l.display_viewport.height

-- A one-pixel row `y` of the display's width, or nothing.
abbrev pub IsRow : Option Rect → ℕ → ℕ → Type 0
IsRow none width y = Unit
IsRow (some r) width y = (r.x ≡ pos 0) × (r.y ≡ pos y) × (r.width ≡ width) × (r.height ≡ 1)

-- The surface is the status bar, the page and the progress area, one below the other, and the
-- progress indicator is drawn, if at all, in the last row of the display.
pub surface_tiles :
    (l : ReaderLayout)
    → IsSurface l
    → (l.status_bar_height + (effective_viewport l).height + l.progress_line
        ≡ l.display_viewport.height)
      × ((progress_line_bounds l).y ≡ pos (l.status_bar_height + (effective_viewport l).height))
      × IsRow (progress_indicator_bounds l) l.display_viewport.width (l.display_viewport.height - 1)
unfolding effective_viewport progress_line_bounds progress_indicator_bounds
surface_tiles l s = ground (arith, s.height, s.reserved)
