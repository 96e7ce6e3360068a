-- ===== src/Markdown/Geometry.antt =====
-- geometry.rs: the viewport, the shared layout of the reader's surface, and reading progress.
pub mod Progress
pub mod Surface
use sony_prs.Base.{
  ℕ, ◌+◌, ◌-◌, ◌*◌, ◌/◌, ◌%◌, ◌^◌, Bool, ◌||◌, min, Option, none, some, ltb, leb, ◌==◌,
  if◌then◌else◌, ℤ, pos, negsuc,
}
use sony_prs.T1.{saturating_add}
use sony_prs.Markdown.Coordinates.{as_i32, ◌+ℤ◌}

pub record Viewport : Type 0 where
  pub width : ℕ
  pub height : ℕ

-- `Rectangle` of embedded-graphics: the top-left point and the size.
pub record Rect : Type 0 where
  pub x : ℤ
  pub y : ℤ
  pub width : ℕ
  pub height : ℕ

abbrev pub default_font_scale_percent : ℕ
default_font_scale_percent = 100

abbrev pub min_font_scale_percent : ℕ
min_font_scale_percent = 75

abbrev pub max_font_scale_percent : ℕ
max_font_scale_percent = 150

abbrev pub font_scale_step_percent : ℕ
font_scale_step_percent = 25

-- `ReadingProgress`, and its constructor.
pub record ReadingProgress : Type 0 where
  pub current_page : ℕ
  pub page_count : ℕ

unfoldable pub new_progress : ℕ → ℕ → ReadingProgress
new_progress current_page page_count =
    let count = if page_count == 0 then 1 else page_count in
    record {
      current_page = if leb count current_page then count - 1 else current_page;
      page_count = count;
    }

-- A count of pages fits `u32`; the product is of `u64`.
unfoldable pub filled_width : ReadingProgress → ℕ → ℕ
filled_width p display_width =
    let visible_pages = saturating_add p.current_page 1 in
    min (display_width * visible_pages) (2 ^ 64 - 1) / p.page_count % 2 ^ 32

-- `progress_line` is the height reserved by its `ProgressLineArea`.
pub record ReaderLayout : Type 0 where
  pub display_viewport : Viewport
  pub status_bar_height : ℕ
  pub progress_line : ℕ
  pub font_scale_percent : ℕ

unfoldable pub clamp_font_scale_percent : ℕ → ℕ
clamp_font_scale_percent percent =
    if ltb percent min_font_scale_percent
    then min_font_scale_percent
    else if ltb max_font_scale_percent percent
    then max_font_scale_percent
    else percent

unfoldable pub with_font_scale_percent : ReaderLayout → ℕ → ReaderLayout
with_font_scale_percent l percent = record l {
  font_scale_percent = clamp_font_scale_percent percent;
}

unfoldable pub normalized : ReaderLayout → ReaderLayout
normalized l = with_font_scale_percent l l.font_scale_percent

-- `ReaderLayout::new`, which `content` calls.
unfoldable pub content : Viewport → ReaderLayout
content viewport = record {
  display_viewport = viewport;
  status_bar_height = 0;
  progress_line = 0;
  font_scale_percent = default_font_scale_percent;
}

unfoldable pub effective_viewport : ReaderLayout → Viewport
effective_viewport l = record {
  width = l.display_viewport.width;
  height = l.display_viewport.height - l.status_bar_height - l.progress_line;
}

unfoldable pub progress_line_bounds : ReaderLayout → Rect
unfolding effective_viewport
progress_line_bounds l = record {
  x = pos 0;
  y = as_i32 l.status_bar_height +ℤ as_i32 (effective_viewport l).height;
  width = l.display_viewport.width;
  height = l.progress_line;
}

unfoldable pub progress_indicator_bounds : ReaderLayout → Option Rect
unfolding progress_line_bounds
progress_indicator_bounds l =
    let reserved = progress_line_bounds l in
    if l.progress_line == 0 || l.display_viewport.width == 0
    then none
    else some (record {
      x = reserved.x;
      y = reserved.y +ℤ as_i32 reserved.height +ℤ negsuc 0;
      width = l.display_viewport.width;
      height = 1;
    })
