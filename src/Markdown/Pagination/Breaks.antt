-- ===== src/Markdown/Pagination/Breaks.antt =====
-- pagination.rs: where a page ends, `should_break_before` and what it looks up.
use sony_prs.Base.{
  ℕ, ◌+◌, ◌-◌, Bool, true, false, not, ◌&&◌, ◌||◌, List, [], ◌∷◌, Option, none, some, ltb, leb,
  ◌==◌, if◌then◌else◌, ℤ, pos, min, length, get?,
}
use sony_prs.Markdown.Coordinates.{i32_max, as_i32, saturating_add, saturating_sub, le}
use sony_prs.Markdown.Geometry.{Rect}
use sony_prs.Markdown.Pagination.{
  DocumentCursor, LayoutBlockKind, TableRowLayout, LayoutBlock, DocumentLayout, Insets, Position,
  same_cursor, at,
}

unfoldable pub line_bottom : Rect → ℤ
line_bottom r = saturating_add r.y (pos (min r.height i32_max))

abbrev pub last : List Rect → Option Rect
last [] = none
last (r ∷ []) = some r
last (r ∷ s ∷ rs) = last (s ∷ rs)

abbrev pub first : List Rect → Option Rect
first [] = none
first (r ∷ rs) = some r

abbrev pub in_row : TableRowLayout → ℕ → Bool
in_row row line_index = leb row.start line_index && ltb line_index row.end

unfoldable pub table_row_at : List TableRowLayout → ℕ → Option TableRowLayout
table_row_at [] line_index = none
table_row_at (row ∷ rows) line_index =
    let rest = table_row_at rows line_index in if in_row row line_index then some row else rest

abbrev pub header_of : ℕ → List TableRowLayout → Option TableRowLayout
header_of group [] = none
header_of group (row ∷ rows) =
    let rest = header_of group rows in if row.group == group && row.header then some row else rest

unfoldable pub table_header_for_line : List TableRowLayout → ℕ → Option TableRowLayout
unfolding table_row_at
table_header_for_line table line_index = elim (table_row_at table line_index) [
  | none ↦ none
  | some row ↦ header_of row.group table
]

abbrev or_rect : Option Rect → Rect → Rect
or_rect none r = r
or_rect (some s) r = s

unfoldable pub table_row_height : LayoutBlock → TableRowLayout → ℤ
unfolding line_bottom
table_row_height block row = elim (get? block.lines row.start) [
  | none ↦ pos 0
  | some first ↦
      saturating_sub (line_bottom (or_rect (get? block.lines (row.end - 1)) first)) first.y
]

abbrev or_next : Option Rect → Option LayoutBlock → Option Rect
or_next (some r) b = some r
or_next none none = none
or_next none (some b) = first b.lines

unfoldable pub next_line : DocumentLayout → ℕ → LayoutBlock → ℕ → Option Rect
next_line layout block_index block line_index =
    or_next (get? block.lines (line_index + 1)) (get? layout.blocks (block_index + 1))

unfoldable pub block_bottom : LayoutBlock → ℤ
unfolding line_bottom
block_bottom block = elim (last block.lines) [
  | some line ↦ line_bottom line
  | none ↦ block.bounds.y
]

-- `a.max(1)` of an `i32`.
abbrev at_least_one : ℤ → ℤ
at_least_one a = if le a (pos 1) then pos 1 else a

unfoldable pub block_fits_fresh_page : LayoutBlock → ℤ → Insets → Bool
unfolding block_bottom
block_fits_fresh_page block page_height padding = elim (first block.lines) [
  | none ↦ true
  | some line ↦ le (saturating_sub (block_bottom block) line.y) (
      at_least_one
        (saturating_sub (saturating_sub page_height (as_i32 padding.top)) (as_i32 padding.bottom)))
]

pub record PageContext : Type 0 where
  pub start : Option DocumentCursor
  pub origin_y : ℤ
  pub height : ℤ

unfoldable pub page_limit : Insets → PageContext → ℤ
page_limit padding context =
    saturating_sub (saturating_add context.origin_y context.height) (as_i32 padding.bottom)

abbrev above : ℤ → ℤ → Bool
above limit bottom = not (le bottom limit)

abbrev any_above : ℤ → Option Rect → Bool
any_above limit none = false
any_above limit (some r) = above limit (line_bottom r)

-- `row_bottom`: that of the row's last line, or of the line itself.
abbrev row_bottom : LayoutBlock → TableRowLayout → Rect → ℤ
row_bottom block row line = line_bottom (or_rect (get? block.lines (row.end - 1)) line)

abbrev row_breaks : Option TableRowLayout → Position → DocumentCursor → ℤ → Bool
row_breaks none p start limit = false
row_breaks (some row) p start limit =
    row.start == p.line_index
    && above limit (row_bottom p.block row p.line)
    && not (same_cursor start (at p))

abbrev table_breaks :
    LayoutBlockKind → Option (List TableRowLayout) → Position → DocumentCursor → ℤ → Bool
table_breaks LayoutBlockKind.table (some rows) p start limit =
    row_breaks (table_row_at rows p.line_index) p start limit
table_breaks _ _ p start limit = false

-- The continuation of an image that is placed from its first line.
abbrev keeps_image : LayoutBlockKind → Position → DocumentCursor → Bool
keeps_image LayoutBlockKind.image p start =
    ltb 0 p.line_index && start.block == p.block_index && start.line == 0
keeps_image _ p start = false

-- The rules for the first line of a rule, an image or a heading.
abbrev first_line_breaks : LayoutBlockKind → DocumentLayout → Position → ℤ → ℤ → Insets → Bool
first_line_breaks LayoutBlockKind.rule layout p limit height padding =
    p.line_index == 0 && above limit (block_bottom p.block)
first_line_breaks LayoutBlockKind.image layout p limit height padding =
    p.line_index == 0 && above limit (block_bottom p.block)
first_line_breaks LayoutBlockKind.heading layout p limit height padding =
    p.line_index == 0
    && any_above limit (next_line layout p.block_index p.block p.line_index)
    && block_fits_fresh_page p.block height padding
first_line_breaks _ layout p limit height padding = false

-- The rules for a paragraph that begins on this page.
abbrev paragraph_breaks : LayoutBlockKind → Position → DocumentCursor → ℤ → ℤ → Insets → Bool
paragraph_breaks LayoutBlockKind.paragraph p start limit height padding =
    let started =
      ltb start.block p.block_index || (start.block == p.block_index && start.line == 0) in
    let together =
      p.line_index == 0
      && block_fits_fresh_page p.block height padding
      && above limit (block_bottom p.block) in
    let two_left =
      p.line_index + 2 == length p.block.lines
      && any_above limit (get? p.block.lines (p.line_index + 1)) in
    started && (together || two_left)
paragraph_breaks _ p start limit height padding = false

-- `should_break_before`, for a page that has begun.
abbrev pub breaks_after : DocumentLayout → Insets → Position → DocumentCursor → ℤ → ℤ → Bool
breaks_after layout padding p start limit height =
    if table_breaks p.block.kind p.block.table p start limit
    then true
    else if above limit (line_bottom p.line)
    then not (keeps_image p.block.kind p start)
    else first_line_breaks p.block.kind layout p limit height padding
      || paragraph_breaks p.block.kind p start limit height padding

unfoldable pub should_break_before : DocumentLayout → Insets → Position → PageContext → Bool
unfolding line_bottom table_row_at next_line block_bottom block_fits_fresh_page page_limit
should_break_before layout padding p context = elim context.start [
  | none ↦ false
  | some start ↦ breaks_after layout padding p start (page_limit padding context) context.height
]
