-- ===== src/Markdown/Pagination/Directory.antt =====
-- pagination.rs: `PaginationIndex`, the page directory that rebuilds one page at a time, and the
-- searches for a page.
pub mod Order
pub mod Lookup
pub mod Begun
pub mod Rebuild
use sony_prs.Base.{
  ℕ, zero, suc, ◌+◌, ◌-◌, Bool, true, false, ◌&&◌, List, [], ◌∷◌, ◌++◌, map, Option, none, some,
  ltb, ◌==◌, if◌then◌else◌, ℤ, pos, length, get?,
}
use sony_prs.Markdown.Coordinates.{as_i32, saturating_sub}
use sony_prs.Markdown.Geometry.{Rect}
use sony_prs.Markdown.Pagination.{
  DocumentCursor, DocumentRange, TableRowLayout, LayoutBlock, DocumentLayout, Insets, Position, at,
  cursor, contains, same_cursor, positions,
}
use sony_prs.Markdown.Pagination.Breaks.{table_row_height}
use sony_prs.Markdown.Pagination.Scan.{
  Placement, PageLayout, placement, repeated_header, header_offset, page_origin, paginate,
}

-- `repeated_header`: the block, and the header's lines.
pub record RepeatedHeader : Type 0 where
  pub block : ℕ
  pub start : ℕ
  pub end : ℕ

pub record PageIndexEntry : Type 0 where
  pub range : DocumentRange
  pub origin_y : ℤ
  pub repeated_header : Option RepeatedHeader

abbrev pub in_block : DocumentCursor → Option LayoutBlock → Option Position
in_block c none = none
in_block c (some block) = elim (get? block.lines c.line) [
  | none ↦ none
  | some line ↦
      some (record { block_index = c.block; line_index = c.line; block = block; line = line })
]

-- `layout.blocks().get(c.block)` and `block.lines.get(c.line)`.
unfoldable pub position_at : DocumentLayout → DocumentCursor → Option Position
position_at layout c = in_block c (get? layout.blocks c.block)

abbrev pub above_header : LayoutBlock → ℤ → Option TableRowLayout → ℤ
above_header block origin none = origin
above_header block origin (some header) = saturating_sub origin (table_row_height block header)

abbrev pub header_range : ℕ → Option TableRowLayout → Option RepeatedHeader
header_range b none = none
header_range b (some header) = some (record { block = b; start = header.start; end = header.end })

abbrev pub origin_and_header : Option Position → ℕ → Insets → ℤ × Option RepeatedHeader
origin_and_header none number padding = (pos 0, none)
origin_and_header (some p) number padding =
    let first = if number == 1 then pos 0 else saturating_sub p.line.y (as_i32 padding.top) in
    (above_header p.block first (repeated_header p), header_range p.block_index (repeated_header p))

unfoldable pub page_origin_and_header :
    DocumentLayout → PageLayout → Insets → ℤ × Option RepeatedHeader
unfolding position_at repeated_header table_row_height
page_origin_and_header layout page padding =
    origin_and_header (position_at layout page.range.start) page.number padding

unfoldable pub index_entry : DocumentLayout → Insets → PageLayout → PageIndexEntry
unfolding page_origin_and_header
index_entry layout padding page =
    let (origin_y, header) = page_origin_and_header layout page padding in
    record { range = page.range; origin_y = origin_y; repeated_header = header }

-- `Paginator::index`, by `PaginationIndex::from_pagination`.
unfoldable pub index : DocumentLayout → Insets → List PageIndexEntry
unfolding paginate index_entry
index layout padding = map (index_entry layout padding) (paginate layout padding)

abbrev cons_line : Option Rect → Placement → Option (List Placement) → Option (List Placement)
cons_line none p ps = none
cons_line (some r) p none = none
cons_line (some r) p (some ps) = some (p ∷ ps)

-- The header's lines, `n` from `l` on, each looked up.
abbrev pub looked_up : ℕ → ℤ → List Rect → ℕ → ℕ → Option (List Placement)
looked_up b offset lines zero l = some []
looked_up b offset lines (suc n) l =
    let rest = looked_up b offset lines n (l + 1) in
    cons_line (get? lines l)
      (record { line = cursor b l; offset_y = offset; repeated_header = true; starts_page = false })
      rest

abbrev pub in_header : Insets → RepeatedHeader → Option LayoutBlock → Option (List Placement)
in_header padding h none = none
in_header padding h (some block) = elim (get? block.lines h.start) [
  | none ↦ none
  | some line ↦
      looked_up h.block
        (header_offset padding block
          (record { start = h.start; end = h.end; group = 0; header = true }))
        block.lines (h.end - h.start) h.start
]

abbrev pub header_placements :
    DocumentLayout → Insets → Option RepeatedHeader → Option (List Placement)
header_placements layout padding none = some []
header_placements layout padding (some h) = in_header padding h (get? layout.blocks h.block)

-- The lines of a range, as its page places them.
abbrev pub range_placements : DocumentRange → ℤ → List Position → List Placement
range_placements range origin_y [] = []
range_placements range origin_y (p ∷ ps) =
    let rest = range_placements range origin_y ps in
    if contains range (at p)
    then placement p origin_y (same_cursor (at p) range.start) ∷ rest
    else rest

abbrev with_header :
    DocumentLayout → PageIndexEntry → ℕ → Option (List Placement) → Option PageLayout
with_header layout entry number none = none
with_header layout entry number (some header) = some (record {
  number = number;
  range = entry.range;
  commands = header ++ range_placements entry.range entry.origin_y (positions layout);
})

-- `page_from_index` on the entry of the page with this number.
unfoldable pub page_from_entry : DocumentLayout → Insets → PageIndexEntry → ℕ → Option PageLayout
unfolding contains
page_from_entry layout padding entry number =
    with_header layout entry number (header_placements layout padding entry.repeated_header)

unfoldable pub page_from_index :
    DocumentLayout → Insets → List PageIndexEntry → ℕ → Option PageLayout
unfolding page_from_entry
page_from_index layout padding entries page_index = elim (get? entries page_index) [
  | none ↦ none
  | some entry ↦ page_from_entry layout padding entry (page_index + 1)
]

-- `Pagination::page_index_for_cursor`, and that of `PaginationIndex`.
unfoldable pub page_index_for_cursor : List DocumentRange → DocumentCursor → Option ℕ
unfolding contains
page_index_for_cursor [] c = none
page_index_for_cursor (r ∷ rs) c =
    let rest = page_index_for_cursor rs c in
    if contains r c then some 0 else elim rest [ none ↦ none | some i ↦ some (i + 1) ]

-- `next_page_index` and `previous_page_index`, of the number of pages.
unfoldable pub next_page_index : ℕ → ℕ → Option ℕ
next_page_index pages i = if ltb (i + 1) pages then some (i + 1) else none

unfoldable pub previous_page_index : ℕ → ℕ → Option ℕ
previous_page_index pages i = if ltb 0 i && ltb i pages then some (i - 1) else none
