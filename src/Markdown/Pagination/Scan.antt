-- ===== src/Markdown/Pagination/Scan.antt =====
-- pagination.rs: the loop of `Paginator::paginate`.
pub mod Rounds
pub mod Lines
pub mod Ranges
use sony_prs.Base.{
  ℕ, ◌+◌, ◌-◌, Bool, true, false, List, [], ◌∷◌, ◌++◌, Option, none, some, ◌==◌, if◌then◌else◌, ℤ,
  pos, get?, max, take, drop,
}
use sony_prs.Markdown.Coordinates.{as_i32, saturating_sub, wrapping_sub, ◌+ℤ◌}
use sony_prs.Markdown.Geometry.{Rect}
use sony_prs.Markdown.Pagination.{
  DocumentCursor, DocumentRange, LayoutBlockKind, TableRowLayout, LayoutBlock, DocumentLayout,
  Insets, Position, at, cursor, positions, document_end, empty_range,
}
use sony_prs.Markdown.Pagination.Breaks.{
  PageContext, should_break_before, table_row_at, table_header_for_line, table_row_height,
}

-- A call of `add_line`: the line, the vertical offset, `repeated_header` and `starts_page`.
pub record Placement : Type 0 where
  pub line : DocumentCursor
  pub offset_y : ℤ
  pub repeated_header : Bool
  pub starts_page : Bool

pub record PageLayout : Type 0 where
  pub number : ℕ
  pub range : DocumentRange
  pub commands : List Placement

-- The loop's variables: the number and the display list of `page`, `page_start`, `page_origin_y`.
pub record PageState : Type 0 where
  pub number : ℕ
  pub start : Option DocumentCursor
  pub origin_y : ℤ
  pub commands : List Placement

abbrev pub first_page : PageState
first_page = record { number = 1; start = none; origin_y = pos 0; commands = [] }

abbrev pub header_row : TableRowLayout → Option TableRowLayout → Option TableRowLayout
header_row row header = if row.header then none else header

abbrev pub body_header : List TableRowLayout → ℕ → Option TableRowLayout
body_header rows line_index = elim (table_row_at rows line_index) [
  | none ↦ none
  | some row ↦ header_row row (table_header_for_line rows line_index)
]

-- The header that a page which begins with this line repeats.
abbrev pub of_table : LayoutBlockKind → Option (List TableRowLayout) → ℕ → Option TableRowLayout
of_table LayoutBlockKind.table (some rows) line_index = body_header rows line_index
of_table _ _ line_index = none

unfoldable pub repeated_header : Position → Option TableRowLayout
unfolding table_row_at table_header_for_line
repeated_header p = of_table p.block.kind p.block.table p.line_index

abbrev y_of : Option Rect → ℤ
y_of none = pos 0
y_of (some r) = r.y

-- The lines from `l` on, `n` of them, of a header above the page's first line. A range outside the
-- block's lines, on which the source panics, is not told apart.
abbrev pub header_lines : ℕ → ℤ → ℕ → List Rect → List Placement
header_lines b offset l [] = []
header_lines b offset l (r ∷ rs) =
    record { line = cursor b l; offset_y = offset; repeated_header = true; starts_page = false }
    ∷ header_lines b offset (l + 1) rs

abbrev pub header_offset : Insets → LayoutBlock → TableRowLayout → ℤ
header_offset padding block header =
    wrapping_sub (as_i32 padding.top) (y_of (get? block.lines header.start))

abbrev pub add_header : Insets → Position → Option TableRowLayout → List Placement
add_header padding p none = []
add_header padding p (some header) =
    header_lines p.block_index (header_offset padding p.block header) header.start
      (take (header.end - header.start) (drop header.start p.block.lines))

abbrev pub page_origin : Insets → Position → Option TableRowLayout → ℤ
page_origin padding p none = saturating_sub p.line.y (as_i32 padding.top)
page_origin padding p (some header) =
    saturating_sub (saturating_sub p.line.y (as_i32 padding.top)) (table_row_height p.block header)

-- The page after the one that ends before `p`.
unfoldable pub next_page : Insets → Position → PageState → PageState
unfolding repeated_header table_row_height
next_page padding p s = record {
  number = s.number + 1;
  start = none;
  origin_y = page_origin padding p (repeated_header p);
  commands = add_header padding p (repeated_header p);
}

-- `i32::saturating_neg`.
abbrev pub saturating_neg : ℤ → ℤ
saturating_neg a = saturating_sub (pos 0) a

abbrev pub placement : Position → ℤ → Bool → Placement
placement p origin_y starts_page = record {
  line = at p;
  offset_y = saturating_neg origin_y;
  repeated_header = false;
  starts_page = starts_page;
}

abbrev get_or_insert : Option DocumentCursor → DocumentCursor → DocumentCursor
get_or_insert none c = c
get_or_insert (some s) c = s

abbrev pub is_none : Option DocumentCursor → Bool
is_none none = true
is_none (some s) = false

-- The end of a round: the line is added to the page.
abbrev pub add_to_page : Position → PageState → PageState
add_to_page p s = record s {
  start = some (get_or_insert s.start (at p));
  commands = s.commands ++ placement p s.origin_y (is_none s.start) ∷ [];
}

abbrev pub context : ℤ → PageState → PageContext
context height s = record { start = s.start; origin_y = s.origin_y; height = height }

abbrev pub close : PageState → DocumentCursor → DocumentCursor → PageLayout
close s start end = record {
  number = s.number;
  range = record { start = start; end = end };
  commands = s.commands;
}

-- After the loop: the last page, or an empty one when there is no other (`number` is 1).
abbrev pub end_pages : PageState → DocumentCursor → List PageLayout
end_pages s end = elim s.start [
  | some start ↦ close s start end ∷ []
  | none ↦
      if s.number == 1
      then record { number = 1; range = empty_range end; commands = [] } ∷ []
      else []
]

module _ (layout : DocumentLayout) (padding : Insets) where
  abbrev pub page_height : ℤ
  page_height = as_i32 (max layout.viewport.height 1)

  -- The pages from this state on, for the lines that are left. `PageState.start` is tested first,
  -- which the source does after `should_break_before`.
  unfoldable pub paginate_from : List Position → PageState → List PageLayout
  unfolding should_break_before next_page
  paginate_from [] s = end_pages s (document_end layout)
  paginate_from (p ∷ ps) s = elim s.start [
    | none ↦ paginate_from ps (add_to_page p s)
    | some start ↦ elim (should_break_before layout padding p (context page_height s)) [
      | true ↦ close s start (at p) ∷ paginate_from ps (add_to_page p (next_page padding p s))
      | false ↦ paginate_from ps (add_to_page p s)
    ]
  ]

  -- `Paginator::paginate`.
  unfoldable pub paginate : List PageLayout
  unfolding paginate_from
  paginate = paginate_from (positions layout) first_page
