-- ===== src/Markdown/Pagination.antt =====
-- pagination.rs: document cursors and ranges, the rules for a page break, the greedy scan of
-- `Paginator::paginate`, and the compact page directory. A line is drawn by `add_line`: a page's
-- display list is the list of these calls (`Placement`). Of layout/mod.rs, the laid-out document.
pub mod Breaks
pub mod Scan
pub mod Directory
use sony_prs.Base.{
  ℕ, ◌+◌, Bool, true, false, ◌&&◌, ◌||◌, List, [], ◌∷◌, ◌++◌, Option, ltb, ◌==◌, length,
}
use sony_prs.Text.{Str}
use sony_prs.Markdown.Geometry.{Viewport, Rect}

pub record DocumentCursor : Type 0 where
  pub block : ℕ
  pub line : ℕ

pub record DocumentRange : Type 0 where
  pub start : DocumentCursor
  pub end : DocumentCursor

abbrev pub cursor : ℕ → ℕ → DocumentCursor
cursor b l = record { block = b; line = l }

-- The derived order: by block, then by line.
abbrev pub before : DocumentCursor → DocumentCursor → Bool
before a b = ltb a.block b.block || (a.block == b.block && ltb a.line b.line)

abbrev pub same_cursor : DocumentCursor → DocumentCursor → Bool
same_cursor a b = a.block == b.block && a.line == b.line

abbrev at_most : DocumentCursor → DocumentCursor → Bool
at_most a b = before a b || same_cursor a b

-- `DocumentRange::contains` and `is_empty`.
unfoldable pub contains : DocumentRange → DocumentCursor → Bool
contains r c = at_most r.start c && before c r.end

abbrev pub is_empty_range : DocumentRange → Bool
is_empty_range r = same_cursor r.start r.end

abbrev pub empty_range : DocumentCursor → DocumentRange
empty_range c = record { start = c; end = c }

pub data LayoutBlockKind : Type 0 where
  heading paragraph bullets quote alert footnote table code image rule : LayoutBlockKind

-- The display lines of a row, from `start` up to `end`.
pub record TableRowLayout : Type 0 where
  pub start : ℕ
  pub end : ℕ
  pub group : ℕ
  pub header : Bool

-- A line by its bounds, and a table by its rows.
pub record LayoutBlock : Type 0 where
  pub kind : LayoutBlockKind
  pub bounds : Rect
  pub lines : List Rect
  pub anchor : Option Str
  pub table : Option (List TableRowLayout)

pub record DocumentLayout : Type 0 where
  pub viewport : Viewport
  pub blocks : List LayoutBlock

-- `page_padding` of `ReaderStyle`.
pub record Insets : Type 0 where
  pub top : ℕ
  pub right : ℕ
  pub bottom : ℕ
  pub left : ℕ

-- A line with its block and its place in the document.
pub record Position : Type 0 where
  pub block_index : ℕ
  pub line_index : ℕ
  pub block : LayoutBlock
  pub line : Rect

abbrev pub at : Position → DocumentCursor
at p = cursor p.block_index p.line_index

abbrev block_positions : ℕ → LayoutBlock → ℕ → List Rect → List Position
block_positions b block l [] = []
block_positions b block l (line ∷ lines) =
    record { block_index = b; line_index = l; block = block; line = line }
    ∷ block_positions b block (l + 1) lines

abbrev positions_from : ℕ → List LayoutBlock → List Position
positions_from b [] = []
positions_from b (block ∷ blocks) =
    block_positions b block 0 block.lines ++ positions_from (b + 1) blocks

-- The lines in the order of the two nested loops.
abbrev pub positions : DocumentLayout → List Position
positions layout = positions_from 0 layout.blocks

abbrev pub document_end : DocumentLayout → DocumentCursor
document_end layout = cursor (length layout.blocks) 0
