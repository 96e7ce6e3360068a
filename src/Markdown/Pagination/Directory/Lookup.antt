-- ===== src/Markdown/Pagination/Directory/Lookup.antt =====
-- Positions and headers looked up again in the document.
use sony_prs.Base.{
  ℕ, zero, suc, ◌+◌, ◌-◌, ◌≤◌, ◌<◌, ◌≡◌, refl, ap, ◌∙◌, arith, ◌&&◌, List, [], ◌∷◌, Option, none,
  some, ◌==◌, All, All-append, ℤ, Bool-cases, Option-cases, inl, inr, length, get?, take, drop,
}
use sony_prs.Markdown.Geometry.{Rect}
use sony_prs.Markdown.Pagination.{
  DocumentCursor, cursor, LayoutBlockKind, TableRowLayout, LayoutBlock, DocumentLayout, Position,
  at, positions, positions_from, block_positions, Insets,
}
use sony_prs.Markdown.Pagination.Breaks.{table_row_at, table_header_for_line, header_of}
use sony_prs.Markdown.Pagination.Scan.{
  body_header, of_table, header_row, header_lines, header_offset, add_header, repeated_header,
}
use sony_prs.Markdown.Pagination.Directory.{
  in_block, position_at, looked_up, header_range, in_header, header_placements,
}

pub All-imp :
    {A : Type 0} (P Q : A → Type 0) (xs : List A) → ((x : A) → P x → Q x) → All P xs → All Q xs
All-imp P Q [] f h = tt
All-imp P Q (x ∷ xs) f h = (f x h.0, All-imp P Q xs f h.1)

in_block-found :
    (b l : ℕ) (block : LayoutBlock) (line : Rect)
    → get? block.lines l ≡ some line
    → in_block (cursor b l) (some block)
      ≡ some (record { block_index = b; line_index = l; block = block; line = line })
in_block-found b l block line e = rw (in_block, e) refl

-- The lines of a block, found by their numbers.
found_in_block :
    (b : ℕ) (block : LayoutBlock) (l : ℕ) (lines : List Rect)
    → ((i j : ℕ) → i ≡ l + j → get? block.lines i ≡ get? lines j)
    → All
        (λ q. (q.block_index ≡ b) × (in_block (at q) (some block) ≡ some q))
        (block_positions b block l lines)
found_in_block b block l [] f = tt
found_in_block b block l (line ∷ lines) f = (
  (refl, in_block-found b l block line (f l 0 (omega arith))),
  found_in_block b block (l + 1) lines (λ i j e. f i (suc j) (omega arith)),
)

found_from :
    (all : List LayoutBlock) (b : ℕ) (blocks : List LayoutBlock)
    → ((i j : ℕ) → i ≡ b + j → get? all i ≡ get? blocks j)
    → All (λ q. in_block (at q) (get? all q.block_index) ≡ some q) (positions_from b blocks)
found_from all b [] f = tt
found_from all b (block ∷ blocks) f =
    let here : get? all b ≡ some block = f b 0 (omega arith) in
    All-append _ (block_positions b block 0 block.lines) _
      (All-imp _ _ _
        (λ q h. ap (λ i. in_block (at q) (get? all i)) h.0 ∙ ap (in_block (at q)) here ∙ h.1)
        (found_in_block b block 0 block.lines (λ i j e. ap (get? block.lines) (omega arith))))
      (found_from all (b + 1) blocks (λ i j e. f i (suc j) (omega arith)))

pub position_at-positions :
    (layout : DocumentLayout) → All (λ q. position_at layout (at q) ≡ some q) (positions layout)
unfolding position_at
position_at-positions layout =
    found_from layout.blocks 0 layout.blocks (λ i j e. ap (get? layout.blocks) (omega arith))

abbrev block_of : Option Position → Option LayoutBlock
block_of none = none
block_of (some q) = some q.block

-- What is found in a block names that block.
block_of-line :
    (c : DocumentCursor) (block : LayoutBlock) (o : Option Rect) (b : LayoutBlock)
    → block_of (elim o [
      | none ↦ none
      | some line ↦
          some (record { block_index = c.block; line_index = c.line; block = block; line = line })
    ])
      ≡ some b
    → ◌≡◌ {A = Option LayoutBlock} (some block) (some b)
block_of-line c block none b e = cc
block_of-line c block (some line) b e = e

in_block-block :
    (c : DocumentCursor) (o : Option LayoutBlock) (q : Position)
    → in_block c o ≡ some q
    → o ≡ some q.block
in_block-block c none q e = cc
in_block-block c (some block) q e =
    block_of-line c block (get? block.lines c.line) q.block (ap block_of e)

pub block_at-position_at :
    (layout : DocumentLayout) (q : Position)
    → position_at layout (at q) ≡ some q
    → get? layout.blocks q.block_index ≡ some q.block
unfolding position_at
block_at-position_at layout q e = in_block-block (at q) (get? layout.blocks q.block_index) q e

-- The rows of a table have lines, and those are lines of its block.
abbrev HasRows : LayoutBlock → Option (List TableRowLayout) → Type 0
HasRows block none = Unit
HasRows block (some rows) = All (λ row. (row.start < row.end) × (row.end ≤ length block.lines)) rows

abbrev pub IsTabled : LayoutBlock → Type 0
IsTabled block = HasRows block block.table

-- What a test finds in a list of rows has what all of them have.
module _ (P : TableRowLayout → Type 0) where
  abbrev pub Holds : Option TableRowLayout → Type 0
  Holds none = Unit
  Holds (some row) = P row

  header_of-Holds :
      (group : ℕ) (rows : List TableRowLayout) → All P rows → Holds (header_of group rows)
  header_of-Holds group [] h = tt
  header_of-Holds group (row ∷ rows) h = elim (Bool-cases (row.group == group && row.header)) [
    | inl e ↦ rw e (h.0)
    | inr e ↦ rw e (header_of-Holds group rows h.1)
  ]

  header_row-Holds :
      (row : TableRowLayout) (header : Option TableRowLayout)
      → Holds header
      → Holds (header_row row header)
  header_row-Holds row header h = elim (Bool-cases row.header) [ inl e ↦ rw e tt | inr e ↦ rw e h ]

  table_header_for_line-Holds :
      (rows : List TableRowLayout) (l : ℕ) → All P rows → Holds (table_header_for_line rows l)
  unfolding table_header_for_line
  table_header_for_line-Holds rows l h = elim (Option-cases (table_row_at rows l)) [
    | inl e ↦ rw (table_header_for_line, e) tt
    | inr (row, e) ↦ rw (table_header_for_line, e) (header_of-Holds row.group rows h)
  ]

  body_header-Holds : (rows : List TableRowLayout) (l : ℕ) → All P rows → Holds (body_header rows l)
  body_header-Holds rows l h = elim (Option-cases (table_row_at rows l)) [
    | inl e ↦ rw (body_header, e) tt
    | inr (row, e) ↦
        rw (body_header, e)
          (header_row-Holds row (table_header_for_line rows l)
            (table_header_for_line-Holds rows l h))
  ]

abbrev pub IsHeld : LayoutBlock → TableRowLayout → Type 0
IsHeld block row = (row.start < row.end) × (row.end ≤ length block.lines)

of_table-Holds :
    (block : LayoutBlock) (kind : LayoutBlockKind) (rows : Option (List TableRowLayout)) (l : ℕ)
    → HasRows block rows
    → Holds (IsHeld block) (of_table kind rows l)
of_table-Holds block LayoutBlockKind.table (some rows) l h =
    body_header-Holds (IsHeld block) rows l h
of_table-Holds block LayoutBlockKind.table none l h = tt
of_table-Holds block LayoutBlockKind.heading rows l h = tt
of_table-Holds block LayoutBlockKind.paragraph rows l h = tt
of_table-Holds block LayoutBlockKind.bullets rows l h = tt
of_table-Holds block LayoutBlockKind.quote rows l h = tt
of_table-Holds block LayoutBlockKind.alert rows l h = tt
of_table-Holds block LayoutBlockKind.footnote rows l h = tt
of_table-Holds block LayoutBlockKind.code rows l h = tt
of_table-Holds block LayoutBlockKind.image rows l h = tt
of_table-Holds block LayoutBlockKind.rule rows l h = tt

pub repeated_header-Holds :
    (p : Position) → IsTabled p.block → Holds (IsHeld p.block) (repeated_header p)
unfolding repeated_header
repeated_header-Holds p h = of_table-Holds p.block p.block.kind p.block.table p.line_index h

get?-drop :
    {A : Type 0} (xs : List A) (l m : ℕ)
    → l < length xs
    → m ≡ suc l
    → (x : A) × (get? xs l ≡ some x) × (drop l xs ≡ x ∷ drop m xs)
get?-drop [] l m h e = absurd (omega arith)
get?-drop (x ∷ xs) zero m h e = rw e (x, refl, refl)
get?-drop (x ∷ xs) (suc l) m h e = rw e (get?-drop xs l (suc l) (omega arith) refl)

looked_up-header_lines :
    (b : ℕ) (offset : ℤ) (lines : List Rect) (n l : ℕ)
    → l + n ≤ length lines
    → looked_up b offset lines n l ≡ some (header_lines b offset l (take n (drop l lines)))
looked_up-header_lines b offset lines zero l h = refl
looked_up-header_lines b offset lines (suc n) l h =
    let (x, e, d) = get?-drop lines l (l + 1) (omega arith) (omega arith) in
    rw (e, d, looked_up-header_lines b offset lines n (l + 1) (omega arith)) refl

elim-some :
    {A B : Type 0} (o : Option A) (a : A) (b : Option B)
    → o ≡ some a
    → ◌≡◌ {A = Option B} (elim o [ none ↦ none | some x ↦ b ]) b
elim-some o a b e = rw e refl

in_header-found :
    (padding : Insets) (b : ℕ) (block : LayoutBlock) (header : TableRowLayout)
    → IsHeld block header
    → in_header padding (record { block = b; start = header.start; end = header.end }) (some block)
      ≡ some (
          header_lines b
            (header_offset padding block header)
            header.start
            (take (header.end - header.start) (drop header.start block.lines)))
in_header-found padding b block header h =
    let (x, f, d) =
      get?-drop block.lines header.start (suc header.start) (omega (arith, h.0, h.1)) refl in
    elim-some (get? block.lines header.start) x _ f
    ∙ looked_up-header_lines b (header_offset padding block header) block.lines
        (header.end - header.start) header.start (omega (arith, h.0, h.1))

pub header_placements-add_header :
    (layout : DocumentLayout) (padding : Insets) (p : Position) (header : Option TableRowLayout)
    → get? layout.blocks p.block_index ≡ some p.block
    → Holds (IsHeld p.block) header
    → header_placements layout padding (header_range p.block_index header)
      ≡ some (add_header padding p header)
header_placements-add_header layout padding p none e h = refl
header_placements-add_header layout padding p (some header) e h =
    ap
      (in_header padding (record { block = p.block_index; start = header.start; end = header.end }))
      e
    ∙ in_header-found padding p.block_index p.block header h
