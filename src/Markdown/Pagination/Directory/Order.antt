-- ===== src/Markdown/Pagination/Directory/Order.antt =====
-- The lines of a document in order, and those of a range of cursors.
use sony_prs.Base.{
  ℕ, ◌+◌, ◌≤◌, ◌<◌, ◌≡◌, refl, ap, ◌∙◌, append-nil, arith, true, false, List, [], ◌∷◌, ◌++◌, length,
  All, All-append, ℤ, map,
}
use sony_prs.Markdown.Geometry.{Rect}
use sony_prs.Markdown.Pagination.{
  DocumentCursor, DocumentRange, LayoutBlock, DocumentLayout, Position, at, before, same_cursor,
  contains, document_end, positions, positions_from, block_positions,
}
use sony_prs.Markdown.Pagination.Scan.{placement}
use sony_prs.Markdown.Pagination.Directory.{range_placements}
use sony_prs.Markdown.Pagination.Directory.Lookup.{All-imp}

-- Each line is before all that come after it.
abbrev pub IsAscending : List Position → Type 0
IsAscending [] = Unit
IsAscending (p ∷ ps) = All (λ q. before (at p) (at q) ≡ true) ps × IsAscending ps

block_positions-All :
    (b : ℕ) (block : LayoutBlock) (l : ℕ) (lines : List Rect)
    → All (λ q. (q.block_index ≡ b) × (l ≤ q.line_index)) (block_positions b block l lines)
block_positions-All b block l [] = tt
block_positions-All b block l (line ∷ lines) = (
  (refl, omega arith),
  All-imp _ _ _ (λ q h. (h.0, omega (arith, h.1))) (block_positions-All b block (l + 1) lines),
)

positions_from-All :
    (b : ℕ) (blocks : List LayoutBlock)
    → All (λ q. (b ≤ q.block_index) × (q.block_index < b + length blocks)) (positions_from b blocks)
positions_from-All b [] = tt
positions_from-All b (block ∷ blocks) =
    All-append _ (block_positions b block 0 block.lines) _
      (All-imp _ _ _ (λ q h. (omega (arith, h.0), omega (arith, h.0)))
        (block_positions-All b block 0 block.lines))
      (All-imp _ _ _ (λ q h. (omega (arith, h.0), omega (arith, h.1)))
        (positions_from-All (b + 1) blocks))

IsAscending-append :
    (xs ys : List Position)
    → IsAscending xs
    → IsAscending ys
    → All (λ x. All (λ y. before (at x) (at y) ≡ true) ys) xs
    → IsAscending (xs ++ ys)
IsAscending-append [] ys h k f = k
IsAscending-append (x ∷ xs) ys h k f =
    (All-append _ xs ys h.0 f.0, IsAscending-append xs ys h.1 k f.1)

block_positions-IsAscending :
    (b : ℕ) (block : LayoutBlock) (l : ℕ) (lines : List Rect)
    → IsAscending (block_positions b block l lines)
block_positions-IsAscending b block l [] = tt
block_positions-IsAscending b block l (line ∷ lines) = (
  All-imp _ _ _ (λ q h. ground (arith, h.0, h.1)) (block_positions-All b block (l + 1) lines),
  block_positions-IsAscending b block (l + 1) lines,
)

positions_from-IsAscending :
    (b : ℕ) (blocks : List LayoutBlock) → IsAscending (positions_from b blocks)
positions_from-IsAscending b [] = tt
positions_from-IsAscending b (block ∷ blocks) =
    IsAscending-append (block_positions b block 0 block.lines) (positions_from (b + 1) blocks)
      (block_positions-IsAscending b block 0 block.lines)
      (positions_from-IsAscending (b + 1) blocks)
      (All-imp _ _ _
        (λ x h. All-imp _ _ _ (λ y k. ground (arith, h.0, k.0)) (positions_from-All (b + 1) blocks))
        (block_positions-All b block 0 block.lines))

pub positions-IsAscending : (layout : DocumentLayout) → IsAscending (positions layout)
positions-IsAscending layout = positions_from-IsAscending 0 layout.blocks

pub positions-end :
    (layout : DocumentLayout)
    → All (λ q. before (at q) (document_end layout) ≡ true) (positions layout)
positions-end layout =
    All-imp _ _ _ (λ q h. ground (arith, h.1)) (positions_from-All 0 layout.blocks)

-- What an ascending list says about its parts.
pub IsAscending-parts :
    (xs ys : List Position)
    → IsAscending (xs ++ ys)
    → All (λ x. All (λ y. before (at x) (at y) ≡ true) ys) xs × IsAscending ys
IsAscending-parts [] ys h = (tt, h)
IsAscending-parts (x ∷ xs) ys h =
    let (rest, last) = IsAscending-parts xs ys h.1 in ((All-right xs ys h.0, rest), last)
  where
    All-right :
        (us vs : List Position)
        → All (λ y. before (at x) (at y) ≡ true) (us ++ vs)
        → All (λ y. before (at x) (at y) ≡ true) vs
    All-right [] vs k = k
    All-right (u ∷ us) vs k = All-right us vs k.1

module _ (r : DocumentRange) (origin : ℤ) where
  outside :
      (xs ys : List Position)
      → All (λ q. contains r (at q) ≡ false) xs
      → range_placements r origin (xs ++ ys) ≡ range_placements r origin ys
  outside [] ys h = refl
  outside (x ∷ xs) ys h = rw (h.0) (outside xs ys h.1)

  outside_all :
      (xs : List Position)
      → All (λ q. contains r (at q) ≡ false) xs
      → range_placements r origin xs ≡ []
  outside_all [] h = refl
  outside_all (x ∷ xs) h = rw (h.0) (outside_all xs h.1)

  inside :
      (xs ys : List Position)
      → All (λ q. (contains r (at q) ≡ true) × (same_cursor (at q) r.start ≡ false)) xs
      → range_placements r origin (xs ++ ys)
        ≡ map (λ q. placement q origin false) xs ++ range_placements r origin ys
  inside [] ys h = refl
  inside (x ∷ xs) ys ((c, n), h) = rw (c, n) (ap (◌∷◌ (placement x origin false)) (inside xs ys h))

pub All-left : {A : Type 0} (P : A → Type 0) (xs ys : List A) → All P (xs ++ ys) → All P xs
All-left _ [] ys h = tt
All-left _ (x ∷ xs) ys h = (h.0, All-left _ xs ys h.1)

All-both :
    {A : Type 0} (P Q : A → Type 0) (xs : List A) → All P xs → All Q xs → All (λ x. P x × Q x) xs
All-both _ _ [] h k = tt
All-both _ _ (x ∷ xs) h k = ((h.0, k.0), All-both _ _ xs h.1 k.1)

-- A range from a line up to an end holds that line and those after it that are before the end.
pub range_placements-chunk :
    (done : List Position) (p : Position) (on rest : List Position) (end : DocumentCursor)
    (origin : ℤ)
    → IsAscending (done ++ (p ∷ (on ++ rest)))
    → All (λ q. before (at q) end ≡ true) (p ∷ on)
    → All (λ q. before (at q) end ≡ false) rest
    → range_placements (record { start = at p; end = end }) origin (done ++ (p ∷ (on ++ rest)))
      ≡ placement p origin true ∷ map (λ q. placement q origin false) on
unfolding contains
range_placements-chunk done p on rest end origin asc h k =
    let (earlier, later) = IsAscending-parts done (p ∷ (on ++ rest)) asc in
    let r : DocumentRange = record { start = at p; end = end } in
    let held = All-both _ _ on (All-left _ on rest later.0) h.1 in
    let first : contains r (at p) ≡ true = ground (arith, h.0) in
    let start : same_cursor (at p) (at p) ≡ true = ground arith in
    let behind : range_placements r origin rest ≡ [] =
      outside_all r origin rest (All-imp _ _ rest (λ q e. ground (arith, e)) k) in
    outside r origin done (p ∷ (on ++ rest)) (All-imp _ _ done (λ q e. ground (arith, e.0)) earlier)
    ∙ rw (first, start)
        (ap (λ zs. placement p origin true ∷ zs)
          (inside r origin on rest
              (All-imp _ _ on (λ q e. (ground (arith, e.0, e.1), ground (arith, e.0))) held)
            ∙ ap (λ zs. map (λ q. placement q origin false) on ++ zs) behind
            ∙ append-nil (map (λ q. placement q origin false) on)))
