-- ===== src/Markdown/Pagination/Directory/Begun.antt =====
-- A page of `paginate` in the making, and that its entry in the page directory rebuilds it.
use sony_prs.Base.{
  ℕ, ◌+◌, ◌≤◌, ◌≡◌, refl, sym, ap, ◌∙◌, arith, true, false, List, [], ◌∷◌, ◌++◌, map, Option, none,
  some, ◌==◌, if◌then◌else◌, All, pos, append_assoc,
}
use mathlib.Core.List.{map-append}
use sony_prs.Markdown.Coordinates.{as_i32, saturating_sub}
use sony_prs.Markdown.Pagination.{
  DocumentCursor, TableRowLayout, DocumentLayout, Insets, Position, at, before, positions,
}
use sony_prs.Markdown.Pagination.Scan.{
  Placement, PageLayout, PageState, placement, next_page, first_page, add_to_page, add_header,
  close, repeated_header, page_origin, is_none,
}
use sony_prs.Markdown.Pagination.Directory.{
  above_header, position_at, origin_and_header, page_origin_and_header, index_entry,
  header_placements, range_placements, page_from_entry, header_range,
}
use sony_prs.Markdown.Pagination.Directory.Lookup.{
  IsTabled, position_at-positions, block_at-position_at, repeated_header-Holds,
  header_placements-add_header,
}
use sony_prs.Markdown.Pagination.Directory.Order.{positions-IsAscending, range_placements-chunk}

abbrev pub RepeatsNone : List Position → Type 0
RepeatsNone [] = Unit
RepeatsNone (p ∷ ps) = repeated_header p ≡ none

-- A table's rows are lines of its block, and the document does not begin below a table's header.
pub record IsLaidOut (layout : DocumentLayout) : Type 0 where
  pub tables : All (λ q. IsTabled q.block) (positions layout)
  pub first : RepeatsNone (positions layout)

module _ (layout : DocumentLayout) (padding : Insets) where
  abbrev pub IsRebuilt : PageLayout → Type 0
  IsRebuilt page =
      page_from_entry layout padding (index_entry layout padding page) page.number ≡ some page

  -- A page that has begun at `p` and goes on over `on`: what is on it, and its origin.
  pub record Begun (ps : List Position) (s : PageState) (c : DocumentCursor) : Type 0 where
    pub done : List Position
    pub p : Position
    pub on : List Position
    pub split : positions layout ≡ done ++ (p ∷ (on ++ ps))
    pub start : at p ≡ c
    pub number : 1 ≤ s.number
    pub origin : s.origin_y ≡ (origin_and_header (some p) s.number padding).0
    pub commands :
        s.commands
        ≡ add_header padding p (repeated_header p)
          ++ placement p s.origin_y true ∷ map (λ q. placement q s.origin_y false) on

  All-at :
      (P : Position → Type 0) (xs : List Position) (p : Position) (ys : List Position)
      → All P (xs ++ (p ∷ ys))
      → P p
  All-at P [] p ys h = h.0
  All-at P (x ∷ xs) p ys h = All-at P xs p ys h.1

  pub close-IsRebuilt :
      IsLaidOut layout
      → (ps : List Position) (s : PageState) (c end : DocumentCursor) → (b : Begun ps s c)
      → All (λ q. before (at q) end ≡ true) (b.p ∷ b.on)
      → All (λ q. before (at q) end ≡ false) ps
      → IsRebuilt (close s c end)
  unfolding page_from_entry index_entry page_origin_and_header
  close-IsRebuilt w ps s c end b h k =
      let at_p : position_at layout (at b.p) ≡ some b.p =
        All-at _ b.done b.p (b.on ++ ps) (rw b.split at (position_at-positions layout)) in
      let found : position_at layout c ≡ some b.p = rw⁻¹ b.start at_p in
      let tabled : IsTabled b.p.block = All-at _ b.done b.p (b.on ++ ps) (rw b.split at w.tables) in
      let header : header_placements layout padding
            (header_range b.p.block_index (repeated_header b.p))
          ≡ some (add_header padding b.p (repeated_header b.p)) =
        header_placements-add_header layout padding b.p (repeated_header b.p)
          (block_at-position_at layout b.p at_p) (repeated_header-Holds b.p tabled) in
      let body : range_placements (record { start = c; end = end }) s.origin_y (positions layout)
          ≡ placement b.p s.origin_y true ∷ map (λ q. placement q s.origin_y false) b.on =
        rw (← b.start, b.split)
          (range_placements-chunk b.done b.p b.on ps end s.origin_y
            (rw b.split at (positions-IsAscending layout)) h k) in
      rw (found, header, ← b.origin, body, ← b.commands) refl

  pub Begun-first :
      (p : Position) (ps : List Position)
      → positions layout ≡ p ∷ ps
      → repeated_header p ≡ none
      → Begun ps (add_to_page p first_page) (at p)
  Begun-first p ps e none_above = record {
    done = [];
    p = p;
    on = [];
    split = e;
    start = refl;
    number = omega arith;
    origin = rw none_above refl;
    commands = rw none_above refl;
  }

  kept_commands :
      (p : Position) (on : List Position) (q : Position) (s : PageState) (c : DocumentCursor)
      (header : List Placement)
      → s.start ≡ some c
      → s.commands
        ≡ header ++ placement p s.origin_y true ∷ map (λ q. placement q s.origin_y false) on
      → (add_to_page q s).commands
        ≡ header
          ++ placement p s.origin_y true ∷ map (λ q. placement q s.origin_y false) (on ++ q ∷ [])
  kept_commands p on q s c header e h =
      let begun : is_none s.start ≡ false = rw e refl in
      rw (begun, h, map-append (λ q. placement q s.origin_y false) on (q ∷ []))
        (append_assoc header
          (placement p s.origin_y true ∷ map (λ q. placement q s.origin_y false) on)
          (placement q s.origin_y false ∷ []))

  later_origin :
      (p : Position) (n : ℕ) (header : Option TableRowLayout)
      → 2 ≤ n
      → page_origin padding p header
        ≡ above_header p.block
            (if n == 1 then pos 0 else saturating_sub p.line.y (as_i32 padding.top))
            header
  later_origin p n none h = let later : (n == 1) ≡ false = ground (arith, h) in rw later refl
  later_origin p n (some header) h =
      let later : (n == 1) ≡ false = ground (arith, h) in rw later refl

  -- The page goes on with one more line.
  pub Begun-kept :
      (p : Position) (ps : List Position) (s : PageState) (c : DocumentCursor)
      → s.start ≡ some c
      → Begun (p ∷ ps) s c
      → Begun ps (add_to_page p s) c
  Begun-kept p ps s c e b = record {
    done = b.done;
    p = b.p;
    on = b.on ++ p ∷ [];
    split = b.split ∙ ap (λ zs. b.done ++ (b.p ∷ zs)) (sym (append_assoc b.on (p ∷ []) ps));
    start = b.start;
    number = b.number;
    origin = b.origin;
    commands =
        kept_commands b.p b.on p s c (add_header padding b.p (repeated_header b.p)) e b.commands;
  }

  -- The next page begins.
  pub Begun-next :
      (p : Position) (ps : List Position) (s : PageState) (c : DocumentCursor)
      → Begun (p ∷ ps) s c
      → Begun ps (add_to_page p (next_page padding p s)) (at p)
  unfolding next_page
  Begun-next p ps s c b = record {
    done = b.done ++ (b.p ∷ b.on);
    p = p;
    on = [];
    split = b.split ∙ sym (append_assoc b.done (b.p ∷ b.on) (p ∷ ps));
    start = refl;
    number = omega arith;
    origin = later_origin p (s.number + 1) (repeated_header p) (omega (arith, b.number));
    commands = refl;
  }
