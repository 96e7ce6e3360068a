-- ===== src/Markdown/Pagination/Scan/Lines.antt =====
-- The lines on the pages of `paginate`.
use sony_prs.Base.{
  ℕ, ◌+◌, ◌≡◌, refl, ap, ◌∙◌, Bool, true, List, [], ◌∷◌, ◌++◌, map, Option, none, some,
  if◌then◌else◌, append_assoc, ℤ, ◌-◌, take, drop, Bool-cases, inl, inr,
}
use sony_prs.Markdown.Geometry.{Rect}
use sony_prs.Markdown.Pagination.{
  DocumentCursor, DocumentLayout, Insets, Position, at, positions, TableRowLayout,
}
use sony_prs.Markdown.Pagination.Scan.{
  Placement, PageLayout, PageState, next_page, placement, paginate_from, paginate, header_lines,
  add_header, header_offset, page_origin, is_none, first_page, repeated_header,
}
use sony_prs.Markdown.Pagination.Scan.Rounds.{rounds}

-- The lines that are placed, repeated headers left out.
abbrev pub body : List Placement → List DocumentCursor
body [] = []
body (p ∷ ps) = if p.repeated_header then body ps else p.line ∷ body ps

abbrev pub page_lines : List PageLayout → List DocumentCursor
page_lines [] = []
page_lines (p ∷ ps) = body p.commands ++ page_lines ps

pub body-append : (xs ys : List Placement) → body (xs ++ ys) ≡ body xs ++ body ys
body-append [] ys = refl
body-append (x ∷ xs) ys = elim (Bool-cases x.repeated_header) [
  | inl h ↦ rw h (body-append xs ys)
  | inr b ↦ rw b (ap (◌∷◌ x.line) (body-append xs ys))
]

body-header_lines :
    (b : ℕ) (offset : ℤ) (l : ℕ) (rs : List Rect) → body (header_lines b offset l rs) ≡ []
body-header_lines b offset l [] = refl
body-header_lines b offset l (r ∷ rs) = body-header_lines b offset (l + 1) rs

pub body-add_header :
    (padding : Insets) (p : Position) (header : Option TableRowLayout)
    → body (add_header padding p header) ≡ []
body-add_header padding p none = refl
body-add_header padding p (some header) =
    body-header_lines p.block_index (header_offset padding p.block header) header.start
      (take (header.end - header.start) (drop header.start p.block.lines))

-- A page with one more line, and the lines of the pages after it.
body-placement :
    (xs : List Placement) (p : Position) (origin : ℤ) (starts : Bool) (ls : List DocumentCursor)
    → body (xs ++ placement p origin starts ∷ []) ++ ls ≡ body xs ++ at p ∷ ls
body-placement xs p origin starts ls =
    rw (body-append xs (placement p origin starts ∷ [])) (append_assoc (body xs) (at p ∷ []) ls)

module _ (layout : DocumentLayout) (padding : Insets) where
  page_lines-from :
      (ps : List Position) (s : PageState) (c : DocumentCursor)
      → s.start ≡ some c
      → page_lines (paginate_from layout padding ps s) ≡ body s.commands ++ map at ps
  unfolding next_page
  page_lines-from =
      rounds layout padding (λ ps s c pages. page_lines pages ≡ body s.commands ++ map at ps)
        (λ s c e. refl)
        (λ p ps s c pages e h. ap (◌++◌ (body s.commands)) (
          h
          ∙ body-placement (add_header padding p (repeated_header p)) p
              (page_origin padding p (repeated_header p)) true (map at ps)
          ∙ ap (λ xs. xs ++ at p ∷ map at ps) (body-add_header padding p (repeated_header p))))
        (λ p ps s c pages e k h.
          h ∙ body-placement s.commands p s.origin_y (is_none s.start) (map at ps))

  first_lines :
      (ps : List Position) → page_lines (paginate_from layout padding ps first_page) ≡ map at ps
  unfolding paginate_from
  first_lines [] = refl
  first_lines (p ∷ ps) = page_lines-from ps _ (at p) refl

  -- The pages hold each line of the document exactly once, in its order, next to the headers that
  -- a page repeats: nothing is lost or placed twice at a page break.
  pub page_lines-paginate : page_lines (paginate layout padding) ≡ map at (positions layout)
  unfolding paginate
  page_lines-paginate = first_lines (positions layout)
