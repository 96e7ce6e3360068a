-- ===== src/Markdown/Pagination/Scan/Ranges.antt =====
-- The ranges of the pages of `paginate`.
use sony_prs.Base.{ℕ, ◌+◌, ◌≡◌, refl, List, [], ◌∷◌, some}
use sony_prs.Markdown.Pagination.{
  DocumentCursor, DocumentLayout, Insets, Position, at, positions, document_end,
}
use sony_prs.Markdown.Pagination.Scan.{
  PageLayout, PageState, first_page, next_page, paginate_from, paginate,
}
use sony_prs.Markdown.Pagination.Scan.Rounds.{rounds}

-- Pages numbered from `n` on, whose ranges lie end to end from `start` to `end`.
abbrev pub IsChain : DocumentCursor → ℕ → DocumentCursor → List PageLayout → Type 0
IsChain end n start [] = start ≡ end
IsChain end n start (p ∷ ps) =
    (p.number ≡ n) × (p.range.start ≡ start) × IsChain end (n + 1) p.range.end ps

abbrev pub IsFilled : List PageLayout → Type 0
IsFilled [] = ⊥
IsFilled (p ∷ ps) = Unit

-- The first line of the document, or its end.
abbrev pub first_cursor : List Position → DocumentCursor → DocumentCursor
first_cursor [] end = end
first_cursor (p ∷ ps) end = at p

module _ (layout : DocumentLayout) (padding : Insets) where
  from-IsChain :
      (ps : List Position) (s : PageState) (c : DocumentCursor)
      → s.start ≡ some c
      → IsChain (document_end layout) s.number c (paginate_from layout padding ps s)
        × IsFilled (paginate_from layout padding ps s)
  unfolding next_page
  from-IsChain =
      rounds layout padding
        (λ ps s c pages. IsChain (document_end layout) s.number c pages × IsFilled pages)
        (λ s c e. ((refl, refl, refl), tt)) (λ p ps s c pages e h. ((refl, refl, h.0), tt))
        (λ p ps s c pages e k h. h)

  first-IsChain :
      (ps : List Position)
      → IsChain
          (document_end layout)
          1
          (first_cursor ps (document_end layout))
          (paginate_from layout padding ps first_page)
        × IsFilled (paginate_from layout padding ps first_page)
  unfolding paginate_from
  first-IsChain [] = ((refl, refl, refl), tt)
  first-IsChain (p ∷ ps) = from-IsChain ps _ (at p) refl

  -- There is at least one page; the pages are numbered from 1, and their ranges lie end to end from
  -- the document's first line to its end.
  pub paginate-IsChain :
      IsChain
        (document_end layout)
        1
        (first_cursor (positions layout) (document_end layout))
        (paginate layout padding)
      × IsFilled (paginate layout padding)
  unfolding paginate
  paginate-IsChain = first-IsChain (positions layout)
