-- ===== src/Markdown/Pagination/Scan/Rounds.antt =====
-- Induction over the rounds of the loop of `paginate`.
use sony_prs.Base.{
  ◌≡◌, refl, ap, ◌∙◌, Bool, true, false, List, [], ◌∷◌, Option, none, some, Bool-cases, inl, inr,
}
use sony_prs.Markdown.Pagination.{
  DocumentCursor, DocumentLayout, Insets, Position, at, document_end,
}
use sony_prs.Markdown.Pagination.Breaks.{should_break_before}
use sony_prs.Markdown.Pagination.Scan.{
  PageLayout, PageState, next_page, add_to_page, context, close, page_height, paginate_from,
}

module _ (layout : DocumentLayout) (padding : Insets) where
  -- Whether a page in this state ends before the line.
  abbrev pub ends_before : Position → PageState → Bool
  ends_before p s = should_break_before layout padding p (context (page_height layout padding) s)

  from_last :
      (s : PageState) (c : DocumentCursor)
      → s.start ≡ some c
      → paginate_from layout padding [] s ≡ close s c (document_end layout) ∷ []
  unfolding paginate_from
  from_last s c e = rw e refl

  -- One round, by what `page_start` and `should_break_before` are.
  round : Position → List Position → PageState → Option DocumentCursor → Bool → List PageLayout
  round p ps s o b = elim o [
    | none ↦ paginate_from layout padding ps (add_to_page p s)
    | some start ↦ elim b [
      | true ↦
          close s start (at p)
          ∷ paginate_from layout padding ps (add_to_page p (next_page padding p s))
      | false ↦ paginate_from layout padding ps (add_to_page p s)
    ]
  ]

  from_round :
      (p : Position) (ps : List Position) (s : PageState) (c : DocumentCursor) (b : Bool)
      → s.start ≡ some c
      → ends_before p s ≡ b
      → paginate_from layout padding (p ∷ ps) s ≡ round p ps s (some c) b
  unfolding paginate_from round
  from_round p ps s c b e h =
      ap (λ o. round p ps s o (ends_before p s)) e ∙ ap (round p ps s (some c)) h

  started :
      (p : Position) (s : PageState) (c : DocumentCursor)
      → s.start ≡ some c
      → (add_to_page p s).start ≡ some c
  started p s c e = rw e refl

  -- What holds of the last page alone, of a page and the pages after it, and of a page with one more
  -- line, holds of the pages from a page that has begun.
  pub rounds {κ} :
      (P : List Position → PageState → DocumentCursor → List PageLayout → Type κ)
      → ((s : PageState) (c : DocumentCursor)
          → s.start ≡ some c
          → P [] s c (close s c (document_end layout) ∷ []))
      → ((p : Position) (ps : List Position) (s : PageState) (c : DocumentCursor)
            (pages : List PageLayout)
          → s.start ≡ some c
          → P ps (add_to_page p (next_page padding p s)) (at p) pages
          → P (p ∷ ps) s c (close s c (at p) ∷ pages))
      → ((p : Position) (ps : List Position) (s : PageState) (c : DocumentCursor)
            (pages : List PageLayout)
          → s.start ≡ some c
          → ends_before p s ≡ false
          → P ps (add_to_page p s) c pages
          → P (p ∷ ps) s c pages)
      → (ps : List Position) (s : PageState) (c : DocumentCursor) → s.start ≡ some c
      → P ps s c (paginate_from layout padding ps s)
  unfolding next_page round
  rounds P last broken kept [] s c e = rw (from_last s c e) (last s c e)
  rounds P last broken kept (p ∷ ps) s c e = elim (Bool-cases (ends_before p s)) [
    | inl b ↦ rw (from_round p ps s c true e b) (
        broken p ps s c _ e
          (rounds P last broken kept ps (add_to_page p (next_page padding p s)) (at p) refl))
    | inr k ↦
        rw (from_round p ps s c false e k)
          (kept p ps s c _ e k (rounds P last broken kept ps (add_to_page p s) c (started p s c e)))
  ]
