-- ===== src/Markdown/Pagination/Directory/Rebuild.antt =====
-- The page directory rebuilds the pages of `paginate`.
use sony_prs.Base.{
  ℕ, zero, suc, ◌+◌, ◌≡◌, refl, arith, List, [], ◌∷◌, ◌++◌, map, none, some, All, get?, length,
}
use sony_prs.Markdown.Pagination.{
  DocumentCursor, DocumentLayout, Insets, Position, at, positions, document_end,
}
use sony_prs.Markdown.Pagination.Scan.{
  PageLayout, PageState, first_page, add_to_page, close, paginate_from, paginate,
}
use sony_prs.Markdown.Pagination.Scan.Rounds.{rounds}
use sony_prs.Markdown.Pagination.Scan.Ranges.{IsChain, paginate-IsChain}
use sony_prs.Markdown.Pagination.Directory.{
  position_at, page_origin_and_header, index_entry, index, page_from_entry, page_from_index,
}
use sony_prs.Markdown.Pagination.Directory.Lookup.{All-imp}
use sony_prs.Markdown.Pagination.Directory.Order.{
  positions-IsAscending, positions-end, IsAscending-parts, All-left,
}
use sony_prs.Markdown.Pagination.Directory.Begun.{
  IsLaidOut, RepeatsNone, IsRebuilt, Begun, close-IsRebuilt, Begun-first, Begun-kept, Begun-next,
}

get?-length : {A : Type 0} (xs : List A) → get? xs (length xs) ≡ none
get?-length [] = refl
get?-length (x ∷ xs) = get?-length xs

module _ (layout : DocumentLayout) (padding : Insets) where
  All-middle :
      (P : Position → Type 0) (xs : List Position) (p : Position) (on ys : List Position)
      → All P (xs ++ (p ∷ (on ++ ys)))
      → All P (p ∷ on)
  All-middle P [] p on ys h = (h.0, All-left P on ys h.1)
  All-middle P (x ∷ xs) p on ys h = All-middle P xs p on ys h.1

  last-IsRebuilt :
      (w : IsLaidOut layout) (s : PageState) (c : DocumentCursor)
      → Begun layout padding [] s c
      → IsRebuilt layout padding (close s c (document_end layout))
  last-IsRebuilt w s c b =
      close-IsRebuilt layout padding w [] s c (document_end layout) b
        (All-middle _ b.done b.p b.on [] (rw b.split at (positions-end layout))) tt

  broken-IsRebuilt :
      (w : IsLaidOut layout) (p : Position) (ps : List Position) (s : PageState)
      (c : DocumentCursor)
      → Begun layout padding (p ∷ ps) s c
      → IsRebuilt layout padding (close s c (at p))
  broken-IsRebuilt w p ps s c b =
      let on_page =
        (IsAscending-parts b.done (b.p ∷ (b.on ++ p ∷ ps))
          (rw b.split at (positions-IsAscending layout))).1 in
      let (ends, asc) = IsAscending-parts (b.p ∷ b.on) (p ∷ ps) on_page in
      close-IsRebuilt layout padding w (p ∷ ps) s c (at p) b
        (All-imp _ _ (b.p ∷ b.on) (λ q e. e.0) ends)
        (ground arith, All-imp _ _ ps (λ q e. ground (arith, e)) asc.0)

  from-IsRebuilt :
      IsLaidOut layout
      → (ps : List Position) (s : PageState) (c : DocumentCursor) → s.start ≡ some c
      → Begun layout padding ps s c
      → All (IsRebuilt layout padding) (paginate_from layout padding ps s)
  from-IsRebuilt w =
      rounds layout padding
        (λ ps s c pages. Begun layout padding ps s c → All (IsRebuilt layout padding) pages)
        (λ s c e b. (last-IsRebuilt w s c b, tt))
        (λ p ps s c pages e h b.
          (broken-IsRebuilt w p ps s c b, h (Begun-next layout padding p ps s c b)))
        (λ p ps s c pages e k h b. h (Begun-kept layout padding p ps s c e b))

  -- A document without lines has one page, and this is empty.
  empty-IsRebuilt :
      positions layout ≡ []
      → All (IsRebuilt layout padding) (paginate_from layout padding [] first_page)
  unfolding paginate_from page_from_entry index_entry page_origin_and_header position_at
  empty-IsRebuilt e =
      let behind : get? layout.blocks (length layout.blocks) ≡ none = get?-length layout.blocks in
      rw (behind, e) (refl, tt)

  first-IsRebuilt :
      IsLaidOut layout
      → (ps : List Position) → positions layout ≡ ps
      → RepeatsNone ps
      → All (IsRebuilt layout padding) (paginate_from layout padding ps first_page)
  unfolding paginate_from
  first-IsRebuilt w [] e h = empty-IsRebuilt e
  first-IsRebuilt w (p ∷ ps) e h =
      from-IsRebuilt w ps (add_to_page p first_page) (at p) refl
        (Begun-first layout padding p ps e h)

  paginate-IsRebuilt : IsLaidOut layout → All (IsRebuilt layout padding) (paginate layout padding)
  unfolding paginate
  paginate-IsRebuilt w = first-IsRebuilt w (positions layout) refl w.first

  -- The number of a page in a chain is its index and the first number.
  rebuilt_at :
      (pages : List PageLayout) (n : ℕ) (start end : DocumentCursor) (i number : ℕ)
      → number ≡ i + n
      → IsChain end n start pages
      → All (IsRebuilt layout padding) pages
      → elim (get? (map (index_entry layout padding) pages) i) [
        | none ↦ none
        | some entry ↦ page_from_entry layout padding entry number
      ]
        ≡ get? pages i
  rebuilt_at [] n start end i number e chain h = refl
  rebuilt_at (p ∷ pages) n start end zero number e chain h =
      let same : number ≡ p.number = omega (arith, chain.0) in rw same (h.0)
  rebuilt_at (p ∷ pages) n start end (suc i) number e chain h =
      rebuilt_at pages (n + 1) p.range.end end i number (omega arith) chain.2 h.1

  -- For a laid-out document the compact page directory gives back, at every index, the page of the
  -- full pagination: its number, its range, and its display list with repeated headers and offsets;
  -- and no page at an index behind the last.
  pub page_from_index-index :
      (i : ℕ)
      → IsLaidOut layout
      → page_from_index layout padding (index layout padding) i ≡ get? (paginate layout padding) i
  unfolding page_from_index index
  page_from_index-index i w =
      rebuilt_at (paginate layout padding) 1 _ (document_end layout) i (i + 1) refl
        (paginate-IsChain layout padding).0 (paginate-IsRebuilt w)
