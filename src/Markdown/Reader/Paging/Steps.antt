-- ===== src/Markdown/Reader/Paging/Steps.antt =====
-- The reader as a state machine, and the bounds of its history in every reachable state.
use sony_prs.Base.{
  ℕ, ◌<◌, arith, Bool, true, false, List, [], ◌∷◌, Option, none, some, Result, ok, err, length,
  Bool-cases, inl, inr, ◌==◌, ◌+◌, ◌++◌, ltb, ltb→lt, get?,
}
use sony_prs.Text.{Str, codes}
use sony_prs.Markdown.Navigation.{DocumentId, NavigationTarget}
use sony_prs.Markdown.Geometry.{
  Viewport, ReaderLayout, normalized, content, with_font_scale_percent,
}
use sony_prs.Markdown.Pagination.Directory.{next_page_index}
use sony_prs.Markdown.Reader.{
  ResourceTarget, ReaderError, ReaderEvent, ReadingLocation, Backend, OpenDocument, Reader,
  ReaderLimits,
}
use sony_prs.Markdown.Reader.Opened.{page_index_after}
use sony_prs.Markdown.Reader.History.{update_current_history}
use sony_prs.Markdown.Reader.History.Bounds.{IsBounded, Bounded, update_current_history-IsBounded}
use sony_prs.Markdown.Reader.Moves.{located, document_id, load_location}
use sony_prs.Markdown.Reader.Moves.Safety.{
  Of, load_location-keeps, load_location-IsBounded, navigate_to_location-IsBounded,
  navigate_to_anchor-IsBounded,
}
use sony_prs.Markdown.Reader.Paging.{
  Call, opened, open_document, turn_to, turn_by, turn_in, turn_page, or_no_action, turn_page_event,
  land, restore, target_index, move_to, move_by, move_open, move_history, move_event,
  resolve_reference, follow_path, follow_document, follow_target, follow_reference, activate,
  laid_out, rebuild, cleared, reflow_in, reflow_layout, set_viewport, scale_in,
  set_font_scale_percent, decrease_font_size, reset_font_size, increase_font_size,
}

-- A call of the reader.
pub data Request (Style : Type 0) : Type 0 where
  open_at : DocumentId → Request Style
  turn : Bool → Request Style
  move : Bool → Request Style
  follow : Str → Request Style
  go : NavigationTarget → Request Style
  lay_out_as : ReaderLayout → Style → Request Style
  view : Viewport → Request Style
  smaller larger usual : Request Style

module _ {Document Style : Type 0} (b : Backend Document Style) where
  abbrev pub serve : Request Style → Reader Document Style → Call b ReaderEvent
  serve (Request.open_at path) r = open_document b r path
  serve (Request.turn next) r = turn_page_event b next r
  serve (Request.move forward) r = move_event b forward r
  serve (Request.follow reference) r = follow_reference b r reference
  serve (Request.go target) r = activate b r target
  serve (Request.lay_out_as layout style) r = reflow_layout b r layout style
  serve (Request.view viewport) r = set_viewport b r viewport
  serve Request.smaller r = decrease_font_size b r
  serve Request.larger r = increase_font_size b r
  serve Request.usual r = reset_font_size b r

  -- The reader after some calls, whatever they returned.
  abbrev pub serve_all : List (Request Style) → Reader Document Style → Reader Document Style
  serve_all [] r = r
  serve_all (q ∷ qs) r = serve_all qs (serve q r).0

  opened-IsBounded :
      (p : Reader Document Style × Result ReaderError (OpenDocument Document))
      → IsBounded p.0
      → IsBounded (opened b p).0
  opened-IsBounded (r, err e) h = h
  opened-IsBounded (r, ok d) h = (omega arith, omega arith)

  turn_to-IsBounded :
      (r : Reader Document Style) (l : Result ReaderError (OpenDocument Document)) (i : ℕ)
      → IsBounded r
      → IsBounded (turn_to b r l i).0
  turn_to-IsBounded r (err e) i h = h
  turn_to-IsBounded r (ok d) i h = update_current_history-IsBounded b _ h

  turn_by-IsBounded :
      (r : Reader Document Style) (d : OpenDocument Document) (o : Option ℕ)
      → IsBounded r
      → IsBounded (turn_by b r d o).0
  turn_by-IsBounded r d none h = h
  turn_by-IsBounded r d (some i) h = turn_to-IsBounded r _ i h

  turn_in-IsBounded :
      (next : Bool) (r : Reader Document Style) (o : Option (OpenDocument Document))
      → IsBounded r
      → IsBounded (turn_in b next r o).0
  turn_in-IsBounded next r none h = h
  turn_in-IsBounded next r (some d) h = turn_by-IsBounded r d (page_index_after b d d.page next) h

  or_no_action-IsBounded :
      (p : Call b Bool) (event : Reader Document Style → ReaderEvent)
      → IsBounded p.0
      → IsBounded (or_no_action b p event).0
  or_no_action-IsBounded (r, err e) event h = h
  or_no_action-IsBounded (r, ok true) event h = h
  or_no_action-IsBounded (r, ok false) event h = h

  -- Landing at an index of the history.
  land-IsBounded :
      (r : Reader Document Style) (l : Result ReaderError (OpenDocument Document)) (i : ℕ)
      → IsBounded r
      → i < length r.history
      → IsBounded (land b r l i).0
  land-IsBounded r (err e) i h k = h
  land-IsBounded r (ok d) i h k = (omega arith, h.1)

  -- The bounds, with an index of an entry next to them.
  abbrev HasEntry : ℕ → List ReadingLocation → ℕ → ReaderLimits → Type 0
  HasEntry i entries index limits = Bounded entries index limits × (i < length entries)

  restore-IsBounded :
      (p : Reader Document Style × Result ReaderError (OpenDocument Document)) (t : ReadingLocation)
      (i : ℕ)
      → Of (HasEntry i) p.0
      → IsBounded (restore b p t i).0
  restore-IsBounded (r, err e) t i h = h.0
  restore-IsBounded (r, ok d) t i h = land-IsBounded r _ i h.0 h.1

  move_to-IsBounded :
      (r : Reader Document Style) (o : Option ReadingLocation) (i : ℕ)
      → Of (HasEntry i) r
      → IsBounded (move_to b r o i).0
  move_to-IsBounded r none i h = h.0
  move_to-IsBounded r (some t) i h =
      restore-IsBounded (load_location b r t.location) t i
        (load_location-keeps b (HasEntry i) r t.location h)

  -- An index that a history has, or none.
  abbrev IsEntry : Option ℕ → Reader Document Style → Type 0
  IsEntry none r = Unit
  IsEntry (some i) r = i < length r.history

  move_by-IsBounded :
      (r : Reader Document Style) (o : Option ℕ)
      → IsEntry o r
      → IsBounded r
      → IsBounded (move_by b r o).0
  move_by-IsBounded r none k h = h
  move_by-IsBounded r (some i) k h = move_to-IsBounded r (get? r.history i) i (h, k)

  target_index-IsEntry :
      (forward : Bool) (r : Reader Document Style)
      → IsBounded r
      → IsEntry (target_index b forward r) r
  unfolding next_page_index
  target_index-IsEntry true r h = elim (Bool-cases (ltb (r.history_index + 1) (length r.history))) [
    | inl e ↦ rw e (ltb→lt _ _ e)
    | inr e ↦ rw e tt
  ]
  target_index-IsEntry false r h = elim (Bool-cases (ltb 0 r.history_index)) [
    | inl e ↦ rw e (ground (arith, e, h.0))
    | inr e ↦ rw e tt
  ]

  move_open-IsBounded :
      (forward : Bool) (r : Reader Document Style) (o : Option (OpenDocument Document))
      → IsBounded r
      → IsBounded (move_open b forward r o).0
  move_open-IsBounded forward r none h = h
  move_open-IsBounded forward r (some d) h =
      let noted = update_current_history-IsBounded b r h in
      move_by-IsBounded (update_current_history b r) _
        (target_index-IsEntry forward (update_current_history b r) noted) noted

  follow_path-IsBounded :
      (r : Reader Document Style) (t : Result ReaderError ResourceTarget)
      → IsBounded r
      → IsBounded (follow_path b r t).0
  follow_path-IsBounded r (err e) h = h
  follow_path-IsBounded r (ok (ResourceTarget.document path)) h =
      navigate_to_location-IsBounded b r _ h
  follow_path-IsBounded r (ok (ResourceTarget.document_anchor path a)) h =
      navigate_to_location-IsBounded b r _ h
  follow_path-IsBounded r (ok (ResourceTarget.anchor a)) h = h
  follow_path-IsBounded r (ok (ResourceTarget.asset path)) h = h
  follow_path-IsBounded r (ok (ResourceTarget.external url)) h = h

  follow_target-IsBounded :
      (r : Reader Document Style) (t : Result ReaderError ResourceTarget)
      → IsBounded r
      → IsBounded (follow_target b r t).0
  follow_target-IsBounded r (err e) h = h
  follow_target-IsBounded r (ok (ResourceTarget.document path)) h =
      navigate_to_location-IsBounded b r _ h
  follow_target-IsBounded r (ok (ResourceTarget.document_anchor path a)) h =
      navigate_to_location-IsBounded b r _ h
  follow_target-IsBounded r (ok (ResourceTarget.anchor a)) h = navigate_to_anchor-IsBounded b r a h
  follow_target-IsBounded r (ok (ResourceTarget.asset path)) h = h
  follow_target-IsBounded r (ok (ResourceTarget.external url)) h = h

  follow_document-IsBounded :
      (r : Reader Document Style) (s : Str) → IsBounded r → IsBounded (follow_document b r s).0
  unfolding follow_document
  follow_document-IsBounded r s h = follow_path-IsBounded r (resolve_reference b r s) h

  activate-IsBounded :
      (r : Reader Document Style) (t : NavigationTarget)
      → IsBounded r
      → IsBounded (activate b r t).0
  unfolding activate
  activate-IsBounded r (NavigationTarget.location l) h = navigate_to_location-IsBounded b r l h
  activate-IsBounded r (NavigationTarget.anchor a) h = navigate_to_anchor-IsBounded b r a h
  activate-IsBounded r (NavigationTarget.document id) h = follow_document-IsBounded r id h
  activate-IsBounded r (NavigationTarget.document_anchor id a) h =
      follow_document-IsBounded r (id ++ codes "#" ++ a) h
  activate-IsBounded r (NavigationTarget.asset id) h = h
  activate-IsBounded r (NavigationTarget.external url) h = h

  laid_out-IsBounded :
      (r s : Reader Document Style) (l : Result ReaderError (OpenDocument Document))
      → IsBounded r
      → IsBounded s
      → IsBounded (laid_out b r s l).0
  laid_out-IsBounded r s (err e) h k = h
  laid_out-IsBounded r s (ok d) h k = update_current_history-IsBounded b _ k

  rebuild-IsBounded :
      (r s : Reader Document Style) (d : OpenDocument Document)
      (l : Result ReaderError (OpenDocument Document))
      → IsBounded r
      → IsBounded s
      → IsBounded (rebuild b r s d l).0
  rebuild-IsBounded r s d (err e) h k = h
  rebuild-IsBounded r s d (ok built) h k = laid_out-IsBounded r s _ h k

  reflow_in-IsBounded :
      (r : Reader Document Style) (l : ReaderLayout) (style : Style)
      (o : Option (OpenDocument Document))
      → IsBounded r
      → IsBounded (reflow_in b r l style o).0
  reflow_in-IsBounded r l style none h = h
  reflow_in-IsBounded r l style (some d) h =
      rebuild-IsBounded (cleared b r)
        (record (cleared b r) { reader_layout = l; base_style = style }) d _ h h

  reflow_layout-IsBounded :
      (r : Reader Document Style) (l : ReaderLayout) (style : Style)
      → IsBounded r
      → IsBounded (reflow_layout b r l style).0
  unfolding reflow_layout
  reflow_layout-IsBounded r l style h = reflow_in-IsBounded r (normalized l) style r.current h

  scale_in-IsBounded :
      (r : Reader Document Style) (p : ℕ) (o : Option (OpenDocument Document))
      → IsBounded r
      → IsBounded (scale_in b r p o).0
  scale_in-IsBounded r p none h = h
  scale_in-IsBounded r p (some d) h = elim (Bool-cases (r.reader_layout.font_scale_percent == p)) [
    | inl e ↦ rw e h
    | inr e ↦ rw e (reflow_layout-IsBounded r _ r.base_style h)
  ]

  serve-IsBounded :
      (q : Request Style) (r : Reader Document Style) → IsBounded r → IsBounded (serve q r).0
  unfolding open_document turn_page_event turn_page move_event move_history follow_reference
      set_viewport decrease_font_size increase_font_size reset_font_size set_font_scale_percent
  serve-IsBounded (Request.open_at path) r h =
      opened-IsBounded (load_location b r (located (document_id path) none))
        (load_location-IsBounded b r (located (document_id path) none) h)
  serve-IsBounded (Request.turn next) r h =
      or_no_action-IsBounded (turn_page b next r) _ (turn_in-IsBounded next r r.current h)
  serve-IsBounded (Request.move forward) r h =
      or_no_action-IsBounded (move_history b forward r) _
        (move_open-IsBounded forward r r.current h)
  serve-IsBounded (Request.follow reference) r h =
      follow_target-IsBounded r (resolve_reference b r reference) h
  serve-IsBounded (Request.go target) r h = activate-IsBounded r target h
  serve-IsBounded (Request.lay_out_as layout style) r h = reflow_layout-IsBounded r layout style h
  serve-IsBounded (Request.view viewport) r h =
      reflow_layout-IsBounded r
        (with_font_scale_percent (content viewport) r.reader_layout.font_scale_percent) r.base_style
        h
  serve-IsBounded Request.smaller r h = scale_in-IsBounded r _ r.current h
  serve-IsBounded Request.larger r h = scale_in-IsBounded r _ r.current h
  serve-IsBounded Request.usual r h = scale_in-IsBounded r _ r.current h

  -- Whatever the calls are and however they end, a history within its bounds stays within them: it
  -- has at most as many entries as the limit allows, or one when the limit is 0, and its index is
  -- that of an entry, or 0 in a history with none.
  pub serve_all-IsBounded :
      (qs : List (Request Style)) (r : Reader Document Style)
      → IsBounded r
      → IsBounded (serve_all qs r)
  serve_all-IsBounded [] r h = h
  serve_all-IsBounded (q ∷ qs) r h = serve_all-IsBounded qs (serve q r).0 (serve-IsBounded q r h)
