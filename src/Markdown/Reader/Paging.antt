-- ===== src/Markdown/Reader/Paging.antt =====
-- reader.rs: turning pages, moving in the history, following links and laying the page out again.
pub mod Steps
use sony_prs.Base.{
  ℕ, ◌+◌, ◌-◌, Bool, true, false, not, List, [], ◌∷◌, ◌++◌, Option, none, some, min, max, ltb, ◌==◌,
  if◌then◌else◌, length, get?, Result, ok, err,
}
use sony_prs.Text.{Str, codes}
use sony_prs.Markdown.Navigation.{DocumentId, DocumentLocation, NavigationTarget}
use sony_prs.Markdown.Geometry.{
  Viewport, ReaderLayout, normalized, content, with_font_scale_percent, clamp_font_scale_percent,
  default_font_scale_percent, min_font_scale_percent, max_font_scale_percent,
  font_scale_step_percent,
}
use sony_prs.Markdown.Pagination.{DocumentCursor}
use sony_prs.Markdown.Pagination.Directory.{next_page_index}
use sony_prs.Markdown.Reader.{
  ResourceTarget, ReaderError, ReaderEvent, ReadingLocation, Backend, OpenDocument, Reader,
}
use sony_prs.Markdown.Reader.Opened.{
  or_else, page_count, page_range, open_page_index, page_index_after, ensure_page, snapshot_for,
  content_anchor_for, cursor_for_content_anchor, build_open_document,
}
use sony_prs.Markdown.Reader.History.{can_go_forward, update_current_history}
use sony_prs.Markdown.Reader.Moves.{
  located, document_id, padding_of, load_location, navigate_to_location, navigate_to_anchor,
}

-- `checked_sub(1)`.
abbrev before_index : ℕ → Option ℕ
before_index i = if ltb 0 i then some (i - 1) else none

module _ {Document Style : Type 0} (backend : Backend Document Style) where
  -- The result of a call, with the reader that it leaves.
  abbrev pub Call : Type 0 → Type 0
  Call A = Reader Document Style × Result ReaderError A

  abbrev pub opened :
      Reader Document Style × Result ReaderError (OpenDocument Document) → Call ReaderEvent
  opened (r, err e) = (r, err e)
  opened (r, ok d) = (
    record r { current = some d; history = snapshot_for backend d ∷ []; history_index = 0 },
    ok (ReaderEvent.opened d.location (page_count backend d)),
  )

  -- `open_document`.
  unfoldable pub open_document : Reader Document Style → Str → Call ReaderEvent
  unfolding load_location snapshot_for
  open_document r path = opened (load_location backend r (located (document_id path) none))

  abbrev pub turned : OpenDocument Document → ℕ → OpenDocument Document
  turned d i =
      let c = (page_range backend d i).start in
      record d { page = i; cursor = c; content = content_anchor_for backend d.document d.layout c }

  abbrev pub turn_to :
      Reader Document Style → Result ReaderError (OpenDocument Document) → ℕ → Call Bool
  turn_to r (err e) i = (r, err e)
  turn_to r (ok d) i =
      (update_current_history backend (record r { current = some (turned d i) }), ok true)

  abbrev pub turn_by : Reader Document Style → OpenDocument Document → Option ℕ → Call Bool
  turn_by r d none = (r, ok false)
  turn_by r d (some i) = turn_to r (ensure_page backend d i (padding_of backend r)) i

  abbrev pub turn_in : Bool → Reader Document Style → Option (OpenDocument Document) → Call Bool
  turn_in next r none = (r, err ReaderError.no_document_open)
  turn_in next r (some d) = turn_by r d (page_index_after backend d d.page next)

  -- `next_page` and `previous_page`.
  unfoldable pub turn_page : Bool → Reader Document Style → Call Bool
  unfolding page_index_after ensure_page update_current_history page_range content_anchor_for
  turn_page next r = turn_in next r r.current

  -- `current_page_index().unwrap_or(0)` and `page_count()`.
  abbrev pub current_page_index : Reader Document Style → ℕ
  current_page_index r = elim r.current [ none ↦ 0 | some d ↦ d.page ]

  abbrev pub current_page_count : Reader Document Style → ℕ
  current_page_count r = elim r.current [ none ↦ 0 | some d ↦ page_count backend d ]

  unfoldable pub page_changed_event : Reader Document Style → ReaderEvent
  page_changed_event r = ReaderEvent.page_changed (current_page_index r) (current_page_count r)

  abbrev pub or_no_action : Call Bool → (Reader Document Style → ReaderEvent) → Call ReaderEvent
  or_no_action (r, err e) event = (r, err e)
  or_no_action (r, ok true) event = (r, ok (event r))
  or_no_action (r, ok false) event = (r, ok ReaderEvent.no_action)

  unfoldable pub turn_page_event : Bool → Reader Document Style → Call ReaderEvent
  unfolding turn_page page_changed_event
  turn_page_event next r = or_no_action (turn_page next r) page_changed_event

  -- The entry's passage in the document that was loaded for it.
  abbrev pub restored : OpenDocument Document → ReadingLocation → OpenDocument Document
  restored d target =
      let c =
        or_else (cursor_for_content_anchor backend d.document d.layout target.content)
          target.cursor in
      record d {
        cursor = c;
        content = target.content;
        page = or_else (open_page_index backend d c) (min target.page (page_count backend d - 1));
      }

  abbrev pub land :
      Reader Document Style → Result ReaderError (OpenDocument Document) → ℕ → Call Bool
  land r (err e) i = (r, err e)
  land r (ok d) i = (record r { current = some d; history_index = i }, ok true)

  abbrev pub restore :
      Reader Document Style × Result ReaderError (OpenDocument Document)
      → ReadingLocation
      → ℕ
      → Call Bool
  restore (r, err e) target i = (r, err e)
  restore (r, ok d) target i =
      let back = restored d target in
      land r (ensure_page backend back back.page (padding_of backend r)) i

  abbrev pub target_index : Bool → Reader Document Style → Option ℕ
  target_index forward r =
      if forward
      then next_page_index (length r.history) r.history_index
      else before_index r.history_index

  -- An index that passed its test has an entry.
  abbrev pub move_to : Reader Document Style → Option ReadingLocation → ℕ → Call Bool
  move_to r none i = (r, ok false)
  move_to r (some target) i = restore (load_location backend r target.location) target i

  abbrev pub move_by : Reader Document Style → Option ℕ → Call Bool
  move_by r none = (r, ok false)
  move_by r (some i) = move_to r (get? r.history i) i

  abbrev pub move_open : Bool → Reader Document Style → Option (OpenDocument Document) → Call Bool
  move_open forward r none = (r, err ReaderError.no_document_open)
  move_open forward r (some d) =
      let updated = update_current_history backend r in
      move_by updated (target_index forward updated)

  -- `move_history(1)` and `move_history(-1)`.
  unfoldable pub move_history : Bool → Reader Document Style → Call Bool
  unfolding update_current_history load_location ensure_page cursor_for_content_anchor
      open_page_index next_page_index
  move_history forward r = move_open forward r r.current

  abbrev history_location : Reader Document Style → DocumentLocation
  history_location r = elim r.current [ none ↦ located [] none | some d ↦ d.location ]

  -- `history_event`, which is reached with a document open.
  unfoldable pub history_event : Bool → Reader Document Style → ReaderEvent
  history_event forward r =
      if forward
      then ReaderEvent.forward (history_location r) (current_page_index r) (current_page_count r)
      else ReaderEvent.back (history_location r) (current_page_index r) (current_page_count r)

  -- `forward_event` and `back_event`.
  unfoldable pub move_event : Bool → Reader Document Style → Call ReaderEvent
  unfolding move_history history_event
  move_event forward r = or_no_action (move_history forward r) (history_event forward)

  abbrev resolve_in : Option (OpenDocument Document) → Str → Result ReaderError ResourceTarget
  resolve_in none reference = err ReaderError.no_document_open
  resolve_in (some d) reference = backend.resolve d.location.document reference

  -- `resolve_reference`.
  abbrev pub resolve_reference : Reader Document Style → Str → Result ReaderError ResourceTarget
  resolve_reference r reference = resolve_in r.current reference

  abbrev unsupported : Reader Document Style → ResourceTarget → Call ReaderEvent
  unsupported r target = (r, err (ReaderError.unsupported_target target))

  abbrev pub follow_path :
      Reader Document Style → Result ReaderError ResourceTarget → Call ReaderEvent
  follow_path r (err e) = (r, err e)
  follow_path r (ok (ResourceTarget.document path)) =
      navigate_to_location backend r (located (document_id path) none)
  follow_path r (ok (ResourceTarget.document_anchor path a)) =
      navigate_to_location backend r (located (document_id path) (some a))
  follow_path r (ok (ResourceTarget.anchor a)) = unsupported r (ResourceTarget.anchor a)
  follow_path r (ok (ResourceTarget.asset path)) = unsupported r (ResourceTarget.asset path)
  follow_path r (ok (ResourceTarget.external url)) = unsupported r (ResourceTarget.external url)

  unfoldable pub follow_document : Reader Document Style → Str → Call ReaderEvent
  unfolding navigate_to_location
  follow_document r reference = follow_path r (resolve_reference r reference)

  abbrev pub follow_target :
      Reader Document Style → Result ReaderError ResourceTarget → Call ReaderEvent
  follow_target r (err e) = (r, err e)
  follow_target r (ok (ResourceTarget.external url)) = (r, ok (ReaderEvent.external_url url))
  follow_target r (ok (ResourceTarget.anchor a)) = navigate_to_anchor backend r a
  follow_target r (ok (ResourceTarget.document path)) =
      navigate_to_location backend r (located (document_id path) none)
  follow_target r (ok (ResourceTarget.document_anchor path a)) =
      navigate_to_location backend r (located (document_id path) (some a))
  follow_target r (ok (ResourceTarget.asset path)) = (r, ok (ReaderEvent.asset path))

  unfoldable pub follow_reference : Reader Document Style → Str → Call ReaderEvent
  unfolding navigate_to_location navigate_to_anchor
  follow_reference r reference = follow_target r (resolve_reference r reference)

  unfoldable pub activate : Reader Document Style → NavigationTarget → Call ReaderEvent
  unfolding navigate_to_location navigate_to_anchor follow_document
  activate r (NavigationTarget.location l) = navigate_to_location backend r l
  activate r (NavigationTarget.anchor a) = navigate_to_anchor backend r a
  activate r (NavigationTarget.document id) = follow_document r id
  activate r (NavigationTarget.document_anchor id a) = follow_document r (id ++ codes "#" ++ a)
  activate r (NavigationTarget.asset id) = (r, ok (ReaderEvent.asset id))
  activate r (NavigationTarget.external url) = (r, ok (ReaderEvent.external_url url))

  abbrev relaid : OpenDocument Document → OpenDocument Document → OpenDocument Document
  relaid d content_of =
      let c =
        or_else (cursor_for_content_anchor backend d.document d.layout content_of.content)
          d.cursor in
      record d {
        cursor = c;
        content = content_of.content;
        page = or_else (open_page_index backend d c) (min d.page (page_count backend d - 1));
      }

  abbrev pub laid_out :
      Reader Document Style
      → Reader Document Style
      → Result ReaderError (OpenDocument Document)
      → Call ReaderEvent
  laid_out before after (err e) = (before, err e)
  laid_out before after (ok d) =
      let shown = update_current_history backend (record after { current = some d }) in
      (shown, ok (page_changed_event shown))

  abbrev pub rebuild :
      Reader Document Style
      → Reader Document Style
      → OpenDocument Document
      → Result ReaderError (OpenDocument Document)
      → Call ReaderEvent
  rebuild before after d (err e) = (before, err e)
  rebuild before after d (ok built) =
      let there = relaid built d in
      laid_out before after (ensure_page backend there there.page (padding_of backend after))

  abbrev pub cleared : Reader Document Style → Reader Document Style
  cleared r = record r { document_cache = record r.document_cache { entries = [] } }

  -- An error puts the old layout and style back, with the document cache empty.
  abbrev pub reflow_in :
      Reader Document Style
      → ReaderLayout
      → Style
      → Option (OpenDocument Document)
      → Call ReaderEvent
  reflow_in r reader_layout base_style none = (
    record r { reader_layout = reader_layout; base_style = base_style },
    ok ReaderEvent.no_action,
  )
  reflow_in r reader_layout base_style (some d) =
      rebuild (cleared r)
        (record (cleared r) { reader_layout = reader_layout; base_style = base_style }) d
        (build_open_document backend reader_layout base_style r.limits.page_cache_capacity
          d.location d.document)

  unfoldable pub reflow_layout : Reader Document Style → ReaderLayout → Style → Call ReaderEvent
  unfolding normalized build_open_document ensure_page update_current_history
      cursor_for_content_anchor open_page_index page_changed_event
  reflow_layout r reader_layout base_style =
      reflow_in r (normalized reader_layout) base_style r.current

  unfoldable pub set_viewport : Reader Document Style → Viewport → Call ReaderEvent
  unfolding reflow_layout content with_font_scale_percent
  set_viewport r viewport =
      reflow_layout r
        (with_font_scale_percent (content viewport) r.reader_layout.font_scale_percent) r.base_style

  abbrev pub scale_in :
      Reader Document Style → ℕ → Option (OpenDocument Document) → Call ReaderEvent
  scale_in r percent none = (r, err ReaderError.no_document_open)
  scale_in r percent (some d) =
      if r.reader_layout.font_scale_percent == percent
      then (r, ok ReaderEvent.no_action)
      else reflow_layout r (with_font_scale_percent r.reader_layout percent) r.base_style

  unfoldable pub set_font_scale_percent : Reader Document Style → ℕ → Call ReaderEvent
  unfolding reflow_layout with_font_scale_percent clamp_font_scale_percent
  set_font_scale_percent r percent = scale_in r (clamp_font_scale_percent percent) r.current

  unfoldable pub decrease_font_size : Reader Document Style → Call ReaderEvent
  unfolding set_font_scale_percent
  decrease_font_size r =
      set_font_scale_percent r
        (max (r.reader_layout.font_scale_percent - font_scale_step_percent) min_font_scale_percent)

  unfoldable pub reset_font_size : Reader Document Style → Call ReaderEvent
  unfolding set_font_scale_percent
  reset_font_size r = set_font_scale_percent r default_font_scale_percent

  unfoldable pub increase_font_size : Reader Document Style → Call ReaderEvent
  unfolding set_font_scale_percent
  increase_font_size r =
      set_font_scale_percent r
        (min (r.reader_layout.font_scale_percent + font_scale_step_percent) max_font_scale_percent)
