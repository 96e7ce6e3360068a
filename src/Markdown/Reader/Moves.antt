-- ===== src/Markdown/Reader/Moves.antt =====
-- reader.rs: how the reader opens a document, follows a link and moves in its history. A call
-- returns the reader as it leaves it, next to the result.
pub mod Safety
use sony_prs.Base.{
  ℕ, ◌+◌, ◌-◌, Bool, true, false, ◌&&◌, List, [], ◌∷◌, ◌++◌, Option, none, some, min, ltb, ◌==◌,
  if◌then◌else◌, length, get?, Result, ok, err, ◌>>=◌,
}
use sony_prs.Text.{Str, codes}
use sony_prs.Markdown.Navigation.{DocumentId, DocumentLocation, NavigationTarget, same_location}
use sony_prs.Markdown.Pagination.{DocumentCursor, Insets, same_cursor}
use sony_prs.Markdown.Pagination.Directory.{page_index_for_cursor}
use sony_prs.Markdown.Reader.{
  ResourceTarget, ReaderError, ReaderEvent, ReadingLocation, Backend, OpenDocument, DocumentCache,
  Reader,
}
use sony_prs.Markdown.Reader.Caches.{take_document, insert_document}
use sony_prs.Markdown.Reader.Opened.{
  or_else, page_count, page_range, open_page_index, ensure_page, snapshot_for, content_anchor_for,
  cursor_for_content_anchor, anchor_cursor, build_open_document,
}
use sony_prs.Markdown.Reader.History.{push_history, set_entry, update_current_history}

-- `document_id` of a path: a backslash is a slash.
abbrev pub document_id : Str → DocumentId
document_id [] = []
document_id (c ∷ path) = (if c == 0x5c then b'/' else c) ∷ document_id path

abbrev pub located : DocumentId → Option Str → DocumentLocation
located document anchor = record { document = document; anchor = anchor }

module _ {Document Style : Type 0} (backend : Backend Document Style) where
  -- The padding of the reader's style.
  abbrev pub padding_of : Reader Document Style → Insets
  padding_of r = backend.padding r.reader_layout r.base_style

  abbrev pub put_away :
      Reader Document Style → Option (OpenDocument Document) → Reader Document Style
  put_away r none = r
  put_away r (some d) = record r {
    current = none;
    document_cache = insert_document r.document_cache d;
  }

  unfoldable pub cache_current : Reader Document Style → Reader Document Style
  unfolding insert_document
  cache_current r = put_away r r.current

  unfoldable pub load_uncached :
      Reader Document Style → DocumentLocation → Result ReaderError (OpenDocument Document)
  unfolding build_open_document
  load_uncached r location = backend.read location.document >>= λ document.
      build_open_document backend r.reader_layout r.base_style r.limits.page_cache_capacity location
        document

  abbrev on_page : OpenDocument Document → DocumentCursor → OpenDocument Document
  on_page d c = record d {
    page = or_else (open_page_index backend d c) d.page;
    cursor = c;
    content = content_anchor_for backend d.document d.layout c;
  }

  abbrev pub ensured :
      OpenDocument Document → Insets → OpenDocument Document × Result ReaderError (Unit {0})
  ensured moved padding = elim (ensure_page backend moved moved.page padding) [
    | ok ready ↦ (ready, ok tt)
    | err e ↦ (moved, err e)
  ]

  -- `prepare_loaded`, with the document as the call leaves it.
  unfoldable pub prepare_loaded :
      OpenDocument Document
      → DocumentLocation
      → Insets
      → OpenDocument Document × Result ReaderError (Unit {0})
  unfolding page_range open_page_index ensure_page anchor_cursor content_anchor_for
  prepare_loaded d location padding =
      let there = record d { location = location } in
      let front = record there { page = 0 } in
      elim location.anchor [
        | none ↦ ensured (on_page front (page_range backend front 0).start) padding
        | some a ↦
            elim (anchor_cursor backend there.layout location a (open_page_index backend there)) [
              | ok c ↦ ensured (on_page there c) padding
              | err e ↦ (there, err e)
            ]
      ]

  -- `load_location` from a cached document, and from the provider.
  abbrev pub from_cache :
      Reader Document Style
      → OpenDocument Document × Result ReaderError (Unit {0})
      → Reader Document Style × Result ReaderError (OpenDocument Document)
  from_cache r (d, ok u) = (cache_current r, ok d)
  from_cache r (d, err e) =
      (record r { document_cache = insert_document r.document_cache d }, err e)

  abbrev pub from_provider :
      Reader Document Style
      → Result ReaderError (OpenDocument Document)
      → Reader Document Style × Result ReaderError (OpenDocument Document)
  from_provider r (ok d) = (cache_current r, ok d)
  from_provider r (err e) = (r, err e)

  abbrev pub load_with :
      Reader Document Style
      → DocumentLocation
      → DocumentCache Document × Option (OpenDocument Document)
      → Reader Document Style × Result ReaderError (OpenDocument Document)
  load_with r location (cache, none) = from_provider r (load_uncached r location)
  load_with r location (cache, some d) =
      from_cache (record r { document_cache = cache }) (prepare_loaded d location (padding_of r))

  unfoldable pub load_location :
      Reader Document Style
      → DocumentLocation
      → Reader Document Style × Result ReaderError (OpenDocument Document)
  unfolding take_document insert_document cache_current load_uncached prepare_loaded
  load_location r location = load_with r location (take_document r.document_cache location.document)

  abbrev at_current : Option (OpenDocument Document) → DocumentLocation → DocumentCursor → Bool
  at_current none location c = false
  at_current (some d) location c = same_location d.location location && same_cursor d.cursor c

  -- The reader at a document that was loaded.
  abbrev pub arrive :
      Reader Document Style
      → Result ReaderError (OpenDocument Document)
      → Reader Document Style × Result ReaderError ReaderEvent
  arrive r (err e) = (r, err e)
  arrive r (ok d) =
      let pushed = push_history (update_current_history backend r) (snapshot_for backend d) in
      (
        record pushed { current = some d },
        ok (ReaderEvent.navigated d.location d.page (page_count backend d)),
      )

  -- The same document at another cursor: `origin` is put back in the history first.
  abbrev pub within :
      Reader Document Style
      → ReadingLocation
      → OpenDocument Document
      → Result ReaderError (OpenDocument Document)
      → Reader Document Style × Result ReaderError ReaderEvent
  within r origin moved (err e) = (record r { current = some moved }, err e)
  within r origin moved (ok d) =
      let here = record r {
        current = some d;
        history = set_entry r.history r.history_index origin;
      } in
      (
        push_history here (snapshot_for backend d),
        ok (ReaderEvent.navigated d.location d.page (page_count backend d)),
      )

  abbrev pub in_place :
      Reader Document Style
      → DocumentLocation
      → DocumentCursor
      → Option (OpenDocument Document)
      → Reader Document Style × Result ReaderError ReaderEvent
  in_place r location c none = (r, err ReaderError.no_document_open)
  in_place r location c (some d) =
      let moved = on_page (record d { location = location }) c in
      within r (snapshot_for backend d) moved (ensure_page backend moved moved.page (padding_of r))

  abbrev pub go_to :
      Reader Document Style
      → DocumentLocation
      → DocumentCursor
      → Option (OpenDocument Document)
      → Reader Document Style × Result ReaderError ReaderEvent
  go_to r location c none = in_place r location c r.current
  go_to r location c (some d) =
      let next = on_page (record d { location = location }) c in
      arrive r (ensure_page backend next next.page (padding_of r))

  unfoldable pub navigate_loaded :
      Reader Document Style
      → DocumentLocation
      → DocumentCursor
      → Option (OpenDocument Document)
      → Reader Document Style × Result ReaderError ReaderEvent
  unfolding push_history update_current_history snapshot_for ensure_page open_page_index
      content_anchor_for
  navigate_loaded r location c loaded =
      if at_current r.current location c
      then (r, ok ReaderEvent.no_action)
      else go_to r location c loaded

  abbrev pub go_on :
      Reader Document Style × Result ReaderError (OpenDocument Document)
      → Reader Document Style × Result ReaderError ReaderEvent
  go_on (r, err e) = (r, err e)
  go_on (r, ok d) = navigate_loaded r d.location d.cursor (some d)

  unfoldable pub navigate_to_location :
      Reader Document Style
      → DocumentLocation
      → Reader Document Style × Result ReaderError ReaderEvent
  unfolding load_location navigate_loaded
  navigate_to_location r location = go_on (load_location r location)

  abbrev pub to_anchor :
      Reader Document Style
      → OpenDocument Document
      → Str
      → Result ReaderError DocumentCursor
      → Reader Document Style × Result ReaderError ReaderEvent
  to_anchor r d a (err e) = (r, err e)
  to_anchor r d a (ok c) = navigate_loaded r (located d.location.document (some a)) c none

  abbrev pub anchor_in :
      Reader Document Style
      → Str
      → Option (OpenDocument Document)
      → Reader Document Style × Result ReaderError ReaderEvent
  anchor_in r a none = (r, err ReaderError.no_document_open)
  anchor_in r a (some d) =
      to_anchor r d a (anchor_cursor backend d.layout d.location a (open_page_index backend d))

  unfoldable pub navigate_to_anchor :
      Reader Document Style → Str → Reader Document Style × Result ReaderError ReaderEvent
  unfolding anchor_cursor navigate_loaded open_page_index
  navigate_to_anchor r a = anchor_in r a r.current
