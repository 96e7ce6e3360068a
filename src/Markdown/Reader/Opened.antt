-- ===== src/Markdown/Reader/Opened.antt =====
-- reader.rs: an open document, its pages and its cursors.
use sony_prs.Base.{
  ℕ, ◌+◌, Bool, false, ◌&&◌, List, [], ◌∷◌, map, Option, none, some, min, leb, ◌==◌, if◌then◌else◌,
  length, get?, Result, ok, err, ◌>>=◌,
}
use sony_prs.Text.{Str, str_eq}
use sony_prs.Markdown.Navigation.{DocumentLocation}
use sony_prs.Markdown.Geometry.{ReaderLayout}
use sony_prs.Markdown.Pagination.{
  DocumentCursor, DocumentRange, DocumentLayout, LayoutBlock, Insets, cursor, empty_range,
  is_empty_range,
}
use sony_prs.Markdown.Pagination.Directory.{
  PageIndexEntry, index, page_from_index, page_index_for_cursor, next_page_index,
  previous_page_index,
}
use sony_prs.Markdown.Reader.{ReaderError, ContentAnchor, ReadingLocation, Backend, OpenDocument}
use sony_prs.Markdown.Reader.Caches.{new_page_cache, contains_page, insert_page}

abbrev pub or_else : {A : Type 0} → Option A → A → A
or_else none d = d
or_else (some a) d = a

abbrev pub or_none : {A : Type 0} → Option A → Option A → Option A
or_none none o = o
or_none (some a) o = some a

abbrev pub ranges : List PageIndexEntry → List DocumentRange
ranges entries = map (λ e. e.range) entries

module _ {Document Style : Type 0} (backend : Backend Document Style) where
  abbrev pub page_count : OpenDocument Document → ℕ
  page_count d = length d.page_index

  -- `unwrap_or_default`: the empty range at (0, 0).
  unfoldable pub page_range : OpenDocument Document → ℕ → DocumentRange
  page_range d i = or_else (get? (ranges d.page_index) i) (empty_range (cursor 0 0))

  -- `OpenDocument::page_index_for_cursor`.
  unfoldable pub open_page_index : OpenDocument Document → DocumentCursor → Option ℕ
  unfolding page_range page_index_for_cursor
  open_page_index d c =
      or_none (page_index_for_cursor (ranges d.page_index) c)
        (if page_count d == 1 && is_empty_range (page_range d 0) then some 0 else none)

  unfoldable pub page_index_after : OpenDocument Document → ℕ → Bool → Option ℕ
  unfolding next_page_index previous_page_index
  page_index_after d i next =
      if next then next_page_index (page_count d) i else previous_page_index (page_count d) i

  unfoldable pub ensure_page :
      OpenDocument Document → ℕ → Insets → Result ReaderError (OpenDocument Document)
  unfolding contains_page page_from_index insert_page
  ensure_page d i padding =
      if contains_page d.page_cache i
      then ok d
      else elim (page_from_index d.layout padding d.page_index i) [
        | none ↦ err ReaderError.no_document_open
        | some page ↦ ok (record d { page_cache = insert_page d.page_cache i page })
      ]

  unfoldable pub snapshot_for : OpenDocument Document → ReadingLocation
  snapshot_for d = record {
    location = d.location;
    page = d.page;
    cursor = d.cursor;
    content = d.content;
  }

  abbrev content : ℕ → ℕ → ContentAnchor
  content b o = record { block = b; offset = o }

  unfoldable pub content_anchor_for : Document → DocumentLayout → DocumentCursor → ContentAnchor
  content_anchor_for document layout c =
      let starts = backend.line_starts document layout c.block in
      if leb (backend.block_count document) c.block
      then content (backend.block_count document) 0
      else elim (get? layout.blocks c.block) [
        | none ↦ content c.block 0
        | some block ↦
            content c.block (or_else (get? starts c.line) (backend.text_length document c.block))
      ]

  -- The last line that starts at the offset or before it, from line `l` on.
  abbrev last_start : List ℕ → ℕ → ℕ → Option ℕ
  last_start [] l offset = none
  last_start (s ∷ ss) l offset =
      or_none (last_start ss (l + 1) offset) (if leb s offset then some l else none)

  abbrev line_for : Document → DocumentLayout → ContentAnchor → LayoutBlock → DocumentCursor
  line_for document layout a block = elim block.lines [
    | [] ↦ cursor a.block 0
    | r ∷ rs ↦ cursor a.block (
        or_else
          (last_start (backend.line_starts document layout a.block) 0
            (min a.offset (backend.text_length document a.block)))
          0)
  ]

  unfoldable pub cursor_for_content_anchor :
      Document → DocumentLayout → ContentAnchor → Option DocumentCursor
  cursor_for_content_anchor document layout a =
      if leb (backend.block_count document) a.block
      then some (cursor (backend.block_count document) 0)
      else elim (get? layout.blocks a.block) [
        | none ↦ none
        | some block ↦ some (line_for document layout a block)
      ]

  abbrev has_anchor : Option Str → Str → Bool
  has_anchor none a = false
  has_anchor (some b) a = str_eq b a

  abbrev block_with_anchor : List LayoutBlock → ℕ → Str → Option ℕ
  block_with_anchor [] b a = none
  block_with_anchor (block ∷ blocks) b a =
      let rest = block_with_anchor blocks (b + 1) a in
      if has_anchor block.anchor a then some b else rest

  unfoldable pub anchor_cursor :
      DocumentLayout
      → DocumentLocation
      → Str
      → (DocumentCursor → Option ℕ)
      → Result ReaderError DocumentCursor
  anchor_cursor layout location a page_of =
      let missing = ReaderError.anchor_not_found location.document a in
      elim (block_with_anchor layout.blocks 0 a) [
        | none ↦ err missing
        | some b ↦ elim (page_of (cursor b 0)) [ none ↦ err missing | some i ↦ ok (cursor b 0) ]
      ]

  abbrev first_cursor : DocumentLayout → List PageIndexEntry → DocumentCursor
  first_cursor layout entries = elim (get? (ranges entries) 0) [
    | none ↦ cursor (length layout.blocks) 0
    | some range ↦ range.start
  ]

  abbrev start_cursor :
      DocumentLayout → List PageIndexEntry → DocumentLocation → Result ReaderError DocumentCursor
  start_cursor layout entries location = elim location.anchor [
    | some a ↦ anchor_cursor layout location a (page_index_for_cursor (ranges entries))
    | none ↦ ok (first_cursor layout entries)
  ]

  unfoldable pub build_open_document :
      ReaderLayout
      → Style
      → ℕ
      → DocumentLocation
      → Document
      → Result ReaderError (OpenDocument Document)
  unfolding index page_index_for_cursor anchor_cursor content_anchor_for new_page_cache ensure_page
  build_open_document reader_layout style capacity location document =
      let layout = backend.lay_out reader_layout style document in
      let padding = backend.padding reader_layout style in
      let entries = index layout padding in
      start_cursor layout entries location >>= λ c.
      let page = or_else (page_index_for_cursor (ranges entries) c) 0 in
      ensure_page
        (record {
          location = location;
          document = document;
          layout = layout;
          page_index = entries;
          page_cache = new_page_cache capacity;
          page = page;
          cursor = c;
          content = content_anchor_for document layout c;
        })
        page padding
