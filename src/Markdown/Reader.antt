-- ===== src/Markdown/Reader.antt =====
-- reader.rs, the bounded reader: its data, and what it asks of the components around it.
pub mod Caches
pub mod Opened
pub mod History
pub mod Moves
pub mod Paging
use sony_prs.Base.{ℕ, List, Option, Result}
use sony_prs.Text.{Str}
use sony_prs.Markdown.Navigation.{DocumentId, DocumentLocation}
use sony_prs.Markdown.Geometry.{ReaderLayout}
use sony_prs.Markdown.Pagination.{DocumentCursor, DocumentLayout, Insets}
use sony_prs.Markdown.Pagination.Scan.{PageLayout}
use sony_prs.Markdown.Pagination.Directory.{PageIndexEntry}

-- `ResourceTarget` of resources.rs.
pub data ResourceTarget : Type 0 where
  anchor : Str → ResourceTarget
  document : DocumentId → ResourceTarget
  document_anchor : DocumentId → Str → ResourceTarget
  asset : Str → ResourceTarget
  external : Str → ResourceTarget

-- The errors of the provider and of the parser are told apart by their texts.
pub data ReaderError : Type 0 where
  no_document_open : ReaderError
  resource : Str → ReaderError
  parse : Str → ReaderError
  anchor_not_found : DocumentId → Str → ReaderError
  unsupported_target : ResourceTarget → ReaderError

pub data ReaderEvent : Type 0 where
  opened : DocumentLocation → ℕ → ReaderEvent
  page_changed : ℕ → ℕ → ReaderEvent
  navigated : DocumentLocation → ℕ → ℕ → ReaderEvent
  back : DocumentLocation → ℕ → ℕ → ReaderEvent
  forward : DocumentLocation → ℕ → ℕ → ReaderEvent
  external_url : Str → ReaderEvent
  asset : Str → ReaderEvent
  no_action : ReaderEvent

pub record ContentAnchor : Type 0 where
  pub block : ℕ
  pub offset : ℕ

pub record ReadingLocation : Type 0 where
  pub location : DocumentLocation
  pub page : ℕ
  pub cursor : DocumentCursor
  pub content : ContentAnchor

-- The limits on images are the image loader's.
pub record ReaderLimits : Type 0 where
  pub max_history_entries : ℕ
  pub max_cached_documents : ℕ
  pub page_cache_capacity : ℕ

-- The provider and the parser, which are type parameters of the source, in `read` and `resolve`;
-- the layout engine with the images that it loads; the padding of the effective style; and, of a
-- document, its blocks, their text lengths and `line_start_offsets`.
pub record Backend (Document Style : Type 0) : Type 0 where
  pub read : DocumentId → Result ReaderError Document
  pub resolve : DocumentId → Str → Result ReaderError ResourceTarget
  pub lay_out : ReaderLayout → Style → Document → DocumentLayout
  pub padding : ReaderLayout → Style → Insets
  pub block_count : Document → ℕ
  pub text_length : Document → ℕ → ℕ
  pub line_starts : Document → DocumentLayout → ℕ → List ℕ

-- The pages with their indices, the oldest first.
pub record PageCache : Type 0 where
  pub capacity : ℕ
  pub entries : List (ℕ × PageLayout)

pub record OpenDocument (Document : Type 0) : Type 0 where
  pub location : DocumentLocation
  pub document : Document
  pub layout : DocumentLayout
  pub page_index : List PageIndexEntry
  pub page_cache : PageCache
  pub page : ℕ
  pub cursor : DocumentCursor
  pub content : ContentAnchor

pub record DocumentCache (Document : Type 0) : Type 0 where
  pub capacity : ℕ
  pub entries : List (OpenDocument Document)

-- `style` is not kept: it is the layout's effective style of `base_style`.
pub record Reader (Document Style : Type 0) : Type 0 where
  pub reader_layout : ReaderLayout
  pub base_style : Style
  pub current : Option (OpenDocument Document)
  pub document_cache : DocumentCache Document
  pub history : List ReadingLocation
  pub history_index : ℕ
  pub limits : ReaderLimits
