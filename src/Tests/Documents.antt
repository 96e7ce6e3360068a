-- ===== src/Tests/Documents.antt =====
-- A document of a paragraph and a table on small pages, a reader of it, and its links.
use sony_prs.Base.{
  ℕ, ◌+◌, ◌-◌, ◌≤◌, ◌≡◌, refl, arith, true, false, List, [], ◌∷◌, map, Option, none, some, All,
  length, get?, pos, Result, ok, err, if◌then◌else◌, leb,
}
use sony_prs.Base.{String}
use sony_prs.Text.{Str, codes}
use sony_prs.Markdown.Navigation.{DocumentLocation, NavigationTarget, from_destination, new}
use sony_prs.Markdown.Navigation.Destinations.{Denotes, from_destination-Denotes}
use sony_prs.Markdown.Navigation.Visits.{Move, Shows, apply, step, run, start, run-new}
use sony_prs.Markdown.Geometry.{Rect, content}
use sony_prs.Markdown.Pagination.{
  LayoutBlockKind, TableRowLayout, LayoutBlock, DocumentLayout, Insets, at, cursor, empty_range,
  positions, document_end,
}
use sony_prs.Markdown.Pagination.Scan.{PageLayout, paginate, repeated_header}
use sony_prs.Markdown.Pagination.Scan.Lines.{page_lines, page_lines-paginate}
use sony_prs.Markdown.Pagination.Scan.Ranges.{IsChain, IsFilled, first_cursor, paginate-IsChain}
use sony_prs.Markdown.Pagination.Directory.{index, page_from_index}
use sony_prs.Markdown.Pagination.Directory.Lookup.{IsTabled}
use sony_prs.Markdown.Pagination.Directory.Begun.{IsLaidOut}
use sony_prs.Markdown.Pagination.Directory.Rebuild.{page_from_index-index}
use sony_prs.Markdown.Reader.{
  ResourceTarget, ReaderError, ReaderEvent, ReadingLocation, Backend, Reader,
}
use sony_prs.Markdown.Reader.Caches.{get_page, insert_page, new_page_cache}
use sony_prs.Markdown.Reader.Caches.Bounds.{IsCache, insert_page-IsCache, new_page_cache-IsCache}
use sony_prs.Markdown.Reader.History.{push_history, history_limit}
use sony_prs.Markdown.Reader.History.Bounds.{IsBounded, push_history_lem}
use sony_prs.Markdown.Reader.Moves.{located}
use sony_prs.Markdown.Reader.Paging.{
  current_page_index, open_document, turn_page_event, follow_reference, move_event,
  increase_font_size,
}
use sony_prs.Markdown.Reader.Paging.Steps.{Request, serve_all, serve_all-IsBounded}
use sony_prs.Markdown.Resources.{ResourceError, Target, resolve_reference_in_namespace}
use sony_prs.Markdown.Resources.Inside.{IsName}
use sony_prs.Markdown.Resources.Targets.{IsInside, resolve_reference_in_namespace-IsInside}
use sony_prs.Markdown.Session.{QrMatrix, ReaderController, dispatch, truncated_url_lines}
use sony_prs.Markdown.Session.Lines.{joined, truncated_url_lines_lem}
use sony_prs.Markdown.Session.Overlay.{
  display_overlay, merge-Encloses_overlay, shown_url, announced_url, dispatch-Matches,
}
use sony_prs.T1.Ui.{UiPage}
use sony_prs.T1.Ui.Dirty.{DirtyArea, merge, region}
use sony_prs.T1.Ui.Dirty.Coverage.{Encloses}

abbrev row : ℕ → Rect
row y = record { x = pos 0; y = pos y; width = 100; height = 20 }

abbrev header_lines : ℕ → ℕ → TableRowLayout
header_lines from until = record { start = from; end = until; group = 0; header = true }

abbrev body_lines : ℕ → ℕ → TableRowLayout
body_lines from until = record { start = from; end = until; group = 0; header = false }

abbrev intro : LayoutBlock
intro = record {
  kind = LayoutBlockKind.paragraph;
  bounds = row 0;
  lines = row 0 ∷ row 20 ∷ row 40 ∷ [];
  anchor = some (codes "intro");
  table = none;
}

abbrev prices : LayoutBlock
prices = record {
  kind = LayoutBlockKind.table;
  bounds = row 60;
  lines = row 60 ∷ row 80 ∷ row 100 ∷ [];
  anchor = none;
  table = some (header_lines 0 1 ∷ body_lines 1 2 ∷ body_lines 2 3 ∷ []);
}

abbrev guide : DocumentLayout
guide = record { viewport = record { width = 100; height = 50 }; blocks = intro ∷ prices ∷ [] }

abbrev no_padding : Insets
no_padding = record { top = 0; right = 0; bottom = 0; left = 0 }

-- The paragraph leaves its first line alone, and the last row of the table is on a page of its own,
-- below the repeated header.
guide_pages :
    map (λ p. p.range.start) (paginate guide no_padding)
    ≡ cursor 0 0 ∷ cursor 0 1 ∷ cursor 1 0 ∷ cursor 1 2 ∷ []
unfolding paginate
guide_pages = refl

guide_drawn : map (λ p. length p.commands) (paginate guide no_padding) ≡ 1 ∷ 2 ∷ 2 ∷ 2 ∷ []
unfolding paginate
guide_drawn = refl

prices-IsTabled : IsTabled prices
prices-IsTabled =
    ((omega arith, omega arith), ((omega arith, omega arith), ((omega arith, omega arith), tt)))

guide-IsLaidOut : IsLaidOut guide
unfolding repeated_header
guide-IsLaidOut = record {
  tables = (tt, (tt, (tt, (prices-IsTabled, (prices-IsTabled, (prices-IsTabled, tt))))));
  first = refl;
}

page_from_index-index_example :
    page_from_index guide no_padding (index guide no_padding) 3 ≡ get? (paginate guide no_padding) 3
page_from_index-index_example = page_from_index-index guide no_padding 3 guide-IsLaidOut

page_lines-paginate_example : page_lines (paginate guide no_padding) ≡ map at (positions guide)
page_lines-paginate_example = page_lines-paginate guide no_padding

paginate-IsChain_example :
    IsChain
      (document_end guide)
      1
      (first_cursor (positions guide) (document_end guide))
      (paginate guide no_padding)
    × IsFilled (paginate guide no_padding)
paginate-IsChain_example = paginate-IsChain guide no_padding

abbrev place : String → DocumentLocation
place name = located (codes name) none

abbrev wander : List Move
wander =
    Move.visit (place "b.md")
    ∷ Move.go_back
    ∷ Move.go_forward
    ∷ Move.go_back
    ∷ Move.visit (place "c.md")
    ∷ Move.go_forward
    ∷ []

run-new_example :
    Shows (run apply wander (new (place "a.md"))).0 (run step wander (start (place "a.md"))).0
    × ((run apply wander (new (place "a.md"))).1 ≡ (run step wander (start (place "a.md"))).1)
run-new_example = run-new (place "a.md") wander

from_destination-Denotes_example :
    Denotes (codes "guide/setup.md#wifi") (from_destination (codes "guide/setup.md#wifi"))
from_destination-Denotes_example = from_destination-Denotes (codes "guide/setup.md#wifi")

destination_kinds :
    map
      (λ d. from_destination (codes d))
      ("##top" ∷ "HTTPS://example.com/a.md" ∷ "a.MD#x" ∷ "a.png#x" ∷ [])
    ≡ NavigationTarget.anchor (codes "top")
      ∷ NavigationTarget.external (codes "HTTPS://example.com/a.md")
      ∷ NavigationTarget.document_anchor (codes "a.MD") (codes "x")
      ∷ NavigationTarget.asset (codes "a.png")
      ∷ []
unfolding from_destination
destination_kinds = refl

abbrev chapter : List Str
chapter = codes "guide" ∷ codes "part one" ∷ codes "a.md" ∷ []

abbrev foo : List Str
foo = codes "guide" ∷ codes "foo.MD" ∷ []

chapter-IsName : All IsName chapter
chapter-IsName = (
  record {
    no_slash = (refl, (refl, (refl, (refl, (refl, tt)))));
    filled = refl;
    no_dot = refl;
    no_parent = refl;
  },
  (
    record {
      no_slash = (refl, (refl, (refl, (refl, (refl, (refl, (refl, (refl, tt))))))));
      filled = refl;
      no_dot = refl;
      no_parent = refl;
    },
    (
      record {
        no_slash = (refl, (refl, (refl, (refl, tt))));
        filled = refl;
        no_dot = refl;
        no_parent = refl;
      },
      tt,
    ),
  ),
)

resolve_reference_in_namespace-IsInside_example :
    IsInside (codes "./..//foo.MD#top") (Target.document_anchor foo (codes "top"))
unfolding resolve_reference_in_namespace
resolve_reference_in_namespace-IsInside_example =
    resolve_reference_in_namespace-IsInside chapter (codes "./..//foo.MD#top")
      (Target.document_anchor foo (codes "top")) chapter-IsName refl

-- An asset, the document itself, and references that are refused.
resolved_kinds :
    map (resolve_reference_in_namespace chapter) (
      codes "../x.png"
      ∷ []
      ∷ codes "../../../x.md"
      ∷ codes "/x.md"
      ∷ codes "x.png#y"
      ∷ codes "mailto:x.md"
      ∷ [])
    ≡ ok (Target.asset (codes "guide" ∷ codes "x.png" ∷ []))
      ∷ ok (Target.document chapter)
      ∷ err ResourceError.escapes_root
      ∷ err ResourceError.absolute_reference
      ∷ err ResourceError.anchor_on_asset
      ∷ ok (Target.external (codes "mailto:x.md"))
      ∷ []
unfolding resolve_reference_in_namespace
resolved_kinds = refl

merge-Encloses_overlay_example :
    Encloses
      (region display_overlay
        (merge DirtyArea.external_link_overlay DirtyArea.feedback)
        600
        800
        UiPage.home)
      (region display_overlay DirtyArea.external_link_overlay 600 800 UiPage.home)
    × Encloses
        (region display_overlay
          (merge DirtyArea.external_link_overlay DirtyArea.feedback)
          600
          800
          UiPage.home)
        (region display_overlay DirtyArea.feedback 600 800 UiPage.home)
merge-Encloses_overlay_example =
    merge-Encloses_overlay UiPage.home 600 800 DirtyArea.external_link_overlay DirtyArea.feedback
      (omega arith) (omega arith) (omega arith) refl refl

overlay_at_the_corner :
    display_overlay 600 800 ≡ record { left = 228; top = 570; width = 360; height = 214 }
unfolding display_overlay
overlay_at_the_corner = refl

abbrev long_url : Str
long_url = codes "https://example.com/a/very/long/path"

truncated_url_lines_lem_example :
    (length (truncated_url_lines long_url 10 3) ≤ 3)
    × All (λ l. length l ≤ 10) (truncated_url_lines long_url 10 3)
    × (joined (truncated_url_lines (codes "https://example.com/") 10 3)
        ≡ codes "https://example.com/")
truncated_url_lines_lem_example =
    truncated_url_lines_lem long_url (codes "https://example.com/") 10 3 (omega arith) (omega arith)
      (omega arith)

long_url_lines :
    truncated_url_lines long_url 10 3
    ≡ codes "https://ex" ∷ codes "ample.com/" ∷ codes "a/very/..." ∷ []
unfolding truncated_url_lines
long_url_lines = refl

-- A library of two documents, `guide` in both.
abbrev library : Backend ℕ ℕ
library = record {
  read = λ id. ok (length id);
  resolve = λ id reference. ok (ResourceTarget.document reference);
  lay_out = λ layout style document. guide;
  padding = λ layout style. no_padding;
  block_count = λ document. 2;
  text_length = λ document block. 9;
  line_starts = λ document layout block. 0 ∷ 3 ∷ 6 ∷ [];
}

abbrev passage : ℕ → ReadingLocation
passage page = record {
  location = place "a.md";
  page = page;
  cursor = cursor 0 page;
  content = record { block = 0; offset = page };
}

-- A reader whose history is full, with two entries.
abbrev full_reader : Reader ℕ ℕ
full_reader = record {
  reader_layout = content guide.viewport;
  base_style = 0;
  current = none;
  document_cache = record { capacity = 2; entries = [] };
  history = passage 0 ∷ passage 1 ∷ [];
  history_index = 1;
  limits = record { max_history_entries = 2; max_cached_documents = 2; page_cache_capacity = 3 };
}

push_history_lem_example :
    ((push_history full_reader (passage 2)).history ≡ passage 1 ∷ passage 2 ∷ [])
    × (get?
          (push_history full_reader (passage 2)).history
          (length (push_history full_reader (passage 2)).history - 1)
        ≡ some (passage 2))
    × ((push_history full_reader (passage 2)).history_index ≡ (
        if leb 3 (history_limit full_reader)
        then length (push_history full_reader (passage 2)).history - 1
        else length (push_history full_reader (passage 2)).history - 2))
push_history_lem_example =
    push_history_lem full_reader (passage 2) (omega arith) (omega arith) (omega arith)

-- The index is at the entry that was left.
full_push :
    get?
      (push_history full_reader (passage 2)).history
      (push_history full_reader (passage 2)).history_index
    ≡ some (passage 1)
unfolding push_history
full_push = refl

abbrev session : List (Request ℕ)
session =
    Request.open_at (codes "a.md")
    ∷ Request.turn true
    ∷ Request.follow (codes "bb.md")
    ∷ Request.turn true
    ∷ Request.move false
    ∷ Request.larger
    ∷ []

serve_all-IsBounded_example : IsBounded (serve_all library session full_reader)
serve_all-IsBounded_example =
    serve_all-IsBounded library session full_reader (omega arith, omega arith)

-- Back from the second document the reader is at the page that it had turned to.
session_page : current_page_index library (serve_all library session full_reader) ≡ 1
unfolding open_document turn_page_event follow_reference move_event increase_font_size content
session_page = refl

abbrev sample_page : PageLayout
sample_page = record { number = 1; range = empty_range (cursor 0 0); commands = [] }

insert_page-IsCache_example :
    IsCache (insert_page (new_page_cache 0) 4 sample_page)
    × (get_page (insert_page (new_page_cache 0) 4 sample_page) 4 ≡ some sample_page)
insert_page-IsCache_example =
    insert_page-IsCache (new_page_cache 0) 4 sample_page (new_page_cache-IsCache 0)

abbrev small_code : Str → Option QrMatrix
small_code url = if leb (length url) 40 then some (record { size = 0; modules = [] }) else none

abbrev controller : ReaderController ℕ
controller = record { inner = 7; external_link_overlay = none }

abbrev open_link : ℕ → ℕ × Result ReaderError ReaderEvent
open_link n = (n + 1, ok (ReaderEvent.external_url long_url))

dispatch-Matches_example :
    ((dispatch small_code open_link controller).0.inner ≡ 8)
    × (shown_url (dispatch small_code open_link controller).0.external_link_overlay
        ≡ announced_url (dispatch small_code open_link controller).1)
dispatch-Matches_example = dispatch-Matches small_code open_link controller
