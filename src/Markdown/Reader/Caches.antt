-- ===== src/Markdown/Reader/Caches.antt =====
-- reader.rs: the cache of pages and the cache of documents, each with the oldest entry in front.
pub mod Bounds
use sony_prs.Base.{
  ℕ, ◌+◌, ◌-◌, Bool, true, false, not, ◌&&◌, List, [], ◌∷◌, ◌++◌, Option, none, some, max, ◌==◌,
  leb, if◌then◌else◌, any, length, drop,
}
use sony_prs.Text.{str_eq}
use sony_prs.Markdown.Navigation.{DocumentId}
use sony_prs.Markdown.Pagination.Scan.{PageLayout}
use sony_prs.Markdown.Reader.{PageCache, OpenDocument, DocumentCache}

unfoldable pub new_page_cache : ℕ → PageCache
new_page_cache capacity = record { capacity = max capacity 1; entries = [] }

abbrev pub find_page : List (ℕ × PageLayout) → ℕ → Option PageLayout
find_page [] index = none
find_page (e ∷ es) index = let rest = find_page es index in if e.0 == index then some e.1 else rest

-- `PageCache::get` and `contains`.
abbrev pub get_page : PageCache → ℕ → Option PageLayout
get_page c index = find_page c.entries index

unfoldable pub contains_page : PageCache → ℕ → Bool
contains_page c index = any (λ e. e.0 == index) c.entries

-- `position` and `remove`: the first entry for the index is left out.
abbrev pub remove_page : List (ℕ × PageLayout) → ℕ → List (ℕ × PageLayout)
remove_page [] index = []
remove_page (e ∷ es) index =
    let rest = remove_page es index in if e.0 == index then es else e ∷ rest

-- `while entries.len() >= capacity { entries.pop_front() }`, for a capacity that is not 0.
abbrev pub evict : {A : Type 0} → ℕ → List A → List A
evict capacity [] = []
evict capacity (x ∷ xs) =
    let rest = evict capacity xs in if leb capacity (length (x ∷ xs)) then rest else x ∷ xs

unfoldable pub insert_page : PageCache → ℕ → PageLayout → PageCache
insert_page c index page = record c {
  entries = evict c.capacity (remove_page c.entries index) ++ (index, page) ∷ [];
}

module _ {Document : Type 0} where
  abbrev pub document_of : OpenDocument Document → DocumentId
  document_of d = d.location.document

  abbrev first_of : List (OpenDocument Document) → DocumentId → Option (OpenDocument Document)
  first_of [] id = none
  first_of (d ∷ ds) id =
      let rest = first_of ds id in if str_eq (document_of d) id then some d else rest

  abbrev remove_document : List (OpenDocument Document) → DocumentId → List (OpenDocument Document)
  remove_document [] id = []
  remove_document (d ∷ ds) id =
      let rest = remove_document ds id in if str_eq (document_of d) id then ds else d ∷ rest

  -- `DocumentCache::take`: the cache after the call, and the document.
  unfoldable pub take_document :
      DocumentCache Document → DocumentId → DocumentCache Document × Option (OpenDocument Document)
  take_document c id = (record c { entries = remove_document c.entries id }, first_of c.entries id)

  abbrev pub retain_others :
      List (OpenDocument Document) → DocumentId → List (OpenDocument Document)
  retain_others [] id = []
  retain_others (d ∷ ds) id =
      let rest = retain_others ds id in if str_eq (document_of d) id then rest else d ∷ rest

  unfoldable pub insert_document :
      DocumentCache Document → OpenDocument Document → DocumentCache Document
  insert_document c d =
      let others = retain_others c.entries (document_of d) in
      if c.capacity == 0 then c else record c { entries = evict c.capacity others ++ d ∷ [] }
