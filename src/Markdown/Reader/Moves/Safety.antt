-- ===== src/Markdown/Reader/Moves/Safety.antt =====
-- The history's bounds under loading and navigation.
use sony_prs.Base.{ℕ, List, Option, none, some, Result, ok, err, Bool-cases, inl, inr}
use sony_prs.Text.{Str}
use sony_prs.Markdown.Navigation.{DocumentLocation}
use sony_prs.Markdown.Pagination.{DocumentCursor}
use sony_prs.Markdown.Reader.{
  ReaderError, ReadingLocation, Backend, OpenDocument, DocumentCache, Reader, ReaderLimits,
}
use sony_prs.Markdown.Reader.Caches.{take_document}
use sony_prs.Markdown.Reader.Opened.{snapshot_for}
use sony_prs.Markdown.Reader.History.{update_current_history}
use sony_prs.Markdown.Reader.History.Bounds.{
  IsBounded, Bounded, push_history-IsBounded, update_current_history-IsBounded, set_entry-IsBounded,
}
use sony_prs.Markdown.Reader.Moves.{
  put_away, cache_current, load_uncached, prepare_loaded, padding_of, from_cache, from_provider,
  load_with, load_location, arrive, within, in_place, go_to, at_current, navigate_loaded, go_on,
  navigate_to_location, to_anchor, anchor_in, navigate_to_anchor,
}

-- What is said of the history, its index and the limits, which loading a document leaves alone.
abbrev pub Of :
    {Document Style : Type 0}
    → (List ReadingLocation → ℕ → ReaderLimits → Type 0)
    → Reader Document Style
    → Type 0
Of P r = P r.history r.history_index r.limits

module _ {Document Style : Type 0} (b : Backend Document Style)
    (P : List ReadingLocation → ℕ → ReaderLimits → Type 0) where
  put_away-keeps :
      (r : Reader Document Style) (o : Option (OpenDocument Document))
      → Of P r
      → Of P (put_away b r o)
  put_away-keeps r none h = h
  put_away-keeps r (some d) h = h

  cache_current-keeps : (r : Reader Document Style) → Of P r → Of P (cache_current b r)
  unfolding cache_current
  cache_current-keeps r h = put_away-keeps r r.current h

  from_provider-keeps :
      (r : Reader Document Style) (l : Result ReaderError (OpenDocument Document))
      → Of P r
      → Of P (from_provider b r l).0
  from_provider-keeps r (ok d) h = cache_current-keeps r h
  from_provider-keeps r (err e) h = h

  from_cache-keeps :
      (r : Reader Document Style) (p : OpenDocument Document × Result ReaderError (Unit {0}))
      → Of P r
      → Of P (from_cache b r p).0
  from_cache-keeps r (d, ok u) h = cache_current-keeps r h
  from_cache-keeps r (d, err e) h = h

  load_with-keeps :
      (r : Reader Document Style) (l : DocumentLocation)
      (p : DocumentCache Document × Option (OpenDocument Document))
      → Of P r
      → Of P (load_with b r l p).0
  load_with-keeps r l (cache, none) h = from_provider-keeps r (load_uncached b r l) h
  load_with-keeps r l (cache, some d) h =
      from_cache-keeps (record r { document_cache = cache }) (prepare_loaded b d l (padding_of b r))
        h

  pub load_location-keeps :
      (r : Reader Document Style) (l : DocumentLocation) → Of P r → Of P (load_location b r l).0
  unfolding load_location
  load_location-keeps r l h = load_with-keeps r l (take_document r.document_cache l.document) h

module _ {Document Style : Type 0} (b : Backend Document Style) where
  pub load_location-IsBounded :
      (r : Reader Document Style) (l : DocumentLocation)
      → IsBounded r
      → IsBounded (load_location b r l).0
  load_location-IsBounded = load_location-keeps b Bounded

  arrive-IsBounded :
      (r : Reader Document Style) (l : Result ReaderError (OpenDocument Document))
      → IsBounded r
      → IsBounded (arrive b r l).0
  arrive-IsBounded r (err e) h = h
  arrive-IsBounded r (ok d) h =
      push_history-IsBounded (update_current_history b r) (snapshot_for b d)
        (update_current_history-IsBounded b r h)

  within-IsBounded :
      (r : Reader Document Style) (o : ReadingLocation) (m : OpenDocument Document)
      (l : Result ReaderError (OpenDocument Document))
      → IsBounded r
      → IsBounded (within b r o m l).0
  within-IsBounded r o m (err e) h = h
  within-IsBounded r o m (ok d) h =
      push_history-IsBounded _ (snapshot_for b d) (set_entry-IsBounded r (some d) o h)

  in_place-IsBounded :
      (r : Reader Document Style) (l : DocumentLocation) (c : DocumentCursor)
      (o : Option (OpenDocument Document))
      → IsBounded r
      → IsBounded (in_place b r l c o).0
  in_place-IsBounded r l c none h = h
  in_place-IsBounded r l c (some d) h = within-IsBounded r (snapshot_for b d) _ _ h

  go_to-IsBounded :
      (r : Reader Document Style) (l : DocumentLocation) (c : DocumentCursor)
      (o : Option (OpenDocument Document))
      → IsBounded r
      → IsBounded (go_to b r l c o).0
  go_to-IsBounded r l c none h = in_place-IsBounded r l c r.current h
  go_to-IsBounded r l c (some d) h = arrive-IsBounded r _ h

  navigate_loaded-IsBounded :
      (r : Reader Document Style) (l : DocumentLocation) (c : DocumentCursor)
      (o : Option (OpenDocument Document))
      → IsBounded r
      → IsBounded (navigate_loaded b r l c o).0
  unfolding navigate_loaded
  navigate_loaded-IsBounded r l c o h = elim (Bool-cases (at_current b r.current l c)) [
    | inl here ↦ rw here h
    | inr away ↦ rw away (go_to-IsBounded r l c o h)
  ]

  go_on-IsBounded :
      (p : Reader Document Style × Result ReaderError (OpenDocument Document))
      → IsBounded p.0
      → IsBounded (go_on b p).0
  go_on-IsBounded (r, err e) h = h
  go_on-IsBounded (r, ok d) h = navigate_loaded-IsBounded r d.location d.cursor (some d) h

  pub navigate_to_location-IsBounded :
      (r : Reader Document Style) (l : DocumentLocation)
      → IsBounded r
      → IsBounded (navigate_to_location b r l).0
  unfolding navigate_to_location
  navigate_to_location-IsBounded r l h =
      go_on-IsBounded (load_location b r l) (load_location-IsBounded r l h)

  to_anchor-IsBounded :
      (r : Reader Document Style) (d : OpenDocument Document) (a : Str)
      (c : Result ReaderError DocumentCursor)
      → IsBounded r
      → IsBounded (to_anchor b r d a c).0
  to_anchor-IsBounded r d a (err e) h = h
  to_anchor-IsBounded r d a (ok c) h = navigate_loaded-IsBounded r _ c none h

  anchor_in-IsBounded :
      (r : Reader Document Style) (a : Str) (o : Option (OpenDocument Document))
      → IsBounded r
      → IsBounded (anchor_in b r a o).0
  anchor_in-IsBounded r a none h = h
  anchor_in-IsBounded r a (some d) h = to_anchor-IsBounded r d a _ h

  pub navigate_to_anchor-IsBounded :
      (r : Reader Document Style) (a : Str) → IsBounded r → IsBounded (navigate_to_anchor b r a).0
  unfolding navigate_to_anchor
  navigate_to_anchor-IsBounded r a h = anchor_in-IsBounded r a r.current h
