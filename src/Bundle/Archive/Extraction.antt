-- ===== src/Bundle/Archive/Extraction.antt =====
-- `extract_internal` and `extract_with_size_limit`: an archive is extracted to a private directory, which
-- is moved to its place when the whole archive was accepted. What the file system answers is a parameter.
pub mod Limits
use sony_prs.Base.{
  ℕ, Bool, true, false, not, List, Option, some, Result, ok, ok_or, ◌>>=◌, ◌>>◌, guard,
}
use sony_prs.Protocol.{Manifest}
use sony_prs.Bundle.{BundleError, io, destination_parent_not_directory, destination_exists}
use sony_prs.Bundle.Archive.{Entry, Directory, Options, process_archive}

-- What stands at the destination.
pub data Occupant : Type 0 where
  absent empty_directory taken : Occupant

abbrev is_taken : Occupant → Bool
is_taken taken = true
is_taken _ = false

-- The answers around the extraction, in the order of their use; `none` is an I/O error. `cleared` is the
-- removal of an empty destination, if there is one then.
pub record Place (D : Type 0) : Type 0 where
  pub parent_is_directory : Option Bool
  pub occupant : Option Occupant
  pub staging : Option D
  pub cleared : Option (Unit {0})
  pub renamed : Option (Unit {0})

abbrev pub to_directory : Option ℕ → Options
to_directory limit = record {
  has_destination = true;
  has_memory_files = false;
  staging_limit = limit;
}

module _ {D : Type 0} (from_slice : List ℕ → Option Manifest) (dir : Directory D)
    (place : Place D) where
  -- The manifest, and the directory that was moved to the destination.
  unfoldable pub extract_internal :
      Option ℕ → List (Option Entry) → List (Option (List ℕ)) → Result BundleError (Manifest × D)
  unfolding process_archive
  extract_internal limit entries trailing = do
    is_directory ← ok_or place.parent_is_directory io
    guard is_directory destination_parent_not_directory
    occupant ← ok_or place.occupant io
    guard (not (is_taken occupant)) destination_exists
    staging ← ok_or place.staging io
    extracted ← process_archive from_slice dir (to_directory limit) entries trailing staging
    ok_or place.cleared io
    ok_or place.renamed io
    ok (extracted.0, extracted.1.directory)

  unfoldable pub extract_with_size_limit :
      ℕ → List (Option Entry) → List (Option (List ℕ)) → Result BundleError (Manifest × D)
  unfolding extract_internal
  extract_with_size_limit limit entries trailing = extract_internal (some limit) entries trailing
