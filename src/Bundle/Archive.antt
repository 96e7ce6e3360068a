-- ===== src/Bundle/Archive.antt =====
-- `process_archive` and `extract_to_memory`. The `tar` reader over the counted stream is the list of
-- the entries it gives, then the chunks of bytes it leaves unread; the JSON decoder and the
-- directory below `destination` are parameters.
pub mod Files
pub mod Steps
pub mod Complete
pub mod Extraction
use sony_prs.Base.{
  ℕ, ◌+◌, ◌≡◌, Bool, true, false, not, ◌&&◌, ◌||◌, List, [], ◌∷◌, ◌++◌, Option, none, some, leb,
  ◌==◌, if◌then◌else◌, any, Result, ok, err, ok_or, ◌>>=◌, ◌>>◌, guard, length,
}
use sony_prs.Text.{Str, str_eq}
use sony_prs.Protocol.{max_bundle_size, BundlePath, ManifestFile, Manifest}
use sony_prs.Bundle.{
  BundleError, io, json, unsafe_path, manifest_too_large, trailing_archive_data, unsupported_entry,
  duplicate_archive_path, unexpected_archive_path, missing_archive_path, entry_size_mismatch,
  manifest_size_mismatch, extracted_size_too_large, staging_size_too_large, manifest_path,
  max_manifest_size, u64_max,
}
use sony_prs.Bundle.Manifests.{validate_manifest, find_file, has_special_component, archive_path}

-- What `tar` tells of one entry; `none` is an I/O error.
pub record Entry : Type 0 where
  pub is_regular : Bool
  pub path_bytes : List ℕ
  pub size : Option ℕ
  pub contents : Option (List ℕ)

-- The directory's operations, on paths relative to it; `none` is an I/O error.
pub record Directory (D : Type 0) : Type 0 where
  pub create_parents : Str → D → Option D
  pub create_new : Str → D → Option D
  pub write_all : Str → List ℕ → D → Option D

-- The arguments `destination` and `memory_files`, as whether they are there, and `staging_limit`.
pub record Options : Type 0 where
  pub has_destination : Bool
  pub has_memory_files : Bool
  pub staging_limit : Option ℕ

pub record State (D : Type 0) : Type 0 where
  pub manifest : Option Manifest
  pub expected : List ManifestFile
  pub seen : List Str
  pub extracted_size : ℕ
  pub staged_size : ℕ
  pub memory_files : List (BundlePath × List ℕ)
  pub directory : D

-- `read_entry`.
unfoldable pub read_entry : Entry → Result BundleError (List ℕ)
read_entry entry = do
  expected ← ok_or entry.size io
  bytes ← ok_or entry.contents io
  guard (length bytes == expected) entry_size_mismatch
  ok bytes

-- The staging limit's check of a new staged size.
unfoldable pub check_staged : Option ℕ → ℕ → ℕ → Result BundleError ℕ
check_staged none staged new = ok staged
check_staged (some limit) staged new = do
  guard (leb new u64_max) staging_size_too_large
  guard (leb new limit) staging_size_too_large
  ok new

unfoldable pub contains_path : Str → List Str → Bool
contains_path path [] = false
contains_path path (p ∷ ps) = str_eq p path || contains_path path ps

abbrev pub has_manifest : Option Manifest → Bool
has_manifest none = false
has_manifest (some m) = true

module _ {D : Type 0} (from_slice : List ℕ → Option Manifest) (dir : Directory D)
    (options : Options) where
  -- `write_staged_file`, and the copy of an entry to the file that `staged_path` names.
  unfoldable pub write_staged_file : Str → List ℕ → D → Result BundleError D
  write_staged_file path bytes d = do
    guard (not (has_special_component path)) unsafe_path
    d₁ ← ok_or (dir.create_parents path d) io
    d₂ ← ok_or (dir.create_new path d₁) io
    ok_or (dir.write_all path bytes d₂) io

  abbrev pub staged : Bool → Str → List ℕ → D → Result BundleError D
  staged false path bytes d = ok d
  staged true path bytes d = write_staged_file path bytes d

  -- The branch of `manifest.json`; `seen` has its path already.
  unfoldable pub accept_manifest : State D → BundlePath → Entry → Result BundleError (State D)
  accept_manifest s path entry = do
    guard (not (has_manifest s.manifest)) duplicate_archive_path
    declared_size ← ok_or entry.size io
    guard (leb declared_size max_manifest_size) manifest_too_large
    bytes ← read_entry entry
    staged_size ← check_staged options.staging_limit s.staged_size (length bytes)
    parsed ← ok_or (from_slice bytes) json
    expected ← validate_manifest parsed
    directory ← staged options.has_destination path.value bytes s.directory
    ok (record s {
      manifest = some parsed;
      expected = expected;
      staged_size = staged_size;
      directory = directory;
    })

  -- Where the contents of a listed file go.
  unfoldable pub keep_file : Bool → State D → BundlePath → ℕ → Entry → Result BundleError (State D)
  keep_file true s path declared_size entry = do
    bytes ← read_entry entry
    ok (record s { memory_files = s.memory_files ++ (path, bytes) ∷ [] })
  keep_file false s path declared_size entry = do
    bytes ← ok_or entry.contents io
    directory ← staged options.has_destination path.value bytes s.directory
    guard (length bytes == declared_size) entry_size_mismatch
    ok (record s { directory = directory })

  -- The branch of every other path.
  unfoldable pub accept_file : State D → BundlePath → Entry → Result BundleError (State D)
  accept_file s path entry = do
    guard (has_manifest s.manifest) unsafe_path
    file ← ok_or (find_file path.value s.expected) unexpected_archive_path
    declared_size ← ok_or entry.size io
    guard (declared_size == file.size) manifest_size_mismatch
    staged_size ← check_staged options.staging_limit s.staged_size (s.staged_size + declared_size)
    guard (leb (s.extracted_size + declared_size) u64_max) extracted_size_too_large
    guard (leb (s.extracted_size + declared_size) max_bundle_size) extracted_size_too_large
    keep_file options.has_memory_files
        (record s { staged_size = staged_size; extracted_size = s.extracted_size + declared_size })
        path declared_size entry

  -- One round of the loop over the entries.
  unfoldable pub process_entry : State D → Option Entry → Result BundleError (State D)
  process_entry s entry_result = do
    entry ← ok_or entry_result io
    guard entry.is_regular unsupported_entry
    path ← archive_path entry.path_bytes
    guard (not (contains_path path.value s.seen)) duplicate_archive_path
    let s' = record s { seen = path.value ∷ s.seen } in
        if str_eq path.value manifest_path
        then accept_manifest s' path entry
        else accept_file s' path entry

  unfoldable pub process_entries : State D → List (Option Entry) → Result BundleError (State D)
  process_entries s [] = ok s
  process_entries s (entry ∷ entries) = elim (process_entry s entry) [
    | ok s' ↦ process_entries s' entries
    | err e ↦ err e
  ]

-- The loop over what follows the archive: only zeros may.
unfoldable pub check_trailing : List (Option (List ℕ)) → Result BundleError (Unit {0})
check_trailing [] = ok tt
check_trailing (none ∷ chunks) = err io
check_trailing (some [] ∷ chunks) = ok tt
check_trailing (some (b ∷ bytes) ∷ chunks) =
    if any (λ byte. not (byte == 0)) (b ∷ bytes)
    then err trailing_archive_data
    else check_trailing chunks

unfoldable pub check_seen : List ManifestFile → List Str → Result BundleError (Unit {0})
check_seen [] seen = ok tt
check_seen (f ∷ fs) seen =
    if contains_path f.path.value seen then check_seen fs seen else err missing_archive_path

abbrev pub initial : {D : Type 0} → D → State D
initial d = record {
  manifest = none;
  expected = [];
  seen = [];
  extracted_size = 0;
  staged_size = 0;
  memory_files = [];
  directory = d;
}

module _ {D : Type 0} (from_slice : List ℕ → Option Manifest) (dir : Directory D)
    (options : Options) where
  -- The manifest, and the state that the caller sees through the references it gave.
  unfoldable pub process_archive :
      List (Option Entry) → List (Option (List ℕ)) → D → Result BundleError (Manifest × State D)
  process_archive entries trailing d = do
    s ← process_entries from_slice dir options (initial d) entries
    check_trailing trailing
    manifest ← ok_or s.manifest unsafe_path
    check_seen s.expected s.seen
    ok (manifest, s)

-- `InMemoryBundle`.
pub record InMemoryBundle : Type 0 where
  pub manifest : Manifest
  pub files : List (BundlePath × List ℕ)

-- There is no destination.
abbrev pub no_directory : Directory (Unit {0})
no_directory = record {
  create_parents = λ path d. none;
  create_new = λ path d. none;
  write_all = λ path bytes d. none;
}

abbrev pub in_memory : Options
in_memory = record { has_destination = false; has_memory_files = true; staging_limit = none }

unfoldable pub extract_to_memory :
    (List ℕ → Option Manifest)
    → List (Option Entry)
    → List (Option (List ℕ))
    → Result BundleError InMemoryBundle
extract_to_memory from_slice entries trailing = do
  (manifest, s) ← process_archive from_slice no_directory in_memory entries trailing tt
  ok (record { manifest = manifest; files = s.memory_files })
