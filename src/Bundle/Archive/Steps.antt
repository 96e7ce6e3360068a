-- ===== src/Bundle/Archive/Steps.antt =====
-- What a round of the loop has done when it succeeds.
use sony_prs.Base.{
  ℕ, ◌+◌, ◌≤◌, ◌≡◌, ◌⊎◌, true, false, List, [], ◌∷◌, ◌++◌, Option, none, some, arith, ok, length,
  Result-cases, inl, inr, Bool-cases, Option-cases,
}
use sony_prs.Text.{str_eq}
use sony_prs.Protocol.{max_bundle_size, BundlePath, ManifestFile, Manifest}
use sony_prs.Bundle.{manifest_path}
use sony_prs.Bundle.Manifests.{validate_manifest, find_file, archive_path}
use sony_prs.Bundle.Archive.{
  Entry, State, read_entry, contains_path, has_manifest, accept_manifest, keep_file, accept_file,
  process_entry, no_directory, in_memory,
}

module _ (from_slice : List ℕ → Option Manifest) where
  pub accept_manifest-parts :
      (s s' : State (Unit {0})) (path : BundlePath) (entry : Entry) (bytes : List ℕ) (m : Manifest)
      (expected : List ManifestFile)
      → accept_manifest from_slice no_directory in_memory s path entry ≡ ok s'
      → read_entry entry ≡ ok bytes
      → from_slice bytes ≡ some m
      → validate_manifest m ≡ ok expected
      → (s.manifest ≡ none)
        × (s'.manifest ≡ some m)
        × (s'.expected ≡ expected)
        × (s'.seen ≡ s.seen)
        × (s'.extracted_size ≡ s.extracted_size)
        × (s'.memory_files ≡ s.memory_files)
  unfolding accept_manifest
  accept_manifest-parts s s' path entry bytes m expected e read parsed valid = ground arith

  pub accept_manifest-reads :
      (s s' : State (Unit {0})) (path : BundlePath) (entry : Entry)
      → accept_manifest from_slice no_directory in_memory s path entry ≡ ok s'
      → (bytes : List ℕ) × (m : Manifest) × (expected : List ManifestFile) × (read_entry entry
          ≡ ok bytes)
        × (from_slice bytes ≡ some m)
        × (validate_manifest m ≡ ok expected)
  unfolding accept_manifest
  accept_manifest-reads s s' path entry e = elim (Result-cases (read_entry entry)) [
    | inr (x, bad) ↦ absurd (ground arith)
    | inl (bytes, read) ↦ elim (Option-cases (from_slice bytes)) [
      | inl bad ↦ absurd (ground arith)
      | inr (m, parsed) ↦ elim (Result-cases (validate_manifest m)) [
        | inr (x, bad) ↦ absurd (ground arith)
        | inl (expected, valid) ↦ (bytes, m, expected, read, parsed, valid)
      ]
    ]
  ]

  pub accept_file-parts :
      (s s' : State (Unit {0})) (path : BundlePath) (entry : Entry) (file : ManifestFile)
      (bytes : List ℕ)
      → accept_file from_slice no_directory in_memory s path entry ≡ ok s'
      → find_file path.value s.expected ≡ some file
      → read_entry entry ≡ ok bytes
      → entry.size ≡ some (length bytes)
      → (has_manifest s.manifest ≡ true)
        × (file.size ≡ length bytes)
        × (s'.manifest ≡ s.manifest)
        × (s'.expected ≡ s.expected)
        × (s'.seen ≡ s.seen)
        × (s'.extracted_size ≡ s.extracted_size + length bytes)
        × (s'.extracted_size ≤ max_bundle_size)
        × (s'.memory_files ≡ s.memory_files ++ (path, bytes) ∷ [])
  unfolding accept_file keep_file
  accept_file-parts s s' path entry file bytes e found read size = ground arith

  pub accept_file-reads :
      (s s' : State (Unit {0})) (path : BundlePath) (entry : Entry)
      → accept_file from_slice no_directory in_memory s path entry ≡ ok s'
      → (file : ManifestFile) × (bytes : List ℕ) × (find_file path.value s.expected ≡ some file)
        × (read_entry entry ≡ ok bytes)
  unfolding accept_file keep_file
  accept_file-reads s s' path entry e = elim (Option-cases (find_file path.value s.expected)) [
    | inl bad ↦ absurd (ground arith)
    | inr (file, found) ↦ elim (Result-cases (read_entry entry)) [
      | inr (x, bad) ↦ absurd (ground arith)
      | inl (bytes, read) ↦ (file, bytes, found, read)
    ]
  ]

  -- The entry was for the manifest, or for a file.
  abbrev pub StepOf : State (Unit {0}) → State (Unit {0}) → BundlePath → Entry → Type 0
  StepOf s s' path entry =
      let next = record s { seen = path.value ∷ s.seen } in
      ((str_eq path.value manifest_path ≡ true)
        × (accept_manifest from_slice no_directory in_memory next path entry ≡ ok s'))
      ⊎ ((str_eq path.value manifest_path ≡ false)
          × (accept_file from_slice no_directory in_memory next path entry ≡ ok s'))

  pub process_entry-reads :
      (s s' : State (Unit {0})) (entry_result : Option Entry)
      → process_entry from_slice no_directory in_memory s entry_result ≡ ok s'
      → (entry : Entry) × (path : BundlePath) × (contains_path path.value s.seen ≡ false)
        × StepOf s s' path entry
  unfolding process_entry
  process_entry-reads s s' none e = absurd (ground arith)
  process_entry-reads s s' (some entry) e = elim (Result-cases (archive_path entry.path_bytes)) [
    | inr (x, bad) ↦ absurd (ground arith)
    | inl (path, read) ↦ (
      entry,
      path,
      ground arith,
      elim (Bool-cases (str_eq path.value manifest_path)) [
        | inl is ↦ inl (is, ground arith)
        | inr other ↦ inr (other, ground arith)
      ],
    )
  ]
