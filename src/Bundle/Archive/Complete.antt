-- ===== src/Bundle/Archive/Complete.antt =====
-- The files that `extract_to_memory` returns, against the manifest.
use sony_prs.Base.{
  ℕ, ◌≤◌, ◌≡◌, refl, sym, ◌∙◌, Bool, true, false, ◌&&◌, ◌||◌, List, [], ◌∷◌, Option, some, arith,
  ok, ok_inj, All, All-append, Result-cases, inl, inr, Option-cases,
}
use sony_prs.Text.{Str, str_eq}
use sony_prs.Protocol.{max_bundle_size, BundlePath, ManifestFile, Manifest}
use sony_prs.Bundle.{manifest_path}
use sony_prs.Bundle.Manifests.Valid.{DistinctPaths, validate_manifest-IsSound}
use sony_prs.Bundle.Manifests.{validate_manifest}
use sony_prs.Bundle.Archive.{
  Entry, State, contains_path, accept_manifest, accept_file, process_entry, process_entries,
  check_seen, process_archive, initial, no_directory, in_memory, InMemoryBundle, extract_to_memory,
}
use sony_prs.Bundle.Archive.Files.{
  names, total_bytes, AllDistinct, IsListed, IsConsistent, str_eq_comm, append-AllDistinct,
  names-append, total_bytes-append, read_entry-eq-ok, kept_manifest, kept_file, fresh_name,
  keep-IsValidated,
}
use sony_prs.Bundle.Archive.Steps.{
  accept_manifest-parts, accept_manifest-reads, accept_file-parts, accept_file-reads,
  process_entry-reads,
}

module _ (from_slice : List ℕ → Option Manifest) where
  manifest-IsConsistent :
      (s s' : State (Unit {0})) (path : BundlePath) (entry : Entry)
      → IsConsistent s
      → str_eq path.value manifest_path ≡ true
      → accept_manifest from_slice no_directory in_memory
          (record s { seen = path.value ∷ s.seen })
          path
          entry
        ≡ ok s'
      → IsConsistent s'
  unfolding contains_path
  manifest-IsConsistent s s' path entry h is e =
      let next = record s { seen = path.value ∷ s.seen } in
      let (bytes, m, expected, read, parsed, valid) =
        accept_manifest-reads from_slice next s' path entry e in
      let (before, now, listed, seen, size, files) =
        accept_manifest-parts from_slice next s' path entry bytes m expected e read parsed valid in
      let empty = files ∙ (rw before at h.validated).1 in
      record {
        validated = rw (now, listed) valid;
        listed = rw empty tt;
        distinct = rw empty tt;
        kept = λ x.
            rw (seen, empty, now)
              (kept_manifest x path.value s.seen is
                (h.kept x ∙ rw ((rw before at h.validated).1, before) refl));
        counted = rw (files, size) h.counted;
        bounded = rw size h.bounded;
      }

  file-IsConsistent :
      (s s' : State (Unit {0})) (path : BundlePath) (entry : Entry)
      → IsConsistent s
      → contains_path path.value s.seen ≡ false
      → accept_file from_slice no_directory in_memory
          (record s { seen = path.value ∷ s.seen })
          path
          entry
        ≡ ok s'
      → IsConsistent s'
  file-IsConsistent s s' path entry h fresh e =
      let next = record s { seen = path.value ∷ s.seen } in
      let (file, bytes, found, read) = accept_file-reads from_slice next s' path entry e in
      let (started, size, now, listed, seen, sum, fits, files) =
        accept_file-parts from_slice next s' path entry file bytes e found read
          (read_entry-eq-ok entry bytes read) in
      let new = fresh_name path.value (names s.memory_files) _ (sym (h.kept path.value) ∙ fresh) in
      record {
        validated =
            rw (now, listed)
              (keep-IsValidated s.manifest s.expected s.memory_files _ started h.validated);
        listed =
            rw (listed, files)
              (All-append (IsListed s.expected) s.memory_files ((path, bytes) ∷ []) h.listed
                ((file, found, size), tt));
        distinct =
            rw (files, names-append s.memory_files (path, bytes))
              (append-AllDistinct path.value (names s.memory_files) h.distinct new);
        kept = λ x.
            rw (seen, files, now, names-append s.memory_files (path, bytes))
              (kept_file x path.value s.seen (names s.memory_files) _ (h.kept x));
        counted = rw (files, total_bytes-append s.memory_files (path, bytes), sum, h.counted) refl;
        bounded = fits;
      }

  process_entries-IsConsistent :
      (s s' : State (Unit {0})) (entries : List (Option Entry))
      → IsConsistent s
      → process_entries from_slice no_directory in_memory s entries ≡ ok s'
      → IsConsistent s'
  unfolding process_entries
  process_entries-IsConsistent s s' [] h e = rw (← ok_inj e) h
  process_entries-IsConsistent s s' (r ∷ entries) h e =
      elim (Result-cases (process_entry from_slice no_directory in_memory s r)) [
        | inr (x, bad) ↦ cc (rw (bad, process_entries) at e)
        | inl (next, good) ↦
            let (entry, path, fresh, step) = process_entry-reads from_slice s next r good in
            let now : IsConsistent next = elim step [
              | inl (is, accepted) ↦ manifest-IsConsistent s next path entry h is accepted
              | inr (other, accepted) ↦ file-IsConsistent s next path entry h fresh accepted
            ] in
            process_entries-IsConsistent next s' entries now (rw (good, process_entries) at e)
      ]

check_seen-eq-ok :
    (expected : List ManifestFile) (seen : List Str)
    → check_seen expected seen ≡ ok tt
    → All (λ f. contains_path f.path.value seen ≡ true) expected
unfolding check_seen
check_seen-eq-ok [] seen e = tt
check_seen-eq-ok (f ∷ fs) seen e = (ground arith, check_seen-eq-ok fs seen (ground arith))

-- What is in the map is not the manifest, so that it was kept.
seen-kept :
    (expected : List ManifestFile) (seen files : List Str) (b : Bool)
    → ((x : Str) → contains_path x seen ≡ contains_path x files || b && str_eq manifest_path x)
    → DistinctPaths expected
    → All (λ f. contains_path f.path.value seen ≡ true) expected
    → All (λ f. contains_path f.path.value files ≡ true) expected
seen-kept [] seen files b kept h all = tt
seen-kept (f ∷ fs) seen files b kept h all = (
  ground (arith, kept f.path.value, str_eq_comm f.path.value manifest_path, h.2),
  seen-kept fs seen files b kept h.3 all.1,
)

initial-IsConsistent : IsConsistent (initial {D = Unit {0}} tt)
unfolding contains_path
initial-IsConsistent = record {
  validated = (refl, refl);
  listed = tt;
  distinct = tt;
  kept = λ x. refl;
  counted = refl;
  bounded = omega arith;
}

extract_to_memory-parts :
    (from_slice : List ℕ → Option Manifest) (entries : List (Option Entry))
    (trailing : List (Option (List ℕ))) (bundle : InMemoryBundle) (s : State (Unit {0}))
    (m : Manifest)
    → extract_to_memory from_slice entries trailing ≡ ok bundle
    → process_entries from_slice no_directory in_memory (initial tt) entries ≡ ok s
    → s.manifest ≡ some m
    → (check_seen s.expected s.seen ≡ ok tt)
      × (bundle.manifest ≡ m)
      × (bundle.files ≡ s.memory_files)
unfolding extract_to_memory process_archive
extract_to_memory-parts from_slice entries trailing bundle s m e run got = ground arith

extract_to_memory-reads :
    (from_slice : List ℕ → Option Manifest) (entries : List (Option Entry))
    (trailing : List (Option (List ℕ))) (bundle : InMemoryBundle)
    → extract_to_memory from_slice entries trailing ≡ ok bundle
    → (s : State (Unit {0})) × (m : Manifest) × (process_entries from_slice no_directory in_memory
          (initial tt)
          entries
        ≡ ok s)
      × (s.manifest ≡ some m)
unfolding extract_to_memory process_archive
extract_to_memory-reads from_slice entries trailing bundle e =
    elim (Result-cases (process_entries from_slice no_directory in_memory (initial tt) entries)) [
      | inr (x, bad) ↦ absurd (ground arith)
      | inl (s, run) ↦ elim (Option-cases s.manifest) [
        | inl bad ↦ absurd (ground arith)
        | inr (m, got) ↦ (s, m, run, got)
      ]
    ]

-- When a bundle is extracted to memory, its manifest is valid and lists exactly the files returned:
-- every file is listed with the size it has, every listed path is that of a file, no path stands
-- twice, and the bytes are within the limit.
pub extract_to_memory-IsComplete :
    (from_slice : List ℕ → Option Manifest) (entries : List (Option Entry))
    (trailing : List (Option (List ℕ))) (bundle : InMemoryBundle)
    → extract_to_memory from_slice entries trailing ≡ ok bundle
    → (expected : List ManifestFile) × (validate_manifest bundle.manifest ≡ ok expected)
      × All (IsListed expected) bundle.files
      × All (λ f. contains_path f.path.value (names bundle.files) ≡ true) expected
      × AllDistinct (names bundle.files)
      × (total_bytes bundle.files ≤ max_bundle_size)
extract_to_memory-IsComplete from_slice entries trailing bundle e =
    let (s, m, run, got) = extract_to_memory-reads from_slice entries trailing bundle e in
    let (all_seen, manifest, files) =
      extract_to_memory-parts from_slice entries trailing bundle s m e run got in
    let h =
      process_entries-IsConsistent from_slice (initial tt) s entries initial-IsConsistent run in
    let valid = rw got at h.validated in
    let (_, _, _, _, _, sound) = validate_manifest-IsSound m s.expected valid in
    rw (manifest, files)
      (
        s.expected,
        valid,
        h.listed,
        seen-kept s.expected s.seen (names s.memory_files) _ h.kept sound.distinct
            (check_seen-eq-ok s.expected s.seen all_seen),
        h.distinct,
        rw h.counted h.bounded,
      )
