-- ===== src/Bundle/Archive/Extraction/Limits.antt =====
-- `extract_with_size_limit`: the bytes of an extraction stay within its limit, when the directory holds
-- no more than is written.
use sony_prs.Base.{
  ℕ, ◌+◌, ◌≤◌, ◌≡◌, refl, subst, true, false, List, [], ◌∷◌, Option, none, some, arith, ok, length,
  Result-cases, Option-cases, Bool-cases, inl, inr, ok_inj,
}
use sony_prs.Text.{Str, str_eq}
use sony_prs.Protocol.{BundlePath, ManifestFile, Manifest}
use sony_prs.Bundle.{manifest_path}
use sony_prs.Bundle.Manifests.{archive_path, find_file, validate_manifest}
use sony_prs.Bundle.Archive.{
  Entry, Directory, State, read_entry, check_staged, has_manifest, write_staged_file,
  accept_manifest, keep_file, accept_file, process_entry, process_entries, initial, process_archive,
}
use sony_prs.Bundle.Archive.Extraction.{
  Place, to_directory, extract_internal, extract_with_size_limit,
}

-- What the bytes that a directory holds do under its operations.
pub record IsMeasured {D : Type 0} (dir : Directory D) (size : D → ℕ) : Type 0 where
  pub parents : (path : Str) (d d' : D) → dir.create_parents path d ≡ some d' → size d' ≤ size d
  pub created : (path : Str) (d d' : D) → dir.create_new path d ≡ some d' → size d' ≤ size d
  pub written :
      (path : Str) (bytes : List ℕ) (d d' : D)
      → dir.write_all path bytes d ≡ some d'
      → size d' ≤ size d + length bytes

module _ {D : Type 0} (from_slice : List ℕ → Option Manifest) (dir : Directory D) (size : D → ℕ)
    (measured : IsMeasured dir size) (limit : ℕ) where
  -- The staged bytes are counted, and within the limit; before the manifest there are none.
  record IsCounted (s : State D) : Type 0 where
    counted : size s.directory ≤ s.staged_size
    within : s.staged_size ≤ limit
    unstarted : (has_manifest s.manifest ≡ false) → s.staged_size ≡ 0

  write_staged_file-size :
      (path : Str) (bytes : List ℕ) (d d' : D)
      → write_staged_file from_slice dir (to_directory (some limit)) path bytes d ≡ ok d'
      → size d' ≤ size d + length bytes
  unfolding write_staged_file
  write_staged_file-size path bytes d d' h = elim (Option-cases (dir.create_parents path d)) [
    | inl bad ↦ absurd (ground arith)
    | inr (e, f) ↦ elim (Option-cases (dir.create_new path e)) [
      | inl bad ↦ absurd (ground arith)
      | inr (g, k) ↦ elim (Option-cases (dir.write_all path bytes g)) [
        | inl bad ↦ absurd (ground arith)
        | inr (l, m) ↦
            let a = measured.parents path d e f in
            let b = measured.created path e g k in
            let c = measured.written path bytes g l m in
            let same : l ≡ d' = ground arith in rw (← same) (omega arith)
      ]
    ]
  ]

  manifest_parts :
      (s s' : State D) (path : BundlePath) (entry : Entry) (bytes : List ℕ) (m : Manifest)
      (expected : List ManifestFile) (d : D)
      → accept_manifest from_slice dir (to_directory (some limit)) s path entry ≡ ok s'
      → read_entry entry ≡ ok bytes
      → from_slice bytes ≡ some m
      → validate_manifest m ≡ ok expected
      → write_staged_file from_slice dir (to_directory (some limit)) path.value bytes s.directory
        ≡ ok d
      → (has_manifest s.manifest ≡ false)
        × (s'.manifest ≡ some m)
        × (s'.staged_size ≡ length bytes)
        × (length bytes ≤ limit)
        × (s'.directory ≡ d)
  unfolding accept_manifest check_staged
  manifest_parts s s' path entry bytes m expected d e read parsed valid wrote = ground arith

  manifest-IsCounted :
      (s s' : State D) (path : BundlePath) (entry : Entry)
      → IsCounted s
      → accept_manifest from_slice dir (to_directory (some limit)) s path entry ≡ ok s'
      → IsCounted s'
  unfolding accept_manifest
  manifest-IsCounted s s' path entry h e = elim (Result-cases (read_entry entry)) [
    | inr (x, bad) ↦ absurd (ground arith)
    | inl (bytes, read) ↦ elim (Option-cases (from_slice bytes)) [
      | inl bad ↦ absurd (ground arith)
      | inr (m, parsed) ↦ elim (Result-cases (validate_manifest m)) [
        | inr (x, bad) ↦ absurd (ground arith)
        | inl (expected, valid) ↦
            elim (Result-cases (
              write_staged_file from_slice dir (to_directory (some limit)) path.value bytes
                s.directory)) [
                  | inr (x, bad) ↦ absurd (ground arith)
                  | inl (d, wrote) ↦
                      let (before, now, staged, fits, moved) =
                        manifest_parts s s' path entry bytes m expected d e read parsed valid
                          wrote in
                      let grown = write_staged_file-size path.value bytes s.directory d wrote in
                      let none_yet = h.unstarted before in
                      let c = h.counted in
                      record {
                        counted = rw (moved, staged) (omega arith);
                        within = rw staged fits;
                        unstarted = λ x. absurd (cc (rw now at x));
                      }
                ]
      ]
    ]
  ]

  file_parts :
      (s s' : State D) (path : BundlePath) (entry : Entry) (file : ManifestFile) (bytes : List ℕ)
      (d : D)
      → accept_file from_slice dir (to_directory (some limit)) s path entry ≡ ok s'
      → find_file path.value s.expected ≡ some file
      → entry.contents ≡ some bytes
      → write_staged_file from_slice dir (to_directory (some limit)) path.value bytes s.directory
        ≡ ok d
      → (has_manifest s'.manifest ≡ true)
        × (s'.staged_size ≡ s.staged_size + length bytes)
        × (s.staged_size + length bytes ≤ limit)
        × (s'.directory ≡ d)
  unfolding accept_file keep_file check_staged
  file_parts s s' path entry file bytes d e found read wrote = ground arith

  file-IsCounted :
      (s s' : State D) (path : BundlePath) (entry : Entry)
      → IsCounted s
      → accept_file from_slice dir (to_directory (some limit)) s path entry ≡ ok s'
      → IsCounted s'
  unfolding accept_file keep_file
  file-IsCounted s s' path entry h e = elim (Option-cases (find_file path.value s.expected)) [
    | inl bad ↦ absurd (ground arith)
    | inr (file, found) ↦ elim (Option-cases entry.contents) [
      | inl bad ↦ absurd (ground arith)
      | inr (bytes, read) ↦
          elim (Result-cases (
            write_staged_file from_slice dir (to_directory (some limit)) path.value bytes
              s.directory)) [
                | inr (x, bad) ↦ absurd (ground arith)
                | inl (d, wrote) ↦
                    let (now, staged, fits, moved) =
                      file_parts s s' path entry file bytes d e found read wrote in
                    let grown = write_staged_file-size path.value bytes s.directory d wrote in
                    let c = h.counted in
                    record {
                      counted = rw (moved, staged) (omega arith);
                      within = rw staged fits;
                      unstarted = λ x. absurd (cc (rw now at x));
                    }
              ]
    ]
  ]

  entry-IsCounted :
      (s s' : State D) (r : Option Entry)
      → IsCounted s
      → process_entry from_slice dir (to_directory (some limit)) s r ≡ ok s'
      → IsCounted s'
  unfolding process_entry
  entry-IsCounted s s' none h e = absurd (ground arith)
  entry-IsCounted s s' (some entry) h e = elim (Result-cases (archive_path entry.path_bytes)) [
    | inr (x, bad) ↦ absurd (ground arith)
    | inl (path, read) ↦
        let next = record s { seen = path.value ∷ s.seen } in
        let same : IsCounted next = record {
          counted = h.counted;
          within = h.within;
          unstarted = h.unstarted;
        } in
        elim (Bool-cases (str_eq path.value manifest_path)) [
          | inl is ↦ manifest-IsCounted next s' path entry same (ground arith)
          | inr other ↦ file-IsCounted next s' path entry same (ground arith)
        ]
  ]

  entries-IsCounted :
      (s s' : State D) (entries : List (Option Entry))
      → IsCounted s
      → process_entries from_slice dir (to_directory (some limit)) s entries ≡ ok s'
      → IsCounted s'
  unfolding process_entries
  entries-IsCounted s s' [] h e = subst IsCounted (ok_inj e) h
  entries-IsCounted s s' (r ∷ entries) h e =
      elim (Result-cases (process_entry from_slice dir (to_directory (some limit)) s r)) [
        | inr (x, bad) ↦ cc (rw (bad, process_entries) at e)
        | inl (next, good) ↦
            entries-IsCounted next s' entries (entry-IsCounted s next r h good)
              (rw (good, process_entries) at e)
      ]

  archive_parts :
      (entries : List (Option Entry)) (trailing : List (Option (List ℕ))) (d : D) (m : Manifest)
      (s t : State D)
      → process_archive from_slice dir (to_directory (some limit)) entries trailing d ≡ ok (m, s)
      → process_entries from_slice dir (to_directory (some limit)) (initial d) entries ≡ ok t
      → t ≡ s
  unfolding process_archive
  archive_parts entries trailing d m s t e f = ground arith

  archive-size :
      (entries : List (Option Entry)) (trailing : List (Option (List ℕ))) (d : D) (m : Manifest)
      (s : State D)
      → size d ≡ 0
      → process_archive from_slice dir (to_directory (some limit)) entries trailing d ≡ ok (m, s)
      → size s.directory ≤ limit
  unfolding process_archive
  archive-size entries trailing d m s z e =
      elim (Result-cases
        (process_entries from_slice dir (to_directory (some limit)) (initial d) entries)) [
          | inr (x, bad) ↦ absurd (ground arith)
          | inl (t, good) ↦
              let begun : IsCounted (initial d) = record {
                counted = omega (arith, z);
                within = omega arith;
                unstarted = λ x. refl;
              } in
              let all = entries-IsCounted (initial d) t entries begun good in
              let same = archive_parts entries trailing d m s t e good in
              let c = all.counted in
              let w = all.within in subst (λ u. size u.directory ≤ limit) same (omega arith)
        ]

  -- What is moved to the destination is no larger than the limit.
  pub extract_with_size_limit-size :
      (place : Place D) (entries : List (Option Entry)) (trailing : List (Option (List ℕ)))
      (m : Manifest) (moved : D)
      → ((d : D) → place.staging ≡ some d → size d ≡ 0)
      → extract_with_size_limit from_slice dir place limit entries trailing ≡ ok (m, moved)
      → size moved ≤ limit
  unfolding extract_with_size_limit extract_internal
  extract_with_size_limit-size place entries trailing m moved z e =
      elim (Option-cases place.staging) [
        | inl bad ↦ absurd (ground arith)
        | inr (d, f) ↦
            elim (Result-cases
              (process_archive from_slice dir (to_directory (some limit)) entries trailing d)) [
                | inr (x, bad) ↦ absurd (ground arith)
                | inl ((n, s), good) ↦
                    let fits = archive-size entries trailing d n s (z d f) good in
                    let same : s.directory ≡ moved = ground arith in
                    subst (λ u. size u ≤ limit) same fits
              ]
      ]
