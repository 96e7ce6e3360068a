-- ===== src/Bundle/Builder/Accepted.antt =====
-- The manifest of collected sources, before `validate_manifest`.
use sony_prs.Base.{
  ℕ, ◌+◌, ◌≤◌, ◌≡◌, refl, ap, Bool, true, false, ◌||◌, List, [], ◌∷◌, arith, map, ok, ok_inj,
  Result-cases, inl, inr,
}
use sony_prs.Text.{Str, str_eq}
use sony_prs.Text.Equality.{str_eq_refl}
use sony_prs.Text.Split.Parts.{join}
use sony_prs.Text.Utf8.{byte_len}
use sony_prs.Protocol.{BundlePath, ManifestFile, max_bundle_size, is_compatible_with}
use sony_prs.Protocol.Paths.{new_path, new_path-IsPart}
use sony_prs.Bundle.{manifest_path, max_bundle_path_bytes, u64_max}
use sony_prs.Bundle.Manifests.{
  is_markdown_path, check_file, check_files, contains_file, validate_manifest,
}
use sony_prs.Bundle.Archive.{contains_path}
use sony_prs.Bundle.Builder.{
  SourcePath, FileSystem, BundleSource, normal_names, bundle_path_from_path, relative_path,
  collect_source, collect_each, common_parent, collect_sources, to_file, make_manifest,
}

path-parts :
    (path : SourcePath) (p q : BundlePath) (names : List Str)
    → bundle_path_from_path path ≡ ok p
    → normal_names path.components ≡ ok names
    → new_path (join b'/' names) ≡ ok q
    → (q ≡ p) × (byte_len (join b'/' names) ≤ max_bundle_path_bytes)
unfolding bundle_path_from_path
path-parts path p q names e named new = ground arith

path_short :
    (path : SourcePath) (p : BundlePath)
    → bundle_path_from_path path ≡ ok p
    → byte_len p.value ≤ max_bundle_path_bytes
unfolding bundle_path_from_path
path_short path p e = elim (Result-cases (normal_names path.components)) [
  | inr (x, bad) ↦ absurd (ground arith)
  | inl (names, named) ↦ elim (Result-cases (new_path (join b'/' names))) [
    | inr (x, bad) ↦ absurd (ground arith)
    | inl (q, new) ↦
        let (same, short) = path-parts path p q names e named new in
        let value = new_path-IsPart (join b'/' names) q new in rw (← same, value.0) short
  ]
]

check_files_cons :
    (now next state : List ManifestFile × ℕ) (f : ManifestFile) (fs : List ManifestFile)
    → check_file now f ≡ ok next
    → check_files next fs ≡ ok state
    → check_files now (f ∷ fs) ≡ ok state
unfolding check_files
check_files_cons now next state f fs good rest = rw (good, check_files) rest

module _ (fs : FileSystem) (parent : Bool × List Str) where
  source-parts :
      (seen : List Str) (total : ℕ) (path relative : SourcePath) (p : BundlePath) (s : BundleSource)
      → collect_source fs parent seen total path ≡ ok s
      → relative_path parent path ≡ ok relative
      → bundle_path_from_path relative ≡ ok p
      → (s.bundle_path ≡ p)
        × (str_eq p.value manifest_path ≡ false)
        × (contains_path p.value seen ≡ false)
        × (total + s.size ≤ u64_max)
        × (total + s.size ≤ max_bundle_size)
  unfolding collect_source
  source-parts seen total path relative p s e stripped named = ground arith

  source-eq-ok :
      (seen : List Str) (total : ℕ) (path : SourcePath) (s : BundleSource)
      → collect_source fs parent seen total path ≡ ok s
      → (byte_len s.bundle_path.value ≤ max_bundle_path_bytes)
        × (str_eq s.bundle_path.value manifest_path ≡ false)
        × (contains_path s.bundle_path.value seen ≡ false)
        × (total + s.size ≤ u64_max)
        × (total + s.size ≤ max_bundle_size)
  unfolding collect_source
  source-eq-ok seen total path s e = elim (Result-cases (relative_path parent path)) [
    | inr (x, bad) ↦ absurd (ground arith)
    | inl (relative, stripped) ↦ elim (Result-cases (bundle_path_from_path relative)) [
      | inr (x, bad) ↦ absurd (ground arith)
      | inl (p, named) ↦
          let (same, other, fresh, small, fits) =
            source-parts seen total path relative p s e stripped named in
          rw same (path_short relative p named, other, fresh, small, fits)
    ]
  ]

  -- A source that is collected passes the manifest's check, in a map of the same paths.
  check-source :
      (seen : List Str) (expected : List ManifestFile) (total : ℕ) (path : SourcePath)
      (s : BundleSource)
      → ((x : Str) → contains_path x seen ≡ contains_file x expected)
      → collect_source fs parent seen total path ≡ ok s
      → check_file (expected, total) (to_file s) ≡ ok (to_file s ∷ expected, total + s.size)
  unfolding check_file
  check-source seen expected total path s same e =
      ground (arith, source-eq-ok seen total path s e, same s.bundle_path.value)

  check-sources :
      (seen : List Str) (expected : List ManifestFile) (total : ℕ) (paths : List SourcePath)
      (ss : List BundleSource)
      → ((x : Str) → contains_path x seen ≡ contains_file x expected)
      → collect_each fs parent seen total paths ≡ ok ss
      → (state : List ManifestFile × ℕ) × (check_files (expected, total) (map to_file ss)
          ≡ ok state)
        × ((x : Str) → contains_file x expected ≡ true → contains_file x state.0 ≡ true)
  unfolding collect_each check_files contains_file contains_path
  check-sources seen expected total [] ss same e =
      rw (← ok_inj e) ((expected, total), refl, λ x h. h)
  check-sources seen expected total (path ∷ paths) ss same e =
      elim (Result-cases (collect_source fs parent seen total path)) [
        | inr (x, bad) ↦ absurd (cc (rw (bad, collect_each) at e))
        | inl (s, good) ↦
            elim (Result-cases
              (collect_each fs parent (s.bundle_path.value ∷ seen) (total + s.size) paths)) [
                | inr (x, bad) ↦ absurd (cc (rw (good, collect_each, bad) at e))
                | inl (rest, more) ↦
                    let all = ok_inj (rw (good, collect_each, more) at e) in
                    let (state, checked, kept) =
                      check-sources (s.bundle_path.value ∷ seen) (to_file s ∷ expected)
                        (total + s.size) paths rest
                        (λ x. ap (λ b. str_eq s.bundle_path.value x || b) (same x)) more in
                    rw (← all) (
                      state,
                      check_files_cons (expected, total) _ state (to_file s) (map to_file rest)
                          (check-source seen expected total path s same good) checked,
                      λ x h. kept x (ground (arith, h)),
                    )
              ]
      ]

first_source :
    (fs : FileSystem) (parent : Bool × List Str) (path : SourcePath) (paths : List SourcePath)
    (ss : List BundleSource)
    → collect_each fs parent [] 0 (path ∷ paths) ≡ ok ss
    → (s : BundleSource) × (rest : List BundleSource) × (s ∷ rest ≡ ss)
      × (collect_source fs parent [] 0 path ≡ ok s)
      × (collect_each fs parent (s.bundle_path.value ∷ []) (0 + s.size) paths ≡ ok rest)
unfolding collect_each
first_source fs parent path paths ss e = elim (Result-cases (collect_source fs parent [] 0 path)) [
  | inr (x, bad) ↦ absurd (cc (rw (bad, collect_each) at e))
  | inl (s, good) ↦
      elim (Result-cases (collect_each fs parent (s.bundle_path.value ∷ []) (0 + s.size) paths)) [
        | inr (x, bad) ↦ absurd (cc (rw (good, collect_each, bad) at e))
        | inl (rest, more) ↦ (s, rest, ok_inj (rw (good, collect_each, more) at e), good, more)
      ]
]

sources-parts :
    (fs : FileSystem) (entry : SourcePath) (additional : List SourcePath) (parent : Bool × List Str)
    (s : BundleSource) (rest found : List BundleSource)
    → collect_sources fs entry additional ≡ ok found
    → common_parent entry additional ≡ ok parent
    → collect_each fs parent [] 0 (entry ∷ additional) ≡ ok (s ∷ rest)
    → (found ≡ s ∷ rest) × (is_markdown_path s.bundle_path ≡ true)
unfolding collect_sources
sources-parts fs entry additional parent s rest found e common collected = ground arith

manifest-accepts :
    (s : BundleSource) (rest : List BundleSource) (state : List ManifestFile × ℕ)
    → is_markdown_path s.bundle_path ≡ true
    → check_files ([], 0) (map to_file (s ∷ rest)) ≡ ok state
    → contains_file s.bundle_path.value state.0 ≡ true
    → validate_manifest (make_manifest s rest) ≡ ok state.0
unfolding validate_manifest make_manifest is_compatible_with
manifest-accepts s rest state markdown checked listed = ground arith

collect_sources-reads :
    (fs : FileSystem) (entry : SourcePath) (additional : List SourcePath)
    (found : List BundleSource)
    → collect_sources fs entry additional ≡ ok found
    → (parent : Bool × List Str) × (ss : List BundleSource) × (common_parent entry additional
        ≡ ok parent)
      × (collect_each fs parent [] 0 (entry ∷ additional) ≡ ok ss)
unfolding collect_sources
collect_sources-reads fs entry additional found e =
    elim (Result-cases (common_parent entry additional)) [
      | inr (x, bad) ↦ absurd (ground arith)
      | inl (parent, common) ↦
          elim (Result-cases (collect_each fs parent [] 0 (entry ∷ additional))) [
            | inr (x, bad) ↦ absurd (ground arith)
            | inl (ss, collected) ↦ (parent, ss, common, collected)
          ]
    ]

-- When the sources of a bundle are collected, whatever the file system holds, there is a first one,
-- and the manifest that is made of them is accepted by `validate_manifest`.
pub collect_sources-accepts :
    (fs : FileSystem) (entry : SourcePath) (additional : List SourcePath)
    (found : List BundleSource)
    → collect_sources fs entry additional ≡ ok found
    → (s : BundleSource) × (rest : List BundleSource) × (found ≡ s ∷ rest)
      × (expected : List ManifestFile) × (validate_manifest (make_manifest s rest) ≡ ok expected)
unfolding contains_file contains_path
collect_sources-accepts fs entry additional found e =
    let (parent, ss, common, collected) = collect_sources-reads fs entry additional found e in
    let (s, rest, all, good, more) = first_source fs parent entry additional ss collected in
    let (same, markdown) =
      sources-parts fs entry additional parent s rest found e common (rw all collected) in
    let checked_first = check-source fs parent [] [] 0 entry s (λ x. refl) good in
    let (state, checked, kept) =
      check-sources fs parent (s.bundle_path.value ∷ []) (to_file s ∷ []) (0 + s.size) additional
        rest (λ x. refl) more in
    (
      s,
      rest,
      same,
      state.0,
      manifest-accepts s rest state markdown
          (check_files_cons ([], 0) _ state (to_file s) (map to_file rest) checked_first checked)
          (kept s.bundle_path.value (rw (str_eq_refl s.bundle_path.value))),
    )
