-- ===== src/Bundle/Manifests/Valid.antt =====
-- The map that `validate_manifest` builds.
use sony_prs.Base.{
  ℕ, ◌+◌, ◌≤◌, ◌≡◌, ◌≢◌, refl, sym, true, false, List, [], ◌∷◌, arith, ok, err, ok_inj,
  Result-cases, inl, inr, reverse, reverse-cons, append_assoc, append-nil, ◌++◌, ◌∙◌,
}
use sony_prs.Text.{str_eq}
use sony_prs.Text.Utf8.{byte_len}
use sony_prs.Protocol.{
  is_compatible_with, current_protocol_version, current_bundle_format_version, max_bundle_size,
  ManifestFile, Manifest,
}
use sony_prs.Bundle.{BundleError, manifest_path, max_bundle_path_bytes}
use sony_prs.Bundle.Manifests.{
  check_file, check_files, validate_manifest, contains_file, is_markdown_path,
}

abbrev pub total_size : List ManifestFile → ℕ
total_size [] = 0
total_size (f ∷ fs) = f.size + total_size fs

-- No path twice, none too long, and none that of the manifest itself.
abbrev pub DistinctPaths : List ManifestFile → Type 0
DistinctPaths [] = Unit
DistinctPaths (f ∷ fs) =
    (contains_file f.path.value fs ≡ false)
    × (byte_len f.path.value ≤ max_bundle_path_bytes)
    × (str_eq f.path.value manifest_path ≡ false)
    × DistinctPaths fs

-- The map that `validate_manifest` returns, seen from its invariant.
pub record IsSound (expected : List ManifestFile) (total : ℕ) : Type 0 where
  pub distinct : DistinctPaths expected
  pub counted : total_size expected ≡ total
  pub bounded : total ≤ max_bundle_size

check_file-eq-ok :
    (expected : List ManifestFile) (total : ℕ) (file : ManifestFile) (next : List ManifestFile × ℕ)
    → check_file (expected, total) file ≡ ok next
    → (byte_len file.path.value ≤ max_bundle_path_bytes)
      × (str_eq file.path.value manifest_path ≡ false)
      × (contains_file file.path.value expected ≡ false)
      × (total + file.size ≤ max_bundle_size)
      × (next.0 ≡ file ∷ expected)
      × (next.1 ≡ total + file.size)
unfolding check_file
check_file-eq-ok expected total file next e = ground arith

check_file-IsSound :
    (expected : List ManifestFile) (total : ℕ) (file : ManifestFile) (next : List ManifestFile × ℕ)
    → IsSound expected total
    → check_file (expected, total) file ≡ ok next
    → IsSound next.0 next.1 × (next.0 ≡ file ∷ expected)
check_file-IsSound expected total file next h e =
    let (short, other, fresh, fits, files, sum) = check_file-eq-ok expected total file next e in
    (
      rw (files, sum)
          (record {
            distinct = (fresh, short, other, h.distinct);
            counted = omega (arith, h.counted);
            bounded = fits;
          }),
      files,
    )

check_files-IsSound :
    (expected : List ManifestFile) (total : ℕ) (files : List ManifestFile)
    (next : List ManifestFile × ℕ)
    → IsSound expected total
    → check_files (expected, total) files ≡ ok next
    → IsSound next.0 next.1 × (next.0 ≡ reverse files ++ expected)
unfolding check_files
check_files-IsSound expected total [] next h e = rw (← ok_inj e) (h, refl)
check_files-IsSound expected total (f ∷ fs) next h e =
    elim (Result-cases (check_file (expected, total) f)) [
      | inr (x, bad) ↦ cc (rw (bad, check_files) at e)
      | inl (state, good) ↦
          let (sound, now) = check_file-IsSound expected total f state h good in
          let (sound', later) =
            check_files-IsSound state.0 state.1 fs next sound (rw (good, check_files) at e) in
          (
            sound',
            later ∙ rw (now, reverse-cons f fs) (sym (append_assoc (reverse fs) (f ∷ []) expected)),
          )
    ]

manifest-eq-ok :
    (manifest : Manifest) (expected : List ManifestFile) (state : List ManifestFile × ℕ)
    → validate_manifest manifest ≡ ok expected
    → check_files ([], 0) manifest.files ≡ ok state
    → (is_compatible_with manifest.protocol_version current_protocol_version ≡ true)
      × (manifest.bundle_format_version ≡ current_bundle_format_version)
      × (is_markdown_path manifest.entry_point ≡ true)
      × (contains_file manifest.entry_point.value expected ≡ true)
      × (state.0 ≡ expected)
unfolding validate_manifest
manifest-eq-ok manifest expected state e good = ground arith

files-ne-err :
    (manifest : Manifest) (expected : List ManifestFile) (x : BundleError)
    → validate_manifest manifest ≡ ok expected
    → check_files ([], 0) manifest.files ≢ err x
unfolding validate_manifest
files-ne-err manifest expected x e = ground arith

-- A manifest that is accepted has a supported version and format, and a Markdown entry point that
-- it lists. The map holds exactly the listed files; no path stands twice or is too long or is that
-- of the manifest, and the sizes add up to at most the limit.
pub validate_manifest-IsSound :
    (manifest : Manifest) (expected : List ManifestFile)
    → validate_manifest manifest ≡ ok expected
    → (is_compatible_with manifest.protocol_version current_protocol_version ≡ true)
      × (manifest.bundle_format_version ≡ current_bundle_format_version)
      × (is_markdown_path manifest.entry_point ≡ true)
      × (contains_file manifest.entry_point.value expected ≡ true)
      × (expected ≡ reverse manifest.files)
      × IsSound expected (total_size expected)
validate_manifest-IsSound manifest expected e =
    elim (Result-cases (check_files ([], 0) manifest.files)) [
      | inr (x, bad) ↦ absurd (files-ne-err manifest expected x e bad)
      | inl (state, good) ↦
          let (compatible, format, markdown, listed, same) =
            manifest-eq-ok manifest expected state e good in
          let (sound, files) =
            check_files-IsSound [] 0 manifest.files state
              (record { distinct = tt; counted = refl; bounded = omega arith }) good in
          (
            compatible,
            format,
            markdown,
            listed,
            sym same ∙ files ∙ append-nil (reverse manifest.files),
            rw (← same) (record {
              distinct = sound.distinct;
              counted = refl;
              bounded = omega (arith, sound.counted, sound.bounded);
            }),
          )
    ]
