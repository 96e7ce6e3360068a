-- ===== src/T1/Sync/Manifests.antt =====
-- sync.rs: `validate_manifest`, the check of the manifest that the server announces, and the one of
-- prs-sync-bundle that the downloaded archive goes through.
use sony_prs.Base.{
  ℕ, ◌+◌, ◌≡◌, refl, ◌∙◌, inl, inr, Bool, true, false, not, ◌&&◌, ◌||◌, List, [], ◌∷◌, Option, none,
  some, leb, ltb, ◌==◌, if◌then◌else◌, Result, ok, err, ◌>>=◌, ◌>>◌, guard, arith, Bool-cases,
  Result-cases, ok_inj,
}
use sony_prs.Text.{str_eq}
use sony_prs.Text.Utf8.{byte_len}
use sony_prs.Protocol.{
  require_compatible, current_bundle_format_version, max_bundle_size, ManifestFile, Manifest,
}
use sony_prs.Bundle.{manifest_path, max_bundle_path_bytes}
use sony_prs.Bundle.Manifests.{
  is_markdown_path, contains_file, check_file, check_files,
  validate_manifest as validate_archive_manifest,
}
use sony_prs.T1.Sync.{SyncError, SyncState, Stage, new_error, require_protocol, u64_limit}

abbrev invalid : SyncError
invalid = new_error Stage.manifest SyncState.invalid_bundle

-- The test of `any` over the files, with the set of the paths before.
unfoldable pub lists_unsafe : List ManifestFile → List ManifestFile → Bool
lists_unsafe paths [] = false
lists_unsafe paths (file ∷ files) =
    ltb max_bundle_path_bytes (byte_len file.path.value)
    || str_eq file.path.value manifest_path
    || contains_file file.path.value paths
    || lists_unsafe (file ∷ paths) files

-- `try_fold` of `checked_add`.
unfoldable pub sum_sizes : ℕ → List ManifestFile → Option ℕ
sum_sizes total [] = some total
sum_sizes total (file ∷ files) =
    let rest = sum_sizes (total + file.size) files in
    if leb (total + file.size) u64_limit then rest else none

abbrev pub within_bundle : Option ℕ → Result SyncError ℕ
within_bundle none = err invalid
within_bundle (some size) = if ltb max_bundle_size size then err invalid else ok size

unfoldable pub manifest_files_size : Manifest → Result SyncError ℕ
unfolding sum_sizes
manifest_files_size manifest = within_bundle (sum_sizes 0 manifest.files)

unfoldable pub validate_manifest : Manifest → Result SyncError (Unit {0})
unfolding require_protocol lists_unsafe contains_file manifest_files_size is_markdown_path
validate_manifest manifest = do
  require_protocol manifest.protocol_version
  guard (manifest.bundle_format_version == current_bundle_format_version) invalid
  guard (is_markdown_path manifest.entry_point) invalid
  guard (not (lists_unsafe [] manifest.files)) invalid
  guard (contains_file manifest.entry_point.value manifest.files) invalid
  size ← manifest_files_size manifest
  ok tt

-- A result that is no error.
abbrev pub is_ok {ℓ} : {E A : Type ℓ} → Result E A → Bool
is_ok (ok a) = true
is_ok (err e) = false

abbrev fits : Option ℕ → Bool
fits none = false
fits (some size) = leb size max_bundle_size

sum_sizes_over :
    (total : ℕ) (files : List ManifestFile)
    → leb total max_bundle_size ≡ false
    → fits (sum_sizes total files) ≡ false
unfolding sum_sizes
sum_sizes_over total [] h = h
sum_sizes_over total (f ∷ fs) h =
    let ih = sum_sizes_over (total + f.size) fs (ground arith) in ground arith

check_files-agrees :
    (seen : List ManifestFile) (total : ℕ) (files : List ManifestFile)
    → leb total max_bundle_size ≡ true
    → is_ok (check_files (seen, total) files)
      ≡ (not (lists_unsafe seen files) && fits (sum_sizes total files))
unfolding check_files check_file lists_unsafe sum_sizes
check_files-agrees seen total [] h = ground arith
check_files-agrees seen total (f ∷ fs) h =
    elim (Bool-cases (leb (total + f.size) max_bundle_size)) [
      | inl e ↦ let ih = check_files-agrees (f ∷ seen) (total + f.size) fs e in ground arith
      | inr e ↦ let over = sum_sizes_over (total + f.size) fs e in ground arith
    ]

check_file-files :
    (seen : List ManifestFile) (total : ℕ) (file : ManifestFile) (next : List ManifestFile × ℕ)
    → check_file (seen, total) file ≡ ok next
    → next.0 ≡ file ∷ seen
unfolding check_file
check_file-files seen total file next e = ground arith

or_swap : (a b c : Bool) → (a || (b || c)) ≡ ((b || a) || c)
or_swap a b c = ground arith

check_files-contains :
    (text : List ℕ) (seen : List ManifestFile) (total : ℕ) (files : List ManifestFile)
    (state : List ManifestFile × ℕ)
    → check_files (seen, total) files ≡ ok state
    → contains_file text state.0 ≡ (contains_file text files || contains_file text seen)
unfolding check_files contains_file
check_files-contains text seen total [] state h = rw (← ok_inj h) refl
check_files-contains text seen total (f ∷ fs) state h =
    elim (Result-cases (check_file (seen, total) f)) [
      | inl (next, e) ↦
          let ih = check_files-contains text next.0 next.1 fs state (rw (e, check_files) at h) in
          let files = check_file-files seen total f next e in
          ih
          ∙ rw files
              (or_swap (contains_file text fs) (str_eq f.path.value text) (contains_file text seen))
      | inr (x, e) ↦ cc (rw (e, check_files) at h)
    ]

-- The check of the announced manifest accepts a manifest just when the check that the downloaded archive
-- goes through accepts it.
pub validate_manifest-is_ok :
    (manifest : Manifest)
    → is_ok (validate_manifest manifest) ≡ is_ok (validate_archive_manifest manifest)
unfolding validate_manifest validate_archive_manifest require_protocol require_compatible
    manifest_files_size contains_file
validate_manifest-is_ok manifest =
    let agrees = check_files-agrees [] 0 manifest.files refl in
    elim (Result-cases (check_files ([], 0) manifest.files)) [
      | inl (state, e) ↦
          let same = check_files-contains manifest.entry_point.value [] 0 manifest.files state e in
          ground arith
      | inr (x, e) ↦ ground arith
    ]
