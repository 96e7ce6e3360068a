-- ===== src/Bundle/Manifests.antt =====
-- `validate_manifest`, `is_markdown_path` and `archive_path`.
pub mod Valid
pub mod SafePaths
use sony_prs.Base.{
  ℕ, ◌+◌, ◌≤◌, ◌≡◌, Bool, true, false, not, ◌&&◌, ◌||◌, List, [], ◌∷◌, Option, none, some, ltb, leb,
  ◌==◌, if◌then◌else◌, any, map, is_empty, Result, ok, err, ok_or, ◌>>=◌, ◌>>◌, guard,
}
use sony_prs.Text.{Str, codes, str_eq, starts_with}
use sony_prs.Text.Split.{split}
use sony_prs.Text.Utf8.{byte_len, from_utf8}
use sony_prs.Protocol.{
  ProtocolVersion, is_compatible_with, current_protocol_version, current_bundle_format_version,
  max_bundle_size, BundlePath, ManifestFile, Manifest,
}
use sony_prs.Protocol.Paths.{new_path, is_slash}
use sony_prs.Bundle.{
  BundleError, unsafe_path, unsupported_protocol_version, unsupported_bundle_version,
  entry_point_not_markdown, duplicate_manifest_path, manifest_lists_manifest, entry_point_missing,
  extracted_size_too_large, manifest_path, max_bundle_path_bytes, u64_max,
}

-- `rsplit_once(d)`: around the last `d`.
unfoldable pub rsplit_once : ℕ → Str → Option (Str × Str)
rsplit_once d [] = none
rsplit_once d (c ∷ s) = elim (rsplit_once d s) [
  | some (k, v) ↦ some (c ∷ k, v)
  | none ↦ if c == d then some ([], s) else none
]

abbrev last_part : List Str → Str
last_part [] = []
last_part (w ∷ []) = w
last_part (w ∷ v ∷ ws) = last_part (v ∷ ws)

-- `Path::extension` of a path whose last component is a plain name: what follows the last dot,
-- unless the name begins with it.
unfoldable pub extension : Str → Option Str
extension path = elim (rsplit_once b'.' (last_part (split is_slash path))) [
  | none ↦ none
  | some (before, after) ↦ if is_empty before then none else some after
]

abbrev to_lower : ℕ → ℕ
to_lower c = if leb b'A' c && leb c b'Z' then c + 32 else c

unfoldable pub is_markdown_path : BundlePath → Bool
is_markdown_path path = elim (extension path.value) [
  | none ↦ false
  | some e ↦ str_eq (map to_lower e) (codes "md")
]

-- The keys of the `HashMap`s: equality of paths is that of their texts.
unfoldable pub contains_file : Str → List ManifestFile → Bool
contains_file path [] = false
contains_file path (f ∷ fs) = str_eq f.path.value path || contains_file path fs

unfoldable pub find_file : Str → List ManifestFile → Option ManifestFile
find_file path [] = none
find_file path (f ∷ fs) = if str_eq f.path.value path then some f else find_file path fs

-- One round of the loop over the listed files; the state is the map `expected` and `total`.
unfoldable pub check_file :
    List ManifestFile × ℕ → ManifestFile → Result BundleError (List ManifestFile × ℕ)
check_file (expected, total) file = do
  guard (leb (byte_len file.path.value) max_bundle_path_bytes) unsafe_path
  guard (not (str_eq file.path.value manifest_path)) manifest_lists_manifest
  guard (not (contains_file file.path.value expected)) duplicate_manifest_path
  guard (leb (total + file.size) u64_max) extracted_size_too_large
  guard (leb (total + file.size) max_bundle_size) extracted_size_too_large
  ok (file ∷ expected, total + file.size)

unfoldable pub check_files :
    List ManifestFile × ℕ → List ManifestFile → Result BundleError (List ManifestFile × ℕ)
check_files state [] = ok state
check_files state (file ∷ files) = elim (check_file state file) [
  | ok state' ↦ check_files state' files
  | err e ↦ err e
]

-- The map of the listed files, the last one first.
unfoldable pub validate_manifest : Manifest → Result BundleError (List ManifestFile)
validate_manifest manifest = do
  guard (is_compatible_with manifest.protocol_version current_protocol_version)
      unsupported_protocol_version
  guard (manifest.bundle_format_version == current_bundle_format_version) unsupported_bundle_version
  guard (is_markdown_path manifest.entry_point) entry_point_not_markdown
  state ← check_files ([], 0) manifest.files
  guard (contains_file manifest.entry_point.value state.0) entry_point_missing
  ok state.0

-- `Path::components` gives something else than a plain name: a root, a leading `.` or a `..`.
unfoldable pub has_special_component : Str → Bool
has_special_component path =
    starts_with path (codes "/")
    || str_eq path (codes ".")
    || starts_with path (codes "./")
    || any (λ part. str_eq part (codes "..")) (split is_slash path)

-- `archive_path`, on the entry's path bytes.
unfoldable pub archive_path : List ℕ → Result BundleError BundlePath
archive_path path_bytes = do
  path ← ok_or (from_utf8 path_bytes) unsafe_path
  bundle_path ← elim (new_path path) [ ok p ↦ ok p | err e ↦ err unsafe_path ]
  guard (leb (byte_len bundle_path.value) max_bundle_path_bytes) unsafe_path
  guard (not (has_special_component bundle_path.value)) unsafe_path
  ok bundle_path
