-- ===== src/Tests/Bundles.antt =====
-- Bundles, paths and identifiers: a bundle of one file, and small streams.
use sony_prs.Base.{
  ℕ, ◌+◌, ◌≤◌, ◌≡◌, refl, true, false, List, [], ◌∷◌, ◌++◌, Option, some, arith, ok, All, length,
  reverse,
}
use sony_prs.Text.{Str, codes}
use sony_prs.Text.Split.{split}
use sony_prs.Text.Utf8.{to_bytes, decode, encode_char}
use sony_prs.Protocol.{
  max_bundle_size, BundlePath, ManifestFile, Manifest, current_protocol_version,
  current_bundle_format_version, is_compatible_with,
}
use sony_prs.Protocol.Paths.{IsPart, bad_part, new_path}
use sony_prs.Bundle.Manifests.{
  is_markdown_path, contains_file, find_file, validate_manifest, check_files, check_file,
  archive_path, extension, rsplit_once, has_special_component,
}
use sony_prs.Bundle.Manifests.Valid.{IsSound, total_size, validate_manifest-IsSound}
use sony_prs.Bundle.Archive.{
  Entry, InMemoryBundle, extract_to_memory, process_archive, process_entries, process_entry,
  accept_manifest, accept_file, keep_file, read_entry, check_staged, check_trailing, check_seen,
  contains_path,
}
use sony_prs.Bundle.Archive.Files.{names, total_bytes, AllDistinct, IsListed}
use sony_prs.Bundle.Archive.Complete.{extract_to_memory-IsComplete}
use sony_prs.Bundle.Streams.{new_reader, read_each}
use sony_prs.Bundle.Streams.Limits.{read_each-limited}

abbrev book : BundlePath
book = record { value = codes "a.md" }

abbrev listed : ManifestFile
listed = record { path = book; size = 1 }

abbrev manifest : Manifest
manifest = record {
  protocol_version = current_protocol_version;
  bundle_format_version = current_bundle_format_version;
  entry_point = book;
  files = listed ∷ [];
}

validate : validate_manifest manifest ≡ ok (listed ∷ [])
unfolding validate_manifest is_compatible_with is_markdown_path extension rsplit_once check_files
    check_file contains_file split to_bytes encode_char
validate = refl

validate_manifest-IsSound_example :
    (is_compatible_with current_protocol_version current_protocol_version ≡ true)
    × (current_bundle_format_version ≡ current_bundle_format_version)
    × (is_markdown_path book ≡ true)
    × (contains_file (codes "a.md") (listed ∷ []) ≡ true)
    × (listed ∷ [] ≡ reverse (listed ∷ []))
    × IsSound (listed ∷ []) (total_size (listed ∷ []))
validate_manifest-IsSound_example = validate_manifest-IsSound manifest (listed ∷ []) validate

-- A decoder that finds the manifest in two bytes.
abbrev from_slice : List ℕ → Option Manifest
from_slice bytes = some manifest

abbrev entries : List (Option Entry)
entries =
    some (record {
      is_regular = true;
      path_bytes = codes "manifest.json";
      size = some 2;
      contents = some (1 ∷ 2 ∷ []);
    })
    ∷ some (record {
      is_regular = true;
      path_bytes = codes "a.md";
      size = some 1;
      contents = some (65 ∷ []);
    })
    ∷ []

abbrev bundle : InMemoryBundle
bundle = record { manifest = manifest; files = (book, 65 ∷ []) ∷ [] }

extract : extract_to_memory from_slice entries (some (0 ∷ 0 ∷ []) ∷ []) ≡ ok bundle
unfolding extract_to_memory process_archive process_entries process_entry accept_manifest
    accept_file keep_file read_entry check_staged check_trailing check_seen contains_path
    archive_path decode new_path bad_part split has_special_component to_bytes encode_char
    validate_manifest is_compatible_with is_markdown_path extension rsplit_once check_files
    check_file contains_file find_file
extract = refl

extract_to_memory-IsComplete_example :
    (expected : List ManifestFile) × (validate_manifest manifest ≡ ok expected)
    × All (IsListed expected) bundle.files
    × All (λ f. contains_path f.path.value (names bundle.files) ≡ true) expected
    × AllDistinct (names bundle.files)
    × (total_bytes bundle.files ≤ max_bundle_size)
extract_to_memory-IsComplete_example =
    extract_to_memory-IsComplete from_slice entries (some (0 ∷ 0 ∷ []) ∷ []) bundle extract

abbrev parts : List Str
parts = codes "a.md" ∷ []

part : IsPart (codes "a.md")
unfolding bad_part
part = record {
  no_slash = (refl, (refl, (refl, (refl, tt))));
  no_backslash = (refl, (refl, (refl, (refl, tt))));
  no_nul = (refl, (refl, (refl, (refl, tt))));
  good = refl;
}

read_each-limited_example :
    let result = read_each (new_reader (1 ∷ 2 ∷ 3 ∷ []) 2) ((4, 4) ∷ (4, 4) ∷ []) in
    (length result.0 ≤ 2)
    × (result.1.exceeded ≡ false → result.0 ++ result.1.source ≡ 1 ∷ 2 ∷ 3 ∷ [])
    × (result.1.exceeded ≡ true → 2 + 1 ≤ 3)
read_each-limited_example =
    read_each-limited (1 ∷ 2 ∷ 3 ∷ []) 2 ((4, 4) ∷ (4, 4) ∷ []) (omega arith)
