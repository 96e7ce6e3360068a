-- ===== src/Tests/Builders.antt =====
-- A bundle of two files, side by side in one directory.
use sony_prs.Base.{◌≡◌, refl, true, false, List, [], ◌∷◌, some, ok}
use sony_prs.Text.{codes}
use sony_prs.Text.Split.{split}
use sony_prs.Text.Utf8.{to_bytes, encode_char}
use sony_prs.Protocol.{ManifestFile}
use sony_prs.Protocol.Paths.{new_path, bad_part}
use sony_prs.Bundle.Manifests.{validate_manifest, is_markdown_path, extension, rsplit_once}
use sony_prs.Bundle.Archive.{contains_path}
use sony_prs.Bundle.Builder.{
  SourcePath, normal, FileSystem, BundleSource, source_parent, lexical_components, common_prefix,
  common_of, common_parent, strip_components, relative_path, normal_names, bundle_path_from_path,
  collect_source, collect_each, collect_sources, make_manifest,
}
use sony_prs.Bundle.Builder.Accepted.{collect_sources-accepts}

abbrev files : FileSystem
files = record {
  symlink_metadata = λ path. some (record { is_file = true; len = 3 });
  fingerprint_source = λ path size. ok (codes "ab");
}

abbrev book : SourcePath
book = record {
  is_absolute = false;
  components = normal (codes "x") true ∷ normal (codes "a.md") true ∷ [];
}

abbrev picture : SourcePath
picture = record {
  is_absolute = false;
  components = normal (codes "x") true ∷ normal (codes "b.png") true ∷ [];
}

abbrev found : List BundleSource
found =
    record {
      source = book;
      bundle_path = record { value = codes "a.md" };
      size = 3;
      source_fingerprint = codes "ab";
    }
    ∷ record {
      source = picture;
      bundle_path = record { value = codes "b.png" };
      size = 3;
      source_fingerprint = codes "ab";
    }
    ∷ []

collected : collect_sources files book (picture ∷ []) ≡ ok found
unfolding collect_sources collect_each collect_source common_parent common_of common_prefix
    source_parent lexical_components relative_path strip_components bundle_path_from_path
    normal_names new_path bad_part split to_bytes encode_char contains_path is_markdown_path
    extension rsplit_once
collected = refl

collect_sources-accepts_example :
    (s : BundleSource) × (rest : List BundleSource) × (found ≡ s ∷ rest)
    × (expected : List ManifestFile) × (validate_manifest (make_manifest s rest) ≡ ok expected)
collect_sources-accepts_example = collect_sources-accepts files book (picture ∷ []) found collected
