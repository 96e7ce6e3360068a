-- ===== src/Bundle/Builder.antt =====
-- `BundleBuilder`: the paths of the sources, `collect_sources` and `make_manifest`. A path is what
-- `Path::components` gives of it; the file system is a parameter.
pub mod Accepted
use sony_prs.Base.{
  ℕ, ◌+◌, Bool, true, false, not, ◌&&◌, List, [], ◌∷◌, Option, none, some, leb, ◌==◌, if◌then◌else◌,
  is_empty, Result, ok, err, ok_or, ◌>>=◌, ◌>>◌, guard, map,
}
use sony_prs.Text.{Str, codes, str_eq}
use sony_prs.Text.Split.Parts.{join}
use sony_prs.Text.Utf8.{byte_len}
use sony_prs.Protocol.{
  BundlePath, ManifestFile, Manifest, max_bundle_size, current_protocol_version,
  current_bundle_format_version,
}
use sony_prs.Protocol.Paths.{new_path}
use sony_prs.Bundle.{
  BundleError, io, unsafe_path, extracted_size_too_large, duplicate_manifest_path,
  entry_point_not_markdown, manifest_path, max_bundle_path_bytes, u64_max,
}
use sony_prs.Bundle.Manifests.{is_markdown_path}
use sony_prs.Bundle.Archive.{contains_path}

-- The components behind the root. A name may not be UTF-8.
pub data Component : Type 0 where
  cur_dir parent_dir : Component
  normal : (name : Str) (is_utf8 : Bool) → Component

pub record SourcePath : Type 0 where
  pub is_absolute : Bool
  pub components : List Component

abbrev without_last : List Component → List Component
without_last [] = []
without_last (c ∷ []) = []
without_last (c ∷ d ∷ cs) = c ∷ without_last (d ∷ cs)

-- The parent, or the empty path where there is none.
unfoldable pub source_parent : SourcePath → SourcePath
source_parent path =
    if is_empty path.components
    then record { is_absolute = false; components = [] }
    else record { is_absolute = path.is_absolute; components = without_last path.components }

unfoldable pub lexical_components : List Component → List Str
lexical_components [] = []
lexical_components (cur_dir ∷ cs) = lexical_components cs
lexical_components (normal name is_utf8 ∷ cs) = name ∷ lexical_components cs
lexical_components (parent_dir ∷ cs) = codes ".." ∷ lexical_components cs

-- `common.truncate(common_len)`: the components that both begin with.
unfoldable pub common_prefix : List Str → List Str → List Str
common_prefix [] ws = []
common_prefix (v ∷ vs) [] = []
common_prefix (v ∷ vs) (w ∷ ws) =
    let rest = common_prefix vs ws in if str_eq v w then v ∷ rest else []

unfoldable pub common_of : Bool → List Str → List SourcePath → Result BundleError (List Str)
common_of absolute common [] = ok common
common_of absolute common (path ∷ paths) =
    let parent = source_parent path in
    let rest =
      common_of absolute (common_prefix common (lexical_components parent.components)) paths in
    if (if absolute then parent.is_absolute else not parent.is_absolute)
    then rest
    else err unsafe_path

-- Whether the common parent is absolute, and its components.
unfoldable pub common_parent : SourcePath → List SourcePath → Result BundleError (Bool × List Str)
common_parent first others =
    let parent = source_parent first in
    do
      common ← common_of parent.is_absolute (lexical_components parent.components) others
      ok (parent.is_absolute, common)

abbrev is_component : Str → Component → Bool
is_component w cur_dir = false
is_component w parent_dir = str_eq w (codes "..")
is_component w (normal name is_utf8) = str_eq w name && not (str_eq w (codes ".."))

-- `Path::strip_prefix`, on the components.
unfoldable pub strip_components : List Str → List Component → Option (List Component)
strip_components [] cs = some cs
strip_components (w ∷ ws) [] = none
strip_components (w ∷ ws) (c ∷ cs) =
    let rest = strip_components ws cs in if is_component w c then rest else none

unfoldable pub relative_path : Bool × List Str → SourcePath → Result BundleError SourcePath
relative_path (absolute, common) source =
    if not absolute && is_empty common
    then ok source
    else if (if absolute then source.is_absolute else not source.is_absolute)
    then elim (strip_components common source.components) [
      | none ↦ err unsafe_path
      | some cs ↦ ok (record { is_absolute = false; components = cs })
    ]
    else err unsafe_path

unfoldable pub normal_names : List Component → Result BundleError (List Str)
normal_names [] = ok []
normal_names (normal name true ∷ cs) = do names ← normal_names cs; ok (name ∷ names)
normal_names (_ ∷ cs) = err unsafe_path

unfoldable pub bundle_path_from_path : SourcePath → Result BundleError BundlePath
bundle_path_from_path path = do
  guard (not path.is_absolute) unsafe_path
  components ← normal_names path.components
  guard (leb (byte_len (join b'/' components)) max_bundle_path_bytes) unsafe_path
  elim (new_path (join b'/' components)) [ ok p ↦ ok p | err e ↦ err unsafe_path ]

-- What `symlink_metadata` tells of a file, and the reading of its fingerprint.
pub record Metadata : Type 0 where
  pub is_file : Bool
  pub len : ℕ

pub record FileSystem : Type 0 where
  pub symlink_metadata : SourcePath → Option Metadata
  pub fingerprint_source : SourcePath → ℕ → Result BundleError Str

pub record BundleSource : Type 0 where
  pub source : SourcePath
  pub bundle_path : BundlePath
  pub size : ℕ
  pub source_fingerprint : Str

module _ (fs : FileSystem) (parent : Bool × List Str) where
  open fs use {symlink_metadata, fingerprint_source}

  -- One round of the loop, with `seen` and `total_size` before it.
  unfoldable pub collect_source : List Str → ℕ → SourcePath → Result BundleError BundleSource
  collect_source seen total_size source = do
    metadata ← ok_or (symlink_metadata source) io
    guard metadata.is_file io
    guard (leb (total_size + metadata.len) u64_max) extracted_size_too_large
    guard (leb (total_size + metadata.len) max_bundle_size) extracted_size_too_large
    relative ← relative_path parent source
    bundle_path ← bundle_path_from_path relative
    guard (not (str_eq bundle_path.value manifest_path)) unsafe_path
    guard (not (contains_path bundle_path.value seen)) duplicate_manifest_path
    fingerprint ← fingerprint_source source metadata.len
    ok (record {
      source = source;
      bundle_path = bundle_path;
      size = metadata.len;
      source_fingerprint = fingerprint;
    })

  -- The loop; the sources are those that it pushes.
  unfoldable pub collect_each :
      List Str → ℕ → List SourcePath → Result BundleError (List BundleSource)
  collect_each seen total_size [] = ok []
  collect_each seen total_size (path ∷ paths) = elim (collect_source seen total_size path) [
    | err e ↦ err e
    | ok s ↦ elim (collect_each (s.bundle_path.value ∷ seen) (total_size + s.size) paths) [
      | err e ↦ err e
      | ok rest ↦ ok (s ∷ rest)
    ]
  ]

abbrev is_markdown_first : List BundleSource → Bool
is_markdown_first [] = false
is_markdown_first (s ∷ ss) = is_markdown_path s.bundle_path

unfoldable pub collect_sources :
    FileSystem → SourcePath → List SourcePath → Result BundleError (List BundleSource)
collect_sources fs entry_point additional_files = do
  parent ← common_parent entry_point additional_files
  sources ← collect_each fs parent [] 0 (entry_point ∷ additional_files)
  guard (is_markdown_first sources) entry_point_not_markdown
  ok sources

abbrev pub to_file : BundleSource → ManifestFile
to_file s = record { path = s.bundle_path; size = s.size }

-- The entry point is `sources[0]`.
unfoldable pub make_manifest : BundleSource → List BundleSource → Manifest
make_manifest first others = record {
  protocol_version = current_protocol_version;
  bundle_format_version = current_bundle_format_version;
  entry_point = first.bundle_path;
  files = map to_file (first ∷ others);
}
