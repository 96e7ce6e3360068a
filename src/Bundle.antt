-- ===== src/Bundle.antt =====
-- crates/prs-sync-bundle/src/lib.rs: validation and extraction of bundles. The tar reader (crate
-- `tar`), the JSON decoder (serde) and the file system are parameters. An error keeps its variant,
-- without the values that its message shows.
pub mod Manifests
pub mod Archive
pub mod Builder
pub mod Streams
use sony_prs.Base.{ℕ, ◌*◌, ◌-◌, ◌^◌}
use sony_prs.Text.{Str, codes}
use sony_prs.Protocol.{max_bundle_size}

pub data BundleError : Type 0 where
  io json archive_too_large manifest_too_large trailing_archive_data unsafe_path : BundleError
  unsupported_protocol_version unsupported_bundle_version entry_point_not_markdown : BundleError
  duplicate_manifest_path manifest_lists_manifest entry_point_missing : BundleError
  unsupported_entry duplicate_archive_path unexpected_archive_path : BundleError
  missing_archive_path entry_size_mismatch manifest_size_mismatch : BundleError
  extracted_size_too_large staging_size_too_large : BundleError
  destination_parent_not_directory destination_exists : BundleError

abbrev pub manifest_path : Str
manifest_path = codes "manifest.json"

abbrev pub max_archive_size : ℕ
max_archive_size = max_bundle_size

abbrev pub max_bundle_path_bytes : ℕ
max_bundle_path_bytes = 255

abbrev pub max_manifest_size : ℕ
max_manifest_size = max_archive_size

abbrev pub u64_max : ℕ
u64_max = 2 ^ 64 - 1
