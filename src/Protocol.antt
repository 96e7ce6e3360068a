-- ===== src/Protocol.antt =====
-- crates/prs-sync-protocol/src/lib.rs: versions, the checked string types and the session of the
-- PRSync protocol. A text is the list of its characters. The JSON forms (serde) are not modelled.
pub mod Texts
pub mod Identifiers
pub mod Paths
use sony_prs.Base.{
  ℕ, ◌*◌, Bool, false, ◌&&◌, List, Option, none, some, ltb, leb, ◌==◌, if◌then◌else◌, Result, ok,
  err,
}
use sony_prs.Text.{Str}

pub record ProtocolVersion : Type 0 where
  pub major : ℕ
  pub minor : ℕ

abbrev pub current_protocol_version : ProtocolVersion
current_protocol_version = record { major = 1; minor = 0 }

abbrev pub current_bundle_format_version : ℕ
current_bundle_format_version = 1

abbrev pub max_bundle_size : ℕ
max_bundle_size = 16 * 1024 * 1024

unfoldable pub is_compatible_with : ProtocolVersion → ProtocolVersion → Bool
is_compatible_with v supported = v.major == supported.major && leb v.minor supported.minor

pub record VersionError : Type 0 where
  pub received : ProtocolVersion
  pub supported : ProtocolVersion

unfoldable pub require_compatible :
    ProtocolVersion → ProtocolVersion → Result VersionError (Unit {0})
unfolding is_compatible_with
require_compatible v supported =
    if is_compatible_with v supported
    then ok tt
    else err (record { received = v; supported = supported })

-- The messages of `ValidationError`, one constructor for each.
pub data ValidationError : Type 0 where
  empty_path unsafe_path bad_component : ValidationError
  identifier_length identifier_character : ValidationError
  ascii_length control_character quotes : ValidationError
  name_length name_control : ValidationError
  bad_secret : ValidationError

-- A path inside a bundle.
pub record BundlePath : Type 0 where
  pub value : Str

pub record ManifestFile : Type 0 where
  pub path : BundlePath
  pub size : ℕ

pub record Manifest : Type 0 where
  pub protocol_version : ProtocolVersion
  pub bundle_format_version : ℕ
  pub entry_point : BundlePath
  pub files : List ManifestFile

pub data ReaderCapability : Type 0 where
  read_manifest download_bundle : ReaderCapability

pub record ReaderSessionScope : Type 0 where
  pub capabilities : List ReaderCapability

-- `Timestamp` is its number of seconds.
pub record ReaderSession : Type 0 where
  pub session_id : Str
  pub bearer_token : Str
  pub issued_at : ℕ
  pub expires_at : Option ℕ
  pub scope : ReaderSessionScope

unfoldable pub is_valid_at : ReaderSession → ℕ → Bool
is_valid_at session now = elim session.expires_at [
  | some expires_at ↦ ltb now expires_at
  | none ↦ false
]
