-- ===== src/T1/Sync.antt =====
-- sync.rs: the errors of a synchronization, and the client's checks. An error keeps its stage and its
-- state, without the detail.
pub mod Manifests
pub mod Client
pub mod Authorize
use sony_prs.Base.{
  ℕ, ◌+◌, ◌*◌, ◌-◌, Bool, true, false, not, ◌&&◌, ◌||◌, List, [], ◌∷◌, Option, none, some, ltb, leb,
  ◌==◌, if◌then◌else◌, any, Result, ok, err, ◌>>=◌, ◌>>◌, guard,
}
use sony_prs.Text.{Str, codes, str_eq}
use sony_prs.Bundle.{BundleError, io, staging_size_too_large}
use sony_prs.Protocol.{ProtocolVersion, require_compatible, current_protocol_version}

pub data SyncState : Type 0 where
  configuration network_loss authorization_failure authorization_expired session_rejected :
      SyncState
  stale_object invalid_bundle tmpfs_insufficient server_error local_storage : SyncState

-- The stages of the errors: their texts.
pub data Stage : Type 0 where
  configuration https authorization session server storage : Stage
  download response protocol manifest dns bundle : Stage

pub record SyncError : Type 0 where
  pub stage : Stage
  pub state : SyncState

abbrev pub new_error : Stage → SyncState → SyncError
new_error stage state = record { stage = stage; state = state }

abbrev pub max_json_response_bytes : ℕ
max_json_response_bytes = 64 * 1024

abbrev pub default_tmpfs_limit_bytes : ℕ
default_tmpfs_limit_bytes = 48 * 1024 * 1024

-- `ApiErrorCode` of prs-sync-protocol.
pub data ApiErrorCode : Type 0 where
  invalid_request unauthorized forbidden not_found conflict gone : ApiErrorCode
  payload_too_large unsupported_version rate_limited internal : ApiErrorCode

-- The codes of the first and the fourth arm, and the other ones that an arm names.
abbrev pub refuses : Option ApiErrorCode → Bool
refuses (some ApiErrorCode.unauthorized) = true
refuses (some ApiErrorCode.forbidden) = true
refuses _ = false

abbrev pub is_gone : Option ApiErrorCode → Bool
is_gone (some ApiErrorCode.gone) = true
is_gone _ = false

abbrev pub is_conflict : Option ApiErrorCode → Bool
is_conflict (some ApiErrorCode.conflict) = true
is_conflict _ = false

abbrev pub is_not_found : Option ApiErrorCode → Bool
is_not_found (some ApiErrorCode.not_found) = true
is_not_found _ = false

-- `map_http_error`, with the code that the body decodes to, and whether the operation names a bundle.
unfoldable pub map_http_error : ℕ → Option ApiErrorCode → Bool → Bool → SyncError
map_http_error status code of_bundle session_request =
    if session_request && (refuses code || (status == 401) || (status == 403))
    then new_error Stage.session SyncState.session_rejected
    else if is_gone code || (status == 410)
    then new_error Stage.authorization SyncState.authorization_expired
    else if is_conflict code
    then new_error Stage.authorization SyncState.authorization_failure
    else if refuses code
    then new_error Stage.authorization SyncState.authorization_failure
    else if (is_not_found code || (status == 404)) && of_bundle
    then new_error Stage.download SyncState.stale_object
    else new_error Stage.server SyncState.server_error

unfoldable pub require_protocol : ProtocolVersion → Result SyncError (Unit {0})
unfolding require_compatible
require_protocol version = elim (require_compatible version current_protocol_version) [
  | ok u ↦ ok tt
  | err e ↦ err (new_error Stage.protocol SyncState.server_error)
]

abbrev pub u64_limit : ℕ
u64_limit = 18446744073709551615

-- `checked_add` on u64.
abbrev pub checked_add : ℕ → ℕ → Option ℕ
checked_add a b = if leb (a + b) u64_limit then some (a + b) else none

abbrev pub add_to : Option ℕ → ℕ → Option ℕ
add_to none b = none
add_to (some a) b = checked_add a b

abbrev pub insufficient : SyncError
insufficient = new_error Stage.download SyncState.tmpfs_insufficient

abbrev pub or_insufficient : Option ℕ → Result SyncError ℕ
or_insufficient none = err insufficient
or_insufficient (some n) = ok n

unfoldable pub required_storage_bytes : ℕ → ℕ → ℕ → Result SyncError ℕ
required_storage_bytes current_size archive_size extracted_size =
    or_insufficient (add_to (checked_add current_size archive_size) extracted_size)

unfoldable pub available_storage_bytes : ℕ → ℕ → ℕ → Result SyncError ℕ
unfolding required_storage_bytes
available_storage_bytes limit current_size archive_size = do
  used ← required_storage_bytes current_size archive_size 0
  guard (leb used limit) insufficient
  ok (limit - used)

-- `map_bundle_error`, with whether an I/O error was one of a full storage.
unfoldable pub map_bundle_error : Bool → BundleError → SyncError
map_bundle_error full io =
    new_error Stage.bundle (if full then SyncState.tmpfs_insufficient else SyncState.invalid_bundle)
map_bundle_error full staging_size_too_large = new_error Stage.bundle SyncState.tmpfs_insufficient
map_bundle_error full _ = new_error Stage.bundle SyncState.invalid_bundle

-- `stream_bundle` on the sizes of the response's chunks, or the error of reading or writing one; what
-- was received and staged.
unfoldable pub stream_bundle : ℕ → ℕ → List (Result SyncError ℕ) → Result SyncError ℕ
stream_bundle limit received [] = ok received
stream_bundle limit received (err e ∷ chunks) = err e
stream_bundle limit received (ok chunk ∷ chunks) =
    let rest = stream_bundle limit (received + chunk) chunks in
    if not (leb (received + chunk) u64_limit) || ltb limit (received + chunk)
    then err (new_error Stage.download SyncState.invalid_bundle)
    else rest

-- What a synchronization did, with the revision of the inbox and the entry point of the bundle.
pub data SyncOutcome : Type 0 where
  updated : ℕ → Str → SyncOutcome
  cleared unchanged : ℕ → SyncOutcome
