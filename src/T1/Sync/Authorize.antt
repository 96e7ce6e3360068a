-- ===== src/T1/Sync/Authorize.antt =====
-- sync.rs: `SyncClient::authorize`, without the queue that shows the URL. The clock, the server and
-- the sleep between two polls are functions of a world; the parser of URLs is a function too.
pub mod Usable
use sony_prs.Base.{
  ℕ, zero, suc, ◌<◌, ◌≡◌, refl, ◌⊎◌, inl, inr, Bool, true, false, not, ◌&&◌, ◌||◌, List, [], ◌∷◌,
  Option, none, some, min, leb, ltb, ◌==◌, if◌then◌else◌, is_empty, Result, ok, err, ◌>>=◌, ◌>>◌,
  guard, arith, Bool-cases,
}
use sony_prs.Text.{Str, codes, str_eq, starts_with}
use sony_prs.Protocol.{
  ProtocolVersion, ReaderCapability, read_manifest, download_bundle, ReaderSession,
}
use sony_prs.T1.Sync.{SyncError, SyncState, Stage, new_error, require_protocol}

abbrev pub max_poll_delay_seconds : ℕ
max_poll_delay_seconds = 60

abbrev refused : SyncError
refused = new_error Stage.authorization SyncState.authorization_failure

abbrev expired : SyncError
expired = new_error Stage.authorization SyncState.authorization_expired

abbrev is_manifest : ReaderCapability → Bool
is_manifest read_manifest = true
is_manifest download_bundle = false

abbrev pub can_read : List ReaderCapability → Bool
can_read [] = false
can_read (c ∷ cs) = is_manifest c || can_read cs

abbrev pub can_download : List ReaderCapability → Bool
can_download [] = false
can_download (c ∷ cs) = not (is_manifest c) || can_download cs

-- `require_session` after the expiry is there, with what the clock answers.
unfoldable pub require_expiry :
    ReaderSession → Option ℕ → Result SyncError ℕ → Result SyncError ReaderSession
require_expiry session none time = err refused
require_expiry session (some expires_at) time = do
  guard (can_read session.scope.capabilities && can_download session.scope.capabilities) refused
  now ← time
  guard (not (leb expires_at now)) expired
  ok session

unfoldable pub require_session : ReaderSession → Result SyncError ℕ → Result SyncError ReaderSession
unfolding require_expiry
require_session session time = require_expiry session session.expires_at time

-- What the code reads of a parsed URL.
pub record Url : Type 0 where
  pub scheme : Str
  pub has_host : Bool
  pub username : Str
  pub has_password : Bool
  pub has_query : Bool
  pub has_fragment : Bool

unfoldable pub contains_text : Str → Str → Bool
contains_text needle [] = is_empty needle
contains_text needle (c ∷ s) = starts_with (c ∷ s) needle || contains_text needle s

abbrev is_public : Url → Bool
is_public url =
    str_eq url.scheme (codes "https")
    && url.has_host
    && is_empty url.username
    && not url.has_password
    && not url.has_query
    && not url.has_fragment

abbrev public_url : Option Url → Bool
public_url none = false
public_url (some url) = is_public url

unfoldable pub validate_approval_url : (Str → Option Url) → Str → Str → Result SyncError (Unit {0})
unfolding contains_text
validate_approval_url parse approval_url polling_secret =
    guard (public_url (parse approval_url) && not (contains_text polling_secret approval_url))
      refused

-- `AuthorizationStart` with what the client reads of its request.
pub record AuthorizationStart : Type 0 where
  pub protocol_version : ProtocolVersion
  pub request_version : ProtocolVersion
  pub for_reader : Bool
  pub approval_url : Str
  pub expires_at : ℕ
  pub polling_secret : Str

pub data PollingSecretClaimOutcome : Type 0 where
  pending : ℕ → PollingSecretClaimOutcome
  sender : PollingSecretClaimOutcome
  reader : ReaderSession → PollingSecretClaimOutcome
  denied poll_expired already_claimed : PollingSecretClaimOutcome

pub record PollingSecretClaimResult : Type 0 where
  pub protocol_version : ProtocolVersion
  pub outcome : PollingSecretClaimOutcome

-- The checks on the start of an authorization, before its URL is shown.
unfoldable pub check_start : (Str → Option Url) → AuthorizationStart → Result SyncError (Unit {0})
unfolding require_protocol validate_approval_url
check_start parse start = do
  require_protocol start.protocol_version
  require_protocol start.request_version
  guard start.for_reader refused
  validate_approval_url parse start.approval_url start.polling_secret

-- The poll goes on after so many seconds, or has ended.
pub data Polled : Type 0 where
  wait : ℕ → Polled
  ended : Result SyncError ReaderSession → Polled

-- The match on an outcome, with what the clock answers where it is read.
unfoldable pub apply_outcome : PollingSecretClaimOutcome → Result SyncError ℕ → Polled
unfolding require_session
apply_outcome (pending seconds) time = wait (min seconds max_poll_delay_seconds)
apply_outcome (reader session) time = ended (require_session session time)
apply_outcome denied time = ended (err refused)
apply_outcome poll_expired time = ended (err expired)
apply_outcome already_claimed time = ended (err refused)
apply_outcome sender time = ended (err refused)

unfoldable pub apply_result :
    Result SyncError PollingSecretClaimResult → Result SyncError ℕ → Polled
unfolding apply_outcome require_protocol
apply_result (err e) time = ended (err e)
apply_result (ok result) time = elim (require_protocol result.protocol_version) [
  | ok u ↦ apply_outcome result.outcome time
  | err e ↦ ended (err e)
]

abbrev before_expiry : ℕ → Result SyncError ℕ → Result SyncError (Unit {0})
before_expiry expires_at time = time >>= λ now. guard (ltb now expires_at) expired

module _ {W : Type 0} (now : W → Result SyncError ℕ × W)
    (poll : W → Result SyncError PollingSecretClaimResult × W) (sleep : ℕ → W → W)
    (start : W → Result SyncError AuthorizationStart × W) where
  -- The loop over the polls, with its rounds as fuel; the clock is read before a poll and after it.
  unfoldable pub poll_rounds : ℕ → ℕ → W → Option (Result SyncError ReaderSession × W)
  unfolding apply_result
  poll_rounds zero expires_at w = none
  poll_rounds (suc n) expires_at w =
      let polled = poll (now w).1 in
      elim (before_expiry expires_at (now w).0) [
        | err e ↦ some (err e, (now w).1)
        | ok u ↦ elim (apply_result polled.0 (now polled.1).0) [
          | wait seconds ↦ poll_rounds n expires_at (sleep seconds polled.1)
          | ended r ↦ some (r, polled.1)
        ]
      ]

  unfoldable pub poll_start :
      (Str → Option Url) → ℕ → AuthorizationStart → W → Option (Result SyncError ReaderSession × W)
  unfolding check_start poll_rounds
  poll_start parse n started w = elim (check_start parse started) [
    | err e ↦ some (err e, w)
    | ok u ↦ poll_rounds n started.expires_at w
  ]

  unfoldable pub authorize :
      (Str → Option Url) → ℕ → W → Option (Result SyncError ReaderSession × W)
  unfolding poll_start
  authorize parse n w = elim (start w).0 [
    | err e ↦ some (err e, (start w).1)
    | ok started ↦ poll_start parse n started (start w).1
  ]
