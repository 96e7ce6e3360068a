-- ===== src/T1/Sync/Client.antt =====
-- sync.rs: `SyncClient`, with what the server, the library directory and the clock answer as arguments.
pub mod Outcomes
pub mod Storage
use sony_prs.Base.{
  ℕ, zero, suc, ◌+◌, length, Bool, true, false, not, ◌&&◌, ◌||◌, List, [], ◌∷◌, Option, none, some,
  leb, ltb, ◌==◌, if◌then◌else◌, Result, ok, err, ◌>>=◌, ◌>>◌, guard,
}
use sony_prs.Text.{Str, str_eq}
use sony_prs.Protocol.{
  ProtocolVersion, max_bundle_size, ManifestFile, Manifest, ReaderSession, is_valid_at,
}
use sony_prs.T1.Sync.{
  SyncError, SyncState, Stage, new_error, ApiErrorCode, map_http_error, require_protocol,
  required_storage_bytes, available_storage_bytes, insufficient, stream_bundle, SyncOutcome,
  updated, cleared, unchanged, map_bundle_error,
}
use sony_prs.T1.Sync.Authorize.{AuthorizationStart, PollingSecretClaimResult, Url, authorize}
use sony_prs.Bundle.{BundleError}
use sony_prs.Bundle.Archive.{Entry, Directory}
use sony_prs.Bundle.Archive.Extraction.{Place, extract_with_size_limit}
use sony_prs.T1.Sync.Manifests.{validate_manifest}

pub data ManifestSnapshot : Type 0 where
  empty : ℕ → ManifestSnapshot
  current : ℕ → Str → ManifestSnapshot

-- The client without its configuration and its progress.
pub record SyncClient : Type 0 where
  pub session : Option ReaderSession
  pub snapshot : Option ManifestSnapshot

-- `InboxManifestState` and `InboxManifestResponse` of prs-sync-protocol.
pub data InboxManifestState : Type 0 where
  is_empty : ℕ → InboxManifestState
  is_current : ℕ → Str → Manifest → InboxManifestState
  not_modified : ℕ → Str → InboxManifestState

pub record InboxManifestResponse : Type 0 where
  pub protocol_version : ProtocolVersion
  pub state : InboxManifestState

-- What the staging directory of an extraction holds: files with their bytes.
abbrev pub Stored : Type 0
Stored = List (Str × List ℕ)

abbrev pub stored_bytes : Stored → ℕ
stored_bytes [] = 0
stored_bytes (f ∷ fs) = length f.1 + stored_bytes fs

-- What is outside the client in `download_and_publish`, in the order of its use. `body` is what the
-- body of an error's response decodes to. The archive is what `tar` reads of the staged file, and
-- `full` whether an I/O error of its extraction is one of a full storage.
pub record Download : Type 0 where
  pub current_size : Result SyncError ℕ
  pub sent : Result SyncError (Unit {0})
  pub status : ℕ
  pub body : Result SyncError (Option ApiErrorCode)
  pub content_length : Option ℕ
  pub created : Result SyncError (Unit {0})
  pub chunks : List (Result SyncError ℕ)
  pub rewound : Result SyncError (Unit {0})
  pub chosen_path : Result SyncError (Unit {0})
  pub from_slice : List ℕ → Option Manifest
  pub directory : Directory Stored
  pub place : Place Stored
  pub entries : List (Option Entry)
  pub trailing : List (Option (List ℕ))
  pub full : Bool
  pub published : Result SyncError (Unit {0})

abbrev same_version : ProtocolVersion → ProtocolVersion → Bool
same_version a b = (a.major == b.major) && (a.minor == b.minor)

abbrev same_files : List ManifestFile → List ManifestFile → Bool
same_files [] [] = true
same_files (f ∷ fs) (g ∷ gs) =
    str_eq f.path.value g.path.value && (f.size == g.size) && same_files fs gs
same_files _ _ = false

-- The derived equality of manifests.
unfoldable pub same_manifest : Manifest → Manifest → Bool
same_manifest a b =
    same_version a.protocol_version b.protocol_version
    && (a.bundle_format_version == b.bundle_format_version)
    && str_eq a.entry_point.value b.entry_point.value
    && same_files a.files b.files

abbrev pub stale : Stage → SyncError
stale stage = new_error stage SyncState.stale_object

abbrev pub archive_bound : Option ℕ → ℕ
archive_bound none = max_bundle_size
archive_bound (some length) = length

-- The extraction of the staged archive within a limit.
abbrev pub extracted_within : Download → ℕ → Result BundleError (Manifest × Stored)
extracted_within d limit =
    extract_with_size_limit d.from_slice d.directory d.place limit d.entries d.trailing

abbrev or_bundle_error :
    Bool → Result BundleError (Manifest × Stored) → Result SyncError (Manifest × Stored)
or_bundle_error full (ok extracted) = ok extracted
or_bundle_error full (err e) = err (map_bundle_error full e)

-- An error's response is read for its code.
unfoldable pub accept_status : Download → Result SyncError (Unit {0})
unfolding map_http_error
accept_status d =
    if leb 200 d.status && ltb d.status 300
    then ok tt
    else d.body >>= λ code. err (map_http_error d.status code true true)

-- From the staged archive to the published library.
unfoldable pub store_extracted : Manifest → Download → ℕ → Result SyncError (Unit {0})
unfolding same_manifest extract_with_size_limit map_bundle_error
store_extracted manifest d staging_limit = do
  extracted ← or_bundle_error d.full (extracted_within d staging_limit)
  guard (same_manifest extracted.0 manifest) (stale Stage.download)
  d.published

-- `download_and_publish` up to the snapshot; the length of the staged file is what was written to it.
unfoldable pub stage_bundle : ℕ → Manifest → Download → Result SyncError (Unit {0})
unfolding accept_status required_storage_bytes available_storage_bytes stream_bundle store_extracted
stage_bundle limit manifest d = do
  current_size ← d.current_size
  d.sent
  accept_status d
  guard (leb (archive_bound d.content_length) max_bundle_size)
      (new_error Stage.download SyncState.invalid_bundle)
  required ← required_storage_bytes current_size (archive_bound d.content_length) 0
  guard (leb required limit) insufficient
  d.created
  archive_size ← stream_bundle (archive_bound d.content_length) 0 d.chunks
  d.rewound
  staging_limit ← available_storage_bytes limit current_size archive_size
  d.chosen_path
  store_extracted manifest d staging_limit

-- A result with the client after it.
abbrev pub Synced : Type 0
Synced = Result SyncError SyncOutcome × SyncClient

unfoldable pub download_and_publish : ℕ → ℕ → Str → Manifest → Download → SyncClient → Synced
unfolding stage_bundle
download_and_publish limit revision etag manifest d client = elim (stage_bundle limit manifest d) [
  | ok u ↦ (
    ok (updated revision manifest.entry_point.value),
    record client { snapshot = some (current revision etag) },
  )
  | err e ↦ (err e, client)
]

unfoldable pub is_snapshot : Option ManifestSnapshot → ManifestSnapshot → Bool
is_snapshot (some (empty r)) (empty s) = r == s
is_snapshot (some (current r t)) (current s u) = (r == s) && str_eq t u
is_snapshot _ _ = false

-- The headers `If-Revision` and `If-None-Match` of the request.
unfoldable pub conditional_headers : Option ManifestSnapshot → Option ℕ × Option Str
conditional_headers none = (none, none)
conditional_headers (some (empty revision)) = (some revision, none)
conditional_headers (some (current revision etag)) = (some revision, some etag)

-- The answers in one attempt: the decoded manifest, the clearing of the library, and the download.
pub record Answers : Type 0 where
  pub fetched : Result SyncError InboxManifestResponse
  pub cleared_library : Result SyncError (Unit {0})
  pub download : Download

abbrev clear : ℕ → Result SyncError (Unit {0}) → SyncClient → Synced
clear revision (ok u) client =
    (ok (cleared revision), record client { snapshot = some (empty revision) })
clear revision (err e) client = (err e, client)

-- The match on the state of the inbox.
unfoldable pub apply_state : ℕ → InboxManifestState → Answers → SyncClient → Synced
unfolding is_snapshot validate_manifest download_and_publish
apply_state limit (is_empty revision) a client =
    if is_snapshot client.snapshot (empty revision)
    then (ok (unchanged revision), client)
    else clear revision a.cleared_library client
apply_state limit (not_modified revision etag) a client =
    if is_snapshot client.snapshot (current revision etag)
    then (ok (unchanged revision), client)
    else (err (stale Stage.manifest), client)
apply_state limit (is_current revision etag manifest) a client = elim (validate_manifest manifest) [
  | err e ↦ (err e, client)
  | ok u ↦
      if is_snapshot client.snapshot (current revision etag)
      then (ok (unchanged revision), client)
      else download_and_publish limit revision etag manifest a.download client
]

abbrev apply_version :
    ℕ → Result SyncError (Unit {0}) → InboxManifestState → Answers → SyncClient → Synced
unfolding apply_state
apply_version limit (err e) state a client = (err e, client)
apply_version limit (ok u) state a client = apply_state limit state a client

unfoldable pub synchronize_with_session : ℕ → Answers → SyncClient → Synced
unfolding require_protocol apply_state
synchronize_with_session limit a client = elim a.fetched [
  | err e ↦ (err e, client)
  | ok response ↦
      apply_version limit (require_protocol response.protocol_version) response.state a client
]

abbrev is_rejected : SyncState → Bool
is_rejected SyncState.session_rejected = true
is_rejected _ = false

-- The session of the client when it is valid, or a new one; and the world after it. An authorization has
-- its polls as fuel.
module _ {W : Type 0} (now : W → Result SyncError ℕ × W)
    (poll : W → Result SyncError PollingSecretClaimResult × W) (sleep : ℕ → W → W)
    (start : W → Result SyncError AuthorizationStart × W) (parse : Str → Option Url)
    (answer : ReaderSession → Option ℕ × Option Str → W → Answers × W) (limit polls : ℕ) where
  abbrev valid_or_new :
      ReaderSession → Result SyncError ℕ × W → Option (Result SyncError ReaderSession × W)
  unfolding is_valid_at authorize
  valid_or_new session (err e, w) = some (err e, w)
  valid_or_new session (ok time, w) =
      if is_valid_at session time
      then some (ok session, w)
      else authorize now poll sleep start parse polls w

  unfoldable pub choose_session :
      Option ReaderSession → W → Option (Result SyncError ReaderSession × W)
  unfolding valid_or_new authorize
  choose_session none w = authorize now poll sleep start parse polls w
  choose_session (some session) w = valid_or_new session (now w)

  -- An attempt with a session, which the client keeps.
  unfoldable pub attempt : ReaderSession → SyncClient → W → Synced × W
  unfolding synchronize_with_session conditional_headers
  attempt session client w =
      let answered = answer session (conditional_headers client.snapshot) w in
      (
        synchronize_with_session limit answered.0 (record client { session = some session }),
        answered.1,
      )

  -- The loop of `synchronize`, with its rounds as fuel.
  unfoldable pub synchronize_rounds : ℕ → Bool → SyncClient → W → Option (Synced × W)
  unfolding choose_session attempt
  synchronize_rounds zero reauthorized client w = none
  synchronize_rounds (suc n) reauthorized client w = elim (choose_session client.session w) [
    | none ↦ none
    | some chosen ↦ elim chosen.0 [
      | err e ↦ some ((err e, client), chosen.1)
      | ok session ↦
          let tried = attempt session client chosen.1 in
          let again = synchronize_rounds n true (record tried.0.1 { session = none }) tried.1 in
          elim tried.0.0 [
            | ok outcome ↦ some tried
            | err e ↦ if is_rejected e.state && not reauthorized then again else some tried
          ]
    ]
  ]

  -- `synchronize`, with what the creation of the library's root answers.
  unfoldable pub synchronize :
      Result SyncError (Unit {0}) → ℕ → SyncClient → W → Option (Synced × W)
  unfolding synchronize_rounds
  synchronize (err e) n client w = some ((err e, client), w)
  synchronize (ok u) n client w = synchronize_rounds n false client w
