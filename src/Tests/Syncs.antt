-- ===== src/Tests/Syncs.antt =====
-- The T1's synchronization: a manifest of one file, a small download, and a session that is rejected.
use sony_prs.Base.{
  ◌≤◌, arith, ℕ, zero, suc, ◌+◌, true, ◌≡◌, refl, false, [], ◌∷◌, Option, none, some, Result, ok,
  err,
}
use sony_prs.Text.{Str, codes}
use sony_prs.Protocol.{
  Manifest, ReaderSession, read_manifest, download_bundle, current_protocol_version,
}
use sony_prs.Bundle.Manifests.{
  validate_manifest as validate_archive_manifest, is_markdown_path, contains_file, find_file,
  check_files, check_file, archive_path, extension, rsplit_once, has_special_component,
}
use sony_prs.T1.Sync.{
  SyncError, SyncState, Stage, new_error, stream_bundle, available_storage_bytes,
  required_storage_bytes,
}
use sony_prs.T1.Sync.Manifests.{validate_manifest, is_ok, validate_manifest-is_ok}
use sony_prs.T1.Sync.Client.{
  SyncClient, Stored, stored_bytes, Download, Answers, Synced, accept_status, store_extracted,
  stage_bundle, same_manifest, synchronize,
}
use sony_prs.Bundle.Archive.{
  Entry, Directory, process_archive, process_entries, process_entry, accept_manifest, accept_file,
  keep_file, read_entry, check_staged, check_trailing, check_seen, contains_path, write_staged_file,
}
use sony_prs.Bundle.Archive.Extraction.{Occupant, Place, extract_internal, extract_with_size_limit}
use sony_prs.Bundle.Archive.Extraction.Limits.{IsMeasured}
use sony_prs.Text.Split.{split}
use sony_prs.Text.Utf8.{to_bytes, decode, encode_char}
use sony_prs.Protocol.{is_compatible_with}
use sony_prs.Protocol.Paths.{bad_part, new_path}
use sony_prs.T1.Sync.Authorize.{
  AuthorizationStart, Url, PollingSecretClaimResult, pending, reader, authorize,
}
use sony_prs.T1.Sync.Authorize.Usable.{IsPatient, usable_result, authorize_total}
use sony_prs.T1.Sync.Client.Outcomes.{synchronize_total}
use sony_prs.T1.Sync.Client.Storage.{IsStaged, stage_bundle-IsStaged}

abbrev announced : Manifest
announced = record {
  protocol_version = current_protocol_version;
  bundle_format_version = 1;
  entry_point = record { value = codes "a.md" };
  files = record { path = record { value = codes "a.md" }; size = 3 } ∷ [];
}

validate_manifest-is_ok_example :
    is_ok (validate_manifest announced) ≡ is_ok (validate_archive_manifest announced)
validate_manifest-is_ok_example = validate_manifest-is_ok announced

-- The staging directory: a file is created with its first write.
abbrev staging_directory : Directory Stored
staging_directory = record {
  create_parents = λ path d. some d;
  create_new = λ path d. some d;
  write_all = λ path bytes d. some ((path, bytes) ∷ d);
}

abbrev vacant : Place Stored
vacant = record {
  parent_is_directory = some true;
  occupant = some Occupant.absent;
  staging = some [];
  cleared = some tt;
  renamed = some tt;
}

-- The manifest and the file of a small archive.
abbrev manifest_entry : Entry
manifest_entry = record {
  is_regular = true;
  path_bytes = codes "manifest.json";
  size = some 2;
  contents = some (codes "{}");
}

abbrev file_entry : Entry
file_entry = record {
  is_regular = true;
  path_bytes = codes "a.md";
  size = some 3;
  contents = some (codes "abc");
}

abbrev small : Download
small = record {
  current_size = ok 100;
  sent = ok tt;
  status = 200;
  body = ok none;
  content_length = some 30;
  created = ok tt;
  chunks = ok 10 ∷ ok 15 ∷ [];
  rewound = ok tt;
  chosen_path = ok tt;
  from_slice = λ bytes. some announced;
  directory = staging_directory;
  place = vacant;
  entries = some manifest_entry ∷ some file_entry ∷ [];
  trailing = [];
  full = false;
  published = ok tt;
}

small_staged : stage_bundle 1000 announced small ≡ ok tt
unfolding stage_bundle stream_bundle available_storage_bytes required_storage_bytes same_manifest
    store_extracted accept_status extract_with_size_limit extract_internal process_archive
    process_entries process_entry accept_manifest accept_file keep_file read_entry check_staged
    check_trailing check_seen contains_path write_staged_file validate_archive_manifest
    is_compatible_with is_markdown_path extension rsplit_once check_files check_file contains_file
    split to_bytes encode_char decode archive_path has_special_component find_file new_path bad_part
small_staged = refl

measured : IsMeasured staging_directory stored_bytes
measured = record {
  parents = λ path d d' h. ground arith;
  created = λ path d d' h. ground arith;
  written = λ path bytes d d' h. ground arith;
}

empty_at_first : (s : Stored) → vacant.staging ≡ some s → stored_bytes s ≡ 0
empty_at_first s h = ground arith

stage_bundle-IsStaged_example :
    (library archive : ℕ) × (extracted : Manifest) × (stored : Stored) × IsStaged 1000 announced
      small library archive extracted stored
stage_bundle-IsStaged_example =
    stage_bundle-IsStaged 1000 announced small measured empty_at_first small_staged

abbrev a_session : ReaderSession
a_session = record {
  session_id = codes "s";
  bearer_token = codes "t";
  issued_at = 1;
  expires_at = some 100;
  scope = record { capabilities = read_manifest ∷ download_bundle ∷ [] };
}

abbrev rejected : Answers
rejected = record {
  fetched = err (new_error Stage.session SyncState.session_rejected);
  cleared_library = ok tt;
  download = small;
}

abbrev rejecting : ReaderSession → Option ℕ × Option Str → ℕ → Answers × ℕ
rejecting session headers w = (rejected, w)

abbrev without_session : SyncClient
without_session = record { session = none; snapshot = none }

abbrev started : AuthorizationStart
started = record {
  protocol_version = current_protocol_version;
  request_version = current_protocol_version;
  for_reader = true;
  approval_url = codes "https://a/b";
  expires_at = 50;
  polling_secret = codes "secret";
}

abbrev parse_url : Str → Option Url
parse_url text = some (record {
  scheme = codes "https";
  has_host = true;
  username = [];
  has_password = false;
  has_query = false;
  has_fragment = false;
})

abbrev starting : ℕ → Result SyncError AuthorizationStart × ℕ
starting w = (ok started, w)

-- The first poll waits, the second one has the session.
abbrev polling : ℕ → Result SyncError PollingSecretClaimResult × ℕ
polling zero =
    (ok (record { protocol_version = current_protocol_version; outcome = pending 3 }), zero)
polling (suc w) =
    (ok (record { protocol_version = current_protocol_version; outcome = reader a_session }), suc w)

-- The world is the time, in seconds.
abbrev ticking : ℕ → Result SyncError ℕ × ℕ
ticking w = (ok w, w)

abbrev sleeping : ℕ → ℕ → ℕ
sleeping seconds w = suc (w + seconds)

ticks : (w : ℕ) → ticking w ≡ (ok w, w)
ticks w = refl

keeps : (w : ℕ) → w ≤ (polling w).1
keeps zero = omega arith
keeps (suc w) = omega arith

sleeps : (w seconds : ℕ) → w + seconds ≤ sleeping seconds w
sleeps w seconds = omega arith

patient : (w : ℕ) → IsPatient (polling w).0
patient zero = omega arith
patient (suc w) = tt

authorize_total_example :
    (r : Result SyncError ReaderSession) × (v : ℕ) × (authorize ticking polling sleeping starting
        parse_url 51 0
      ≡ some (r, v))
    × (usable_result r (ticking v).0 ≡ true)
authorize_total_example =
    authorize_total ticking polling sleeping starting (λ w. w) ticks keeps sleeps patient parse_url
      50 0 started refl (omega arith)

expires :
    (w : ℕ) (s : AuthorizationStart) → (starting w).0 ≡ ok s → s.expires_at ≤ 50 + (starting w).1
expires w s h = ground arith

-- The first session is rejected, and a second one is authorized.
synchronize_total_example :
    (r : Synced × ℕ) × (synchronize ticking polling sleeping starting parse_url rejecting 1000 51
        (ok tt)
        2
        without_session
        0
      ≡ some r)
synchronize_total_example =
    synchronize_total ticking polling sleeping starting parse_url rejecting 1000 50 (λ w. w) ticks
      keeps sleeps patient expires 0 (ok tt) without_session 0
