-- ===== src/T1/Sync/Client/Outcomes.antt =====
-- What a synchronization leaves behind: the snapshot, the space it took, and the rounds of its loop.
use sony_prs.Base.{
  ℕ, suc, ◌+◌, ◌≤◌, ◌≡◌, refl, inl, inr, Bool, true, false, Option, none, some, Result, ok, err,
  arith, Result-cases,
}
use sony_prs.Text.{Str}
use sony_prs.Protocol.{ReaderSession}
use sony_prs.T1.Sync.{SyncError, SyncOutcome, updated, cleared, unchanged}
use sony_prs.T1.Sync.Client.{
  ManifestSnapshot, empty, current, SyncClient, InboxManifestState, Answers, Synced,
  download_and_publish, is_snapshot, apply_state, synchronize_with_session, valid_or_new,
  choose_session, attempt, synchronize_rounds, synchronize,
}
use sony_prs.T1.Sync.Authorize.{AuthorizationStart, PollingSecretClaimResult, Url}
use sony_prs.T1.Sync.Authorize.Usable.{IsPatient, authorize-ends}

abbrev pub revision_of : SyncOutcome → ℕ
revision_of (updated revision entry_point) = revision
revision_of (cleared revision) = revision
revision_of (unchanged revision) = revision

abbrev pub snapshot_revision : Option ManifestSnapshot → Option ℕ
snapshot_revision none = none
snapshot_revision (some (empty revision)) = some revision
snapshot_revision (some (current revision etag)) = some revision

-- Success leaves a snapshot of the revision that it reports, and a failure the snapshot of before.
abbrev pub Follows : Option ManifestSnapshot → Synced → Type 0
Follows before (ok outcome, client) = snapshot_revision client.snapshot ≡ some (revision_of outcome)
Follows before (err e, client) = client.snapshot ≡ before

snapshot-revision :
    (s : Option ManifestSnapshot) (t : ManifestSnapshot)
    → is_snapshot s t ≡ true
    → snapshot_revision s ≡ snapshot_revision (some t)
unfolding is_snapshot
snapshot-revision s t h = ground arith

apply_state-Follows :
    (limit : ℕ) (state : InboxManifestState) (a : Answers) (client : SyncClient)
    → Follows client.snapshot (apply_state limit state a client)
unfolding apply_state download_and_publish
apply_state-Follows limit state a client = ground arith

-- A synchronization that succeeds leaves a snapshot of the revision that it reports, and one that fails
-- leaves the snapshot as it was.
pub synchronize_with_session-Follows :
    (limit : ℕ) (a : Answers) (client : SyncClient)
    → Follows client.snapshot (synchronize_with_session limit a client)
unfolding synchronize_with_session
synchronize_with_session-Follows limit a client = ground arith

abbrev returns {ℓ} : {A : Type ℓ} → Option A → Bool
returns none = false
returns (some a) = true

returned {ℓ} : {A : Type ℓ} (r : Option A) → returns r ≡ true → (a : A) × (r ≡ some a)
returned none h = absurd (ground arith)
returned (some a) h = (a, refl)

module _ {W : Type 0} (now : W → Result SyncError ℕ × W)
    (poll : W → Result SyncError PollingSecretClaimResult × W) (sleep : ℕ → W → W)
    (start : W → Result SyncError AuthorizationStart × W) (parse : Str → Option Url)
    (answer : ReaderSession → Option ℕ × Option Str → W → Answers × W) (limit polls : ℕ)
    (time : W → ℕ) (reads_clock : (w : W) → now w ≡ (ok (time w), w))
    (keeps_time : (w : W) → time w ≤ time (poll w).1)
    (sleeps : (w : W) (seconds : ℕ) → time w + seconds ≤ time (sleep seconds w))
    (patient : (w : W) → IsPatient (poll w).0)
    (expires : (w : W) (started : AuthorizationStart)
      → (start w).0 ≡ ok started
      → started.expires_at ≤ polls + time (start w).1) where
  valid_or_new-returns :
      (session : ReaderSession) (t : Result SyncError ℕ) (w : W)
      → returns (valid_or_new now poll sleep start parse answer limit (suc polls) session (t, w))
        ≡ true
  unfolding valid_or_new
  valid_or_new-returns session (err e) w = refl
  valid_or_new-returns session (ok t) w =
      let ends =
        authorize-ends now poll sleep start time reads_clock keeps_time sleeps patient parse polls w
          (expires w) in
      ground arith

  choose_session-returns :
      (session : Option ReaderSession) (w : W)
      → returns (choose_session now poll sleep start parse answer limit (suc polls) session w)
        ≡ true
  unfolding choose_session
  choose_session-returns none w =
      authorize-ends now poll sleep start time reads_clock keeps_time sleeps patient parse polls w
        (expires w)
  choose_session-returns (some session) w = valid_or_new-returns session (now w).0 (now w).1

  last_round :
      (n : ℕ) (client : SyncClient) (w : W)
      → returns (
          synchronize_rounds now poll sleep start parse answer limit
            (suc polls)
            (suc n)
            true
            client
            w)
        ≡ true
  unfolding synchronize_rounds
  last_round n client w =
      let (chosen, e) =
        returned
          (choose_session now poll sleep start parse answer limit (suc polls) client.session w)
          (choose_session-returns client.session w) in
      ground arith

  first_round :
      (n : ℕ) (client : SyncClient) (w : W)
      → returns (
          synchronize_rounds now poll sleep start parse answer limit
            (suc polls)
            (suc (suc n))
            false
            client
            w)
        ≡ true
  unfolding synchronize_rounds
  first_round n client w =
      let (chosen, f) =
        returned
          (choose_session now poll sleep start parse answer limit (suc polls) client.session w)
          (choose_session-returns client.session w) in
      elim (Result-cases chosen.0) [
        | inr (x, e) ↦ ground arith
        | inl (session, e) ↦
            let tried =
              attempt now poll sleep start parse answer limit (suc polls) session client chosen.1 in
            let last = last_round n (record tried.0.1 { session = none }) tried.1 in ground arith
      ]

  -- When the clock can be read and is not set back during a poll, a sleep takes at least as long as
  -- it is asked for, the server asks for at least a second between two polls, and each authorization
  -- expires after at most so many seconds, the synchronization ends with a result after at most two
  -- rounds of its loop, each with at most as many polls as these seconds, and one more.
  pub synchronize_total :
      (n : ℕ) (created : Result SyncError (Unit {0})) (client : SyncClient) (w : W)
      → (r : Synced × W) × (synchronize now poll sleep start parse answer limit
            (suc polls)
            created
            (suc (suc n))
            client
            w
          ≡ some r)
  unfolding synchronize
  synchronize_total n (err e) client w = (((err e, client), w), refl)
  synchronize_total n (ok u) client w =
      returned
        (synchronize_rounds now poll sleep start parse answer limit (suc polls) (suc (suc n)) false
          client w)
        (first_round n client w)
