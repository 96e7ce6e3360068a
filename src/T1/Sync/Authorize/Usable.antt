-- ===== src/T1/Sync/Authorize/Usable.antt =====
-- A session that an authorization ends with can be used.
use sony_prs.Base.{
  ℕ, zero, suc, ◌+◌, ◌≤◌, ◌≡◌, refl, ◌⊎◌, inl, inr, Bool, true, false, ◌&&◌, Option, none, some,
  ltb, subst, Result, ok, err, arith, Result-cases,
}
use sony_prs.Text.{Str}
use sony_prs.Protocol.{ReaderSession}
use sony_prs.T1.Sync.{SyncError}
use sony_prs.T1.Sync.Authorize.{
  can_read, can_download, require_expiry, require_session, Url, AuthorizationStart,
  PollingSecretClaimOutcome, pending, sender, reader, denied, poll_expired, already_claimed,
  PollingSecretClaimResult, Polled, wait, ended, apply_outcome, apply_result, poll_rounds,
  poll_start, authorize,
}

-- The clock finds the session valid, and it has both capabilities of a reader.
abbrev usable_until : ReaderSession → Result SyncError ℕ → Option ℕ → Bool
usable_until session (ok time) (some expires_at) =
    ltb time expires_at
    && can_read session.scope.capabilities
    && can_download session.scope.capabilities
usable_until session _ _ = false

unfoldable pub is_usable : ReaderSession → Result SyncError ℕ → Bool
is_usable session clock = usable_until session clock session.expires_at

-- An error, or a usable session.
abbrev pub usable_result : Result SyncError ReaderSession → Result SyncError ℕ → Bool
usable_result (err e) clock = true
usable_result (ok session) clock = is_usable session clock

require_session-is_usable :
    (claimed session : ReaderSession) (clock : Result SyncError ℕ)
    → require_session claimed clock ≡ ok session
    → is_usable session clock ≡ true
unfolding require_session require_expiry is_usable
require_session-is_usable claimed session clock h = ground arith

ended_inj : (r q : Result SyncError ReaderSession) → ended r ≡ ended q → r ≡ q
ended_inj r q h = cc

apply_outcome-is_usable :
    (outcome : PollingSecretClaimOutcome) (clock : Result SyncError ℕ) (session : ReaderSession)
    → apply_outcome outcome clock ≡ ended (ok session)
    → is_usable session clock ≡ true
unfolding apply_outcome
apply_outcome-is_usable (reader claimed) clock session h =
    require_session-is_usable claimed session clock
      (ended_inj (require_session claimed clock) (ok session) h)
apply_outcome-is_usable (pending seconds) clock session h = absurd (ground arith)
apply_outcome-is_usable sender clock session h = absurd (ground arith)
apply_outcome-is_usable denied clock session h = absurd (ground arith)
apply_outcome-is_usable poll_expired clock session h = absurd (ground arith)
apply_outcome-is_usable already_claimed clock session h = absurd (ground arith)

apply_result-is_usable :
    (result : Result SyncError PollingSecretClaimResult) (clock : Result SyncError ℕ)
    (session : ReaderSession)
    → apply_result result clock ≡ ended (ok session)
    → is_usable session clock ≡ true
unfolding apply_result
apply_result-is_usable (err e) clock session h = absurd (ground arith)
apply_result-is_usable (ok result) clock session h =
    let found = apply_outcome-is_usable result.outcome clock session in ground arith

Polled-cases :
    (p : Polled) → ((n : ℕ) × (p ≡ wait n)) ⊎ ((r : Result SyncError ReaderSession) × (p ≡ ended r))
Polled-cases (wait n) = inl (n, refl)
Polled-cases (ended r) = inr (r, refl)

-- A server that lets the client wait asks for at least a second.
abbrev pub AsksToWait : PollingSecretClaimOutcome → Type 0
AsksToWait (pending seconds) = 1 ≤ seconds
AsksToWait _ = Unit

abbrev pub IsPatient : Result SyncError PollingSecretClaimResult → Type 0
IsPatient (err e) = Unit
IsPatient (ok result) = AsksToWait result.outcome

apply_outcome-wait :
    (outcome : PollingSecretClaimOutcome) (clock : Result SyncError ℕ) (seconds : ℕ)
    → AsksToWait outcome
    → apply_outcome outcome clock ≡ wait seconds
    → 1 ≤ seconds
unfolding apply_outcome
apply_outcome-wait (pending asked) clock seconds p h = ground arith
apply_outcome-wait (reader claimed) clock seconds p h = absurd (ground arith)
apply_outcome-wait sender clock seconds p h = absurd (ground arith)
apply_outcome-wait denied clock seconds p h = absurd (ground arith)
apply_outcome-wait poll_expired clock seconds p h = absurd (ground arith)
apply_outcome-wait already_claimed clock seconds p h = absurd (ground arith)

apply_result-wait :
    (result : Result SyncError PollingSecretClaimResult) (clock : Result SyncError ℕ) (seconds : ℕ)
    → IsPatient result
    → apply_result result clock ≡ wait seconds
    → 1 ≤ seconds
unfolding apply_result
apply_result-wait (err e) clock seconds p h = absurd (ground arith)
apply_result-wait (ok result) clock seconds p h =
    let asked = apply_outcome-wait result.outcome clock seconds p in ground arith

module _ {W : Type 0} (now : W → Result SyncError ℕ × W)
    (poll : W → Result SyncError PollingSecretClaimResult × W) (sleep : ℕ → W → W)
    (start : W → Result SyncError AuthorizationStart × W) where
  poll_rounds-is_usable :
      (n expires_at : ℕ) (w v : W) (session : ReaderSession)
      → poll_rounds now poll sleep start n expires_at w ≡ some (ok session, v)
      → is_usable session (now v).0 ≡ true
  unfolding poll_rounds
  poll_rounds-is_usable zero expires_at w v session h = absurd (ground arith)
  poll_rounds-is_usable (suc n) expires_at w v session h =
      let polled = poll (now w).1 in
      elim (Polled-cases (apply_result polled.0 (now polled.1).0)) [
        | inl (seconds, e) ↦
            poll_rounds-is_usable n expires_at (sleep seconds polled.1) v session (ground arith)
        | inr (r, e) ↦
            let claimed = apply_result-is_usable polled.0 (now polled.1).0 session (ground arith) in
            let last : polled.1 ≡ v = ground arith in
            subst (λ u. is_usable session (now u).0 ≡ true) last claimed
      ]

  -- A session that an authorization ends with.
  authorize-is_usable :
      (parse : Str → Option Url) (n : ℕ) (w v : W) (session : ReaderSession)
      → authorize now poll sleep start parse n w ≡ some (ok session, v)
      → is_usable session (now v).0 ≡ true
  unfolding authorize poll_start
  authorize-is_usable parse n w v session h = elim (Result-cases (start w).0) [
    | inr (e, f) ↦ absurd (ground arith)
    | inl (started, f) ↦
        poll_rounds-is_usable n started.expires_at (start w).1 v session (ground arith)
  ]

-- Enough rounds, when the clock can be read, is not set back, and a sleep takes as long as asked.
abbrev returns {ℓ} : {A : Type ℓ} → Option A → Bool
returns none = false
returns (some a) = true

module _ {W : Type 0} (now : W → Result SyncError ℕ × W)
    (poll : W → Result SyncError PollingSecretClaimResult × W) (sleep : ℕ → W → W)
    (start : W → Result SyncError AuthorizationStart × W) (time : W → ℕ)
    (reads_clock : (w : W) → now w ≡ (ok (time w), w))
    (keeps_time : (w : W) → time w ≤ time (poll w).1)
    (sleeps : (w : W) (seconds : ℕ) → time w + seconds ≤ time (sleep seconds w))
    (patient : (w : W) → IsPatient (poll w).0) where
  poll_rounds-returns :
      (n expires_at : ℕ) (w : W)
      → expires_at ≤ n + time w
      → returns (poll_rounds now poll sleep start (suc n) expires_at w) ≡ true
  unfolding poll_rounds
  poll_rounds-returns zero expires_at w h = let c = reads_clock w in ground arith
  poll_rounds-returns (suc n) expires_at w h =
      let c = reads_clock w in
      let polled = poll w in
      elim (Polled-cases (apply_result polled.0 (now polled.1).0)) [
        | inl (seconds, e) ↦
            let k = keeps_time w in
            let m = sleeps polled.1 seconds in
            let p = apply_result-wait polled.0 (now polled.1).0 seconds (patient w) e in
            let ih = poll_rounds-returns n expires_at (sleep seconds polled.1) (omega arith) in
            ground arith
        | inr (r, e) ↦ ground arith
      ]

  authorize-returns :
      (parse : Str → Option Url) (n : ℕ) (w : W) (started : AuthorizationStart)
      → (start w).0 ≡ ok started
      → started.expires_at ≤ n + time (start w).1
      → returns (authorize now poll sleep start parse (suc n) w) ≡ true
  unfolding authorize poll_start
  authorize-returns parse n w started e h =
      let ends = poll_rounds-returns n started.expires_at (start w).1 h in ground arith

  -- An authorization that no start was answered to has ended too.
  pub authorize-ends :
      (parse : Str → Option Url) (n : ℕ) (w : W)
      → ((started : AuthorizationStart)
          → (start w).0 ≡ ok started
          → started.expires_at ≤ n + time (start w).1)
      → returns (authorize now poll sleep start parse (suc n) w) ≡ true
  unfolding authorize
  authorize-ends parse n w h = elim (Result-cases (start w).0) [
    | inr (e, f) ↦ ground arith
    | inl (started, f) ↦ authorize-returns parse n w started f (h started f)
  ]

  with_session :
      (parse : Str → Option Url) (n : ℕ) (w v : W) (r : Result SyncError ReaderSession)
      → authorize now poll sleep start parse n w ≡ some (r, v)
      → usable_result r (now v).0 ≡ true
  with_session parse n w v (err e) h = refl
  with_session parse n w v (ok session) h =
      authorize-is_usable now poll sleep start parse n w v session h

  with_result :
      (parse : Str → Option Url) (n : ℕ) (w : W) (a : Option (Result SyncError ReaderSession × W))
      → authorize now poll sleep start parse n w ≡ a
      → returns a ≡ true
      → (r : Result SyncError ReaderSession) × (v : W) × (authorize now poll sleep start parse n w
          ≡ some (r, v))
        × (usable_result r (now v).0 ≡ true)
  with_result parse n w none e h = absurd (ground arith)
  with_result parse n w (some (r, v)) e h = (r, v, e, with_session parse n w v r e)

  -- When the clock can be read and is not set back during a poll, a sleep takes at least as long as
  -- it is asked for, and the server asks for at least a second between two polls, an authorization
  -- that was started ends after at most as many polls as seconds are left to its expiry, and one
  -- more. It ends with an error, or with a session that is valid by the clock after the last poll and
  -- that has the capabilities to read the manifest and to download the bundle.
  pub authorize_total :
      (parse : Str → Option Url) (n : ℕ) (w : W) (started : AuthorizationStart)
      → (start w).0 ≡ ok started
      → started.expires_at ≤ n + time (start w).1
      → (r : Result SyncError ReaderSession) × (v : W) × (authorize now poll sleep start parse
            (suc n)
            w
          ≡ some (r, v))
        × (usable_result r (now v).0 ≡ true)
  authorize_total parse n w started e h =
      with_result parse (suc n) w (authorize now poll sleep start parse (suc n) w) refl
        (authorize-returns parse n w started e h)
