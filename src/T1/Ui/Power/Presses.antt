-- ===== src/T1/Ui/Power/Presses.antt =====
-- runtime.rs: the press of the power button that the shell has recorded (`power_press_us`).
use sony_prs.Base.{
  ℕ, ◌≡◌, refl, subst, ◌⊎◌, inl, inr, Bool, true, false, not, ◌&&◌, Option, none, some, String, sym,
  ◌∙◌, Option-cases, if◌then◌else◌, arith, Bool-cases,
}
use sony_prs.T1.Orientation.{ReaderOrientation}
use sony_prs.T1.Ui.{UiState, RawEvent, InputSourceKind, with_preferences}
use sony_prs.T1.Ui.Input.{is_value, timestamp_micros}
use sony_prs.T1.Ui.Activate.{Outcome}
use sony_prs.T1.Ui.Keys.{is_some, trigger_menu_redraw, poll_menu_hold}
use sony_prs.T1.Ui.Observe.{observe}
use sony_prs.T1.Ui.Session.{
  take_sync_trigger, start_requested_sync, sync_started, sync_cancelled, enter_sleep, wake, woken,
  SyncEvent, apply_sync_event, apply_orientation_change, hand_over, startup, wake_side_event,
}
use sony_prs.T1.Ui.Navigation.Reach.{
  Step, input, hold, tap, operation, turn, turned, reader, sync, synced, cancelled, handed, sleep,
  asleep, wakes, reboot, Reachable, start,
}
use sony_prs.T1.Ui.Power.Kept.{Holds}
use sony_prs.T1.Ui.Power.Recorded.{is_power_key, ignores_power, recorded_after, observe-Holds}

-- The shell observes the release of the power button and does not ignore it.
abbrev pub hears_release : {s t : UiState} → Step s t → Bool
hears_release (input now source e s o h) =
    is_power_key source e && is_value 0 e.value && not (ignores_power now s.ignore_power_until)
hears_release (hold now s) = false
hears_release (tap s) = false
hears_release (operation s) = false
hears_release (turn s) = false
hears_release (turned displayed laid_out saved target s) = false
hears_release (reader fullscreen font_scale_percent feedback s) = false
hears_release (sync started s) = false
hears_release (synced event s) = false
hears_release (cancelled s) = false
hears_release (handed reloaded cleaned empty s) = false
hears_release (sleep s) = false
hears_release (asleep source e s) = false
hears_release (wakes now s) = false
hears_release (reboot s) = false

-- The shell observed a press of the power button at a time, and has heard no release since.
pub data Pressed (p : ℕ) : UiState → Type 0 where
  pressed :
      (now : ℕ) (source : InputSourceKind) (e : RawEvent) (s : UiState) (o : Outcome)
      → Reachable s
      → observe now source e s ≡ some o
      → is_power_key source e ≡ true
      → is_value 1 e.value ≡ true
      → timestamp_micros e ≡ p
      → Pressed p o.state
  since : (s t : UiState) → Pressed p s → (st : Step s t) → hears_release st ≡ false → Pressed p t

all_false : (b : Bool) → b && not true ≡ false
all_false true = refl
all_false false = refl

-- A step that is no input keeps the recorded press.
turned-kept :
    (displayed laid_out saved : Bool) (target : ReaderOrientation) (s : UiState)
    → (apply_orientation_change displayed laid_out saved target s).0.power_press_us
      ≡ s.power_press_us
unfolding apply_orientation_change
turned-kept displayed laid_out saved target s = ground arith

module _ (s : UiState) where
  hold-kept : (now : ℕ) → (poll_menu_hold now s).0.power_press_us ≡ s.power_press_us
  unfolding poll_menu_hold trigger_menu_redraw
  hold-kept now = ground arith

  sync-kept :
      (started : Bool) → (start_requested_sync started s).0.power_press_us ≡ s.power_press_us
  unfolding start_requested_sync take_sync_trigger sync_started
  sync-kept started = ground arith

  synced-kept : (event : SyncEvent) → (apply_sync_event event s).0.power_press_us ≡ s.power_press_us
  unfolding apply_sync_event
  synced-kept event = ground arith

  handed-kept :
      (reloaded cleaned : Option String) (empty : Bool)
      → (hand_over reloaded cleaned empty s).power_press_us ≡ s.power_press_us
  unfolding hand_over
  handed-kept reloaded cleaned empty = ground arith

  woken-kept : (now : ℕ) → (woken now s).power_press_us ≡ s.power_press_us
  unfolding woken wake
  woken-kept now = ground arith

  asleep-kept :
      (source : InputSourceKind) (e : RawEvent)
      → (wake_side_event source e s).power_press_us ≡ s.power_press_us
  unfolding wake_side_event
  asleep-kept source e = ground arith

module _ (now : ℕ) (source : InputSourceKind) (e : RawEvent) (s : UiState) (o : Outcome)
    (h : observe now source e s ≡ some o) (p : ℕ) where
  kept_value :
      (p : ℕ)
      → (if is_value 1 e.value
          then (if is_some s.power_press_us then s.power_press_us else some (timestamp_micros e))
          else if is_value 0 e.value
          then none
          else s.power_press_us)
        ≡ some p
      → ((is_value 1 e.value ≡ true) × (timestamp_micros e ≡ p))
        ⊎ ((is_value 0 e.value ≡ false) × (s.power_press_us ≡ some p))
  kept_value p k = elim (Bool-cases (is_value 1 e.value)) [
    | inl v ↦ elim (Option-cases s.power_press_us) [
      | inl free ↦ inl (v, ground arith)
      | inr (q, held) ↦ inr (ground arith, ground arith)
    ]
    | inr v ↦ inr (ground arith, ground arith)
  ]

  -- The recorded press is that of this event, or that of before.
  input-recorded :
      recorded_after now source e s ≡ some p
      → ((is_power_key source e ≡ true) × (is_value 1 e.value ≡ true) × (timestamp_micros e ≡ p))
        ⊎ ((hears_release (input now source e s o h) ≡ false) × (s.power_press_us ≡ some p))
  input-recorded k = elim (Bool-cases (is_power_key source e)) [
    | inr other ↦ inr (rw other refl, rw other at k)
    | inl key ↦ elim (Bool-cases (ignores_power now s.ignore_power_until)) [
      | inl ignored ↦
          inr (rw (key, ignored) (all_false (is_value 0 e.value)), rw (key, ignored) at k)
      | inr heard ↦ elim (kept_value p (rw (key, heard) at k)) [
        | inl (v, at) ↦ inl (key, v, at)
        | inr (v, held) ↦ inr (rw (key, v) refl, held)
      ]
    ]
  ]

-- The press that a state has recorded.
abbrev Recorded : UiState → Type 0
Recorded s = (p : ℕ) → s.power_press_us ≡ some p → Pressed p s

kept-Recorded :
    (s t : UiState) (st : Step s t)
    → hears_release st ≡ false
    → t.power_press_us ≡ s.power_press_us
    → Recorded s
    → Recorded t
kept-Recorded s t st quiet same r p h = since s t (r p (sym same ∙ h)) st quiet

input-Recorded :
    (now : ℕ) (source : InputSourceKind) (e : RawEvent) (s : UiState) (o : Outcome)
    → observe now source e s ≡ some o
    → Reachable s
    → Recorded s
    → Recorded o.state
input-Recorded now source e s o h reached r p k =
    let after : o.state.power_press_us ≡ recorded_after now source e s =
      subst (Holds (recorded_after now source e s)) h (observe-Holds now source e s) in
    elim (input-recorded now source e s o h p (sym after ∙ k)) [
      | inl (key, v, at) ↦ pressed now source e s o reached h key v at
      | inr (quiet, held) ↦ since s o.state (r p held) (input now source e s o h) quiet
    ]

step-Recorded : {s t : UiState} → Step s t → Reachable s → Recorded s → Recorded t
unfolding sync_cancelled enter_sleep
step-Recorded (input now source e s o h) reached r = input-Recorded now source e s o h reached r
step-Recorded (hold now s) reached r = kept-Recorded s _ (hold now s) refl (hold-kept s now) r
step-Recorded (tap s) reached r = kept-Recorded s _ (tap s) refl refl r
step-Recorded (operation s) reached r = kept-Recorded s _ (operation s) refl refl r
step-Recorded (turn s) reached r = kept-Recorded s _ (turn s) refl refl r
step-Recorded (turned displayed laid_out saved target s) reached r =
    kept-Recorded s _ (turned displayed laid_out saved target s) refl
      (turned-kept displayed laid_out saved target s) r
step-Recorded (reader fullscreen font_scale_percent feedback s) reached r =
    kept-Recorded s _ (reader fullscreen font_scale_percent feedback s) refl refl r
step-Recorded (sync started s) reached r =
    kept-Recorded s _ (sync started s) refl (sync-kept s started) r
step-Recorded (synced event s) reached r =
    kept-Recorded s _ (synced event s) refl (synced-kept s event) r
step-Recorded (cancelled s) reached r = kept-Recorded s _ (cancelled s) refl refl r
step-Recorded (handed reloaded cleaned empty s) reached r =
    kept-Recorded s _ (handed reloaded cleaned empty s) refl (handed-kept s reloaded cleaned empty)
      r
step-Recorded (sleep s) reached r = kept-Recorded s _ (sleep s) refl refl r
step-Recorded (asleep source e s) reached r =
    kept-Recorded s _ (asleep source e s) refl (asleep-kept s source e) r
step-Recorded (wakes now s) reached r = kept-Recorded s _ (wakes now s) refl (woken-kept s now) r
step-Recorded (reboot s) reached r = kept-Recorded s _ (reboot s) refl refl r

-- The recorded press was observed, and no release of it was heard since.
pub Reachable-Pressed :
    {s : UiState} → Reachable s → (p : ℕ) → s.power_press_us ≡ some p → Pressed p s
unfolding startup sync_started with_preferences
Reachable-Pressed (start true preferences now) p h = cc
Reachable-Pressed (start false preferences now) p h = cc
Reachable-Pressed (Reachable.then s t r st) p h = step-Recorded st r (Reachable-Pressed r) p h
