-- ===== src/T1/Ui/Navigation/Reach.antt =====
-- runtime.rs: the states that the main loop can reach, as a relation of its steps.
use sony_prs.Base.{ℕ, ◌≡◌, refl, subst, Bool, true, false, Option, none, some, String, arith}
use sony_prs.T1.Orientation.{ReaderOrientation}
use sony_prs.T1.Preferences.{ReaderPreferences}
use sony_prs.T1.Ui.{UiState, RawEvent, InputSourceKind, Feedback, with_preferences}
use sony_prs.T1.Ui.Activate.{Outcome}
use sony_prs.T1.Ui.Keys.{trigger_menu_redraw, poll_menu_hold}
use sony_prs.T1.Ui.Observe.{observe}
use sony_prs.T1.Ui.Session.{
  SyncEvent, take_reader_tap, take_reader_operation, take_orientation_change, take_sync_trigger,
  start_requested_sync, sync_started, sync_cancelled, enter_sleep, wake, woken, apply_sync_event,
  apply_orientation_change, hand_over, rebooting, startup, wake_side_event,
}
use sony_prs.T1.Ui.Navigation.{opened_from, pending_fits, IsWellFormed, Keeps}
use sony_prs.T1.Ui.Navigation.Events.{observe-Keeps}

-- What `run`, `sleep_cycle` and `wait_for_display_wake` do to the state. The answers of the reader, the
-- display and the synchronization task are any.
pub data Step : UiState → UiState → Type 0 where
  input :
      (now : ℕ) (source : InputSourceKind) (e : RawEvent) (s : UiState) (o : Outcome)
      → observe now source e s ≡ some o
      → Step s o.state
  hold : (now : ℕ) (s : UiState) → Step s (poll_menu_hold now s).0
  tap : (s : UiState) → Step s (take_reader_tap s).0
  operation : (s : UiState) → Step s (take_reader_operation s).0
  turn : (s : UiState) → Step s (take_orientation_change s).0
  turned :
      (displayed laid_out saved : Bool) (target : ReaderOrientation) (s : UiState)
      → Step s (apply_orientation_change displayed laid_out saved target s).0
  reader :
      (fullscreen : Bool) (font_scale_percent : ℕ) (feedback : Option Feedback) (s : UiState)
      → Step s (record s {
        fullscreen = fullscreen;
        font_scale_percent = font_scale_percent;
        feedback = feedback;
      })
  sync : (started : Bool) (s : UiState) → Step s (start_requested_sync started s).0
  synced : (event : SyncEvent) (s : UiState) → Step s (apply_sync_event event s).0
  cancelled : (s : UiState) → Step s (sync_cancelled s)
  handed :
      (reloaded cleaned : Option String) (empty : Bool) (s : UiState)
      → Step s (hand_over reloaded cleaned empty s)
  sleep : (s : UiState) → Step s (enter_sleep s)
  asleep :
      (source : InputSourceKind) (e : RawEvent) (s : UiState) → Step s (wake_side_event source e s)
  wakes : (now : ℕ) (s : UiState) → Step s (woken now s)
  reboot : (s : UiState) → Step s (rebooting s)

pub data Reachable : UiState → Type 0 where
  start :
      (started : Bool) (preferences : ReaderPreferences) (now : ℕ)
      → Reachable (startup started preferences now)
  then : (s t : UiState) → Reachable s → Step s t → Reachable t

hold-IsWellFormed : (now : ℕ) (s : UiState) → IsWellFormed s → IsWellFormed (poll_menu_hold now s).0
unfolding poll_menu_hold trigger_menu_redraw
hold-IsWellFormed now s w = ground arith

turned-IsWellFormed :
    (displayed laid_out saved : Bool) (target : ReaderOrientation) (s : UiState)
    → IsWellFormed s
    → IsWellFormed (apply_orientation_change displayed laid_out saved target s).0
unfolding apply_orientation_change
turned-IsWellFormed displayed laid_out saved target s w = ground arith

sync-IsWellFormed :
    (started : Bool) (s : UiState)
    → IsWellFormed s
    → IsWellFormed (start_requested_sync started s).0
unfolding start_requested_sync take_sync_trigger sync_started
sync-IsWellFormed started s w = ground arith

synced-IsWellFormed :
    (event : SyncEvent) (s : UiState) → IsWellFormed s → IsWellFormed (apply_sync_event event s).0
unfolding apply_sync_event
synced-IsWellFormed event s w = ground arith

handed-IsWellFormed :
    (reloaded cleaned : Option String) (empty : Bool) (s : UiState)
    → IsWellFormed s
    → IsWellFormed (hand_over reloaded cleaned empty s)
unfolding hand_over
handed-IsWellFormed reloaded cleaned empty s w = ground arith

woken-IsWellFormed : (now : ℕ) (s : UiState) → IsWellFormed s → IsWellFormed (woken now s)
unfolding woken wake
woken-IsWellFormed now s w = ground arith

asleep-IsWellFormed :
    (source : InputSourceKind) (e : RawEvent) (s : UiState)
    → IsWellFormed s
    → IsWellFormed (wake_side_event source e s)
unfolding wake_side_event
asleep-IsWellFormed source e s w = ground arith

startup-IsWellFormed :
    (started : Bool) (preferences : ReaderPreferences) (now : ℕ)
    → IsWellFormed (startup started preferences now)
unfolding startup sync_started with_preferences opened_from pending_fits
startup-IsWellFormed true preferences now = record {
  menu = refl;
  history = refl;
  focus = refl;
  waiting = refl;
}
startup-IsWellFormed false preferences now = record {
  menu = refl;
  history = refl;
  focus = refl;
  waiting = refl;
}

step-IsWellFormed : {s t : UiState} → Step s t → IsWellFormed s → IsWellFormed t
unfolding sync_cancelled enter_sleep
step-IsWellFormed (input now source e s o h) w = subst Keeps h (observe-Keeps now source e s w)
step-IsWellFormed (hold now s) w = hold-IsWellFormed now s w
step-IsWellFormed (tap s) w = w
step-IsWellFormed (operation s) w = w
step-IsWellFormed (turn s) w = w
step-IsWellFormed (turned displayed laid_out saved target s) w =
    turned-IsWellFormed displayed laid_out saved target s w
step-IsWellFormed (reader fullscreen font_scale_percent feedback s) w = w
step-IsWellFormed (sync started s) w = sync-IsWellFormed started s w
step-IsWellFormed (synced event s) w = synced-IsWellFormed event s w
step-IsWellFormed (cancelled s) w = w
step-IsWellFormed (handed reloaded cleaned empty s) w =
    handed-IsWellFormed reloaded cleaned empty s w
step-IsWellFormed (sleep s) w = w
step-IsWellFormed (asleep source e s) w = asleep-IsWellFormed source e s w
step-IsWellFormed (wakes now s) w = woken-IsWellFormed now s w
step-IsWellFormed (reboot s) w = w

-- In every state that the shell reaches, the history holds exactly the pages that were opened to get to
-- the page that is shown, with a focus for each of them, the menu is on only for the details, and a
-- power action waits for its confirmation only on that page.
pub Reachable-IsWellFormed : {s : UiState} → Reachable s → IsWellFormed s
Reachable-IsWellFormed (start started preferences now) =
    startup-IsWellFormed started preferences now
Reachable-IsWellFormed (then s t r st) = step-IsWellFormed st (Reachable-IsWellFormed r)

answered : (r : Option Outcome) → Keeps r → (o : Outcome) × (r ≡ some o)
answered none k = absurd k
answered (some o) k = (o, refl)

-- In a state that the shell reaches, every input event from every source is handled: none reaches an
-- `unreachable!()`, and the shell goes on in a state that it reaches.
pub Reachable-observe :
    (now : ℕ) (source : InputSourceKind) (e : RawEvent) {s : UiState}
    → Reachable s
    → (o : Outcome) × (observe now source e s ≡ some o) × Reachable o.state
Reachable-observe now source e {s} r =
    let (o, h) =
      answered (observe now source e s) (observe-Keeps now source e s (Reachable-IsWellFormed r)) in
    (o, h, then s o.state r (input now source e s o h))
