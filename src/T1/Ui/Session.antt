-- ===== src/T1/Ui/Session.antt =====
-- runtime.rs: synchronization, sleep and what the main loop takes out of `UiState`. An instant is a
-- number of microseconds.
pub mod Requests
use sony_prs.Base.{
  ℕ, ◌+◌, ◌-◌, ◌*◌, Bool, true, false, not, ◌&&◌, Option, none, some, String, Result, ok, err, ◌==◌,
  leb, if◌then◌else◌,
}
use sony_prs.T1.Orientation.{ReaderOrientation, portrait, landscape, Point}
use sony_prs.T1.Preferences.{ReaderPreferences}
use sony_prs.T1.Ui.{
  UiState, RawEvent, InputSourceKind, with_preferences, SyncTrigger, Mode, Feedback, error, debug,
  BundleHandoff, ReaderOperation, set_debug_feedback, set_error_feedback,
}
use sony_prs.T1.Sync.{SyncOutcome, updated, cleared, unchanged}
use sony_prs.T1.Ui.Dirty.{DirtyArea}
use sony_prs.T1.Ui.Input.{event_key, key_power, is_power}
use sony_prs.T1.Ui.Keys.{is_some}
use sony_prs.T1.Ui.Observe.{count_up}
use Prim.Native.Nat.{Ordering}
use Prim.Native.String.{compare}

pub data SyncEvent : Type 0 where
  approval_url : String → SyncEvent
  finished : Result String SyncOutcome → SyncEvent

abbrev pub take_reader_tap : UiState → UiState × Option Point
take_reader_tap s = (record s { reader_tap = none }, s.reader_tap)

abbrev pub take_reader_operation : UiState → UiState × Option ReaderOperation
take_reader_operation s = (record s { reader_operation = none }, s.reader_operation)

abbrev pub take_orientation_change : UiState → UiState × Option ReaderOrientation
take_orientation_change s = (record s { orientation_change = none }, s.orientation_change)

unfoldable pub take_sync_trigger : UiState → UiState × Option SyncTrigger
take_sync_trigger s =
    if s.wake_sync_requested
    then (record s { wake_sync_requested = false }, some SyncTrigger.wake)
    else if s.sync_requested
    then (record s { wake_sync_requested = false; sync_requested = false }, some SyncTrigger.manual)
    else (record s { wake_sync_requested = false; sync_requested = false }, none)

unfoldable pub sync_started : UiState → UiState
sync_started s = record s { sync_active = true; approval_url = none; feedback = some debug }

-- `start_requested_sync` with what its `start` answers.
unfoldable pub start_requested_sync : Bool → UiState → UiState × Option SyncTrigger
unfolding take_sync_trigger sync_started
start_requested_sync started s =
    let (taken, trigger) = take_sync_trigger s in
    if is_some trigger && started then (sync_started taken, trigger) else (taken, none)

abbrev pub sync_status_dirty : UiState → DirtyArea
sync_status_dirty s = if s.debug_messages then DirtyArea.status_feedback else DirtyArea.sync_status

unfoldable pub sync_cancelled : UiState → UiState
sync_cancelled s = record s { sync_active = false; approval_url = none; feedback = some error }

unfoldable pub enter_sleep : UiState → UiState
enter_sleep s = record s {
  mode = Mode.sleeping;
  wake_sync_requested = false;
  feedback = some debug;
}

abbrev pub is_sleeping : Mode → Bool
is_sleeping Mode.sleeping = true
is_sleeping _ = false

abbrev pub is_active : Mode → Bool
is_active Mode.active = true
is_active _ = false

unfoldable pub wake : ℕ → UiState → UiState × Bool
wake now s =
    if is_sleeping s.mode
    then (record s { mode = Mode.active; last_activity = now; wake_sync_requested = true }, true)
    else (s, false)

abbrev pub same_text : String → String → Bool
same_text a b = elim (compare a b) [ Ordering.eq ↦ true | _ ↦ false ]

abbrev pub same_url : Option String → String → Bool
same_url none url = false
same_url (some known) url = same_text known url

-- The end of a synchronization, before its feedback.
abbrev pub finish_sync : Option String → UiState → UiState
finish_sync failure s = record s {
  sync_active = false;
  approval_url = none;
  last_sync_failure = failure;
}

abbrev pub hand_off : BundleHandoff → UiState → UiState
hand_off handoff s = record s {
  bundle_ready = true;
  pending_handoff = some handoff;
  feedback = some debug;
}

unfoldable pub apply_sync_event : SyncEvent → UiState → UiState × Option DirtyArea
apply_sync_event (approval_url url) s =
    if same_url s.approval_url url
    then (s, none)
    else (record s { approval_url = some url; feedback = some debug }, some DirtyArea.full_area)
apply_sync_event (finished (ok (updated revision entry_point))) s =
    (hand_off BundleHandoff.updated (finish_sync none s), some DirtyArea.full_area)
apply_sync_event (finished (ok (cleared revision))) s =
    (hand_off BundleHandoff.cleared (finish_sync none s), some DirtyArea.full_area)
apply_sync_event (finished (ok (unchanged revision))) s = (
  set_debug_feedback (finish_sync none s),
  some (if is_some s.approval_url then DirtyArea.full_area else sync_status_dirty s),
)
apply_sync_event (finished (err why)) s = (
  set_error_feedback (finish_sync (some why) s),
  some (if is_some s.approval_url then DirtyArea.full_area else DirtyArea.status_feedback),
)

abbrev pub should_enter_inactivity_sleep : ℕ → ℕ → UiState → Bool
should_enter_inactivity_sleep now timeout s =
    is_active s.mode && not s.sync_active && leb timeout (now - s.last_activity)

abbrev pub is_idle : ℕ → UiState → Bool
is_idle now s = leb 2000000 (now - s.last_activity)

abbrev pub same_orientation : ReaderOrientation → ReaderOrientation → Bool
same_orientation portrait portrait = true
same_orientation landscape landscape = true
same_orientation _ _ = false

-- What the display, the reader and the save of the preferences answer; the preferences follow.
unfoldable pub apply_orientation_change :
    Bool → Bool → Bool → ReaderOrientation → UiState → UiState × Option DirtyArea
apply_orientation_change displayed laid_out saved target s =
    if same_orientation target s.orientation
    then (s, none)
    else if displayed && laid_out
    then (
      record s { orientation = target; feedback = some (if saved then debug else error) },
      some DirtyArea.full_area,
    )
    else (set_error_feedback s, some DirtyArea.full_area)

-- The hand-over of a new bundle in `run`, when the shell is idle: what the reader's reload and the
-- clean-up of the old generations answer (the message of a failure), and whether the library is empty then.
unfoldable pub hand_over : Option String → Option String → Bool → UiState → UiState
hand_over (some why) cleaned empty s = record s {
  last_sync_failure = some why;
  feedback = some error;
}
hand_over none none empty s = record s {
  bundle_ready = false;
  pending_handoff = none;
  library_empty = empty;
  feedback = some debug;
}
hand_over none (some why) empty s = record s {
  bundle_ready = false;
  pending_handoff = none;
  library_empty = empty;
  last_sync_failure = some why;
  feedback = some error;
}

-- The end of `sleep_cycle`, at a time.
unfoldable pub woken : ℕ → UiState → UiState
unfolding wake
woken now s =
    let (awake, woke) = wake now s in
    record awake {
      feedback = some debug;
      last_power_duration_ms = none;
      ignore_power_until = some (now + 2000000);
    }

-- `run` up to its loop, with what the first `start` of the synchronization task answers, at a time.
unfoldable pub startup : Bool → ReaderPreferences → ℕ → UiState
unfolding sync_started with_preferences
startup started preferences now =
    if started
    then sync_started (with_preferences preferences now)
    else with_preferences preferences now

-- `wait_for_display_wake` on an event that it reads while the device sleeps.
unfoldable pub wake_side_event : InputSourceKind → RawEvent → UiState → UiState
wake_side_event source event s =
    if is_power source && (event.event_type == event_key) && (event.code == key_power)
    then record s {
      feedback = none;
      last_key = some (source, event);
      key_events = count_up s.key_events;
    }
    else s

-- The main loop before a reboot or a power-off.
abbrev pub rebooting : UiState → UiState
rebooting s = record s { mode = Mode.rebooting; feedback = some debug }
