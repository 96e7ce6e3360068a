-- ===== src/T1/Ui.antt =====
-- runtime.rs: the state of the shell's screens (`UiState`) and its types. A feedback is kept without
-- its text, the status snapshot is left out, and an instant is a number of microseconds that each
-- operation is given.
pub mod Dirty
pub mod Input
pub mod Pages
pub mod Focus
pub mod Activate
pub mod Keys
pub mod Observe
pub mod Session
pub mod Navigation
pub mod Power
use sony_prs.Base.{
  ℕ, ℤ, pos, ◌*◌, ◌+◌, ◌==◌, Bool, true, false, not, ◌&&◌, List, [], Option, none, some, String,
  is_negative, magnitude,
}
use sony_prs.T1.Orientation.{ReaderOrientation, Point}
use sony_prs.T1.Preferences.{ReaderPreferences}
use sony_prs.T1.Details.Actions.{DetailsAction}

pub data UiPage : Type 0 where
  home details reading synchronization device_diagnostics power_confirmation display_test : UiPage

pub data SyncTrigger : Type 0 where
  wake manual : SyncTrigger

pub data Feedback : Type 0 where
  error debug : Feedback

-- The texts of `mode`.
pub data Mode : Type 0 where
  active sleeping rebooting : Mode

pub data PowerAction : Type 0 where
  no_action sleep reboot power_off : PowerAction

pub data ReaderOperation : Type 0 where
  previous_page next_page back return_to_entry_point : ReaderOperation
  set_fullscreen : Bool → ReaderOperation
  set_font_scale : ℕ → ReaderOperation
  decrease_font_scale reset_font_scale increase_font_scale : ReaderOperation

pub data BundleHandoff : Type 0 where
  updated cleared : BundleHandoff

pub data InputSourceKind : Type 0 where
  keys touch pmic_power sub_cpu_power : InputSourceKind

-- `RawEvent` of input.rs.
pub record RawEvent : Type 0 where
  pub sec : ℕ
  pub usec : ℕ
  pub event_type : ℕ
  pub code : ℕ
  pub value : ℤ

-- The vectors of the history are kept with their end first.
pub record UiState : Type 0 where
  pub orientation : ReaderOrientation
  pub orientation_change : Option ReaderOrientation
  pub font_scale_percent : ℕ
  pub page : UiPage
  pub settings_menu : Bool
  pub ui_history : List UiPage
  pub focus_history : List (Option DetailsAction)
  pub focused_action : Option DetailsAction
  pub mode : Mode
  pub feedback : Option Feedback
  pub debug_messages : Bool
  pub reading_progress : Bool
  pub fullscreen : Bool
  pub pending_power_action : Option PowerAction
  pub reader_tap : Option Point
  pub reader_operation : Option ReaderOperation
  pub touch_seen : Bool
  pub touch_raw_x : ℤ
  pub touch_raw_y : ℤ
  pub touch_x : ℤ
  pub touch_y : ℤ
  pub touch_down : Bool
  pub touch_action : Option DetailsAction
  pub pressed_action : Option DetailsAction
  pub touch_action_initialized : Bool
  pub touch_release_pending : Bool
  pub last_touch : Option RawEvent
  pub last_key : Option (InputSourceKind × RawEvent)
  pub touch_events : ℕ
  pub key_events : ℕ
  pub power_press_us : Option ℕ
  pub menu_press_us : Option ℕ
  pub menu_pressed_at : Option ℕ
  pub menu_hold_triggered : Bool
  pub last_power_duration_ms : Option ℕ
  pub ignore_power_until : Option ℕ
  pub sync_active : Bool
  pub sync_requested : Bool
  pub wake_sync_requested : Bool
  pub approval_url : Option String
  pub bundle_ready : Bool
  pub pending_handoff : Option BundleHandoff
  pub library_empty : Bool
  pub last_sync_failure : Option String
  pub last_activity : ℕ

-- `UiState::with_preferences`, at a time.
unfoldable pub with_preferences : ReaderPreferences → ℕ → UiState
with_preferences preferences now = record {
  orientation = preferences.orientation;
  orientation_change = none;
  font_scale_percent = preferences.font_scale_percent;
  page = home;
  settings_menu = false;
  ui_history = [];
  focus_history = [];
  focused_action = none;
  mode = active;
  feedback = none;
  debug_messages = false;
  reading_progress = true;
  fullscreen = false;
  pending_power_action = none;
  reader_tap = none;
  reader_operation = none;
  touch_seen = false;
  touch_raw_x = pos 0;
  touch_raw_y = pos 0;
  touch_x = pos 0;
  touch_y = pos 0;
  touch_down = false;
  touch_action = none;
  pressed_action = none;
  touch_action_initialized = false;
  touch_release_pending = false;
  last_touch = none;
  last_key = none;
  touch_events = 0;
  key_events = 0;
  power_press_us = none;
  menu_press_us = none;
  menu_pressed_at = none;
  menu_hold_triggered = false;
  last_power_duration_ms = none;
  ignore_power_until = none;
  sync_active = false;
  sync_requested = false;
  wake_sync_requested = false;
  approval_url = none;
  bundle_ready = false;
  pending_handoff = none;
  library_empty = false;
  last_sync_failure = none;
  last_activity = now;
}

abbrev pub set_debug_feedback : UiState → UiState
set_debug_feedback s = record s { feedback = some debug }

abbrev pub set_error_feedback : UiState → UiState
set_error_feedback s = record s { feedback = some error }
