-- ===== src/T1/Ui/Keys.antt =====
-- runtime.rs: the menu button, the power button and the reader's page keys.
use sony_prs.Base.{
  ℕ, ◌-◌, ◌/◌, ℤ, Bool, true, false, not, ◌&&◌, Option, none, some, ◌==◌, ltb, leb, if◌then◌else◌,
}
use sony_prs.T1.Ui.{
  UiPage, UiState, RawEvent, PowerAction, ReaderOperation, debug, set_debug_feedback,
}
use sony_prs.T1.Ui.Dirty.{DirtyArea, is_home}
use sony_prs.T1.Ui.Input.{
  is_value, timestamp_micros, key_left, menu_hold_micros, long_press_micros, key_right,
}
use sony_prs.T1.Ui.Focus.{is_settings_page, move_focus}
use sony_prs.T1.Ui.Pages.{open_ui_page, home_button, back_button}
use sony_prs.T1.Ui.Activate.{
  Outcome, quiet, redrawn, without_power, request, activate_focused_action,
}

-- A press at least so many microseconds before; `saturating_sub` of the source is the subtraction.
abbrev pub held_for : ℕ → Option ℕ → ℕ → Bool
held_for micros none now = false
held_for micros (some start) now = leb micros (now - start)

abbrev pub is_some {ℓ} : {A : Type ℓ} → Option A → Bool
is_some none = false
is_some (some a) = true

unfoldable pub trigger_menu_redraw : UiState → UiState
trigger_menu_redraw s = record s { menu_hold_triggered = true; feedback = some debug }

-- At a time; the damage is that of the whole screen.
unfoldable pub poll_menu_hold : ℕ → UiState → UiState × Option DirtyArea
unfolding trigger_menu_redraw
poll_menu_hold now s =
    if not s.menu_hold_triggered && held_for menu_hold_micros s.menu_pressed_at now
    then (trigger_menu_redraw s, some DirtyArea.full_area)
    else (s, none)

unfoldable pub press_menu : ℕ → RawEvent → UiState → UiState
press_menu now event s = if is_some s.menu_press_us then s else record s {
  menu_press_us = some (timestamp_micros event);
  menu_pressed_at = some now;
  menu_hold_triggered = false;
  feedback = some debug;
}

unfoldable pub repeat_menu : RawEvent → UiState → Option Outcome
unfolding trigger_menu_redraw
repeat_menu event s =
    if not s.menu_hold_triggered
      && held_for menu_hold_micros s.menu_press_us (timestamp_micros event)
    then redrawn (trigger_menu_redraw s)
    else quiet (set_debug_feedback s) none

-- The button is up: with what was triggered and whether the press was long.
unfoldable pub release_menu_after : Bool → Bool → UiState → Option Outcome
unfolding trigger_menu_redraw open_ui_page activate_focused_action
release_menu_after triggered long s =
    if not triggered && long
    then redrawn (trigger_menu_redraw s)
    else if not triggered && is_home s.page
    then redrawn (open_ui_page UiPage.details s)
    else if not triggered && is_settings_page s
    then activate_focused_action s
    else quiet (set_debug_feedback s) none

unfoldable pub release_menu : RawEvent → UiState → Option Outcome
unfolding release_menu_after
release_menu event s =
    let up = record s {
      menu_press_us = none;
      menu_pressed_at = none;
      menu_hold_triggered = false;
    } in
    if is_some s.menu_press_us
    then release_menu_after s.menu_hold_triggered
        (held_for menu_hold_micros s.menu_press_us (timestamp_micros event)) up
    else quiet (set_debug_feedback up) none

-- A switch on the value of an event: 1, 2, 0 or another.
abbrev pub by_value :
    ℤ → Option Outcome → Option Outcome → Option Outcome → Option Outcome → Option Outcome
by_value value pressed repeated released other =
    if is_value 1 value
    then pressed
    else if is_value 2 value
    then repeated
    else if is_value 0 value
    then released
    else other

unfoldable pub observe_menu : ℕ → RawEvent → UiState → Option Outcome
unfolding press_menu repeat_menu release_menu
observe_menu now event s =
    by_value event.value (quiet (press_menu now event s) none) (repeat_menu event s)
      (release_menu event s) (quiet s none)

abbrev pub diagnostics_dirty : DirtyArea → UiState → Option DirtyArea
diagnostics_dirty area s = if is_settings_page s then some area else none

-- With the damage of the power button.
abbrev pub powered : PowerAction → UiState → Option Outcome
powered power s =
    some (record { state = s; dirty = diagnostics_dirty DirtyArea.power s; action = power })

abbrev pub micros_held : Option ℕ → ℕ → ℕ
micros_held none now = 0
micros_held (some start) now = now - start

unfoldable pub release_power : RawEvent → UiState → Option Outcome
release_power event s =
    let duration = micros_held s.power_press_us (timestamp_micros event) in
    let up = record s {
      power_press_us = none;
      last_power_duration_ms = some (duration / 1000);
      feedback = some debug;
    } in
    if leb long_press_micros duration
    then powered PowerAction.reboot up
    else powered PowerAction.sleep up

unfoldable pub press_power : RawEvent → UiState → UiState
press_power event s = record s {
  power_press_us =
      if is_some s.power_press_us then s.power_press_us else some (timestamp_micros event);
  feedback = some debug;
}

-- The match of `observe_power` on the value of the event.
unfoldable pub power_value : RawEvent → UiState → Option Outcome
unfolding press_power release_power
power_value event s =
    by_value event.value (powered PowerAction.no_action (press_power event s))
      (powered PowerAction.no_action (set_debug_feedback s)) (release_power event s)
      (powered PowerAction.no_action s)

-- The deadline up to which the button is ignored after a wake.
unfoldable pub observe_power_until : Option ℕ → ℕ → RawEvent → UiState → Option Outcome
unfolding power_value
observe_power_until none now event s = power_value event s
observe_power_until (some deadline) now event s =
    if ltb now deadline
    then powered PowerAction.no_action (record s {
      ignore_power_until = if is_value 0 event.value then none else s.ignore_power_until;
      feedback = some debug;
    })
    else power_value event (record s { ignore_power_until = none })

unfoldable pub observe_power : ℕ → RawEvent → UiState → Option Outcome
unfolding observe_power_until
observe_power now event s = observe_power_until s.ignore_power_until now event s

-- Left and Right: the focus on a settings page, a page of the document on Home.
unfoldable pub page_key : RawEvent → UiState → Option Outcome
unfolding move_focus
page_key event s =
    if is_settings_page s && is_value 1 event.value
    then without_power (some (move_focus (event.code == key_right) s))
    else if is_home s.page && is_value 1 event.value
    then quiet
        (request
          (if event.code == key_left
            then ReaderOperation.previous_page
            else ReaderOperation.next_page)
          s)
        none
    else quiet s none

-- Home and Back, which act when they are pressed.
unfoldable pub home_key : RawEvent → UiState → Option Outcome
unfolding home_button
home_key event s =
    if is_value 1 event.value then without_power (some (home_button s)) else quiet s none

unfoldable pub back_key : RawEvent → UiState → Option Outcome
unfolding back_button
back_key event s = if is_value 1 event.value then without_power (back_button s) else quiet s none
