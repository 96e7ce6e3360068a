-- ===== src/T1/Ui/Activate.antt =====
-- runtime.rs: what a control does when it is activated by a key or a tap. `none` is `unreachable!()`.
use sony_prs.Base.{
  is_negative, magnitude, Bool, true, false, not, ◌&&◌, ◌||◌, Option, none, some, ltb,
  if◌then◌else◌,
}
use sony_prs.T1.Orientation.{toggle}
use sony_prs.T1.Preferences.{next_font_scale_percent}
use sony_prs.T1.Details.{status_bar_height}
use sony_prs.T1.Details.Actions.{DetailsPage, DetailsAction, is_action, contains_action}
use sony_prs.T1.Details.Regions.{details_action_at_for_page}
use sony_prs.T1.Details.Toggles.{
  DetailsToggle, DetailsPreference, details_toggle_at, details_preference_at,
}
use sony_prs.T1.Ui.{UiPage, UiState, PowerAction, ReaderOperation, debug, set_debug_feedback}
use sony_prs.T1.Ui.Dirty.{DirtyArea, is_home}
use sony_prs.T1.Ui.Focus.{
  screen_width, screen_height, details_page, is_settings_page, focus_actions,
  first_focusable_action,
}
use sony_prs.T1.Ui.Pages.{open_ui_page, return_to_reader, back_button}

-- The state after an input, the damage and the power action.
pub record Outcome : Type 0 where
  pub state : UiState
  pub dirty : Option DirtyArea
  pub action : PowerAction

abbrev pub quiet : UiState → Option DirtyArea → Option Outcome
quiet s dirty = some (record { state = s; dirty = dirty; action = PowerAction.no_action })

abbrev pub redrawn : UiState → Option Outcome
redrawn s = quiet s (some DirtyArea.full_area)

abbrev pub without_power : Option (UiState × Option DirtyArea) → Option Outcome
without_power none = none
without_power (some (s, dirty)) = quiet s dirty

unfoldable pub return_to_settings : UiState → Option Outcome
unfolding back_button
return_to_settings s = without_power (back_button s)

unfoldable pub open_power_confirmation : PowerAction → UiState → Option Outcome
unfolding open_ui_page
open_power_confirmation power s =
    redrawn
      (open_ui_page UiPage.power_confirmation (record s { pending_power_action = some power }))

unfoldable pub request_manual_sync : UiState → UiState
request_manual_sync s = record s { sync_requested = true; feedback = some debug }

abbrev pub request : ReaderOperation → UiState → UiState
request operation s = record s { reader_operation = some operation; feedback = some debug }

-- `ConfirmPower`, with the pending action taken.
unfoldable pub confirm_power : Option PowerAction → UiState → Option Outcome
unfolding return_to_settings
confirm_power (some PowerAction.reboot) s = some (record {
  state = set_debug_feedback s;
  dirty = some DirtyArea.full_area;
  action = PowerAction.reboot;
})
confirm_power (some PowerAction.power_off) s = some (record {
  state = set_debug_feedback s;
  dirty = some DirtyArea.full_area;
  action = PowerAction.power_off;
})
confirm_power _ s = return_to_settings s

unfoldable pub activate_modern_action : DetailsAction → UiState → Option Outcome
unfolding open_ui_page return_to_reader return_to_settings open_power_confirmation
    request_manual_sync confirm_power toggle
activate_modern_action DetailsAction.open_reading s = redrawn (open_ui_page UiPage.reading s)
activate_modern_action DetailsAction.open_synchronization s =
    redrawn (open_ui_page UiPage.synchronization s)
activate_modern_action DetailsAction.open_device_diagnostics s =
    redrawn (open_ui_page UiPage.device_diagnostics s)
activate_modern_action DetailsAction.back_to_reading s = redrawn (return_to_reader s)
activate_modern_action DetailsAction.back_to_settings s = return_to_settings s
activate_modern_action DetailsAction.cancel_power_action s = return_to_settings s
activate_modern_action DetailsAction.orientation s =
    redrawn (record s { orientation_change = some (toggle s.orientation); feedback = some debug })
activate_modern_action DetailsAction.show_status_bar s =
    quiet (request (ReaderOperation.set_fullscreen (not s.fullscreen)) s) none
activate_modern_action DetailsAction.font_decrease s =
    redrawn (request ReaderOperation.decrease_font_scale s)
activate_modern_action DetailsAction.font_reset s =
    redrawn (request ReaderOperation.reset_font_scale s)
activate_modern_action DetailsAction.font_increase s =
    redrawn (request ReaderOperation.increase_font_scale s)
activate_modern_action DetailsAction.reading_progress s =
    redrawn (record s { reading_progress = not s.reading_progress; feedback = some debug })
activate_modern_action DetailsAction.debug_messages s =
    redrawn (record s { debug_messages = not s.debug_messages })
activate_modern_action DetailsAction.sync_now s =
    quiet (request_manual_sync s) (some (DirtyArea.action DetailsAction.sync_now))
activate_modern_action DetailsAction.return_to_entry_point s =
    quiet (request ReaderOperation.return_to_entry_point s)
      (some (DirtyArea.action DetailsAction.return_to_entry_point))
activate_modern_action DetailsAction.display_test s = redrawn (open_ui_page UiPage.display_test s)
activate_modern_action DetailsAction.reboot s = open_power_confirmation PowerAction.reboot s
activate_modern_action DetailsAction.power_off s = open_power_confirmation PowerAction.power_off s
activate_modern_action DetailsAction.confirm_power s =
    confirm_power s.pending_power_action (record s { pending_power_action = none })

-- `activate_focused_action` with the control that has the focus.
unfoldable pub activate_focus : Option DetailsAction → UiState → Option Outcome
unfolding contains_action focus_actions activate_modern_action first_focusable_action
activate_focus none s = quiet s none
activate_focus (some a) s =
    if contains_action a (focus_actions s)
    then activate_modern_action a s
    else redrawn (record s { focused_action = first_focusable_action s })

unfoldable pub activate_focused_action : UiState → Option Outcome
unfolding activate_focus
activate_focused_action s = activate_focus s.focused_action s

-- The control under the last touch.
unfoldable pub touched_action : UiState → Option DetailsAction
unfolding details_action_at_for_page
touched_action s =
    details_action_at_for_page (details_page s) s.touch_x s.touch_y (screen_width s)
      (screen_height s)

-- The last match of `activate_tap`, on the controls of the legacy page.
unfoldable pub activate_legacy_action : DetailsAction → UiState → Option Outcome
unfolding open_ui_page return_to_reader return_to_settings open_power_confirmation
    request_manual_sync
activate_legacy_action DetailsAction.sync_now s =
    quiet (request_manual_sync s) (some (DirtyArea.action DetailsAction.sync_now))
activate_legacy_action DetailsAction.return_to_entry_point s =
    quiet (request ReaderOperation.return_to_entry_point s)
      (some (DirtyArea.action DetailsAction.return_to_entry_point))
activate_legacy_action DetailsAction.display_test s = redrawn (open_ui_page UiPage.display_test s)
activate_legacy_action DetailsAction.reboot s = open_power_confirmation PowerAction.reboot s
activate_legacy_action DetailsAction.power_off s = open_power_confirmation PowerAction.power_off s
activate_legacy_action DetailsAction.back_to_reading s = redrawn (return_to_reader s)
activate_legacy_action DetailsAction.back_to_settings s = return_to_settings s
activate_legacy_action DetailsAction.cancel_power_action s = return_to_settings s
activate_legacy_action _ s = none

-- A tap that began on a control: it counts when it was pressed to the end and ends on it.
unfoldable pub commit :
    (DetailsAction → UiState → Option Outcome)
    → Option DetailsAction
    → Option DetailsAction
    → UiState
    → Option Outcome
unfolding touched_action
commit activate none pressed s = quiet s none
commit activate (some a) pressed s =
    if is_action pressed a && is_action (touched_action s) a
    then activate a s
    else quiet s (some (DirtyArea.action a))

-- The toggles and preferences of the legacy page; `none` when the tap is on none of them.
unfoldable pub tap_preference : Option DetailsPreference → UiState → Option Outcome
unfolding next_font_scale_percent toggle
tap_preference (some DetailsPreference.font_size) s =
    redrawn
      (request (ReaderOperation.set_font_scale (next_font_scale_percent s.font_scale_percent)) s)
tap_preference (some DetailsPreference.orientation) s =
    redrawn (record s { orientation_change = some (toggle s.orientation); feedback = some debug })
tap_preference _ s = none

unfoldable pub tap_toggle : Option DetailsToggle → UiState → Option Outcome
unfolding tap_preference details_preference_at
tap_toggle (some DetailsToggle.debug_messages) s =
    quiet (record s { debug_messages = not s.debug_messages }) (some DirtyArea.interaction)
tap_toggle (some DetailsToggle.reading_progress) s =
    quiet (record s { reading_progress = not s.reading_progress }) (some DirtyArea.interaction)
tap_toggle (some DetailsToggle.fullscreen_reader) s =
    quiet (request (ReaderOperation.set_fullscreen (not s.fullscreen)) s) none
tap_toggle none s =
    tap_preference (details_preference_at s.touch_x s.touch_y (screen_width s) (screen_height s)) s

-- The legacy page's part of `activate_tap`. Without a control the rest of the function does nothing.
unfoldable pub tap_legacy : Option DetailsAction → Option DetailsAction → UiState → Option Outcome
unfolding tap_toggle details_toggle_at activate_legacy_action commit
tap_legacy none none s =
    elim (tap_toggle (details_toggle_at s.touch_x s.touch_y (screen_width s) (screen_height s)) s) [
      | none ↦ quiet s none
      | some outcome ↦ some outcome
    ]
tap_legacy tapped pressed s = commit activate_legacy_action tapped pressed s

abbrev pub is_legacy : DetailsPage → Bool
is_legacy DetailsPage.legacy = true
is_legacy _ = false

abbrev pub is_display_test : UiPage → Bool
is_display_test UiPage.display_test = true
is_display_test _ = false

abbrev pub or_else : Option DetailsAction → Option DetailsAction → Option DetailsAction
or_else none other = other
or_else (some a) other = some a

-- The control of a tap: that of the press, or the one under the touch when no press was seen.
abbrev pub tapped_action : UiState → Option DetailsAction
unfolding touched_action
tapped_action s =
    or_else s.touch_action
      (if not s.touch_action_initialized && is_settings_page s then touched_action s else none)

unfoldable pub tap_status_bar : UiState → UiState
unfolding open_ui_page return_to_reader
tap_status_bar s = if is_home s.page then open_ui_page UiPage.details s else return_to_reader s

-- `activate_tap` behind the reads of its first lines.
unfoldable pub tap_page : Option DetailsAction → Option DetailsAction → UiState → Option Outcome
unfolding tap_legacy activate_modern_action commit tap_status_bar
tap_page tapped pressed s =
    if is_display_test s.page
    then redrawn s
    else if is_negative s.touch_y || ltb (magnitude s.touch_y) status_bar_height
    then redrawn (tap_status_bar s)
    else if not (is_settings_page s)
    then quiet (record s { reader_tap = some (record { x = s.touch_x; y = s.touch_y }) }) none
    else if is_legacy (details_page s)
    then tap_legacy tapped pressed s
    else commit activate_modern_action tapped pressed s

unfoldable pub activate_tap : UiState → Option Outcome
unfolding tap_page touched_action
activate_tap s =
    let tapped = tapped_action s in
    tap_page tapped (or_else s.pressed_action tapped)
      (record s { touch_action = none; touch_action_initialized = false; pressed_action = none })
