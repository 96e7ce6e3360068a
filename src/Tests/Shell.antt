-- ===== src/Tests/Shell.antt =====
-- The T1's shell: the menu button is pressed and released, then Back and the power button.
use sony_prs.Base.{ℕ, ◌≤◌, ◌≡◌, refl, pos, true, [], ◌∷◌, Option, none, some}
use sony_prs.T1.Region.{DisplayRegion}
use sony_prs.T1.Orientation.{portrait, viewport}
use sony_prs.T1.Preferences.{default_preferences}
use sony_prs.T1.Details.Actions.{
  DetailsPage, DetailsAction, contains_action, details_actions_for_page, same_action, to_index,
}
use sony_prs.T1.Details.Regions.{
  details_action_region_for_page, modern_action_region, font_region, modern_font_group_region,
  modern_button_region, option_holds, details_action_at_for_page,
}
use sony_prs.T1.Details.HitTest.{details_action_at_for_page-region}
use sony_prs.T1.Ui.{
  UiPage, UiState, RawEvent, keys, pmic_power, PowerAction, debug, with_preferences,
}
use sony_prs.T1.Ui.Dirty.{DirtyArea, merge_optional_dirty}
use sony_prs.T1.Ui.Focus.{
  first_focusable_action, focus_actions, sort_by_key, visible_actions, insert_by_key,
}
use sony_prs.T1.Ui.Pages.{open_ui_page, push_history}
use sony_prs.T1.Ui.Activate.{Outcome}
use sony_prs.T1.Ui.Keys.{
  observe_menu, press_menu, release_menu, release_menu_after, observe_power, observe_power_until,
  power_value, press_power, release_power,
}
use sony_prs.T1.Ui.Observe.{observe, dispatch, observe_key, finish}
use sony_prs.T1.Ui.Session.{startup, sync_started, enter_sleep, wake, wake_side_event, woken}
use sony_prs.T1.Ui.Navigation.{IsWellFormed}
use sony_prs.T1.Ui.Navigation.Reach.{
  input, Reachable, start, then, Reachable-IsWellFormed, Reachable-observe,
}
use sony_prs.T1.Ui.Navigation.Home.{observe_keys, Reachable-observe_keys}

-- The loop begins with the first synchronization under way.
abbrev fresh : UiState
unfolding startup sync_started with_preferences
fresh = startup true default_preferences 0

abbrev menu_event : ℕ → ℕ → RawEvent
menu_event usec value = record {
  sec = 0;
  usec = usec;
  event_type = 1;
  code = 357;
  value = pos value;
}

-- The state after the button is pressed, and the one after it is released.
abbrev pressed : UiState
pressed = record fresh {
  last_key = some (keys, menu_event 10 1);
  key_events = 1;
  menu_press_us = some 10;
  menu_pressed_at = some 1;
  feedback = some debug;
  last_activity = 1;
}

abbrev released : UiState
released = record pressed {
  last_key = some (keys, menu_event 20 0);
  key_events = 2;
  menu_press_us = none;
  menu_pressed_at = none;
  last_activity = 2;
  page = UiPage.details;
  settings_menu = true;
  ui_history = UiPage.home ∷ [];
  focus_history = none ∷ [];
  focused_action = some DetailsAction.open_reading;
}

press_run :
    observe 1 keys (menu_event 10 1) fresh
    ≡ some (record { state = pressed; dirty = none; action = PowerAction.no_action })
unfolding observe dispatch observe_key observe_menu press_menu finish merge_optional_dirty
    with_preferences startup sync_started
press_run = refl

release_run :
    observe 2 keys (menu_event 20 0) pressed
    ≡ some (record {
      state = released;
      dirty = some DirtyArea.full_area;
      action = PowerAction.no_action;
    })
unfolding observe dispatch observe_key observe_menu release_menu release_menu_after finish
    merge_optional_dirty open_ui_page push_history first_focusable_action focus_actions sort_by_key
    visible_actions insert_by_key details_action_region_for_page modern_action_region
    modern_button_region details_actions_for_page viewport with_preferences startup sync_started
release_run = refl

fresh_reached : Reachable fresh
unfolding fresh
fresh_reached = start true default_preferences 0

details_reached : Reachable released
details_reached =
    then pressed released
      (then fresh pressed fresh_reached (
        input 1 keys (menu_event 10 1) fresh
          (record { state = pressed; dirty = none; action = PowerAction.no_action }) press_run))
      (input 2 keys (menu_event 20 0) pressed
        (record {
          state = released;
          dirty = some DirtyArea.full_area;
          action = PowerAction.no_action;
        })
        release_run)

Reachable-IsWellFormed_example : IsWellFormed released
Reachable-IsWellFormed_example = Reachable-IsWellFormed details_reached

Reachable-observe_example :
    (o : Outcome) × (observe 3 keys (menu_event 30 1) released ≡ some o) × Reachable o.state
Reachable-observe_example = Reachable-observe 3 keys (menu_event 30 1) details_reached

abbrev back_event : RawEvent
back_event = record { sec = 0; usec = 40; event_type = 1; code = 158; value = pos 1 }

Reachable-observe_keys_example :
    (1 ≤ 3)
    × ((t : UiState) × (observe_keys ((4, back_event) ∷ []) released ≡ some t)
        × (t.page ≡ UiPage.home))
Reachable-observe_keys_example =
    Reachable-observe_keys ((4, back_event) ∷ []) details_reached
      (record { key = refl; back = refl; pressed = refl }, tt) refl

-- The power button, pressed at zero and released after three seconds.
abbrev power_event : ℕ → ℕ → RawEvent
power_event sec value = record {
  sec = sec;
  usec = 0;
  event_type = 1;
  code = 116;
  value = pos value;
}

abbrev held : UiState
held = record fresh {
  last_key = some (pmic_power, power_event 0 1);
  key_events = 1;
  power_press_us = some 0;
  feedback = some debug;
  last_activity = 1;
}

abbrev let_go : UiState
let_go = record held {
  last_key = some (pmic_power, power_event 3 0);
  key_events = 2;
  power_press_us = none;
  last_power_duration_ms = some 3000;
  last_activity = 2;
}

-- The release of a held button is read while the device sleeps. After the wake a press of a tenth of a
-- second is measured from the old press.
abbrev slept : UiState
unfolding enter_sleep wake_side_event woken wake
slept = woken 3 (wake_side_event pmic_power (power_event 1 0) (enter_sleep held))

abbrev action_of : Option Outcome → Option PowerAction
action_of none = none
action_of (some o) = some o.action

short_release : RawEvent
short_release = record { sec = 100; usec = 100000; event_type = 1; code = 116; value = pos 0 }

stale_press :
    elim (observe 3000000 pmic_power (power_event 100 1) slept) [
      | none ↦ none
      | some o ↦ action_of (observe 3100000 pmic_power short_release o.state)
    ]
    ≡ some PowerAction.reboot
unfolding short_release slept observe dispatch observe_key observe_power observe_power_until
    power_value press_power release_power finish merge_optional_dirty with_preferences startup
    sync_started enter_sleep wake_side_event woken wake
stale_press = refl

-- A touch in the middle of the button that resets the font.
listed :
    contains_action DetailsAction.font_reset (details_actions_for_page DetailsPage.reading) ≡ true
unfolding contains_action details_actions_for_page same_action to_index
listed = refl

inside :
    option_holds
      (details_action_region_for_page DetailsPage.reading DetailsAction.font_reset
        (viewport portrait).width
        (viewport portrait).height)
      300
      290
    ≡ true
unfolding details_action_region_for_page modern_action_region font_region modern_font_group_region
    modern_button_region viewport
inside = refl

details_action_at_for_page-region_example :
    details_action_at_for_page DetailsPage.reading (pos 300) (pos 290) 600 800
    ≡ some DetailsAction.font_reset
unfolding viewport
details_action_at_for_page-region_example =
    details_action_at_for_page-region portrait DetailsPage.reading DetailsAction.font_reset 300 290
      listed inside

abbrev at_the_foot : ℕ → ℕ → DisplayRegion
at_the_foot width height = record { left = 0; top = 560; width = width; height = 40 }
