-- ===== src/T1/Ui/Power.antt =====
-- runtime.rs: where a reboot or a power-off comes from: a control that was waiting for it.
pub mod Touches
pub mod Kept
pub mod Events
pub mod Recorded
pub mod Presses
pub mod Causes
use sony_prs.Base.{
  ℕ, ℤ, ◌≤◌, ◌-◌, ◌≡◌, refl, sym, ◌∙◌, ap, subst, ◌⊎◌, inl, inr, Bool, true, false, not, ◌||◌, ◌&&◌,
  List, [], ◌∷◌, Option, none, some, if◌then◌else◌, arith, is_negative, magnitude, ltb, leb, ◌==◌,
  Bool-cases,
}
use sony_prs.T1.Details.{status_bar_height}
use sony_prs.T1.Details.Actions.{DetailsAction, is_action, same_option, contains_action}
use sony_prs.T1.Details.Toggles.{
  DetailsToggle, DetailsPreference, details_toggle_at, details_preference_at,
}
use sony_prs.T1.Ui.{UiPage, UiState, RawEvent, InputSourceKind, PowerAction}
use sony_prs.T1.Ui.Dirty.{DirtyArea, is_home}
use sony_prs.T1.Ui.Input.{
  event_key, key_menu, key_left, key_right, key_home, key_back, key_power, is_value, is_positive,
  is_event, is_power, is_touch, is_keys, timestamp_micros, menu_hold_micros, abs_mt_touch_major,
  abs_mt_tracking_id, event_syn, syn_report, btn_touch, event_abs, long_press_micros,
}
use sony_prs.T1.Ui.Focus.{
  screen_width, screen_height, is_settings_page, details_page, focus_actions, move_focus,
}
use sony_prs.T1.Ui.Pages.{back_button, home_button}
use sony_prs.T1.Ui.Activate.{
  Outcome, quiet, redrawn, without_power, return_to_settings, open_power_confirmation,
  confirm_power, activate_modern_action, activate_focus, activate_focused_action,
  activate_legacy_action, commit, tap_preference, tap_toggle, tap_legacy, tap_page, tap_status_bar,
  is_display_test, is_legacy, activate_tap, touched_action, tapped_action, or_else,
}
use sony_prs.T1.Ui.Keys.{
  repeat_menu, release_menu, release_menu_after, observe_menu, is_some, held_for, micros_held,
  release_power, power_value, observe_power, observe_power_until, page_key, home_key, back_key,
}
use sony_prs.T1.Ui.Observe.{
  count_up, move_axis, move_touch, drag_from, drag, begin_touch_action, press, touch_report,
  touch_contact, touch_contacts, touch_button, after_drag, observe_touch, observe_key, finish,
  dispatch, observe, clears_feedback,
}
use sony_prs.T1.Ui.Navigation.{opened_from, pending_fits, Fits, IsWellFormed}
use sony_prs.T1.Ui.Navigation.Reach.{Reachable, Reachable-IsWellFormed}

-- The actions that stop the device.
abbrev pub stops : PowerAction → Bool
stops PowerAction.reboot = true
stops PowerAction.power_off = true
stops _ = false

-- An action that stops the device was waiting for its confirmation.
abbrev pub Asked : Option PowerAction → Option Outcome → Type 0
Asked pending none = Unit
Asked pending (some o) = (stops o.action ≡ true) → (pending ≡ some o.action)

pub Asked-without_power :
    (pending : Option PowerAction) (r : Option (UiState × Option DirtyArea))
    → Asked pending (without_power r)
Asked-without_power pending none = tt
Asked-without_power pending (some left) = ground arith

pub Asked-if :
    (pending : Option PowerAction) (test : Bool) (a b : Option Outcome)
    → Asked pending a
    → Asked pending b
    → Asked pending (if test then a else b)
Asked-if pending true a b k l = k
Asked-if pending false a b k l = l

confirm_power-Asked :
    (pending : Option PowerAction) (s : UiState) → Asked pending (confirm_power pending s)
unfolding confirm_power return_to_settings
confirm_power-Asked (some PowerAction.reboot) s = λ h. refl
confirm_power-Asked (some PowerAction.power_off) s = λ h. refl
confirm_power-Asked (some PowerAction.sleep) s =
    Asked-without_power (some PowerAction.sleep) (back_button s)
confirm_power-Asked (some PowerAction.no_action) s =
    Asked-without_power (some PowerAction.no_action) (back_button s)
confirm_power-Asked none s = Asked-without_power none (back_button s)

pub redrawn-Asked : (pending : Option PowerAction) (s : UiState) → Asked pending (redrawn s)
redrawn-Asked pending s h = absurd (ground arith)

pub quiet-Asked :
    (pending : Option PowerAction) (s : UiState) (d : Option DirtyArea) → Asked pending (quiet s d)
quiet-Asked pending s d h = absurd (ground arith)

activate_modern_action-Asked :
    (a : DetailsAction) (s : UiState) → Asked s.pending_power_action (activate_modern_action a s)
unfolding activate_modern_action return_to_settings open_power_confirmation
activate_modern_action-Asked DetailsAction.back_to_settings s =
    Asked-without_power s.pending_power_action (back_button s)
activate_modern_action-Asked DetailsAction.cancel_power_action s =
    Asked-without_power s.pending_power_action (back_button s)
activate_modern_action-Asked DetailsAction.confirm_power s =
    confirm_power-Asked s.pending_power_action (record s { pending_power_action = none })
activate_modern_action-Asked DetailsAction.open_reading s = λ h. absurd (ground arith)
activate_modern_action-Asked DetailsAction.open_synchronization s = λ h. absurd (ground arith)
activate_modern_action-Asked DetailsAction.open_device_diagnostics s = λ h. absurd (ground arith)
activate_modern_action-Asked DetailsAction.back_to_reading s = λ h. absurd (ground arith)
activate_modern_action-Asked DetailsAction.orientation s = λ h. absurd (ground arith)
activate_modern_action-Asked DetailsAction.font_decrease s = λ h. absurd (ground arith)
activate_modern_action-Asked DetailsAction.font_reset s = λ h. absurd (ground arith)
activate_modern_action-Asked DetailsAction.font_increase s = λ h. absurd (ground arith)
activate_modern_action-Asked DetailsAction.reading_progress s = λ h. absurd (ground arith)
activate_modern_action-Asked DetailsAction.debug_messages s = λ h. absurd (ground arith)
activate_modern_action-Asked DetailsAction.display_test s = λ h. absurd (ground arith)
activate_modern_action-Asked DetailsAction.reboot s = λ h. absurd (ground arith)
activate_modern_action-Asked DetailsAction.power_off s = λ h. absurd (ground arith)
activate_modern_action-Asked DetailsAction.sync_now s = λ h. absurd (ground arith)
activate_modern_action-Asked DetailsAction.return_to_entry_point s = λ h. absurd (ground arith)
activate_modern_action-Asked DetailsAction.show_status_bar s = λ h. absurd (ground arith)

pub activate_focus-Asked :
    (f : Option DetailsAction) (s : UiState) → Asked s.pending_power_action (activate_focus f s)
unfolding activate_focus
activate_focus-Asked none s = quiet-Asked s.pending_power_action s none
activate_focus-Asked (some a) s =
    Asked-if s.pending_power_action (contains_action a (focus_actions s)) _ _
      (activate_modern_action-Asked a s) (λ h. absurd (ground arith))

activate_legacy_action-Asked :
    (a : DetailsAction) (s : UiState) → Asked s.pending_power_action (activate_legacy_action a s)
unfolding activate_legacy_action return_to_settings open_power_confirmation
activate_legacy_action-Asked a s =
    let back = Asked-without_power s.pending_power_action (back_button s) in ground arith

commit-Asked :
    (activate : DetailsAction → UiState → Option Outcome) (tapped pressed : Option DetailsAction)
    (s : UiState)
    → ((a : DetailsAction) → Asked s.pending_power_action (activate a s))
    → Asked s.pending_power_action (commit activate tapped pressed s)
unfolding commit
commit-Asked activate none pressed s k = quiet-Asked s.pending_power_action s none
commit-Asked activate (some a) pressed s k =
    Asked-if s.pending_power_action (is_action pressed a && is_action (touched_action s) a) _ _
      (k a) (quiet-Asked s.pending_power_action s (some (DirtyArea.action a)))

tap_preference-Asked :
    (p : Option DetailsPreference) (s : UiState) → Asked s.pending_power_action (tap_preference p s)
unfolding tap_preference
tap_preference-Asked p s = ground arith

tap_toggle-Asked :
    (t : Option DetailsToggle) (s : UiState) → Asked s.pending_power_action (tap_toggle t s)
unfolding tap_toggle
tap_toggle-Asked none s =
    tap_preference-Asked
      (details_preference_at s.touch_x s.touch_y (screen_width s) (screen_height s)) s
tap_toggle-Asked (some t) s = ground arith

or_quiet-Asked :
    (pending : Option PowerAction) (r : Option Outcome) (s : UiState)
    → Asked pending r
    → Asked pending (elim r [ none ↦ quiet s none | some outcome ↦ some outcome ])
or_quiet-Asked pending none s k = quiet-Asked pending s none
or_quiet-Asked pending (some o) s k = k

tap_legacy-Asked :
    (tapped pressed : Option DetailsAction) (s : UiState)
    → Asked s.pending_power_action (tap_legacy tapped pressed s)
unfolding tap_legacy
tap_legacy-Asked none none s =
    let toggle = details_toggle_at s.touch_x s.touch_y (screen_width s) (screen_height s) in
    or_quiet-Asked s.pending_power_action (tap_toggle toggle s) s (tap_toggle-Asked toggle s)
tap_legacy-Asked none (some p) s = quiet-Asked s.pending_power_action s none
tap_legacy-Asked (some a) pressed s =
    commit-Asked activate_legacy_action (some a) pressed s (λ b. activate_legacy_action-Asked b s)

tap_page-Asked :
    (tapped pressed : Option DetailsAction) (s : UiState)
    → Asked s.pending_power_action (tap_page tapped pressed s)
unfolding tap_page
tap_page-Asked tapped pressed s =
    let pending = s.pending_power_action in
    Asked-if pending (is_display_test s.page) _ _ (redrawn-Asked pending s) (
      Asked-if pending (is_negative s.touch_y || ltb (magnitude s.touch_y) status_bar_height) _ _
        (redrawn-Asked pending (tap_status_bar s))
        (Asked-if pending (not (is_settings_page s)) _ _
          (quiet-Asked pending
            (record s { reader_tap = some (record { x = s.touch_x; y = s.touch_y }) }) none)
          (Asked-if pending (is_legacy (details_page s)) _ _ (tap_legacy-Asked tapped pressed s) (
            commit-Asked activate_modern_action tapped pressed s
              (λ a. activate_modern_action-Asked a s)))))

pub activate_tap-Asked : (s : UiState) → Asked s.pending_power_action (activate_tap s)
unfolding activate_tap
activate_tap-Asked s =
    tap_page-Asked (tapped_action s) (or_else s.pressed_action (tapped_action s))
      (record s { touch_action = none; touch_action_initialized = false; pressed_action = none })

pub touch_report-Asked :
    (e : RawEvent) (s : UiState) → Asked s.pending_power_action (touch_report e s)
unfolding touch_report
touch_report-Asked e s =
    let counted = record s { touch_events = count_up s.touch_events } in
    let pending = s.pending_power_action in
    Asked-if pending (not (is_event e event_syn syn_report)) _ _ (quiet-Asked pending s none) (
      Asked-if pending s.touch_release_pending _ _
        (activate_tap-Asked (record counted { touch_down = false; touch_release_pending = false }))
        (quiet-Asked pending counted (if is_settings_page s then some DirtyArea.touch else none)))

pub press-Asked : (s : UiState) → Asked s.pending_power_action (press s)
unfolding press
press-Asked s =
    Asked-without_power s.pending_power_action
      (some (begin_touch_action (record s { touch_down = true })))
