-- ===== src/T1/Ui/Power/Kept.antt =====
-- runtime.rs: the time of the power button's press is kept by every control.
use sony_prs.Base.{
  ℕ, ◌≡◌, refl, Bool, true, false, not, ◌||◌, ◌&&◌, Option, none, some, if◌then◌else◌, arith,
  is_negative, magnitude, ltb,
}
use sony_prs.T1.Details.{status_bar_height}
use sony_prs.T1.Details.Actions.{DetailsAction, is_action, contains_action}
use sony_prs.T1.Details.Toggles.{
  DetailsToggle, DetailsPreference, details_toggle_at, details_preference_at,
}
use sony_prs.T1.Ui.{UiPage, UiState, PowerAction}
use sony_prs.T1.Ui.Dirty.{DirtyArea}
use sony_prs.T1.Ui.Focus.{
  is_settings_page, details_page, focus_actions, screen_width, screen_height,
}
use sony_prs.T1.Ui.Pages.{
  push_history, open_ui_page, return_to_reader, home_button, leave_page, back_button,
}
use sony_prs.T1.Ui.Activate.{
  Outcome, quiet, without_power, return_to_settings, open_power_confirmation, confirm_power,
  activate_modern_action, activate_focus, activate_legacy_action, commit, tap_preference,
  tap_toggle, tap_legacy, tap_page, tap_status_bar, is_display_test, is_legacy, activate_tap,
  touched_action, tapped_action, or_else, request_manual_sync,
}

-- The time of the press is the one given.
abbrev pub Holds : Option ℕ → Option Outcome → Type 0
Holds pressed none = Unit
Holds pressed (some o) = o.state.power_press_us ≡ pressed

abbrev pub Left : Option ℕ → Option (UiState × Option DirtyArea) → Type 0
Left pressed none = Unit
Left pressed (some left) = left.0.power_press_us ≡ pressed

pub Holds-if :
    (pressed : Option ℕ) (test : Bool) (a b : Option Outcome)
    → Holds pressed a
    → Holds pressed b
    → Holds pressed (if test then a else b)
Holds-if pressed true a b k l = k
Holds-if pressed false a b k l = l

pub without_power-Holds :
    (pressed : Option ℕ) (r : Option (UiState × Option DirtyArea))
    → Left pressed r
    → Holds pressed (without_power r)
without_power-Holds pressed none k = tt
without_power-Holds pressed (some left) k = k

module _ (s : UiState) where
  pub open_ui_page-kept : (page : UiPage) → (open_ui_page page s).power_press_us ≡ s.power_press_us
  unfolding open_ui_page push_history
  open_ui_page-kept page = ground arith

  pub home_button-kept : (home_button s).0.power_press_us ≡ s.power_press_us
  unfolding home_button return_to_reader
  home_button-kept = ground arith

  pub back_button-Left : Left s.power_press_us (back_button s)
  unfolding back_button leave_page
  back_button-Left = ground arith

  return_to_settings-Holds : Holds s.power_press_us (return_to_settings s)
  unfolding return_to_settings
  return_to_settings-Holds = without_power-Holds s.power_press_us (back_button s) back_button-Left

  confirm_power-Holds :
      (pending : Option PowerAction) → Holds s.power_press_us (confirm_power pending s)
  unfolding confirm_power
  confirm_power-Holds (some PowerAction.reboot) = refl
  confirm_power-Holds (some PowerAction.power_off) = refl
  confirm_power-Holds (some PowerAction.sleep) = return_to_settings-Holds
  confirm_power-Holds (some PowerAction.no_action) = return_to_settings-Holds
  confirm_power-Holds none = return_to_settings-Holds

open_power_confirmation-Holds :
    (power : PowerAction) (s : UiState) → Holds s.power_press_us (open_power_confirmation power s)
unfolding open_power_confirmation
open_power_confirmation-Holds power s =
    open_ui_page-kept (record s { pending_power_action = some power }) UiPage.power_confirmation

activate_modern_action-Holds :
    (a : DetailsAction) (s : UiState) → Holds s.power_press_us (activate_modern_action a s)
unfolding activate_modern_action return_to_reader request_manual_sync
activate_modern_action-Holds DetailsAction.back_to_settings s = return_to_settings-Holds s
activate_modern_action-Holds DetailsAction.cancel_power_action s = return_to_settings-Holds s
activate_modern_action-Holds DetailsAction.confirm_power s =
    confirm_power-Holds (record s { pending_power_action = none }) s.pending_power_action
activate_modern_action-Holds DetailsAction.open_reading s = open_ui_page-kept s UiPage.reading
activate_modern_action-Holds DetailsAction.open_synchronization s =
    open_ui_page-kept s UiPage.synchronization
activate_modern_action-Holds DetailsAction.open_device_diagnostics s =
    open_ui_page-kept s UiPage.device_diagnostics
activate_modern_action-Holds DetailsAction.back_to_reading s = refl
activate_modern_action-Holds DetailsAction.orientation s = refl
activate_modern_action-Holds DetailsAction.font_decrease s = refl
activate_modern_action-Holds DetailsAction.font_reset s = refl
activate_modern_action-Holds DetailsAction.font_increase s = refl
activate_modern_action-Holds DetailsAction.reading_progress s = refl
activate_modern_action-Holds DetailsAction.debug_messages s = refl
activate_modern_action-Holds DetailsAction.display_test s = open_ui_page-kept s UiPage.display_test
activate_modern_action-Holds DetailsAction.reboot s =
    open_power_confirmation-Holds PowerAction.reboot s
activate_modern_action-Holds DetailsAction.power_off s =
    open_power_confirmation-Holds PowerAction.power_off s
activate_modern_action-Holds DetailsAction.sync_now s = refl
activate_modern_action-Holds DetailsAction.return_to_entry_point s = refl
activate_modern_action-Holds DetailsAction.show_status_bar s = refl

pub activate_focus-Holds :
    (f : Option DetailsAction) (s : UiState) → Holds s.power_press_us (activate_focus f s)
unfolding activate_focus
activate_focus-Holds none s = refl
activate_focus-Holds (some a) s =
    Holds-if s.power_press_us (contains_action a (focus_actions s)) _ _
      (activate_modern_action-Holds a s) refl

activate_legacy_action-Holds :
    (a : DetailsAction) (s : UiState) → Holds s.power_press_us (activate_legacy_action a s)
unfolding activate_legacy_action return_to_reader request_manual_sync
activate_legacy_action-Holds a s =
    let back = return_to_settings-Holds s in
    let restart = open_power_confirmation-Holds PowerAction.reboot s in
    let off = open_power_confirmation-Holds PowerAction.power_off s in
    let shown = open_ui_page-kept s UiPage.display_test in ground arith

commit-Holds :
    (activate : DetailsAction → UiState → Option Outcome) (tapped pressed : Option DetailsAction)
    (s : UiState)
    → ((a : DetailsAction) → Holds s.power_press_us (activate a s))
    → Holds s.power_press_us (commit activate tapped pressed s)
unfolding commit
commit-Holds activate none pressed s k = refl
commit-Holds activate (some a) pressed s k =
    Holds-if s.power_press_us (is_action pressed a && is_action (touched_action s) a) _ _ (k a) refl

tap_preference-Holds :
    (p : Option DetailsPreference) (s : UiState) → Holds s.power_press_us (tap_preference p s)
unfolding tap_preference
tap_preference-Holds p s = ground arith

tap_toggle-Holds :
    (t : Option DetailsToggle) (s : UiState) → Holds s.power_press_us (tap_toggle t s)
unfolding tap_toggle
tap_toggle-Holds none s =
    tap_preference-Holds
      (details_preference_at s.touch_x s.touch_y (screen_width s) (screen_height s)) s
tap_toggle-Holds (some t) s = ground arith

or_quiet-Holds :
    (r : Option Outcome) (s : UiState)
    → Holds s.power_press_us r
    → Holds s.power_press_us (elim r [ none ↦ quiet s none | some outcome ↦ some outcome ])
or_quiet-Holds none s k = refl
or_quiet-Holds (some o) s k = k

tap_legacy-Holds :
    (tapped pressed : Option DetailsAction) (s : UiState)
    → Holds s.power_press_us (tap_legacy tapped pressed s)
unfolding tap_legacy
tap_legacy-Holds none none s =
    let toggle = details_toggle_at s.touch_x s.touch_y (screen_width s) (screen_height s) in
    or_quiet-Holds (tap_toggle toggle s) s (tap_toggle-Holds toggle s)
tap_legacy-Holds none (some p) s = refl
tap_legacy-Holds (some a) pressed s =
    commit-Holds activate_legacy_action (some a) pressed s (λ b. activate_legacy_action-Holds b s)

tap_status_bar-kept : (s : UiState) → (tap_status_bar s).power_press_us ≡ s.power_press_us
unfolding tap_status_bar return_to_reader
tap_status_bar-kept s = let opened = open_ui_page-kept s UiPage.details in ground arith

tap_page-Holds :
    (tapped pressed : Option DetailsAction) (s : UiState)
    → Holds s.power_press_us (tap_page tapped pressed s)
unfolding tap_page
tap_page-Holds tapped pressed s =
    let held = s.power_press_us in
    Holds-if held (is_display_test s.page) _ _ refl (
      Holds-if held (is_negative s.touch_y || ltb (magnitude s.touch_y) status_bar_height) _ _
        (tap_status_bar-kept s)
        (Holds-if held (not (is_settings_page s)) _ _ refl (
          Holds-if held (is_legacy (details_page s)) _ _ (tap_legacy-Holds tapped pressed s) (
            commit-Holds activate_modern_action tapped pressed s
              (λ a. activate_modern_action-Holds a s)))))

pub activate_tap-Holds : (s : UiState) → Holds s.power_press_us (activate_tap s)
unfolding activate_tap
activate_tap-Holds s =
    tap_page-Holds (tapped_action s) (or_else s.pressed_action (tapped_action s))
      (record s { touch_action = none; touch_action_initialized = false; pressed_action = none })
