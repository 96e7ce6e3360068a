-- ===== src/T1/Ui/Navigation/Activation.antt =====
-- Activating a control, and a tap, keep the history of the pages.
use sony_prs.Base.{
  is_negative, magnitude, ◌≡◌, refl, subst, ◌⊎◌, inl, inr, Bool, true, false, not, ◌||◌, ◌&&◌, ◌∷◌,
  Option, none, some, ltb, arith, Bool-cases,
}
use sony_prs.T1.Details.{status_bar_height}
use sony_prs.T1.Details.Actions.{
  DetailsAction, is_action, contains_action, details_actions_for_page, same_action, to_index,
}
use sony_prs.T1.Ui.{UiPage, UiState, PowerAction}
use sony_prs.T1.Ui.Dirty.{DirtyArea, is_home}
use sony_prs.T1.Ui.Focus.{details_page, is_settings_page, is_settings, shown_page, focus_actions}
use sony_prs.T1.Ui.Pages.{is_details, open_ui_page}
use sony_prs.T1.Ui.Activate.{
  quiet, return_to_settings, open_power_confirmation, request_manual_sync, confirm_power,
  activate_modern_action, activate_focus, activate_focused_action, commit, tap_page, tap_status_bar,
  is_display_test, is_legacy, activate_tap, touched_action, tapped_action, or_else,
}
use sony_prs.T1.Ui.Navigation.{
  opened_from, pending_fits, IsWellFormed, Keeps, Keeps-if, open_ui_page-IsWellFormed,
  return_to_reader-IsWellFormed, back_button-Keeps,
}
use sony_prs.T1.Ui.Navigation.Controls.{Offers, touched_action-Offers, focus_actions-Offers}

-- The page that a control opens.
opens : DetailsAction → Option UiPage
opens DetailsAction.open_reading = some UiPage.reading
opens DetailsAction.open_synchronization = some UiPage.synchronization
opens DetailsAction.open_device_diagnostics = some UiPage.device_diagnostics
opens DetailsAction.display_test = some UiPage.display_test
opens DetailsAction.reboot = some UiPage.power_confirmation
opens DetailsAction.power_off = some UiPage.power_confirmation
opens _ = none

-- What a control opens is under no page, or is opened from the pages that list it.
abbrev pub opens_from : DetailsAction → UiPage → Bool
opens_from DetailsAction.open_reading UiPage.details = true
opens_from DetailsAction.open_synchronization UiPage.details = true
opens_from DetailsAction.open_device_diagnostics UiPage.details = true
opens_from DetailsAction.display_test UiPage.device_diagnostics = true
opens_from DetailsAction.reboot UiPage.device_diagnostics = true
opens_from DetailsAction.power_off UiPage.device_diagnostics = true
opens_from _ _ = false

offered-opens_from :
    (p : UiPage) (a : DetailsAction)
    → is_settings p ≡ true
    → Offers (shown_page p (is_details p)) a
    → (opens a ≡ none) ⊎ (opens_from a p ≡ true)
unfolding opens details_actions_for_page contains_action same_action to_index
offered-opens_from UiPage.home a t h = absurd (ground arith)
offered-opens_from UiPage.display_test a t h = absurd (ground arith)
offered-opens_from UiPage.details a t h = ground arith
offered-opens_from UiPage.reading a t h = ground arith
offered-opens_from UiPage.synchronization a t h = ground arith
offered-opens_from UiPage.device_diagnostics a t h = ground arith
offered-opens_from UiPage.power_confirmation a t h = ground arith

opened :
    (a : DetailsAction) (p q : UiPage)
    → opens a ≡ some q
    → opens_from a p ≡ true
    → opened_from q ≡ p ∷ opened_from p
unfolding opens opened_from
opened a p q e f = ground arith

opener-not_pending :
    (a : DetailsAction) (p q : UiPage) (pending : Option PowerAction)
    → opens_from a p ≡ true
    → pending_fits p pending ≡ true
    → pending_fits q pending ≡ true
unfolding pending_fits
opener-not_pending a p q pending f w = ground arith

confirm_power-Keeps :
    (s : UiState)
    → IsWellFormed s
    → Keeps (confirm_power s.pending_power_action (record s { pending_power_action = none }))
unfolding confirm_power return_to_settings pending_fits
confirm_power-Keeps s w =
    let left =
      back_button-Keeps (record s { pending_power_action = none })
        record { menu = w.menu; history = w.history; focus = w.focus; waiting = refl } in
    ground arith

-- A control that opens a page, when it is listed.
open_kept :
    (a : DetailsAction) (q : UiPage) (s : UiState)
    → IsWellFormed s
    → opens a ≡ some q
    → opens_from a s.page ≡ true
    → IsWellFormed (open_ui_page q s)
open_kept a q s w e f =
    open_ui_page-IsWellFormed q s w.history w.focus (opened a s.page q e f)
      (opener-not_pending a s.page q s.pending_power_action f w.waiting)

power_kept :
    (a : DetailsAction) (power : PowerAction) (s : UiState)
    → IsWellFormed s
    → opens a ≡ some UiPage.power_confirmation
    → opens_from a s.page ≡ true
    → pending_fits UiPage.power_confirmation (some power) ≡ true
    → Keeps (open_power_confirmation power s)
unfolding open_power_confirmation
power_kept a power s w e f g =
    open_ui_page-IsWellFormed UiPage.power_confirmation
      (record s { pending_power_action = some power }) w.history w.focus
      (opened a s.page UiPage.power_confirmation e f) g

opened-Keeps :
    (a : DetailsAction) (s : UiState)
    → IsWellFormed s
    → (opens a ≡ none) ⊎ (opens_from a s.page ≡ true)
    → Keeps (activate_modern_action a s)
unfolding activate_modern_action return_to_settings request_manual_sync opens pending_fits
opened-Keeps DetailsAction.open_reading s w (inl h) = absurd (ground arith)
opened-Keeps DetailsAction.open_reading s w (inr h) =
    open_kept DetailsAction.open_reading UiPage.reading s w refl h
opened-Keeps DetailsAction.open_synchronization s w (inl h) = absurd (ground arith)
opened-Keeps DetailsAction.open_synchronization s w (inr h) =
    open_kept DetailsAction.open_synchronization UiPage.synchronization s w refl h
opened-Keeps DetailsAction.open_device_diagnostics s w (inl h) = absurd (ground arith)
opened-Keeps DetailsAction.open_device_diagnostics s w (inr h) =
    open_kept DetailsAction.open_device_diagnostics UiPage.device_diagnostics s w refl h
opened-Keeps DetailsAction.display_test s w (inl h) = absurd (ground arith)
opened-Keeps DetailsAction.display_test s w (inr h) =
    open_kept DetailsAction.display_test UiPage.display_test s w refl h
opened-Keeps DetailsAction.reboot s w (inl h) = absurd (ground arith)
opened-Keeps DetailsAction.reboot s w (inr h) =
    power_kept DetailsAction.reboot PowerAction.reboot s w refl h refl
opened-Keeps DetailsAction.power_off s w (inl h) = absurd (ground arith)
opened-Keeps DetailsAction.power_off s w (inr h) =
    power_kept DetailsAction.power_off PowerAction.power_off s w refl h refl
opened-Keeps DetailsAction.back_to_reading s w h = return_to_reader-IsWellFormed s
opened-Keeps DetailsAction.back_to_settings s w h = back_button-Keeps s w
opened-Keeps DetailsAction.cancel_power_action s w h = back_button-Keeps s w
opened-Keeps DetailsAction.confirm_power s w h = confirm_power-Keeps s w
opened-Keeps DetailsAction.orientation s w h = w
opened-Keeps DetailsAction.show_status_bar s w h = w
opened-Keeps DetailsAction.font_decrease s w h = w
opened-Keeps DetailsAction.font_reset s w h = w
opened-Keeps DetailsAction.font_increase s w h = w
opened-Keeps DetailsAction.reading_progress s w h = w
opened-Keeps DetailsAction.debug_messages s w h = w
opened-Keeps DetailsAction.sync_now s w h = w
opened-Keeps DetailsAction.return_to_entry_point s w h = w

pub activate_modern_action-Keeps :
    (a : DetailsAction) (s : UiState)
    → IsWellFormed s
    → is_settings_page s ≡ true
    → Offers (details_page s) a
    → Keeps (activate_modern_action a s)
activate_modern_action-Keeps a s w t h =
    opened-Keeps a s w
      (offered-opens_from s.page a t (subst (λ m. Offers (shown_page s.page m) a) w.menu h))

activate_focus-Keeps :
    (focused : Option DetailsAction) (s : UiState)
    → IsWellFormed s
    → is_settings_page s ≡ true
    → Keeps (activate_focus focused s)
unfolding activate_focus
activate_focus-Keeps none s w t = w
activate_focus-Keeps (some a) s w t = elim (Bool-cases (contains_action a (focus_actions s))) [
  | inl e ↦ rw e (activate_modern_action-Keeps a s w t (focus_actions-Offers s a e))
  | inr e ↦ rw e w
]

pub activate_focused_action-Keeps :
    (s : UiState) → IsWellFormed s → is_settings_page s ≡ true → Keeps (activate_focused_action s)
unfolding activate_focused_action
activate_focused_action-Keeps s w t = activate_focus-Keeps s.focused_action s w t

and-right : (a b : Bool) → (a && b) ≡ true → b ≡ true
and-right a b h = ground arith

not-false : (a : Bool) → not a ≡ false → a ≡ true
not-false a h = ground arith

commit-Keeps :
    (tapped pressed : Option DetailsAction) (s : UiState)
    → IsWellFormed s
    → is_settings_page s ≡ true
    → Keeps (commit activate_modern_action tapped pressed s)
unfolding commit
commit-Keeps none pressed s w t = w
commit-Keeps (some a) pressed s w t =
    Keeps-if (is_action pressed a && is_action (touched_action s) a) (activate_modern_action a s)
      (quiet s (some (DirtyArea.action a)))
      (λ e. activate_modern_action-Keeps a s w t (
        touched_action-Offers s a
          (and-right (is_action pressed a) (is_action (touched_action s) a) e)))
      (λ e. w)

-- Above the controls: the status bar opens the details on Home, and goes home from another page.
tap_status_bar-IsWellFormed :
    (s : UiState)
    → IsWellFormed s
    → is_display_test s.page ≡ false
    → IsWellFormed (tap_status_bar s)
unfolding tap_status_bar opened_from pending_fits
tap_status_bar-IsWellFormed s w d = elim (Bool-cases (is_home s.page)) [
  | inl e ↦
      rw e
        (open_ui_page-IsWellFormed UiPage.details s w.history w.focus (ground arith) (ground arith))
  | inr e ↦ rw e (return_to_reader-IsWellFormed s)
]

-- The legacy page is not shown on a settings page.
legacy_not_shown :
    (p : UiPage) (m : Bool)
    → m ≡ is_details p
    → is_settings p ≡ true
    → ¬ (is_legacy (shown_page p m) ≡ true)
legacy_not_shown p m e t l = ground arith

tap_page-Keeps :
    (tapped pressed : Option DetailsAction) (s : UiState)
    → IsWellFormed s
    → Keeps (tap_page tapped pressed s)
unfolding tap_page
tap_page-Keeps tapped pressed s w =
    Keeps-if (is_display_test s.page) _ _ (λ d. w)
      λ d.
        Keeps-if (is_negative s.touch_y || ltb (magnitude s.touch_y) status_bar_height) _ _
          (λ e. tap_status_bar-IsWellFormed s w d)
          λ e.
            Keeps-if (not (is_settings_page s)) _ _ (λ t. w)
              λ t.
                let settings = not-false (is_settings_page s) t in
                Keeps-if (is_legacy (details_page s)) _ _
                  (λ l. absurd (legacy_not_shown s.page s.settings_menu w.menu settings l))
                  (λ l. commit-Keeps tapped pressed s w settings)

pub activate_tap-Keeps : (s : UiState) → IsWellFormed s → Keeps (activate_tap s)
unfolding activate_tap
activate_tap-Keeps s w =
    tap_page-Keeps (tapped_action s) (or_else s.pressed_action (tapped_action s))
      (record s { touch_action = none; touch_action_initialized = false; pressed_action = none }) w
