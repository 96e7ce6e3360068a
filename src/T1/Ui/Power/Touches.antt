-- ===== src/T1/Ui/Power/Touches.antt =====
-- Touches and the menu button: what they ask for was waiting for its confirmation.
use sony_prs.Base.{
  ℕ, ◌≡◌, refl, subst, inl, inr, Bool, true, false, not, ◌&&◌, Option, none, some, if◌then◌else◌,
  arith, is_negative, Bool-cases,
}
use sony_prs.T1.Details.Actions.{DetailsAction, is_action, same_option}
use sony_prs.T1.Ui.{UiState, RawEvent, PowerAction}
use sony_prs.T1.Ui.Dirty.{DirtyArea, is_home}
use sony_prs.T1.Ui.Input.{
  event_key, is_value, is_positive, is_event, timestamp_micros, menu_hold_micros,
  abs_mt_touch_major, abs_mt_tracking_id, btn_touch, event_abs,
}
use sony_prs.T1.Ui.Focus.{is_settings_page}
use sony_prs.T1.Ui.Activate.{Outcome, activate_focused_action, touched_action}
use sony_prs.T1.Ui.Keys.{
  repeat_menu, release_menu, release_menu_after, observe_menu, is_some, held_for,
}
use sony_prs.T1.Ui.Observe.{
  move_axis, move_touch, drag_from, drag, press, touch_report, touch_contact, touch_contacts,
  touch_button, after_drag, observe_touch,
}
use sony_prs.T1.Ui.Power.{
  Asked, Asked-if, quiet-Asked, activate_focus-Asked, activate_tap-Asked, touch_report-Asked,
  press-Asked,
}

pending-if :
    (test : Bool) (s t : UiState) (pending : Option PowerAction)
    → s.pending_power_action ≡ pending
    → t.pending_power_action ≡ pending
    → (if test then s else t).pending_power_action ≡ pending
pending-if true s t pending h k = h
pending-if false s t pending h k = k

touch_contact-Asked :
    (pending : Option PowerAction) (next : UiState → Option Outcome) (axis : ℕ) (present : Bool)
    (e : RawEvent) (s : UiState)
    → s.pending_power_action ≡ pending
    → ((t : UiState) → t.pending_power_action ≡ pending → Asked pending (next t))
    → Asked pending (touch_contact next axis present e s)
unfolding touch_contact
touch_contact-Asked pending next axis present e s h k =
    let waiting = record s { touch_release_pending = true } in
    Asked-if pending (not (is_event e event_abs axis)) _ _ (k s h) (
      Asked-if pending present _ _
        (Asked-if pending s.touch_down _ _ (k (record s { touch_release_pending = false }) h)
          (subst (λ p. Asked p (press s)) h (press-Asked s)))
        (k (if s.touch_down then waiting else s) (pending-if s.touch_down waiting s pending h h)))

touch_contacts-Asked :
    (e : RawEvent) (s : UiState) → Asked s.pending_power_action (touch_contacts e s)
unfolding touch_contacts
touch_contacts-Asked e s =
    let pending = s.pending_power_action in
    touch_contact-Asked pending _ abs_mt_touch_major (is_positive e.value) e s refl λ t h.
      touch_contact-Asked pending _ abs_mt_tracking_id (not (is_negative e.value)) e t h
        λ u k. subst (λ p. Asked p (touch_report e u)) k (touch_report-Asked e u)

touch_button-Asked : (e : RawEvent) (s : UiState) → Asked s.pending_power_action (touch_button e s)
unfolding touch_button
touch_button-Asked e s =
    let pending = s.pending_power_action in
    Asked-if pending (not (is_event e event_key btn_touch)) _ _ (touch_contacts-Asked e s) (
      Asked-if pending (not (is_value 0 e.value)) _ _
        (Asked-if pending s.touch_down _ _ (touch_contacts-Asked e s) (press-Asked s))
        (Asked-if pending s.touch_down _ _ (activate_tap-Asked (record s { touch_down = false }))
          (touch_contacts-Asked e s)))

after_drag-Asked :
    (touched : Option DetailsAction) (down : Bool) (e : RawEvent) (s : UiState)
    → Asked s.pending_power_action (after_drag e s (if down then drag_from touched s else none))
unfolding after_drag drag_from
after_drag-Asked touched false e s = touch_button-Asked e s
after_drag-Asked none true e s = touch_button-Asked e s
after_drag-Asked (some a) true e s =
    let now = if is_action (touched_action s) a then some a else none in
    elim (Bool-cases (same_option now s.pressed_action)) [
      | inl h ↦ rw h (touch_button-Asked e s)
      | inr h ↦ rw h (
          quiet-Asked s.pending_power_action (record s { pressed_action = now })
            (some (DirtyArea.action a)))
    ]

move_touch-pending :
    (e : RawEvent) (s : UiState) → (move_touch e s).pending_power_action ≡ s.pending_power_action
unfolding move_touch move_axis
move_touch-pending e s = ground arith

pub observe_touch-Asked :
    (e : RawEvent) (s : UiState) → Asked s.pending_power_action (observe_touch e s)
unfolding observe_touch drag
observe_touch-Asked e s =
    let moved = move_touch e s in
    subst (λ p. Asked p (observe_touch e s)) (move_touch-pending e s)
      (after_drag-Asked moved.touch_action moved.touch_down e moved)

release_menu_after-Asked :
    (triggered long : Bool) (s : UiState)
    → Asked s.pending_power_action (release_menu_after triggered long s)
unfolding release_menu_after activate_focused_action
release_menu_after-Asked triggered long s =
    let pending = s.pending_power_action in
    Asked-if pending (not triggered && long) _ _ (λ h. absurd (ground arith))
      (Asked-if pending (not triggered && is_home s.page) _ _ (λ h. absurd (ground arith))
        (Asked-if pending (not triggered && is_settings_page s) _ _
          (activate_focus-Asked s.focused_action s) (λ h. absurd (ground arith))))

pub observe_menu-Asked :
    (now : ℕ) (e : RawEvent) (s : UiState) → Asked s.pending_power_action (observe_menu now e s)
unfolding observe_menu repeat_menu release_menu
observe_menu-Asked now e s =
    let pending = s.pending_power_action in
    let up = record s {
      menu_press_us = none;
      menu_pressed_at = none;
      menu_hold_triggered = false;
    } in
    Asked-if pending (is_value 1 e.value) _ _ (λ h. absurd (ground arith))
      (Asked-if pending (is_value 2 e.value) _ _
        (Asked-if pending
          (not s.menu_hold_triggered
            && held_for menu_hold_micros s.menu_press_us (timestamp_micros e))
          _ _ (λ h. absurd (ground arith)) (λ h. absurd (ground arith)))
        (Asked-if pending (is_value 0 e.value) _ _
          (Asked-if pending (is_some s.menu_press_us) _ _
            (release_menu_after-Asked s.menu_hold_triggered
              (held_for menu_hold_micros s.menu_press_us (timestamp_micros e)) up)
            (λ h. absurd (ground arith)))
          (λ h. absurd (ground arith))))
