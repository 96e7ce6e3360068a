-- ===== src/T1/Ui/Power/Events.antt =====
-- runtime.rs: the time of the power button's press is kept by every touch, and by every key but the
-- button itself.
use sony_prs.Base.{
  ℕ, ◌≡◌, refl, subst, Bool, true, false, not, ◌&&◌, Option, none, some, if◌then◌else◌, arith,
  is_negative, ◌==◌, Bool-cases, inl, inr,
}
use sony_prs.T1.Details.Actions.{DetailsAction, is_action, same_option}
use sony_prs.T1.Ui.{UiPage, UiState, RawEvent}
use sony_prs.T1.Ui.Dirty.{is_home}
use sony_prs.T1.Ui.Input.{
  event_key, is_value, is_positive, is_event, timestamp_micros, menu_hold_micros,
  abs_mt_touch_major, abs_mt_tracking_id, event_syn, syn_report, btn_touch, event_abs, key_right,
}
use sony_prs.T1.Ui.Focus.{is_settings_page, move_focus, move_in}
use sony_prs.T1.Ui.Pages.{back_button}
use sony_prs.T1.Ui.Activate.{Outcome, activate_focused_action, touched_action}
use sony_prs.T1.Ui.Keys.{
  trigger_menu_redraw, press_menu, repeat_menu, release_menu, release_menu_after, observe_menu,
  is_some, held_for, page_key, home_key, back_key,
}
use sony_prs.T1.Ui.Observe.{
  count_up, move_axis, move_touch, drag_from, drag, begin_touch_action, press, touch_report,
  touch_contact, touch_contacts, touch_button, after_drag, observe_touch,
}
use sony_prs.T1.Ui.Power.Kept.{
  Holds, Holds-if, without_power-Holds, open_ui_page-kept, home_button-kept, back_button-Left,
  activate_focus-Holds, activate_tap-Holds,
}

kept-if :
    (test : Bool) (s t : UiState) (pressed : Option ℕ)
    → s.power_press_us ≡ pressed
    → t.power_press_us ≡ pressed
    → (if test then s else t).power_press_us ≡ pressed
kept-if true s t pressed h k = h
kept-if false s t pressed h k = k

press-Holds : (s : UiState) → Holds s.power_press_us (press s)
unfolding press begin_touch_action
press-Holds s = refl

touch_report-Holds : (e : RawEvent) (s : UiState) → Holds s.power_press_us (touch_report e s)
unfolding touch_report
touch_report-Holds e s =
    let counted = record s { touch_events = count_up s.touch_events } in
    Holds-if s.power_press_us (not (is_event e event_syn syn_report)) _ _ refl (
      Holds-if s.power_press_us s.touch_release_pending _ _
        (activate_tap-Holds (record counted { touch_down = false; touch_release_pending = false }))
        refl)

touch_contact-Holds :
    (pressed : Option ℕ) (next : UiState → Option Outcome) (axis : ℕ) (present : Bool)
    (e : RawEvent) (s : UiState)
    → s.power_press_us ≡ pressed
    → ((t : UiState) → t.power_press_us ≡ pressed → Holds pressed (next t))
    → Holds pressed (touch_contact next axis present e s)
unfolding touch_contact
touch_contact-Holds pressed next axis present e s h k =
    let waiting = record s { touch_release_pending = true } in
    Holds-if pressed (not (is_event e event_abs axis)) _ _ (k s h) (
      Holds-if pressed present _ _
        (Holds-if pressed s.touch_down _ _ (k (record s { touch_release_pending = false }) h)
          (subst (λ p. Holds p (press s)) h (press-Holds s)))
        (k (if s.touch_down then waiting else s) (kept-if s.touch_down waiting s pressed h h)))

touch_contacts-Holds : (e : RawEvent) (s : UiState) → Holds s.power_press_us (touch_contacts e s)
unfolding touch_contacts
touch_contacts-Holds e s =
    let pressed = s.power_press_us in
    touch_contact-Holds pressed _ abs_mt_touch_major (is_positive e.value) e s refl λ t h.
      touch_contact-Holds pressed _ abs_mt_tracking_id (not (is_negative e.value)) e t h
        λ u k. subst (λ p. Holds p (touch_report e u)) k (touch_report-Holds e u)

touch_button-Holds : (e : RawEvent) (s : UiState) → Holds s.power_press_us (touch_button e s)
unfolding touch_button
touch_button-Holds e s =
    let pressed = s.power_press_us in
    Holds-if pressed (not (is_event e event_key btn_touch)) _ _ (touch_contacts-Holds e s) (
      Holds-if pressed (not (is_value 0 e.value)) _ _
        (Holds-if pressed s.touch_down _ _ (touch_contacts-Holds e s) (press-Holds s))
        (Holds-if pressed s.touch_down _ _ (activate_tap-Holds (record s { touch_down = false }))
          (touch_contacts-Holds e s)))

after_drag-Holds :
    (touched : Option DetailsAction) (down : Bool) (e : RawEvent) (s : UiState)
    → Holds s.power_press_us (after_drag e s (if down then drag_from touched s else none))
unfolding after_drag drag_from
after_drag-Holds touched false e s = touch_button-Holds e s
after_drag-Holds none true e s = touch_button-Holds e s
after_drag-Holds (some a) true e s =
    let now = if is_action (touched_action s) a then some a else none in
    elim (Bool-cases (same_option now s.pressed_action)) [
      | inl h ↦ rw h (touch_button-Holds e s)
      | inr h ↦ rw h refl
    ]

move_touch-kept : (e : RawEvent) (s : UiState) → (move_touch e s).power_press_us ≡ s.power_press_us
unfolding move_touch move_axis
move_touch-kept e s = ground arith

pub observe_touch-Holds : (e : RawEvent) (s : UiState) → Holds s.power_press_us (observe_touch e s)
unfolding observe_touch drag
observe_touch-Holds e s =
    let moved = move_touch e s in
    subst (λ p. Holds p (observe_touch e s)) (move_touch-kept e s)
      (after_drag-Holds moved.touch_action moved.touch_down e moved)

release_menu_after-Holds :
    (triggered long : Bool) (s : UiState)
    → Holds s.power_press_us (release_menu_after triggered long s)
unfolding release_menu_after activate_focused_action trigger_menu_redraw
release_menu_after-Holds triggered long s =
    let pressed = s.power_press_us in
    Holds-if pressed (not triggered && long) _ _ refl (
      Holds-if pressed (not triggered && is_home s.page) _ _ (open_ui_page-kept s UiPage.details) (
        Holds-if pressed (not triggered && is_settings_page s) _ _
          (activate_focus-Holds s.focused_action s) refl))

pub observe_menu-Holds :
    (now : ℕ) (e : RawEvent) (s : UiState) → Holds s.power_press_us (observe_menu now e s)
unfolding observe_menu press_menu repeat_menu release_menu trigger_menu_redraw
observe_menu-Holds now e s =
    let pressed = s.power_press_us in
    let up = record s {
      menu_press_us = none;
      menu_pressed_at = none;
      menu_hold_triggered = false;
    } in
    let long = held_for menu_hold_micros s.menu_press_us (timestamp_micros e) in
    Holds-if pressed (is_value 1 e.value) _ _ (ground arith) (
      Holds-if pressed (is_value 2 e.value) _ _
        (Holds-if pressed (not s.menu_hold_triggered && long) _ _ refl refl)
        (Holds-if pressed (is_value 0 e.value) _ _
          (Holds-if pressed (is_some s.menu_press_us) _ _
            (release_menu_after-Holds s.menu_hold_triggered long up) refl)
          refl))

move_focus-kept :
    (forward : Bool) (s : UiState) → (move_focus forward s).0.power_press_us ≡ s.power_press_us
unfolding move_focus move_in
move_focus-kept forward s = ground arith

pub page_key-Holds : (e : RawEvent) (s : UiState) → Holds s.power_press_us (page_key e s)
unfolding page_key
page_key-Holds e s =
    Holds-if s.power_press_us (is_settings_page s && is_value 1 e.value) _ _
      (move_focus-kept (e.code == key_right) s)
      (Holds-if s.power_press_us (is_home s.page && is_value 1 e.value) _ _ refl refl)

pub home_key-Holds : (e : RawEvent) (s : UiState) → Holds s.power_press_us (home_key e s)
unfolding home_key
home_key-Holds e s = Holds-if s.power_press_us (is_value 1 e.value) _ _ (home_button-kept s) refl

pub back_key-Holds : (e : RawEvent) (s : UiState) → Holds s.power_press_us (back_key e s)
unfolding back_key
back_key-Holds e s =
    Holds-if s.power_press_us (is_value 1 e.value) _ _
      (without_power-Holds s.power_press_us (back_button s) (back_button-Left s)) refl
