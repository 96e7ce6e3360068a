-- ===== src/T1/Ui/Navigation/Events.antt =====
-- Every input event keeps the history of the pages.
use sony_prs.Base.{
  ℕ, inl, inr, Bool, true, false, not, ◌||◌, ◌&&◌, List, [], ◌∷◌, Option, none, some, if◌then◌else◌,
  arith, is_negative, Bool-cases, ◌==◌,
}
use sony_prs.T1.Details.Actions.{DetailsAction, is_action, same_option}
use sony_prs.T1.Ui.{UiPage, UiState, RawEvent, InputSourceKind}
use sony_prs.T1.Ui.Dirty.{DirtyArea, is_home}
use sony_prs.T1.Ui.Input.{
  event_key, key_menu, key_left, key_right, key_home, key_back, key_power, is_value, is_positive,
  is_event, is_power, is_touch, is_keys, timestamp_micros, menu_hold_micros, abs_mt_touch_major,
  abs_mt_tracking_id, event_syn, syn_report, btn_touch, event_abs,
}
use sony_prs.T1.Ui.Focus.{is_settings_page, move_focus, focus_actions, move_in, focus_on}
use sony_prs.T1.Ui.Activate.{Outcome, without_power, touched_action}
use sony_prs.T1.Ui.Keys.{
  trigger_menu_redraw, press_menu, repeat_menu, release_menu, release_menu_after, observe_menu,
  is_some, held_for, press_power, release_power, power_value, observe_power, observe_power_until,
  page_key, home_key, back_key,
}
use sony_prs.T1.Ui.Observe.{
  move_axis, move_touch, drag_from, drag, begin_touch_action, press, touch_report, touch_contact,
  touch_contacts, touch_button, after_drag, observe_touch, count_up, observe_key, finish, dispatch,
  observe, clears_feedback,
}
use sony_prs.T1.Ui.Navigation.{
  opened_from, pending_fits, IsWellFormed, Keeps, Keeps-if, open_ui_page-IsWellFormed,
  home_button-Keeps, back_button-Keeps,
}
use sony_prs.T1.Ui.Navigation.Activation.{activate_focused_action-Keeps, activate_tap-Keeps}

release_menu_after-Keeps :
    (triggered long : Bool) (s : UiState)
    → IsWellFormed s
    → Keeps (release_menu_after triggered long s)
unfolding release_menu_after trigger_menu_redraw opened_from pending_fits
release_menu_after-Keeps triggered long s w =
    Keeps-if (not triggered && long) _ _ (λ h. w)
      λ h.
        Keeps-if (not triggered && is_home s.page) _ _
          (λ i.
            open_ui_page-IsWellFormed UiPage.details s w.history w.focus (ground arith)
              (ground arith))
          λ i.
            Keeps-if (not triggered && is_settings_page s) _ _
              (λ j. activate_focused_action-Keeps s w (ground arith)) λ j. w

focus_on-Keeps :
    (next : Option DetailsAction) (s : UiState)
    → IsWellFormed s
    → Keeps (without_power (some (focus_on next s)))
focus_on-Keeps next s w = elim (Bool-cases (same_option s.focused_action next)) [
  | inl e ↦ rw e w
  | inr e ↦ rw e w
]

move_in-Keeps :
    (actions : List DetailsAction) (forward : Bool) (s : UiState)
    → IsWellFormed s
    → Keeps (without_power (some (move_in actions forward s)))
unfolding move_in
move_in-Keeps [] forward s w = w
move_in-Keeps (a ∷ actions) forward s w = focus_on-Keeps _ s w

module _ (s : UiState) (w : IsWellFormed s) (e : RawEvent) where
  press_menu-IsWellFormed : (now : ℕ) → IsWellFormed (press_menu now e s)
  unfolding press_menu
  press_menu-IsWellFormed now = ground arith

  repeat_menu-Keeps : Keeps (repeat_menu e s)
  unfolding repeat_menu trigger_menu_redraw
  repeat_menu-Keeps =
      Keeps-if
        (not s.menu_hold_triggered
          && held_for menu_hold_micros s.menu_press_us (timestamp_micros e))
        _ _ (λ h. w) λ h. w

  release_menu-Keeps : Keeps (release_menu e s)
  unfolding release_menu
  release_menu-Keeps =
      let up = record s {
        menu_press_us = none;
        menu_pressed_at = none;
        menu_hold_triggered = false;
      } in
      Keeps-if (is_some s.menu_press_us) _ _
        (λ h.
          release_menu_after-Keeps s.menu_hold_triggered
            (held_for menu_hold_micros s.menu_press_us (timestamp_micros e)) up w)
        λ h. w

  pub observe_menu-Keeps : (now : ℕ) → Keeps (observe_menu now e s)
  unfolding observe_menu
  observe_menu-Keeps now =
      Keeps-if (is_value 1 e.value) _ _ (λ h. press_menu-IsWellFormed now)
        λ h.
          Keeps-if (is_value 2 e.value) _ _ (λ i. repeat_menu-Keeps)
            λ i. Keeps-if (is_value 0 e.value) _ _ (λ j. release_menu-Keeps) λ j. w

  pub observe_power-Keeps : (now : ℕ) → Keeps (observe_power now e s)
  unfolding observe_power observe_power_until power_value press_power release_power
  observe_power-Keeps now = ground arith

  pub page_key-Keeps : Keeps (page_key e s)
  unfolding page_key move_focus
  page_key-Keeps =
      Keeps-if (is_settings_page s && is_value 1 e.value) _ _
        (λ h. move_in-Keeps (focus_actions s) (e.code == key_right) s w)
        λ h. Keeps-if (is_home s.page && is_value 1 e.value) _ _ (λ i. w) λ i. w

  pub home_key-Keeps : Keeps (home_key e s)
  unfolding home_key
  home_key-Keeps = Keeps-if (is_value 1 e.value) _ _ (λ h. home_button-Keeps s w) λ h. w

  pub back_key-Keeps : Keeps (back_key e s)
  unfolding back_key
  back_key-Keeps = Keeps-if (is_value 1 e.value) _ _ (λ h. back_button-Keeps s w) λ h. w

observe_key-Keeps :
    (now : ℕ) (source : InputSourceKind) (e : RawEvent) (s : UiState)
    → IsWellFormed s
    → Keeps (observe_key now source e s)
unfolding observe_key
observe_key-Keeps now source e s w =
    let counted = record s { last_key = some (source, e); key_events = count_up s.key_events } in
    Keeps-if (is_keys source && (e.code == key_menu)) _ _ (λ h. observe_menu-Keeps counted w e now)
      λ h.
        Keeps-if (is_keys source && ((e.code == key_left) || (e.code == key_right))) _ _
          (λ i. page_key-Keeps counted w e)
          λ i.
            Keeps-if (is_keys source && (e.code == key_home)) _ _ (λ j. home_key-Keeps counted w e)
              λ j.
                Keeps-if (is_keys source && (e.code == key_back)) _ _
                  (λ k. back_key-Keeps counted w e)
                  λ k.
                    Keeps-if (is_power source && (e.code == key_power)) _ _
                      (λ l. observe_power-Keeps counted w e now) λ l. w

move_touch-IsWellFormed :
    (e : RawEvent) (s : UiState) → IsWellFormed s → IsWellFormed (move_touch e s)
unfolding move_touch move_axis
move_touch-IsWellFormed e s w = ground arith

press-Keeps : (s : UiState) → IsWellFormed s → Keeps (press s)
unfolding press begin_touch_action
press-Keeps s w = w

touch_report-Keeps : (e : RawEvent) (s : UiState) → IsWellFormed s → Keeps (touch_report e s)
unfolding touch_report
touch_report-Keeps e s w =
    Keeps-if (not (is_event e event_syn syn_report)) _ _ (λ h. w)
      λ h.
        let counted = record s { touch_events = count_up s.touch_events } in
        Keeps-if s.touch_release_pending _ _
          (λ i.
            activate_tap-Keeps
              (record counted { touch_down = false; touch_release_pending = false }) w)
          λ i. w

IsWellFormed-if :
    (test : Bool) (s t : UiState)
    → IsWellFormed s
    → IsWellFormed t
    → IsWellFormed (if test then s else t)
IsWellFormed-if true s t w v = w
IsWellFormed-if false s t w v = v

touch_contact-Keeps :
    (next : UiState → Option Outcome) (axis : ℕ) (present : Bool) (e : RawEvent) (s : UiState)
    → IsWellFormed s
    → ((t : UiState) → IsWellFormed t → Keeps (next t))
    → Keeps (touch_contact next axis present e s)
unfolding touch_contact
touch_contact-Keeps next axis present e s w k =
    Keeps-if (not (is_event e event_abs axis)) _ _ (λ h. k s w)
      λ h.
        Keeps-if present _ _
          (λ i.
            Keeps-if s.touch_down _ _ (λ j. k (record s { touch_release_pending = false }) w)
              λ j. press-Keeps s w)
          λ i.
            let waiting = record s { touch_release_pending = true } in
            k (if s.touch_down then waiting else s) (IsWellFormed-if s.touch_down waiting s w w)

touch_contacts-Keeps : (e : RawEvent) (s : UiState) → IsWellFormed s → Keeps (touch_contacts e s)
unfolding touch_contacts
touch_contacts-Keeps e s w =
    touch_contact-Keeps _ abs_mt_touch_major (is_positive e.value) e s w λ t v.
      touch_contact-Keeps _ abs_mt_tracking_id (not (is_negative e.value)) e t v
        (touch_report-Keeps e)

touch_button-Keeps : (e : RawEvent) (s : UiState) → IsWellFormed s → Keeps (touch_button e s)
unfolding touch_button
touch_button-Keeps e s w =
    Keeps-if (not (is_event e event_key btn_touch)) _ _ (λ h. touch_contacts-Keeps e s w)
      λ h.
        Keeps-if (not (is_value 0 e.value)) _ _
          (λ i. Keeps-if s.touch_down _ _ (λ j. touch_contacts-Keeps e s w) λ j. press-Keeps s w)
          λ i.
            Keeps-if s.touch_down _ _ (λ j. activate_tap-Keeps (record s { touch_down = false }) w)
              λ j. touch_contacts-Keeps e s w

after_drag-Keeps :
    (touched : Option DetailsAction) (down : Bool) (e : RawEvent) (s : UiState)
    → IsWellFormed s
    → Keeps (after_drag e s (if down then drag_from touched s else none))
unfolding after_drag drag_from
after_drag-Keeps touched false e s w = touch_button-Keeps e s w
after_drag-Keeps none true e s w = touch_button-Keeps e s w
after_drag-Keeps (some a) true e s w =
    elim (Bool-cases
      (same_option (if is_action (touched_action s) a then some a else none) s.pressed_action)) [
        | inl h ↦ rw h (touch_button-Keeps e s w)
        | inr h ↦ rw h w
      ]

observe_touch-Keeps : (e : RawEvent) (s : UiState) → IsWellFormed s → Keeps (observe_touch e s)
unfolding observe_touch drag
observe_touch-Keeps e s w =
    let moved = move_touch e s in
    after_drag-Keeps moved.touch_action moved.touch_down e moved (move_touch-IsWellFormed e s w)

dispatch-Keeps :
    (now : ℕ) (source : InputSourceKind) (e : RawEvent) (s : UiState)
    → IsWellFormed s
    → Keeps (dispatch now source e s)
unfolding dispatch
dispatch-Keeps now source e s w =
    Keeps-if (is_touch source) _ _ (λ h. observe_touch-Keeps e s w)
      λ h. Keeps-if (e.event_type == event_key) _ _ (λ i. observe_key-Keeps now source e s w) λ i. w

finish-Keeps : (damage : Option DirtyArea) (o : Option Outcome) → Keeps o → Keeps (finish damage o)
unfolding finish
finish-Keeps damage none k = k
finish-Keeps damage (some o) k = k

pub observe-Keeps :
    (now : ℕ) (source : InputSourceKind) (e : RawEvent) (s : UiState)
    → IsWellFormed s
    → Keeps (observe now source e s)
unfolding observe
observe-Keeps now source e s w =
    Keeps-if (clears_feedback source e) _ _
      (λ h.
        finish-Keeps _ _
          (dispatch-Keeps now source e (record s { last_activity = now; feedback = none }) w))
      λ h. finish-Keeps none _ (dispatch-Keeps now source e (record s { last_activity = now }) w)
