-- ===== src/T1/Ui/Observe.antt =====
-- runtime.rs: `UiState::observe`, the handler of every input event, at a time. A step of the touch
-- screen returns early where the source does and otherwise goes on with the next one.
use sony_prs.Base.{
  ℕ, ◌+◌, ◌%◌, ◌^◌, is_negative, Bool, true, false, not, ◌&&◌, ◌||◌, Option, none, some, ◌==◌,
  if◌then◌else◌,
}
use sony_prs.T1.Orientation.{Point, map_multitouch_point, map_touch_point}
use sony_prs.T1.Details.Actions.{DetailsAction, is_action, same_option}
use sony_prs.T1.Ui.{UiState, RawEvent, InputSourceKind, Feedback, error, debug}
use sony_prs.T1.Ui.Dirty.{DirtyArea, merge_optional_dirty, is_home}
use sony_prs.T1.Ui.Input.{
  event_syn, event_key, event_abs, syn_report, abs_x, abs_y, abs_mt_touch_major, abs_mt_position_x,
  abs_mt_position_y, abs_mt_tracking_id, btn_touch, key_power, key_left, key_right, key_home,
  key_back, key_menu, is_value, is_positive, is_event, is_power, is_touch, is_keys,
}
use sony_prs.T1.Ui.Focus.{is_settings_page}
use sony_prs.T1.Ui.Activate.{Outcome, quiet, without_power, touched_action, activate_tap}
use sony_prs.T1.Ui.Keys.{is_some, observe_menu, observe_power, page_key, home_key, back_key}

-- The count of a u64.
abbrev pub count_up : ℕ → ℕ
count_up n = (n + 1) % 2 ^ 64

abbrev at_point : Point → UiState → UiState
at_point p s = record s { touch_seen = true; touch_x = p.x; touch_y = p.y }

-- The four axes: of the multitouch stream, and of the panel.
unfoldable pub move_axis : RawEvent → UiState → UiState
unfolding map_multitouch_point map_touch_point
move_axis e s =
    if e.code == abs_mt_position_x
    then at_point (map_multitouch_point s.orientation e.value s.touch_raw_y)
        (record s { touch_raw_x = e.value })
    else if e.code == abs_mt_position_y
    then at_point (map_multitouch_point s.orientation s.touch_raw_x e.value)
        (record s { touch_raw_y = e.value })
    else if e.code == abs_x
    then at_point (map_touch_point s.orientation e.value s.touch_raw_y)
        (record s { touch_raw_x = e.value })
    else if e.code == abs_y
    then at_point (map_touch_point s.orientation s.touch_raw_x e.value)
        (record s { touch_raw_y = e.value })
    else s

unfoldable pub move_touch : RawEvent → UiState → UiState
unfolding move_axis
move_touch e s =
    let seen = record s { last_touch = some e } in
    if e.event_type == event_abs then move_axis e seen else seen

-- What is drawn as pressed: the control of the press, while the finger is on it.
abbrev pressed_now : DetailsAction → UiState → Option DetailsAction
unfolding touched_action
pressed_now a s = if is_action (touched_action s) a then some a else none

unfoldable pub drag_from : Option DetailsAction → UiState → Option (UiState × DetailsAction)
unfolding touched_action
drag_from none s = none
drag_from (some a) s =
    if same_option (pressed_now a s) s.pressed_action
    then none
    else some (record s { pressed_action = pressed_now a s }, a)

unfoldable pub drag : UiState → Option (UiState × DetailsAction)
unfolding drag_from
drag s = let moved = drag_from s.touch_action s in if s.touch_down then moved else none

abbrev as_action : Option DetailsAction → Option DirtyArea
as_action none = none
as_action (some a) = some (DirtyArea.action a)

unfoldable pub begin_touch_action : UiState → UiState × Option DirtyArea
unfolding touched_action
begin_touch_action s =
    let found = if is_settings_page s then touched_action s else none in
    (
      record s { touch_action_initialized = true; touch_action = found; pressed_action = found },
      as_action found,
    )

unfoldable pub press : UiState → Option Outcome
unfolding begin_touch_action
press s = without_power (some (begin_touch_action (record s { touch_down = true })))

-- The end of the report, where a touch that left is a tap.
unfoldable pub touch_report : RawEvent → UiState → Option Outcome
unfolding activate_tap
touch_report e s =
    let counted = record s { touch_events = count_up s.touch_events } in
    if not (is_event e event_syn syn_report)
    then quiet s none
    else if s.touch_release_pending
    then activate_tap (record counted { touch_down = false; touch_release_pending = false })
    else quiet counted (if is_settings_page s then some DirtyArea.touch else none)

-- A contact that is there or left, told by one of two axes; `next` is the rest of the handler.
unfoldable pub touch_contact :
    (UiState → Option Outcome) → ℕ → Bool → RawEvent → UiState → Option Outcome
unfolding press
touch_contact next axis present e s =
    if not (is_event e event_abs axis)
    then next s
    else if present
    then (if s.touch_down then next (record s { touch_release_pending = false }) else press s)
    else next (if s.touch_down then record s { touch_release_pending = true } else s)

unfoldable pub touch_contacts : RawEvent → UiState → Option Outcome
unfolding touch_contact touch_report
touch_contacts e s =
    touch_contact (touch_contact (touch_report e) abs_mt_tracking_id (not (is_negative e.value)) e)
      abs_mt_touch_major (is_positive e.value) e s

unfoldable pub touch_button : RawEvent → UiState → Option Outcome
unfolding press activate_tap touch_contacts
touch_button e s =
    if not (is_event e event_key btn_touch)
    then touch_contacts e s
    else if not (is_value 0 e.value)
    then (if s.touch_down then touch_contacts e s else press s)
    else if s.touch_down
    then activate_tap (record s { touch_down = false })
    else touch_contacts e s

unfoldable pub after_drag : RawEvent → UiState → Option (UiState × DetailsAction) → Option Outcome
unfolding touch_button
after_drag e s none = touch_button e s
after_drag e s (some (dragged, a)) = quiet dragged (some (DirtyArea.action a))

unfoldable pub observe_touch : RawEvent → UiState → Option Outcome
unfolding move_touch drag after_drag
observe_touch e s = after_drag e (move_touch e s) (drag (move_touch e s))

unfoldable pub observe_key : ℕ → InputSourceKind → RawEvent → UiState → Option Outcome
unfolding observe_menu observe_power page_key home_key back_key
observe_key now source e s =
    let counted = record s { last_key = some (source, e); key_events = count_up s.key_events } in
    if is_keys source && (e.code == key_menu)
    then observe_menu now e counted
    else if is_keys source && ((e.code == key_left) || (e.code == key_right))
    then page_key e counted
    else if is_keys source && (e.code == key_home)
    then home_key e counted
    else if is_keys source && (e.code == key_back)
    then back_key e counted
    else if is_power source && (e.code == key_power)
    then observe_power now e counted
    else quiet counted (
        if is_settings_page s
        then some (if is_power source then DirtyArea.power else DirtyArea.key)
        else none)

-- `visible_feedback` and `feedback_is_visible`, without the text.
abbrev pub visible_feedback : Option Feedback → Bool → Bool
visible_feedback (some error) debug_messages = true
visible_feedback (some debug) debug_messages = debug_messages
visible_feedback none debug_messages = false

abbrev pub feedback_is_visible : UiState → Bool
feedback_is_visible s =
    is_home s.page
    && not (s.sync_active && is_some s.approval_url)
    && visible_feedback s.feedback s.debug_messages

unfoldable pub finish : Option DirtyArea → Option Outcome → Option Outcome
unfolding merge_optional_dirty
finish feedback_damage none = none
finish feedback_damage (some o) =
    some (record o { dirty = merge_optional_dirty feedback_damage o.dirty })

-- Whether the event takes the feedback away.
abbrev pub clears_feedback : InputSourceKind → RawEvent → Bool
clears_feedback source e = is_touch source || (e.event_type == event_key)

unfoldable pub dispatch : ℕ → InputSourceKind → RawEvent → UiState → Option Outcome
unfolding observe_touch observe_key
dispatch now source e s =
    if is_touch source
    then observe_touch e s
    else if e.event_type == event_key
    then observe_key now source e s
    else quiet s none

unfoldable pub observe : ℕ → InputSourceKind → RawEvent → UiState → Option Outcome
unfolding dispatch finish
observe now source e s =
    if clears_feedback source e
    then finish (if feedback_is_visible s then some DirtyArea.feedback else none)
        (dispatch now source e (record s { last_activity = now; feedback = none }))
    else finish none (dispatch now source e (record s { last_activity = now }))
