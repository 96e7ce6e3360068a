-- ===== src/T1/Ui/Power/Recorded.antt =====
-- runtime.rs: what an event makes of the recorded press of the power button.
use sony_prs.Base.{
  ℕ, ◌≡◌, refl, inl, inr, Bool, true, false, not, ◌||◌, ◌&&◌, Option, none, some, if◌then◌else◌,
  arith, ltb, ◌==◌, Bool-cases,
}
use sony_prs.T1.Ui.{UiState, RawEvent, InputSourceKind}
use sony_prs.T1.Ui.Input.{
  event_key, key_menu, key_left, key_right, key_home, key_back, key_power, is_value, is_power,
  timestamp_micros,
}
use sony_prs.T1.Ui.Activate.{Outcome}
use sony_prs.T1.Ui.Dirty.{DirtyArea}
use sony_prs.T1.Ui.Keys.{
  is_some, press_power, release_power, power_value, observe_power, observe_power_until,
}
use sony_prs.T1.Ui.Observe.{count_up, observe_key, finish, dispatch, observe, clears_feedback}
use sony_prs.T1.Ui.Power.Kept.{Holds, Holds-if}
use sony_prs.T1.Ui.Power.Events.{
  observe_touch-Holds, observe_menu-Holds, page_key-Holds, home_key-Holds, back_key-Holds,
}

-- An event of the power button, on one of its two devices.
abbrev pub is_power_key : InputSourceKind → RawEvent → Bool
is_power_key source e = is_power source && (e.event_type == event_key) && (e.code == key_power)

-- The shell ignores the button up to two seconds after a wake.
abbrev pub ignores_power : ℕ → Option ℕ → Bool
ignores_power now none = false
ignores_power now (some deadline) = ltb now deadline

-- What an event makes of the recorded press.
abbrev pub recorded : Bool → ℕ → RawEvent → Option ℕ → Option ℕ
recorded false now e held = held
recorded true now e held =
    if is_value 1 e.value
    then (if is_some held then held else some (timestamp_micros e))
    else if is_value 0 e.value
    then none
    else held

abbrev pub recorded_after : ℕ → InputSourceKind → RawEvent → UiState → Option ℕ
recorded_after now source e s =
    recorded (is_power_key source e && not (ignores_power now s.ignore_power_until)) now e
      s.power_press_us

observe_power-Holds :
    (until : Option ℕ) (now : ℕ) (e : RawEvent) (s : UiState)
    → Holds
        (recorded (not (ignores_power now until)) now e s.power_press_us)
        (observe_power_until until now e s)
unfolding observe_power_until power_value press_power release_power
observe_power-Holds none now e s = ground arith
observe_power-Holds (some deadline) now e s = ground arith

keys-Holds :
    (now : ℕ) (e : RawEvent) (s : UiState)
    → Holds s.power_press_us (observe_key now InputSourceKind.keys e s)
unfolding observe_key
keys-Holds now e s =
    let counted = record s {
      last_key = some (InputSourceKind.keys, e);
      key_events = count_up s.key_events;
    } in
    let held = s.power_press_us in
    Holds-if held (e.code == key_menu) _ _ (observe_menu-Holds now e counted) (
      Holds-if held ((e.code == key_left) || (e.code == key_right)) _ _ (page_key-Holds e counted) (
        Holds-if held (e.code == key_home) _ _ (home_key-Holds e counted)
          (Holds-if held (e.code == key_back) _ _ (back_key-Holds e counted) refl)))

button-Holds :
    (now : ℕ) (source : InputSourceKind) (e : RawEvent) (s : UiState)
    → is_power source ≡ true
    → Holds
        (recorded
          ((e.code == key_power) && not (ignores_power now s.ignore_power_until))
          now
          e
          s.power_press_us)
        (observe_key now source e s)
unfolding observe_key observe_power
button-Holds now InputSourceKind.keys e s h = cc
button-Holds now InputSourceKind.touch e s h = cc
button-Holds now InputSourceKind.pmic_power e s h = elim (Bool-cases (e.code == key_power)) [
  | inl c ↦ rw c (
      observe_power-Holds s.ignore_power_until now e (record s {
        last_key = some (InputSourceKind.pmic_power, e);
        key_events = count_up s.key_events;
      }))
  | inr c ↦ rw c refl
]
button-Holds now InputSourceKind.sub_cpu_power e s h = elim (Bool-cases (e.code == key_power)) [
  | inl c ↦ rw c (
      observe_power-Holds s.ignore_power_until now e (record s {
        last_key = some (InputSourceKind.sub_cpu_power, e);
        key_events = count_up s.key_events;
      }))
  | inr c ↦ rw c refl
]

dispatch-Holds :
    (now : ℕ) (source : InputSourceKind) (e : RawEvent) (s : UiState)
    → Holds (recorded_after now source e s) (dispatch now source e s)
unfolding dispatch
dispatch-Holds now InputSourceKind.keys e s =
    Holds-if s.power_press_us (e.event_type == event_key) _ _ (keys-Holds now e s) refl
dispatch-Holds now InputSourceKind.touch e s = observe_touch-Holds e s
dispatch-Holds now InputSourceKind.pmic_power e s = elim (Bool-cases (e.event_type == event_key)) [
  | inl k ↦ rw k (button-Holds now InputSourceKind.pmic_power e s refl)
  | inr k ↦ rw k refl
]
dispatch-Holds now InputSourceKind.sub_cpu_power e s =
    elim (Bool-cases (e.event_type == event_key)) [
      | inl k ↦ rw k (button-Holds now InputSourceKind.sub_cpu_power e s refl)
      | inr k ↦ rw k refl
    ]

finish-Holds :
    (held : Option ℕ) (damage : Option DirtyArea) (r : Option Outcome)
    → Holds held r
    → Holds held (finish damage r)
unfolding finish
finish-Holds held damage none k = k
finish-Holds held damage (some o) k = k

pub observe-Holds :
    (now : ℕ) (source : InputSourceKind) (e : RawEvent) (s : UiState)
    → Holds (recorded_after now source e s) (observe now source e s)
unfolding observe
observe-Holds now source e s =
    let held = recorded_after now source e s in
    Holds-if held (clears_feedback source e) _ _
      (finish-Holds held _ _
        (dispatch-Holds now source e (record s { last_activity = now; feedback = none })))
      (finish-Holds held none _ (dispatch-Holds now source e (record s { last_activity = now })))
