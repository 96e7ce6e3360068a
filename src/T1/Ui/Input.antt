-- ===== src/T1/Ui/Input.antt =====
-- runtime.rs: the codes of the input events, and the tests on an event.
use sony_prs.Base.{ℕ, ℤ, pos, negsuc, ◌+◌, ◌*◌, ◌==◌, ◌&&◌, Bool, true, false, ltb}
use sony_prs.T1.Ui.{RawEvent, InputSourceKind, keys, touch, pmic_power, sub_cpu_power}

abbrev pub event_syn : ℕ
event_syn = 0

abbrev pub event_key : ℕ
event_key = 1

abbrev pub event_abs : ℕ
event_abs = 3

abbrev pub syn_report : ℕ
syn_report = 0

abbrev pub abs_x : ℕ
abs_x = 0

abbrev pub abs_y : ℕ
abs_y = 1

abbrev pub abs_mt_touch_major : ℕ
abs_mt_touch_major = 48

abbrev pub abs_mt_position_x : ℕ
abs_mt_position_x = 53

abbrev pub abs_mt_position_y : ℕ
abs_mt_position_y = 54

abbrev pub abs_mt_tracking_id : ℕ
abs_mt_tracking_id = 57

abbrev pub btn_touch : ℕ
btn_touch = 330

abbrev pub key_power : ℕ
key_power = 116

abbrev pub key_left : ℕ
key_left = 105

abbrev pub key_right : ℕ
key_right = 106

abbrev pub key_home : ℕ
key_home = 102

abbrev pub key_back : ℕ
key_back = 158

abbrev pub key_menu : ℕ
key_menu = 357

abbrev pub ui_history_limit : ℕ
ui_history_limit = 8

abbrev pub long_press_micros : ℕ
long_press_micros = 2000000

abbrev pub menu_hold_micros : ℕ
menu_hold_micros = 1000000

abbrev pub timestamp_micros : RawEvent → ℕ
timestamp_micros e = e.sec * 1000000 + e.usec

-- `event.value == n`, `> 0` and `>= 0`.
abbrev pub is_value : ℕ → ℤ → Bool
is_value n (pos v) = v == n
is_value n (negsuc v) = false

abbrev pub is_positive : ℤ → Bool
is_positive (pos v) = ltb 0 v
is_positive (negsuc v) = false

-- An event of a type with a code.
abbrev pub is_event : RawEvent → ℕ → ℕ → Bool
is_event e event_type code = (e.event_type == event_type) && (e.code == code)

abbrev pub is_power : InputSourceKind → Bool
is_power keys = false
is_power touch = false
is_power pmic_power = true
is_power sub_cpu_power = true

abbrev pub is_touch : InputSourceKind → Bool
is_touch touch = true
is_touch _ = false

abbrev pub is_keys : InputSourceKind → Bool
is_keys keys = true
is_keys _ = false
