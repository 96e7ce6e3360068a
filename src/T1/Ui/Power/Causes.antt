-- ===== src/T1/Ui/Power/Causes.antt =====
-- The events that a reboot or a power-off comes from.
use sony_prs.Base.{ℕ, ◌≤◌, ◌-◌, ◌≡◌, ◌⊎◌, true, Option, none, some}
use sony_prs.T1.Ui.{UiState, RawEvent, InputSourceKind, PowerAction}
use sony_prs.T1.Ui.Input.{
  event_key, key_power, is_value, is_power, timestamp_micros, long_press_micros,
}
use sony_prs.T1.Ui.Activate.{Outcome}
use sony_prs.T1.Ui.Power.{stops}

-- The release of the power button, on one of its two devices, at least two seconds after a press.
pub record LongRelease (source : InputSourceKind) (e : RawEvent) (p : ℕ) (made : PowerAction)
    : Type 0 where
  pub device : is_power source ≡ true
  pub key_event : e.event_type ≡ event_key
  pub button : e.code ≡ key_power
  pub released : is_value 0 e.value ≡ true
  pub long : long_press_micros ≤ timestamp_micros e - p
  pub restarts : made ≡ PowerAction.reboot

-- An action that stops the device was waiting for its confirmation, or comes from the power button.
abbrev Caused : InputSourceKind → RawEvent → UiState → Option Outcome → Type 0
Caused source e s none = Unit
Caused source e s (some o) =
    stops o.action ≡ true
    → (s.pending_power_action ≡ some o.action)
      ⊎ ((p : ℕ) × (s.power_press_us ≡ some p) × LongRelease source e p o.action)
