-- ===== src/T1/Refresh.antt =====
-- refresh.rs: the choice of a waveform for each redraw, and the cadence of cleanup updates.
pub mod Cadence
use sony_prs.Base.{ℕ, ◌+◌, Bool, true, false, min, leb, if◌then◌else◌}

-- `WaveformMode` of framebuffer.rs.
pub data WaveformMode : Type 0 where
  du gc16 gc4 a2 : WaveformMode

pub data PageTone : Type 0 where
  monochrome grayscale : PageTone

pub data RefreshReason : Type 0 where
  full_redraw status_bar transient : RefreshReason
  page_turn : PageTone → RefreshReason

pub record RefreshPlan : Type 0 where
  pub waveform : WaveformMode
  pub wait_for_completion : Bool
  pub force_refresh : Bool
  pub cleanup : Bool

abbrev pub fast_page_turns_before_cleanup : ℕ
fast_page_turns_before_cleanup = 4

pub record RefreshPolicy : Type 0 where
  pub fast_page_turns : ℕ

abbrev pub default_policy : RefreshPolicy
default_policy = record { fast_page_turns = 0 }

abbrev full_plan : RefreshPlan
full_plan = record {
  waveform = gc16;
  wait_for_completion = true;
  force_refresh = true;
  cleanup = false;
}

abbrev fast_plan : RefreshPlan
fast_plan = record {
  waveform = du;
  wait_for_completion = false;
  force_refresh = false;
  cleanup = false;
}

unfoldable pub plan : RefreshPolicy → RefreshReason → RefreshPlan
plan policy full_redraw = full_plan
plan policy (page_turn grayscale) = record {
  waveform = gc16;
  wait_for_completion = true;
  force_refresh = true;
  cleanup = false;
}
plan policy (page_turn monochrome) =
    if leb fast_page_turns_before_cleanup policy.fast_page_turns
    then record {
      waveform = gc16;
      wait_for_completion = true;
      force_refresh = true;
      cleanup = true;
    }
    else fast_plan
plan policy status_bar = fast_plan
plan policy transient = fast_plan

-- `u8::saturating_add`.
abbrev saturating_add_u8 : ℕ → ℕ → ℕ
saturating_add_u8 a b = min (a + b) 255

unfoldable pub record_success : RefreshPolicy → RefreshReason → RefreshPlan → RefreshPolicy
record_success policy full_redraw p = record { fast_page_turns = 0 }
record_success policy (page_turn grayscale) p = record { fast_page_turns = 0 }
record_success policy (page_turn monochrome) p =
    if p.force_refresh
    then record { fast_page_turns = 0 }
    else record { fast_page_turns = saturating_add_u8 policy.fast_page_turns 1 }
record_success policy status_bar p = policy
record_success policy transient p = policy
