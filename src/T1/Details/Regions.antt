-- ===== src/T1/Details/Regions.antt =====
-- The rectangles of the controls, and `details_action_at_for_page`.
use sony_prs.Base.{
  ℕ, ◌+◌, ◌-◌, ◌*◌, ◌/◌, ◌%◌, ℤ, is_negative, magnitude, Bool, false, ◌||◌, ◌&&◌, List, [], ◌∷◌,
  Option, none, some, ltb, leb, min, max, if◌then◌else◌,
}
use sony_prs.T1.Region.{DisplayRegion, right, bottom}
use sony_prs.T1.Details.{
  details_action_margin, details_landscape_action_top, details_action_height, details_action_gap,
  menu_action_height, modern_control_height, modern_control_gap, landscape_column_gap,
}
use sony_prs.T1.Details.Actions.{
  DetailsPage, legacy, menu, reading, synchronization, device_diagnostics, power_confirmation,
  DetailsAction, open_reading, open_synchronization, open_device_diagnostics, sync_now,
  return_to_entry_point, display_test, reboot, power_off, back_to_reading, back_to_settings,
  orientation, show_status_bar, font_decrease, font_reset, font_increase, reading_progress,
  debug_messages, confirm_power, cancel_power_action, all_actions, contains_action, same_action,
  details_actions_for_page, action_top,
}

unfoldable pub modern_button_region : ℕ → ℕ → ℕ → ℕ → DisplayRegion
modern_button_region top width height button_height =
    let margin = min details_action_margin (width / 2) in
    record {
      left = margin;
      top = min top height;
      width = width - margin * 2;
      height = min button_height (height - top);
    }

unfoldable pub modern_column_region : ℕ → ℕ → ℕ → ℕ → ℕ → DisplayRegion
modern_column_region column top width height button_height =
    let margin = min details_action_margin (width / 2) in
    let gap = min landscape_column_gap width in
    let column_width = (width - (margin * 2 + gap)) / 2 in
    record {
      left = margin + min column 1 * (column_width + gap);
      top = min top height;
      width = column_width;
      height = min button_height (height - top);
    }

-- `modern_region` with a column for the landscape screen.
unfoldable pub modern_region : ℕ → ℕ → ℕ → ℕ → ℕ → DisplayRegion
unfolding modern_column_region modern_button_region
modern_region top width height button_height column =
    if ltb height width
    then modern_column_region column top width height button_height
    else modern_button_region top width height button_height

unfoldable pub modern_font_group_region : ℕ → ℕ → DisplayRegion
unfolding modern_column_region modern_button_region
modern_font_group_region width height =
    if ltb height width
    then modern_column_region 1 160 width height modern_control_height
    else modern_button_region 274 width height modern_control_height

-- One of the three buttons of the font group.
unfoldable pub font_region : ℕ → ℕ → ℕ → DisplayRegion
unfolding modern_font_group_region
font_region index width height =
    let base = modern_font_group_region width height in
    let gap = min modern_control_gap width in
    let button_width = (base.width - gap * 2) / 3 in
    record {
      left = base.left + index * (button_width + gap);
      top = base.top;
      width = button_width;
      height = base.height;
    }

abbrev position : ℕ → DetailsAction → List DetailsAction → Option ℕ
position i a [] = none
position i a (b ∷ bs) = let rest = position (i + 1) a bs in if same_action b a then some i else rest

abbrev or_zero : Option ℕ → ℕ
or_zero none = 0
or_zero (some n) = n

unfoldable pub details_action_region : DetailsAction → ℕ → ℕ → DisplayRegion
unfolding same_action action_top
details_action_region action width height =
    let margin = min details_action_margin (width / 2) in
    let gap = min details_action_gap width in
    let button_width = (width - (margin * 2 + gap)) / 2 in
    let index = or_zero (position 0 action all_actions) in
    let top =
      details_landscape_action_top + index / 2 * (details_action_height + details_action_gap) in
    if ltb height width
    then record {
      left = margin + index % 2 * (button_width + gap);
      top = min top height;
      width = button_width;
      height = min details_action_height (height - top);
    }
    else record {
      left = margin;
      top = min (action_top action) height;
      width = width - margin * 2;
      height = min details_action_height (height - action_top action);
    }

-- The match of `details_action_region_for_page` on the page and the action.
unfoldable pub modern_action_region : DetailsPage → DetailsAction → ℕ → ℕ → Option DisplayRegion
unfolding modern_region modern_button_region modern_column_region font_region
modern_action_region menu open_reading w h = some (modern_button_region 132 w h menu_action_height)
modern_action_region menu open_synchronization w h =
    some (modern_button_region 202 w h menu_action_height)
modern_action_region menu open_device_diagnostics w h =
    some (modern_button_region 272 w h menu_action_height)
modern_action_region menu back_to_reading w h =
    some (modern_button_region 500 w h menu_action_height)
modern_action_region reading orientation w h = some (modern_region 132 w h modern_control_height 0)
modern_action_region reading show_status_bar w h =
    some (modern_region 194 w h modern_control_height 0)
modern_action_region reading font_decrease w h = some (font_region 0 w h)
modern_action_region reading font_reset w h = some (font_region 1 w h)
modern_action_region reading font_increase w h = some (font_region 2 w h)
modern_action_region reading reading_progress w h =
    some (modern_region (if ltb h w then 232 else 364) w h modern_control_height 1)
modern_action_region reading return_to_entry_point w h =
    some (modern_button_region 454 w h modern_control_height)
modern_action_region reading back_to_settings w h =
    some (modern_button_region 520 w h menu_action_height)
modern_action_region synchronization sync_now w h =
    some (modern_button_region 250 w h menu_action_height)
modern_action_region synchronization back_to_settings w h =
    some (modern_button_region 500 w h menu_action_height)
modern_action_region device_diagnostics debug_messages w h =
    some (modern_region 132 w h modern_control_height 0)
modern_action_region device_diagnostics display_test w h =
    some (modern_region 220 w h menu_action_height 0)
modern_action_region device_diagnostics reboot w h =
    some (modern_region (if ltb h w then 132 else 316) w h menu_action_height 1)
modern_action_region device_diagnostics power_off w h =
    some (modern_region (if ltb h w then 204 else 388) w h menu_action_height 1)
modern_action_region device_diagnostics back_to_settings w h =
    some (modern_button_region 500 w h menu_action_height)
modern_action_region power_confirmation cancel_power_action w h = some (
    if ltb h w
    then modern_column_region 0 300 w h menu_action_height
    else modern_button_region 300 w h menu_action_height)
modern_action_region power_confirmation confirm_power w h = some (
    if ltb h w
    then modern_column_region 1 300 w h menu_action_height
    else modern_button_region 372 w h menu_action_height)
modern_action_region _ _ w h = none

unfoldable pub details_action_region_for_page :
    DetailsPage → DetailsAction → ℕ → ℕ → Option DisplayRegion
unfolding modern_action_region details_action_region contains_action same_action
details_action_region_for_page legacy action width height =
    if contains_action action all_actions
    then some (details_action_region action width height)
    else none
details_action_region_for_page page action width height =
    modern_action_region page action width height

-- The control with its focus frame, five pixels wide.
unfoldable pub details_action_focus_region_for_page :
    DetailsPage → DetailsAction → ℕ → ℕ → Option DisplayRegion
unfolding details_action_region_for_page
details_action_focus_region_for_page page action width height =
    elim (details_action_region_for_page page action width height) [
      | none ↦ none
      | some control ↦
          let l = min (control.left - 5) width in
          let t = min (control.top - 5) height in
          let r = max (min (right control + 5) width) l in
          let b = max (min (bottom control + 5) height) t in
          some (record { left = l; top = t; width = r - l; height = b - t })
    ]

-- The test on a point that is not negative.
abbrev pub holds_point : DisplayRegion → ℕ → ℕ → Bool
holds_point r x y = leb r.left x && ltb x (right r) && leb r.top y && ltb y (bottom r)

abbrev pub option_holds : Option DisplayRegion → ℕ → ℕ → Bool
option_holds none x y = false
option_holds (some r) x y = holds_point r x y

unfoldable pub find_action : DetailsPage → ℕ → ℕ → ℕ → ℕ → List DetailsAction → Option DetailsAction
find_action page x y width height [] = none
find_action page x y width height (a ∷ actions) =
    let rest = find_action page x y width height actions in
    if option_holds (details_action_region_for_page page a width height) x y then some a else rest

unfoldable pub details_action_at_for_page : DetailsPage → ℤ → ℤ → ℕ → ℕ → Option DetailsAction
unfolding find_action
details_action_at_for_page page x y width height =
    if is_negative x || is_negative y
    then none
    else find_action page (magnitude x) (magnitude y) width height (details_actions_for_page page)
