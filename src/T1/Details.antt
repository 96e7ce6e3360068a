-- ===== src/T1/Details.antt =====
-- display.rs: the controls of the Details / Settings pages, their rectangles and the hit tests. The
-- margins are at most 24, so that the saturating products of the source are plain ones.
pub mod Actions
pub mod Regions
pub mod Toggles
pub mod HitTest
use sony_prs.Base.{ℕ, ◌+◌, ◌*◌}

abbrev pub status_bar_height : ℕ
status_bar_height = 48

abbrev pub content_top : ℕ
content_top = 76

abbrev pub details_line_step_portrait : ℕ
details_line_step_portrait = 21

abbrev pub landscape_line_step : ℕ
landscape_line_step = 20

abbrev pub details_action_margin : ℕ
details_action_margin = 24

abbrev pub details_action_top : ℕ
details_action_top = 548

abbrev pub details_landscape_action_top : ℕ
details_landscape_action_top = 476

abbrev pub details_action_height : ℕ
details_action_height = 36

abbrev pub details_action_gap : ℕ
details_action_gap = 4

abbrev pub details_sync_top : ℕ
details_sync_top = details_action_top

abbrev pub menu_action_height : ℕ
menu_action_height = 48

abbrev pub modern_control_height : ℕ
modern_control_height = 44

abbrev pub modern_control_gap : ℕ
modern_control_gap = 8

abbrev pub landscape_column_gap : ℕ
landscape_column_gap = 24
