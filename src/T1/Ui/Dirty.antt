-- ===== src/T1/Ui/Dirty.antt =====
-- runtime.rs: `DirtyArea`, the part of the screen that an input changed, and its merge, refresh reason
-- and region. `external_link_overlay_region` of prs-markdown is a parameter.
pub mod Coverage
use sony_prs.Base.{
  ℕ, ◌+◌, ◌-◌, Bool, true, false, not, ◌&&◌, ◌||◌, List, [], ◌∷◌, Option, none, some, min, max,
  ◌==◌, if◌then◌else◌,
}
use sony_prs.T1.Region.{DisplayRegion, full, bounded, right, bottom}
use sony_prs.T1.Refresh.{PageTone, monochrome, grayscale, RefreshReason}
use sony_prs.T1.Details.{status_bar_height, content_top, details_sync_top, details_action_height}
use sony_prs.T1.Details.Actions.{DetailsPage, DetailsAction, same_action, same_option}
use sony_prs.T1.Details.Regions.{
  details_action_region_for_page, details_action_focus_region_for_page,
}
use sony_prs.T1.Ui.{UiPage}

pub data DirtyArea : Type 0 where
  full_area status sync_status status_feedback feedback : DirtyArea
  page_turn : PageTone → DirtyArea
  interaction external_link_overlay : DirtyArea
  action : DetailsAction → DirtyArea
  focus : Option DetailsAction → Option DetailsAction → DirtyArea
  touch key power : DirtyArea

abbrev merge_tones : PageTone → PageTone → PageTone
merge_tones grayscale _ = grayscale
merge_tones monochrome grayscale = grayscale
merge_tones monochrome monochrome = monochrome

-- `DirtyArea::merge`: what two equal areas merge to is written out, `full_area` is the rest.
unfoldable pub merge : DirtyArea → DirtyArea → DirtyArea
unfolding same_action
merge (page_turn left) (page_turn right) = page_turn (merge_tones left right)
merge status sync_status = sync_status
merge sync_status status = sync_status
merge status status_feedback = status_feedback
merge status_feedback status = status_feedback
merge status feedback = status_feedback
merge feedback status = status_feedback
merge sync_status status_feedback = status_feedback
merge status_feedback sync_status = status_feedback
merge (page_turn tone) interaction = page_turn tone
merge interaction (page_turn tone) = page_turn tone
merge sync_status feedback = status_feedback
merge feedback sync_status = status_feedback
merge sync_status (action a) = sync_status
merge (action a) sync_status = sync_status
merge feedback (action a) = interaction
merge (action a) feedback = interaction
merge feedback interaction = interaction
merge interaction feedback = interaction
merge external_link_overlay feedback = interaction
merge feedback external_link_overlay = interaction
merge external_link_overlay interaction = interaction
merge interaction external_link_overlay = interaction
merge external_link_overlay external_link_overlay = external_link_overlay
merge (action left) (action right) = if same_action left right then action left else full_area
merge (focus previous _) (focus _ current) = focus previous current
merge key power = power
merge power key = power
merge status status = status
merge sync_status sync_status = sync_status
merge status_feedback status_feedback = status_feedback
merge feedback feedback = feedback
merge interaction interaction = interaction
merge touch touch = touch
merge key key = key
merge power power = power
merge _ _ = full_area

unfoldable pub merge_optional_dirty : Option DirtyArea → Option DirtyArea → Option DirtyArea
merge_optional_dirty none value = value
merge_optional_dirty (some left) none = some left
merge_optional_dirty (some left) (some right) = some (merge left right)

abbrev pub is_home : UiPage → Bool
is_home UiPage.home = true
is_home _ = false

unfoldable pub reason : DirtyArea → UiPage → RefreshReason
reason full_area page = RefreshReason.full_redraw
reason (page_turn tone) page = RefreshReason.page_turn tone
reason status page = if is_home page then RefreshReason.status_bar else RefreshReason.transient
reason sync_status page = RefreshReason.status_bar
reason _ page = RefreshReason.transient

-- The page whose controls `region` looks up.
abbrev pub region_details_page : UiPage → DetailsPage
region_details_page UiPage.details = DetailsPage.menu
region_details_page UiPage.reading = DetailsPage.reading
region_details_page UiPage.synchronization = DetailsPage.synchronization
region_details_page UiPage.device_diagnostics = DetailsPage.device_diagnostics
region_details_page UiPage.power_confirmation = DetailsPage.power_confirmation
region_details_page UiPage.home = DetailsPage.legacy
region_details_page UiPage.display_test = DetailsPage.legacy

abbrev or_full : Option DisplayRegion → ℕ → ℕ → DisplayRegion
or_full none width height = full width height
or_full (some r) width height = r

abbrev content_region : ℕ → ℕ → DisplayRegion
content_region width height = record {
  left = 0;
  top = status_bar_height;
  width = width;
  height = height - status_bar_height;
}

abbrev feedback_region : ℕ → DisplayRegion
feedback_region width = record {
  left = 0;
  top = status_bar_height;
  width = width;
  height = content_top - status_bar_height;
}

abbrev top_rows : ℕ → ℕ → DisplayRegion
top_rows width rows = record { left = 0; top = 0; width = width; height = rows }

-- The region of a control with its focus frame.
abbrev focus_region : UiPage → Option DetailsAction → ℕ → ℕ → Option DisplayRegion
focus_region page none width height = none
focus_region page (some a) width height =
    details_action_focus_region_for_page (region_details_page page) a width height

-- The smallest rectangle around the regions that are there, or all of the screen.
abbrev hull : Option DisplayRegion → Option DisplayRegion → ℕ → ℕ → DisplayRegion
hull none none width height = full width height
hull (some r) none width height = r
hull none (some r) width height = r
hull (some p) (some c) width height =
    let l = min p.left c.left in
    let t = min p.top c.top in
    record {
      left = l;
      top = t;
      width = max (right p) (right c) - l;
      height = max (bottom p) (bottom c) - t;
    }

module _ (external_link_overlay_region : ℕ → ℕ → DisplayRegion) where
  unfoldable pub area_region : DirtyArea → ℕ → ℕ → UiPage → DisplayRegion
  unfolding details_action_region_for_page details_action_focus_region_for_page
  area_region full_area w h page = full w h
  area_region (page_turn tone) w h page = content_region w h
  area_region interaction w h page = content_region w h
  area_region external_link_overlay w h page = external_link_overlay_region w h
  area_region status w h page = top_rows w (if is_home page then status_bar_height else 640)
  area_region sync_status w h page =
      top_rows w
        (if is_home page then status_bar_height else details_sync_top + details_action_height)
  area_region status_feedback w h page =
      top_rows w (if is_home page then content_top else details_sync_top + details_action_height)
  area_region feedback w h page = feedback_region w
  area_region touch w h page = if is_home page then feedback_region w else content_region w h
  area_region key w h page = if is_home page then feedback_region w else content_region w h
  area_region power w h page = if is_home page then feedback_region w else content_region w h
  area_region (action a) w h page =
      or_full (details_action_region_for_page (region_details_page page) a w h) w h
  area_region (focus previous current) w h page =
      hull (focus_region page previous w h) (focus_region page current w h) w h

  -- `DirtyArea::region`.
  unfoldable pub region : DirtyArea → ℕ → ℕ → UiPage → DisplayRegion
  unfolding area_region bounded
  region area w h page = bounded (area_region area w h page) w h
