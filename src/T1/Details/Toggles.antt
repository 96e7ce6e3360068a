-- ===== src/T1/Details/Toggles.antt =====
-- The toggles and preferences of the legacy page.
use sony_prs.Base.{
  ℕ, ◌+◌, ◌-◌, ◌*◌, ℤ, is_negative, magnitude, ◌||◌, ◌&&◌, List, [], ◌∷◌, Option, none, some, ltb,
  leb, min, if◌then◌else◌,
}
use sony_prs.T1.Region.{DisplayRegion}
use sony_prs.T1.Details.{content_top, details_line_step_portrait, landscape_line_step}
use sony_prs.T1.Details.Regions.{holds_point}

pub data DetailsToggle : Type 0 where
  debug_messages reading_progress fullscreen_reader : DetailsToggle

pub data DetailsPreference : Type 0 where
  debug_messages reading_progress font_size orientation : DetailsPreference

unfoldable pub details_line_step : ℕ → ℕ → ℕ
details_line_step width height =
    if ltb height width then landscape_line_step else details_line_step_portrait

-- `DetailsToggle::row`.
unfoldable pub toggle_row : DetailsToggle → ℕ
toggle_row debug_messages = 1
toggle_row reading_progress = 2
toggle_row fullscreen_reader = 3

unfoldable pub details_toggle_top : DetailsToggle → ℕ → ℕ → ℕ
unfolding toggle_row details_line_step
details_toggle_top toggle width height =
    content_top + (toggle_row toggle + 1) * details_line_step width height - 12

unfoldable pub details_toggle_region : DetailsToggle → ℕ → ℕ → DisplayRegion
unfolding details_toggle_top details_line_step
details_toggle_region toggle width height =
    let top = min (details_toggle_top toggle width height) height in
    record {
      left = 0;
      top = top;
      width = width;
      height = min (details_line_step width height) (height - top);
    }

unfoldable pub find_toggle : ℕ → ℕ → ℕ → ℕ → List DetailsToggle → Option DetailsToggle
unfolding details_toggle_region
find_toggle x y width height [] = none
find_toggle x y width height (t ∷ ts) =
    let rest = find_toggle x y width height ts in
    if holds_point (details_toggle_region t width height) x y then some t else rest

unfoldable pub details_toggle_at : ℤ → ℤ → ℕ → ℕ → Option DetailsToggle
unfolding find_toggle
details_toggle_at x y width height =
    if is_negative x || is_negative y
    then none
    else find_toggle (magnitude x) (magnitude y) width height
        (debug_messages ∷ reading_progress ∷ fullscreen_reader ∷ [])

unfoldable pub preference_row : DetailsPreference → ℕ
preference_row debug_messages = 1
preference_row reading_progress = 2
preference_row font_size = 4
preference_row orientation = 5

unfoldable pub details_preference_top : DetailsPreference → ℕ → ℕ → ℕ
unfolding preference_row details_line_step
details_preference_top preference width height =
    content_top + (preference_row preference + 1) * details_line_step width height - 12

unfoldable pub find_preference : ℕ → ℕ → ℕ → List DetailsPreference → Option DetailsPreference
unfolding details_preference_top details_line_step
find_preference y width height [] = none
find_preference y width height (p ∷ ps) =
    let top = details_preference_top p width height in
    let rest = find_preference y width height ps in
    if leb top y && ltb y (top + details_line_step width height) then some p else rest

unfoldable pub details_preference_at : ℤ → ℤ → ℕ → ℕ → Option DetailsPreference
unfolding find_preference
details_preference_at x y width height =
    if is_negative x || ltb (magnitude x) 24 || is_negative y || leb (width - 24) (magnitude x)
    then none
    else find_preference (magnitude y) width height
        (debug_messages ∷ reading_progress ∷ font_size ∷ orientation ∷ [])
