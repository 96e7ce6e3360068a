-- ===== src/T1/Ui/Focus.antt =====
-- runtime.rs: the page that `UiState` shows, and the control that the keys are on.
use sony_prs.Base.{
  ℕ, ◌+◌, ◌-◌, ◌%◌, Bool, true, false, ◌&&◌, ◌||◌, List, [], ◌∷◌, Option, none, some, ◌==◌, ltb,
  leb, if◌then◌else◌, length, get_or,
}
use sony_prs.T1.Region.{DisplayRegion}
use sony_prs.T1.Orientation.{viewport}
use sony_prs.T1.Details.Actions.{
  DetailsPage, DetailsAction, same_action, same_option, details_actions_for_page,
}
use sony_prs.T1.Details.Regions.{details_action_region_for_page}
use sony_prs.T1.Ui.{UiPage, UiState}
use sony_prs.T1.Ui.Dirty.{DirtyArea}

abbrev pub screen_width : UiState → ℕ
unfolding viewport
screen_width s = (viewport s.orientation).width

abbrev pub screen_height : UiState → ℕ
unfolding viewport
screen_height s = (viewport s.orientation).height

abbrev pub is_settings : UiPage → Bool
is_settings UiPage.home = false
is_settings UiPage.display_test = false
is_settings _ = true

abbrev pub is_settings_page : UiState → Bool
is_settings_page s = is_settings s.page

abbrev pub shown_page : UiPage → Bool → DetailsPage
shown_page UiPage.details settings_menu =
    if settings_menu then DetailsPage.menu else DetailsPage.legacy
shown_page UiPage.reading settings_menu = DetailsPage.reading
shown_page UiPage.synchronization settings_menu = DetailsPage.synchronization
shown_page UiPage.device_diagnostics settings_menu = DetailsPage.device_diagnostics
shown_page UiPage.power_confirmation settings_menu = DetailsPage.power_confirmation
shown_page UiPage.home settings_menu = DetailsPage.legacy
shown_page UiPage.display_test settings_menu = DetailsPage.legacy

abbrev pub details_page : UiState → DetailsPage
details_page s = shown_page s.page s.settings_menu

-- A control with a rectangle that is not empty.
abbrev has_area : Option DisplayRegion → Bool
has_area none = false
has_area (some r) = ltb 0 r.width && ltb 0 r.height

-- Whether the key (top, left) of one control is at most that of another.
abbrev key_le : Option DisplayRegion → Option DisplayRegion → Bool
key_le (some a) (some b) = ltb a.top b.top || ((a.top == b.top) && leb a.left b.left)
key_le (some a) none = true
key_le none (some b) = false
key_le none none = true

module _ (key : DetailsAction → Option DisplayRegion) where
  unfoldable pub visible_actions : List DetailsAction → List DetailsAction
  visible_actions [] = []
  visible_actions (a ∷ actions) =
      let rest = visible_actions actions in if has_area (key a) then a ∷ rest else rest

  unfoldable pub insert_by_key : DetailsAction → List DetailsAction → List DetailsAction
  insert_by_key a [] = a ∷ []
  insert_by_key a (b ∷ bs) =
      let rest = insert_by_key a bs in if key_le (key a) (key b) then a ∷ b ∷ bs else b ∷ rest

  -- `sort_by_key`, which keeps the order of equal keys.
  unfoldable pub sort_by_key : List DetailsAction → List DetailsAction
  unfolding insert_by_key
  sort_by_key [] = []
  sort_by_key (a ∷ actions) = insert_by_key a (sort_by_key actions)

unfoldable pub focus_actions : UiState → List DetailsAction
unfolding sort_by_key visible_actions
focus_actions s =
    let key : DetailsAction → Option DisplayRegion =
      λ a. details_action_region_for_page (details_page s) a (screen_width s) (screen_height s) in
    if is_settings_page s
    then sort_by_key key (visible_actions key (details_actions_for_page (details_page s)))
    else []

abbrev head : List DetailsAction → Option DetailsAction
head [] = none
head (a ∷ actions) = some a

unfoldable pub first_focusable_action : UiState → Option DetailsAction
unfolding focus_actions
first_focusable_action s = head (focus_actions s)

unfoldable pub index_of : DetailsAction → List DetailsAction → Option ℕ
unfolding same_action
index_of a [] = none
index_of a (b ∷ bs) = elim (same_action b a) [
  | true ↦ some 0
  | false ↦ elim (index_of a bs) [ none ↦ none | some i ↦ some (i + 1) ]
]

abbrev pub focused_index : Option DetailsAction → List DetailsAction → Option ℕ
unfolding index_of
focused_index none actions = none
focused_index (some a) actions = index_of a actions

-- Where the focus goes from an index, in a list of `count` controls.
unfoldable pub next_index : Option ℕ → Bool → ℕ → ℕ
next_index (some i) true count = (i + 1) % count
next_index (some i) false count = (i + count - 1) % count
next_index none true count = 0
next_index none false count = count - 1

abbrev pub focus_on : Option DetailsAction → UiState → UiState × Option DirtyArea
focus_on next s =
    if same_option s.focused_action next
    then (s, none)
    else (record s { focused_action = next }, some (DirtyArea.focus s.focused_action next))

-- The list of controls is that of the state.
unfoldable pub move_in : List DetailsAction → Bool → UiState → UiState × Option DirtyArea
unfolding next_index
move_in [] forward s = (s, none)
move_in (a ∷ actions) forward s =
    let i =
      next_index (focused_index s.focused_action (a ∷ actions)) forward (length (a ∷ actions)) in
    focus_on (some (get_or (a ∷ actions) i a)) s

unfoldable pub move_focus : Bool → UiState → UiState × Option DirtyArea
unfolding focus_actions move_in
move_focus forward s = move_in (focus_actions s) forward s
