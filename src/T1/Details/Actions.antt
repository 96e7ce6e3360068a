-- ===== src/T1/Details/Actions.antt =====
-- `DetailsAction` and `DetailsPage`: which page draws which controls.
use sony_prs.Base.{ℕ, ◌+◌, ◌*◌, Bool, true, false, ◌||◌, List, [], ◌∷◌, Option, none, some, ◌==◌}
use sony_prs.T1.Details.{details_sync_top, details_action_height, details_action_gap}

pub data DetailsPage : Type 0 where
  legacy menu reading synchronization device_diagnostics power_confirmation : DetailsPage

pub data DetailsAction : Type 0 where
  open_reading open_synchronization open_device_diagnostics sync_now return_to_entry_point :
      DetailsAction
  display_test reboot power_off back_to_reading back_to_settings orientation : DetailsAction
  show_status_bar font_decrease font_reset font_increase reading_progress : DetailsAction
  debug_messages confirm_power cancel_power_action : DetailsAction

-- The discriminant, by which `==` compares.
unfoldable pub to_index : DetailsAction → ℕ
to_index open_reading = 0
to_index open_synchronization = 1
to_index open_device_diagnostics = 2
to_index sync_now = 3
to_index return_to_entry_point = 4
to_index display_test = 5
to_index reboot = 6
to_index power_off = 7
to_index back_to_reading = 8
to_index back_to_settings = 9
to_index orientation = 10
to_index show_status_bar = 11
to_index font_decrease = 12
to_index font_reset = 13
to_index font_increase = 14
to_index reading_progress = 15
to_index debug_messages = 16
to_index confirm_power = 17
to_index cancel_power_action = 18

unfoldable pub same_action : DetailsAction → DetailsAction → Bool
unfolding to_index
same_action a b = to_index a == to_index b

-- `found == Some(action)`, and `==` of two options.
abbrev pub is_action : Option DetailsAction → DetailsAction → Bool
is_action none a = false
is_action (some b) a = same_action b a

abbrev pub same_option : Option DetailsAction → Option DetailsAction → Bool
same_option none none = true
same_option none (some b) = false
same_option (some a) none = false
same_option (some a) (some b) = same_action a b

unfoldable pub contains_action : DetailsAction → List DetailsAction → Bool
contains_action a [] = false
contains_action a (b ∷ bs) = same_action b a || contains_action a bs

-- `DetailsAction::ALL`.
abbrev pub all_actions : List DetailsAction
all_actions =
    sync_now ∷ return_to_entry_point ∷ display_test ∷ reboot ∷ power_off ∷ back_to_reading ∷ []

unfoldable pub details_actions_for_page : DetailsPage → List DetailsAction
details_actions_for_page legacy = all_actions
details_actions_for_page menu =
    open_reading ∷ open_synchronization ∷ open_device_diagnostics ∷ back_to_reading ∷ []
details_actions_for_page reading =
    orientation ∷ show_status_bar ∷ font_decrease ∷ font_reset ∷ font_increase ∷ reading_progress
    ∷ return_to_entry_point ∷ back_to_settings ∷ []
details_actions_for_page synchronization = sync_now ∷ back_to_settings ∷ []
details_actions_for_page device_diagnostics =
    debug_messages ∷ display_test ∷ reboot ∷ power_off ∷ back_to_settings ∷ []
details_actions_for_page power_confirmation = cancel_power_action ∷ confirm_power ∷ []

abbrev action_step : ℕ
action_step = details_action_height + details_action_gap

-- `DetailsAction::top`: each control one step below the one before.
unfoldable pub action_top : DetailsAction → ℕ
action_top sync_now = details_sync_top
action_top return_to_entry_point = details_sync_top + action_step
action_top display_test = details_sync_top + 2 * action_step
action_top reboot = details_sync_top + 3 * action_step
action_top power_off = details_sync_top + 4 * action_step
action_top back_to_reading = details_sync_top + 5 * action_step
action_top _ = 0
