-- ===== src/T1/Ui/Pages.antt =====
-- runtime.rs: opening a page of `UiState` and leaving it. `none` is the source's `unreachable!()`.
use sony_prs.Base.{
  ℕ, Bool, true, false, not, ◌&&◌, List, [], ◌∷◌, Option, none, some, ltb, if◌then◌else◌, length,
  is_empty, ◌==◌,
}
use sony_prs.T1.Details.Actions.{DetailsAction, contains_action}
use sony_prs.T1.Ui.{UiPage, UiState, ReaderOperation, debug, set_debug_feedback}
use sony_prs.T1.Ui.Dirty.{DirtyArea, is_home}
use sony_prs.T1.Ui.Input.{ui_history_limit}
use sony_prs.T1.Ui.Focus.{focus_actions, first_focusable_action}

-- The discriminant, by which `==` compares.
abbrev page_index : UiPage → ℕ
page_index UiPage.home = 0
page_index UiPage.details = 1
page_index UiPage.reading = 2
page_index UiPage.synchronization = 3
page_index UiPage.device_diagnostics = 4
page_index UiPage.power_confirmation = 5
page_index UiPage.display_test = 6

abbrev pub same_page : UiPage → UiPage → Bool
same_page a b = page_index a == page_index b

abbrev pub is_details : UiPage → Bool
is_details UiPage.details = true
is_details _ = false

-- `remove(0)` of a vector that is kept with its end first.
unfoldable pub drop_oldest {ℓ} : {A : Type ℓ} → List A → List A
drop_oldest [] = []
drop_oldest (x ∷ []) = []
drop_oldest (x ∷ y ∷ ys) = x ∷ drop_oldest (y ∷ ys)

-- The two histories after the push.
unfoldable pub push_history : UiState → UiState
unfolding drop_oldest
push_history s =
    let pages = s.page ∷ s.ui_history in
    let focuses = s.focused_action ∷ s.focus_history in
    if ltb ui_history_limit (length pages)
    then record s { ui_history = drop_oldest pages; focus_history = drop_oldest focuses }
    else record s { ui_history = pages; focus_history = focuses }

abbrev focus_first : UiState → UiState
focus_first s = record s { focused_action = first_focusable_action s }

unfoldable pub open_ui_page : UiPage → UiState → UiState
unfolding first_focusable_action push_history
open_ui_page page s =
    if same_page s.page page
    then s
    else set_debug_feedback
        (focus_first (record (push_history s) { page = page; settings_menu = is_details page }))

unfoldable pub return_to_reader : UiState → UiState
return_to_reader s = record s {
  page = UiPage.home;
  settings_menu = false;
  ui_history = [];
  focus_history = [];
  focused_action = none;
  pending_power_action = none;
  feedback = some debug;
}

unfoldable pub home_button : UiState → UiState × Option DirtyArea
unfolding return_to_reader
home_button s =
    if is_home s.page
    then (
      record s {
        ui_history = [];
        focus_history = [];
        focused_action = none;
        reader_operation = some ReaderOperation.return_to_entry_point;
        feedback = some debug;
      },
      none,
    )
    else (return_to_reader s, some DirtyArea.full_area)

-- The page to go back to when the history is empty.
unfoldable pub parent_page : UiPage → Option UiPage
parent_page UiPage.details = some UiPage.home
parent_page UiPage.reading = some UiPage.details
parent_page UiPage.synchronization = some UiPage.details
parent_page UiPage.device_diagnostics = some UiPage.details
parent_page UiPage.power_confirmation = some UiPage.device_diagnostics
parent_page UiPage.display_test = some UiPage.details
parent_page UiPage.home = none

unfoldable pub pop_page : List UiPage → UiPage → Option UiPage
unfolding parent_page
pop_page [] page = parent_page page
pop_page (p ∷ pages) page = some p

abbrev pub tail {ℓ} : {A : Type ℓ} → List A → List A
tail [] = []
tail (x ∷ xs) = xs

-- `focus_history.pop().flatten()`.
abbrev top_focus : List (Option DetailsAction) → Option DetailsAction
top_focus [] = none
top_focus (f ∷ fs) = f

-- The focus of before, where its control is still there.
unfoldable restored_focus : Option DetailsAction → UiState → Option DetailsAction
unfolding first_focusable_action focus_actions contains_action
restored_focus none s = first_focusable_action s
restored_focus (some a) s =
    if contains_action a (focus_actions s) then some a else first_focusable_action s

-- The message of the page that was gone back to, which two pages do not have.
abbrev pub returned : UiState → Option UiState
returned s = elim s.page [
  | UiPage.power_confirmation ↦ none
  | UiPage.display_test ↦ none
  | _ ↦ some (set_debug_feedback s)
]

abbrev pub return_to : UiPage → UiState → UiState
unfolding restored_focus
return_to previous s =
    let pages = tail s.ui_history in
    let focuses = tail s.focus_history in
    let leave = is_home previous in
    let shown = record s {
      page = previous;
      settings_menu = is_details previous && not (is_empty pages);
      ui_history = if leave then [] else pages;
      focus_history = if leave then [] else focuses;
    } in
    record shown { focused_action = restored_focus (top_focus s.focus_history) shown }

abbrev is_power_confirmation : UiPage → Bool
is_power_confirmation UiPage.power_confirmation = true
is_power_confirmation _ = false

-- `pending_power_action = None` when the confirmation is left.
abbrev forget_pending : UiState → UiState
forget_pending s = record s {
  pending_power_action = if is_power_confirmation s.page then none else s.pending_power_action;
}

abbrev pub with_full_area : Option UiState → Option (UiState × Option DirtyArea)
with_full_area none = none
with_full_area (some s) = some (s, some DirtyArea.full_area)

-- The branch of the pages other than Home.
unfoldable pub leave_page : UiState → Option (UiState × Option DirtyArea)
unfolding pop_page restored_focus
leave_page s = elim (pop_page s.ui_history s.page) [
  | none ↦ none
  | some previous ↦ with_full_area (returned (return_to previous (forget_pending s)))
]

unfoldable pub back_button : UiState → Option (UiState × Option DirtyArea)
unfolding leave_page
back_button s =
    let left = leave_page s in
    if is_home s.page
    then some
        (record s { reader_operation = some ReaderOperation.back; feedback = some debug }, none)
    else left
