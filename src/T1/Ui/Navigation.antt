-- ===== src/T1/Ui/Navigation.antt =====
-- runtime.rs: the pages that are on the history of each page, kept by opening and leaving pages.
pub mod Controls
pub mod Activation
pub mod Events
pub mod Reach
pub mod Home
use sony_prs.Base.{
  ℕ, suc, ◌+◌, ◌<◌, ◌≤◌, ◌≡◌, refl, sym, ◌∙◌, ap, subst, ◌⊎◌, inl, inr, Bool, true, false, List, [],
  ◌∷◌, Option, none, some, ltb, if◌then◌else◌, length, arith, Bool-cases, le→ltb,
}
use sony_prs.T1.Ui.{UiPage, UiState, PowerAction, set_debug_feedback}
use sony_prs.T1.Ui.Dirty.{DirtyArea, is_home}
use sony_prs.T1.Ui.Input.{ui_history_limit}
use sony_prs.T1.Ui.Focus.{first_focusable_action}
use sony_prs.T1.Ui.Pages.{
  same_page, is_details, tail, push_history, open_ui_page, return_to_reader, home_button,
  parent_page, pop_page, return_to, returned, leave_page, back_button,
}
use sony_prs.T1.Ui.Activate.{Outcome, quiet, redrawn, without_power}

-- The pages that were opened to get to a page, the last one first.
unfoldable pub opened_from : UiPage → List UiPage
opened_from UiPage.home = []
opened_from UiPage.details = UiPage.home ∷ []
opened_from UiPage.reading = UiPage.details ∷ UiPage.home ∷ []
opened_from UiPage.synchronization = UiPage.details ∷ UiPage.home ∷ []
opened_from UiPage.device_diagnostics = UiPage.details ∷ UiPage.home ∷ []
opened_from UiPage.power_confirmation =
    UiPage.device_diagnostics ∷ UiPage.details ∷ UiPage.home ∷ []
opened_from UiPage.display_test = UiPage.device_diagnostics ∷ UiPage.details ∷ UiPage.home ∷ []

-- A reboot or a power-off waits for its confirmation only on that page.
unfoldable pub pending_fits : UiPage → Option PowerAction → Bool
pending_fits page none = true
pending_fits UiPage.power_confirmation (some PowerAction.reboot) = true
pending_fits UiPage.power_confirmation (some PowerAction.power_off) = true
pending_fits page (some _) = false

pub record Fits (page : UiPage) (settings_menu : Bool) (pages : List UiPage) (depth : ℕ)
    (pending : Option PowerAction) : Type 0 where
  pub menu : settings_menu ≡ is_details page
  pub history : pages ≡ opened_from page
  pub focus : depth ≡ length (opened_from page)
  pub waiting : pending_fits page pending ≡ true

abbrev pub IsWellFormed : UiState → Type 0
IsWellFormed s =
    Fits s.page s.settings_menu s.ui_history (length s.focus_history) s.pending_power_action

-- An operation that does not reach `unreachable!()`, and leaves the state well formed.
abbrev pub Keeps : Option Outcome → Type 0
Keeps none = ⊥
Keeps (some o) = IsWellFormed o.state

-- Both branches of a test keep the history.
pub Keeps-if :
    (test : Bool) (a b : Option Outcome)
    → (test ≡ true → Keeps a)
    → (test ≡ false → Keeps b)
    → Keeps (if test then a else b)
Keeps-if true a b f g = f refl
Keeps-if false a b f g = g refl

opens_new : (p q : UiPage) → opened_from q ≡ p ∷ opened_from p → same_page p q ≡ false
unfolding opened_from
opens_new p q e = ground arith

short : (q : UiPage) → length (opened_from q) ≤ 3
unfolding opened_from
short q = ground arith

pub open_ui_page-IsWellFormed :
    (q : UiPage) (s : UiState)
    → s.ui_history ≡ opened_from s.page
    → length s.focus_history ≡ length (opened_from s.page)
    → opened_from q ≡ s.page ∷ opened_from s.page
    → pending_fits q s.pending_power_action ≡ true
    → IsWellFormed (open_ui_page q s)
unfolding open_ui_page push_history
open_ui_page-IsWellFormed q s h f e p =
    let pages = e ∙ ap (λ l. s.page ∷ l) (sym h) in
    let bound : length (s.page ∷ s.ui_history) ≤ 3 = subst (λ l. length l ≤ 3) pages (short q) in
    rw
      (
        opens_new s.page q e,
        le→ltb ui_history_limit (length (s.page ∷ s.ui_history)) (ground arith),
      )
      record { menu = refl; history = sym pages; focus = ap suc f ∙ sym (ap length e); waiting = p }

pub return_to_reader-IsWellFormed : (s : UiState) → IsWellFormed (return_to_reader s)
unfolding return_to_reader opened_from pending_fits
return_to_reader-IsWellFormed s = record {
  menu = refl;
  history = refl;
  focus = refl;
  waiting = refl;
}

on_home :
    (s : UiState)
    → IsWellFormed s
    → is_home s.page ≡ true
    → Fits s.page s.settings_menu [] 0 s.pending_power_action
unfolding opened_from
on_home s w e = record {
  menu = w.menu;
  history = ground arith;
  focus = ground arith;
  waiting = w.waiting;
}

pub home_button-Keeps :
    (s : UiState) → IsWellFormed s → Keeps (without_power (some (home_button s)))
unfolding home_button
home_button-Keeps s w = elim (Bool-cases (is_home s.page)) [
  | inl e ↦ rw e (on_home s w e)
  | inr e ↦ rw e (return_to_reader-IsWellFormed s)
]

length-tail {ℓ} : {A : Type ℓ} (xs : List A) (n : ℕ) → length xs ≡ suc n → length (tail xs) ≡ n
length-tail xs n e = ground arith

pub back_button-Keeps : (s : UiState) → IsWellFormed s → Keeps (without_power (back_button s))
unfolding back_button leave_page pop_page opened_from pending_fits
back_button-Keeps s w = ground arith
