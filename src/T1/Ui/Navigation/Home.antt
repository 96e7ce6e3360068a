-- ===== src/T1/Ui/Navigation/Home.antt =====
-- runtime.rs: the Back key leads home.
use sony_prs.Base.{
  ℕ, ◌≤◌, ◌≡◌, refl, ◌∙◌, sym, List, [], ◌∷◌, Bool, true, false, Option, none, some, suc, length,
  All, arith, if◌then◌else◌,
}
use sony_prs.T1.Ui.{UiPage, UiState, RawEvent, keys}
use sony_prs.T1.Ui.Dirty.{DirtyArea}
use sony_prs.T1.Ui.Input.{event_key, key_back, is_value}
use sony_prs.T1.Ui.Pages.{back_button, leave_page, pop_page}
use sony_prs.T1.Ui.Activate.{Outcome, without_power}
use sony_prs.T1.Ui.Keys.{back_key}
use sony_prs.T1.Ui.Observe.{count_up, observe_key, finish, dispatch, observe, clears_feedback}
use sony_prs.T1.Ui.Navigation.{opened_from, IsWellFormed, Keeps}
use sony_prs.T1.Ui.Navigation.Events.{observe-Keeps}
use sony_prs.T1.Ui.Navigation.Reach.{Reachable, Reachable-IsWellFormed}

-- Events of the keys, each at its time, that the shell observes.
unfoldable pub observe_keys : List (ℕ × RawEvent) → UiState → Option UiState
unfolding observe
observe_keys [] s = some s
observe_keys (p ∷ ps) s = elim (observe p.0 keys p.1 s) [
  | none ↦ none
  | some o ↦ observe_keys ps o.state
]

-- The Back key is pressed.
pub record IsBackPress (p : ℕ × RawEvent) : Type 0 where
  pub key : p.1.event_type ≡ event_key
  pub back : p.1.code ≡ key_back
  pub pressed : is_value 1 p.1.value ≡ true

-- A page fewer on the history.
abbrev Drops : ℕ → Option (UiState × Option DirtyArea) → Type 0
Drops n none = ⊥
Drops n (some left) = length left.0.ui_history ≡ n

abbrev DropsTo : ℕ → Option Outcome → Type 0
DropsTo n none = ⊥
DropsTo n (some o) = length o.state.ui_history ≡ n

back_button-Drops :
    (n : ℕ) (s : UiState) → IsWellFormed s → length s.ui_history ≡ suc n → Drops n (back_button s)
unfolding back_button leave_page pop_page opened_from
back_button-Drops n s w h = ground arith

without_power-DropsTo :
    (n : ℕ) (r : Option (UiState × Option DirtyArea)) → Drops n r → DropsTo n (without_power r)
without_power-DropsTo n none d = d
without_power-DropsTo n (some left) d = d

finish-DropsTo :
    (n : ℕ) (damage : Option DirtyArea) (r : Option Outcome)
    → DropsTo n r
    → DropsTo n (finish damage r)
unfolding finish
finish-DropsTo n damage none d = d
finish-DropsTo n damage (some o) d = d

DropsTo-if :
    (n : ℕ) (test : Bool) (a b : Option Outcome)
    → DropsTo n a
    → DropsTo n b
    → DropsTo n (if test then a else b)
DropsTo-if n true a b d f = d
DropsTo-if n false a b d f = f

module _ (n now : ℕ) (e : RawEvent) (b : IsBackPress (now, e)) where
  dispatch-DropsTo :
      (s : UiState)
      → IsWellFormed s
      → length s.ui_history ≡ suc n
      → DropsTo n (dispatch now keys e s)
  unfolding dispatch observe_key back_key
  dispatch-DropsTo s w h =
      let counted = record s { last_key = some (keys, e); key_events = count_up s.key_events } in
      let left = without_power-DropsTo n (back_button counted) (back_button-Drops n counted w h) in
      ground (arith, b.key, b.back, b.pressed, left)

  observe-DropsTo :
      (s : UiState)
      → IsWellFormed s
      → length s.ui_history ≡ suc n
      → DropsTo n (observe now keys e s)
  unfolding observe
  observe-DropsTo s w h =
      DropsTo-if n (clears_feedback keys e) _ _
        (finish-DropsTo n _ _
          (dispatch-DropsTo (record s { last_activity = now; feedback = none }) w h))
        (finish-DropsTo n none _ (dispatch-DropsTo (record s { last_activity = now }) w h))

on_home : (s : UiState) → IsWellFormed s → length s.ui_history ≡ 0 → s.page ≡ UiPage.home
unfolding opened_from
on_home s w h = ground arith

-- What a press of Back leaves.
after_back :
    (n : ℕ) (r : Option Outcome)
    → Keeps r
    → DropsTo n r
    → (o : Outcome) × (r ≡ some o) × IsWellFormed o.state × (length o.state.ui_history ≡ n)
after_back n none k d = absurd d
after_back n (some o) k d = (o, refl, k, d)

observe_keys-cons :
    (p : ℕ × RawEvent) (ps : List (ℕ × RawEvent)) (s : UiState) (o : Outcome)
    → observe p.0 keys p.1 s ≡ some o
    → observe_keys (p ∷ ps) s ≡ observe_keys ps o.state
unfolding observe_keys
observe_keys-cons p ps s o e = rw (e, observe_keys) refl

go_home :
    (presses : List (ℕ × RawEvent)) (s : UiState)
    → IsWellFormed s
    → All IsBackPress presses
    → length presses ≡ length s.ui_history
    → (t : UiState) × (observe_keys presses s ≡ some t) × (t.page ≡ UiPage.home)
unfolding observe_keys
go_home [] s w b h = (s, refl, on_home s w (sym h))
go_home (p ∷ ps) s w b h =
    let (o, e, v, l) =
      after_back (length ps) (observe p.0 keys p.1 s) (observe-Keeps p.0 keys p.1 s w)
        (observe-DropsTo (length ps) p.0 p.1 b.0 s w (sym h)) in
    let (t, f, q) = go_home ps o.state v b.1 (sym l) in (t, observe_keys-cons p ps s o e ∙ f, q)

short : (s : UiState) → IsWellFormed s → length s.ui_history ≤ 3
unfolding opened_from
short s w = ground arith

-- In every state that the shell reaches there are at most three pages on the history, and when the
-- shell observes as many presses of the Back key as there are pages on it, each at any time, it
-- shows Home.
pub Reachable-observe_keys :
    (presses : List (ℕ × RawEvent)) {s : UiState}
    → Reachable s
    → All IsBackPress presses
    → length presses ≡ length s.ui_history
    → (length s.ui_history ≤ 3)
      × ((t : UiState) × (observe_keys presses s ≡ some t) × (t.page ≡ UiPage.home))
Reachable-observe_keys presses {s} r b h =
    let w = Reachable-IsWellFormed r in (short s w, go_home presses s w b h)
