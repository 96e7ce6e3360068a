-- ===== src/T1/Ui/Navigation/Controls.antt =====
-- The controls that a page's taps and keys can reach are those that the page lists.
use sony_prs.Base.{
  ℕ, is_negative, magnitude, ◌≡◌, refl, sym, ◌∙◌, ap, ◌⊎◌, inl, inr, Bool, true, false, ◌||◌, List,
  [], ◌∷◌, Option, none, some, ==_refl, if◌then◌else◌, arith,
}
use sony_prs.T1.Region.{DisplayRegion}
use sony_prs.T1.Details.Actions.{
  DetailsPage, DetailsAction, to_index, same_action, is_action, contains_action,
  details_actions_for_page,
}
use sony_prs.T1.Details.Regions.{
  details_action_region_for_page, option_holds, find_action, details_action_at_for_page,
}
use sony_prs.T1.Ui.{UiState}
use sony_prs.T1.Ui.Focus.{
  screen_width, screen_height, is_settings_page, details_page, visible_actions, insert_by_key,
  sort_by_key, focus_actions,
}
use sony_prs.T1.Ui.Activate.{touched_action}

-- A page lists a control.
abbrev pub Offers : DetailsPage → DetailsAction → Type 0
Offers page a = contains_action a (details_actions_for_page page) ≡ true

contains-same :
    (a b : DetailsAction) (l : List DetailsAction)
    → same_action b a ≡ true
    → contains_action b l ≡ true
    → contains_action a l ≡ true
unfolding contains_action same_action
contains-same a b [] e h = h
contains-same a b (c ∷ l) e h = let ih = contains-same a b l e in ground arith

-- What a test with a rest found.
found :
    (test : Bool) (b a : DetailsAction) (rest : Option DetailsAction)
    → (if test then some b else rest) ≡ some a
    → (b ≡ a) ⊎ (rest ≡ some a)
found true b a rest e = inl (cc)
found false b a rest e = inr e

same_action_refl : (a b : DetailsAction) → b ≡ a → same_action b a ≡ true
unfolding same_action
same_action_refl a b e = rw e (==_refl (to_index a))

or-right : (a b : Bool) → b ≡ true → (a || b) ≡ true
or-right a b h = ground arith

find_action-contains :
    (p : DetailsPage) (x y w h : ℕ) (l : List DetailsAction) (a : DetailsAction)
    → find_action p x y w h l ≡ some a
    → contains_action a l ≡ true
unfolding find_action contains_action
find_action-contains p x y w h [] a e = absurd (ground arith)
find_action-contains p x y w h (b ∷ l) a e =
    elim (found (option_holds (details_action_region_for_page p b w h) x y) b a
      (find_action p x y w h l) e) [
        | inl eq ↦ rw (same_action_refl a b eq) refl
        | inr rest ↦
            or-right (same_action b a) (contains_action a l)
              (find_action-contains p x y w h l a rest)
      ]

is_action-some :
    (o : Option DetailsAction) (a : DetailsAction)
    → is_action o a ≡ true
    → (b : DetailsAction) × (same_action b a ≡ true) × (o ≡ some b)
is_action-some none a e = absurd (ground arith)
is_action-some (some b) a e = (b, e, refl)

not_guarded :
    {b : DetailsAction} {rest : Option DetailsAction} (test : Bool)
    → (if test then none else rest) ≡ some b
    → rest ≡ some b
not_guarded true e = absurd (ground arith)
not_guarded false e = e

pub touched_action-Offers :
    (s : UiState) (a : DetailsAction)
    → is_action (touched_action s) a ≡ true
    → Offers (details_page s) a
unfolding touched_action details_action_at_for_page
touched_action-Offers s a e =
    let (b, same, at) = is_action-some (touched_action s) a e in
    let offered = details_actions_for_page (details_page s) in
    let at_rest = not_guarded (is_negative s.touch_x || is_negative s.touch_y) at in
    contains-same a b offered same (
      find_action-contains (details_page s) (magnitude s.touch_x) (magnitude s.touch_y)
        (screen_width s) (screen_height s) offered b at_rest)

module _ (key : DetailsAction → Option DisplayRegion) (a : DetailsAction) where
  visible_actions-contains :
      (l : List DetailsAction)
      → contains_action a (visible_actions key l) ≡ true
      → contains_action a l ≡ true
  unfolding visible_actions contains_action
  visible_actions-contains [] h = h
  visible_actions-contains (b ∷ l) h = let ih = visible_actions-contains l in ground arith

  insert_by_key-contains :
      (b : DetailsAction) (l : List DetailsAction)
      → contains_action a (insert_by_key key b l) ≡ (same_action b a || contains_action a l)
  unfolding insert_by_key contains_action
  insert_by_key-contains b [] = refl
  insert_by_key-contains b (c ∷ l) = let ih = insert_by_key-contains b l in ground arith

  sort_by_key-contains :
      (l : List DetailsAction) → contains_action a (sort_by_key key l) ≡ contains_action a l
  unfolding sort_by_key contains_action
  sort_by_key-contains [] = refl
  sort_by_key-contains (b ∷ l) =
      insert_by_key-contains b (sort_by_key key l)
      ∙ ap (λ t. same_action b a || t) (sort_by_key-contains l)

guarded-contains :
    (a : DetailsAction) (test : Bool) (l : List DetailsAction)
    → contains_action a (if test then l else []) ≡ true
    → contains_action a l ≡ true
unfolding contains_action
guarded-contains a true l h = h
guarded-contains a false l h = absurd (ground arith)

pub focus_actions-Offers :
    (s : UiState) (a : DetailsAction)
    → contains_action a (focus_actions s) ≡ true
    → Offers (details_page s) a
unfolding focus_actions
focus_actions-Offers s a h =
    let key : DetailsAction → Option DisplayRegion =
      λ b. details_action_region_for_page (details_page s) b (screen_width s) (screen_height s) in
    let offered = details_actions_for_page (details_page s) in
    let sorted =
      guarded-contains a (is_settings_page s) (sort_by_key key (visible_actions key offered)) h in
    visible_actions-contains key a offered
      (sym (sort_by_key-contains key a (visible_actions key offered)) ∙ sorted)
