-- ===== src/T1/Details/HitTest.antt =====
-- display.rs: a touch inside the rectangle of a control is found as that control.
use sony_prs.Base.{
  ℕ, pos, ◌≡◌, refl, sym, ◌∙◌, ap, subst, inl, inr, zero, suc, Bool, true, false, ◌&&◌, ◌||◌, List,
  [], ◌∷◌, Option, none, some, leb, arith, Bool-cases, ==_iff,
}
use sony_prs.T1.Region.{DisplayRegion, right, bottom}
use sony_prs.T1.Orientation.{ReaderOrientation, portrait, landscape, viewport}
use sony_prs.T1.Details.Actions.{
  DetailsPage, DetailsAction, open_reading, open_synchronization, open_device_diagnostics, sync_now,
  return_to_entry_point, display_test, reboot, power_off, back_to_reading, back_to_settings,
  orientation, show_status_bar, font_decrease, font_reset, font_increase, reading_progress,
  debug_messages, confirm_power, cancel_power_action, to_index, same_action, contains_action,
  details_actions_for_page,
}
use sony_prs.T1.Details.Regions.{
  details_action_region_for_page, option_holds, find_action, details_action_at_for_page,
}

-- Two rectangles without a common point.
abbrev pub apart : Option DisplayRegion → Option DisplayRegion → Bool
apart (some a) (some b) =
    leb (right a) b.left || leb (right b) a.left || leb (bottom a) b.top || leb (bottom b) a.top
apart _ _ = true

apart-holds :
    (a b : Option DisplayRegion) (x y : ℕ)
    → apart b a ≡ true
    → option_holds a x y ≡ true
    → option_holds b x y ≡ false
apart-holds none b x y h k = absurd (ground arith)
apart-holds (some a) none x y h k = refl
apart-holds (some a) (some b) x y h k = ground arith

-- The action of a discriminant.
from_index : ℕ → DetailsAction
from_index zero = open_reading
from_index (suc zero) = open_synchronization
from_index (suc (suc zero)) = open_device_diagnostics
from_index (suc (suc (suc zero))) = sync_now
from_index (suc (suc (suc (suc zero)))) = return_to_entry_point
from_index (suc (suc (suc (suc (suc zero))))) = display_test
from_index (suc (suc (suc (suc (suc (suc zero)))))) = reboot
from_index (suc (suc (suc (suc (suc (suc (suc zero))))))) = power_off
from_index (suc (suc (suc (suc (suc (suc (suc (suc zero)))))))) = back_to_reading
from_index (suc (suc (suc (suc (suc (suc (suc (suc (suc zero))))))))) = back_to_settings
from_index (suc (suc (suc (suc (suc (suc (suc (suc (suc (suc zero)))))))))) = orientation
from_index (suc (suc (suc (suc (suc (suc (suc (suc (suc (suc (suc zero))))))))))) = show_status_bar
from_index (suc (suc (suc (suc (suc (suc (suc (suc (suc (suc (suc (suc zero)))))))))))) =
    font_decrease
from_index (suc (suc (suc (suc (suc (suc (suc (suc (suc (suc (suc (suc (suc zero))))))))))))) =
    font_reset
from_index
      (suc (suc (suc (suc (suc (suc (suc (suc (suc (suc (suc (suc (suc (suc zero)))))))))))))) =
    font_increase
from_index
      (suc
        (suc (suc (suc (suc (suc (suc (suc (suc (suc (suc (suc (suc (suc (suc zero))))))))))))))) =
    reading_progress
from_index
      (suc (
        suc (
          suc
            (suc (suc (suc (suc (suc (suc (suc (suc (suc (suc (suc (suc (suc zero)))))))))))))))) =
    debug_messages
from_index
      (suc (
        suc (
          suc (
            suc (
              suc
                (suc (suc (suc (suc (suc (suc (suc (suc (suc (suc (suc (suc zero))))))))))))))))) =
    confirm_power
from_index _ = cancel_power_action

from_index-to_index : (a : DetailsAction) → from_index (to_index a) ≡ a
unfolding from_index to_index
from_index-to_index open_reading = refl
from_index-to_index open_synchronization = refl
from_index-to_index open_device_diagnostics = refl
from_index-to_index sync_now = refl
from_index-to_index return_to_entry_point = refl
from_index-to_index display_test = refl
from_index-to_index reboot = refl
from_index-to_index power_off = refl
from_index-to_index back_to_reading = refl
from_index-to_index back_to_settings = refl
from_index-to_index orientation = refl
from_index-to_index show_status_bar = refl
from_index-to_index font_decrease = refl
from_index-to_index font_reset = refl
from_index-to_index font_increase = refl
from_index-to_index reading_progress = refl
from_index-to_index debug_messages = refl
from_index-to_index confirm_power = refl
from_index-to_index cancel_power_action = refl

same_action-eq : (a b : DetailsAction) → same_action b a ≡ true → b ≡ a
unfolding same_action
same_action-eq a b h =
    sym (from_index-to_index b)
    ∙ ap from_index ((==_iff (to_index b) (to_index a)).0 h)
    ∙ from_index-to_index a

and-left : (a b : Bool) → (a && b) ≡ true → a ≡ true
and-left a b h = ground arith

and-right : (a b : Bool) → (a && b) ≡ true → b ≡ true
and-right a b h = ground arith

or-false : (a b : Bool) → a ≡ false → (a || b) ≡ true → b ≡ true
or-false a b h k = ground arith

module _ (page : DetailsPage) (width height : ℕ) where
  abbrev region_of : DetailsAction → Option DisplayRegion
  unfolding details_action_region_for_page
  region_of a = details_action_region_for_page page a width height

  unfoldable apart_from : DetailsAction → List DetailsAction → Bool
  unfolding region_of
  apart_from b [] = true
  apart_from b (a ∷ actions) = apart (region_of b) (region_of a) && apart_from b actions

  unfoldable all_apart : List DetailsAction → Bool
  unfolding apart_from
  all_apart [] = true
  all_apart (b ∷ actions) = apart_from b actions && all_apart actions

  apart_from-contains :
      (b a : DetailsAction) (l : List DetailsAction)
      → apart_from b l ≡ true
      → contains_action a l ≡ true
      → apart (region_of b) (region_of a) ≡ true
  unfolding apart_from contains_action
  apart_from-contains b a [] h k = absurd (ground arith)
  apart_from-contains b a (c ∷ l) h k = elim (Bool-cases (same_action c a)) [
    | inl e ↦
        subst (λ d. apart (region_of b) (region_of d) ≡ true) (same_action-eq a c e)
          (and-left _ _ h)
    | inr e ↦ apart_from-contains b a l (and-right _ _ h) (or-false _ _ e k)
  ]

  find_action-apart :
      (x y : ℕ) (a : DetailsAction) (l : List DetailsAction)
      → all_apart l ≡ true
      → contains_action a l ≡ true
      → option_holds (region_of a) x y ≡ true
      → find_action page x y width height l ≡ some a
  unfolding all_apart contains_action find_action
  find_action-apart x y a [] p h k = absurd (ground arith)
  find_action-apart x y a (b ∷ l) p h k = elim (Bool-cases (same_action b a)) [
    | inl e ↦
        let q = same_action-eq a b e in
        let held : option_holds (region_of b) x y ≡ true =
          subst (λ d. option_holds (region_of d) x y ≡ true) (sym q) k in
        rw held (ap some q)
    | inr e ↦
        let listed = or-false _ _ e h in
        let clear : option_holds (region_of b) x y ≡ false =
          apart-holds (region_of a) (region_of b) x y
            (apart_from-contains b a l (and-left _ _ p) listed) k in
        rw clear (find_action-apart x y a l (and-right _ _ p) listed k)
  ]

-- On both screens the controls of a page are apart.
controls_apart :
    (o : ReaderOrientation) (page : DetailsPage)
    → all_apart page (viewport o).width (viewport o).height (details_actions_for_page page) ≡ true
unfolding all_apart viewport details_actions_for_page
controls_apart portrait DetailsPage.legacy = refl
controls_apart portrait DetailsPage.menu = refl
controls_apart portrait DetailsPage.reading = refl
controls_apart portrait DetailsPage.synchronization = refl
controls_apart portrait DetailsPage.device_diagnostics = refl
controls_apart portrait DetailsPage.power_confirmation = refl
controls_apart landscape DetailsPage.legacy = refl
controls_apart landscape DetailsPage.menu = refl
controls_apart landscape DetailsPage.reading = refl
controls_apart landscape DetailsPage.synchronization = refl
controls_apart landscape DetailsPage.device_diagnostics = refl
controls_apart landscape DetailsPage.power_confirmation = refl

-- In both orientations and on every page, a touch at any point of the rectangle of a control of the page
-- is found as this control and no other.
pub details_action_at_for_page-region :
    (o : ReaderOrientation) (page : DetailsPage) (a : DetailsAction) (x y : ℕ)
    → contains_action a (details_actions_for_page page) ≡ true
    → option_holds
        (details_action_region_for_page page a (viewport o).width (viewport o).height)
        x
        y
      ≡ true
    → details_action_at_for_page page (pos x) (pos y) (viewport o).width (viewport o).height
      ≡ some a
unfolding details_action_at_for_page region_of details_action_region_for_page
details_action_at_for_page-region o page a x y h k =
    find_action-apart page (viewport o).width (viewport o).height x y a
      (details_actions_for_page page) (controls_apart o page) h k
