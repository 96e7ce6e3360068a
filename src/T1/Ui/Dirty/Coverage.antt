-- ===== src/T1/Ui/Dirty/Coverage.antt =====
-- runtime.rs: what a merged area repaints.
use sony_prs.Base.{ℕ, ◌-◌, ◌≤◌, ◌≡◌, Bool, true, false, arith}
use sony_prs.T1.Region.{DisplayRegion, bounded, right, bottom}
use sony_prs.T1.Ui.{UiPage}
use sony_prs.T1.Ui.Dirty.{DirtyArea, merge, area_region, region, is_home}

-- Not a control's area, and not that of the status rows of a settings page.
abbrev pub is_plain : UiPage → DirtyArea → Bool
is_plain page (DirtyArea.action a) = false
is_plain page (DirtyArea.focus previous current) = false
is_plain page DirtyArea.status = is_home page
is_plain page _ = true

-- One region lies inside another one.
pub record Encloses (r s : DisplayRegion) : Type 0 where
  pub left : r.left ≤ s.left
  pub top : r.top ≤ s.top
  pub right : right s ≤ right r
  pub bottom : bottom s ≤ bottom r

bounded-Encloses :
    (w h : ℕ) (r s : DisplayRegion) → Encloses r s → Encloses (bounded r w h) (bounded s w h)
unfolding bounded
bounded-Encloses w h r s c = record {
  left = ground arith;
  top = ground arith;
  right = ground arith;
  bottom = ground arith;
}

module _ (overlay : ℕ → ℕ → DisplayRegion) (page : UiPage) (w h : ℕ) where
  raw_left :
      (a b : DirtyArea)
      → 584 ≤ h
      → Encloses (record { left = 0; top = 48; width = w; height = h - 48 }) (overlay w h)
      → is_plain page a ≡ true
      → is_plain page b ≡ true
      → Encloses (area_region overlay (merge a b) w h page) (area_region overlay a w h page)
  unfolding area_region merge
  raw_left a b k c p q = ground arith

  raw_right :
      (a b : DirtyArea)
      → 584 ≤ h
      → Encloses (record { left = 0; top = 48; width = w; height = h - 48 }) (overlay w h)
      → is_plain page a ≡ true
      → is_plain page b ≡ true
      → Encloses (area_region overlay (merge a b) w h page) (area_region overlay b w h page)
  unfolding area_region merge
  raw_right a b k c p q = ground arith

  -- On a screen of at least 584 rows, two changes that are merged into one repaint what each of them would
  -- repaint. This holds for every change but that of a control or the focus and, on a page other than
  -- Home, of the status rows, when the overlay of an external link lies below the status bar.
  pub merge-Encloses :
      (a b : DirtyArea)
      → 584 ≤ h
      → Encloses (record { left = 0; top = 48; width = w; height = h - 48 }) (overlay w h)
      → is_plain page a ≡ true
      → is_plain page b ≡ true
      → Encloses (region overlay (merge a b) w h page) (region overlay a w h page)
        × Encloses (region overlay (merge a b) w h page) (region overlay b w h page)
  unfolding region
  merge-Encloses a b k c p q = (
    bounded-Encloses w h _ _ (raw_left a b k c p q),
    bounded-Encloses w h _ _ (raw_right a b k c p q),
  )
