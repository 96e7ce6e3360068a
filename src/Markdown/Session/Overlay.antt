-- ===== src/Markdown/Session/Overlay.antt =====
-- The region of the overlay, as the T1 runtime damages it, and what a call leaves of the overlay.
use sony_prs.Base.{
  ℕ, ◌-◌, ◌≤◌, ◌≡◌, refl, arith, true, Option, none, some, Result, ok, err, magnitude,
}
use sony_prs.Text.{Str}
use sony_prs.Markdown.Coordinates.{i32_max}
use sony_prs.Markdown.Reader.{ReaderError, ReaderEvent}
use sony_prs.Markdown.Session.{
  external_link_overlay_region, QrMatrix, QrError, ExternalLinkOverlay, ReaderControllerError,
  ReaderController, encode, new_overlay, shown, after_call, dispatch,
}
use sony_prs.T1.Region.{DisplayRegion}
use sony_prs.T1.Ui.{UiPage}
use sony_prs.T1.Ui.Dirty.{DirtyArea, merge, region}
use sony_prs.T1.Ui.Dirty.Coverage.{Encloses, is_plain, merge-Encloses}

-- `reader::external_link_overlay_region` of the T1 agent: the shared region as a display region.
unfoldable pub display_overlay : ℕ → ℕ → DisplayRegion
unfolding external_link_overlay_region
display_overlay width height =
    let r = external_link_overlay_region width height in
    record { left = magnitude r.x; top = magnitude r.y; width = r.width; height = r.height }

-- On a screen that fits `i32`, the overlay lies below the status bar.
below_status :
    (w h : ℕ)
    → 584 ≤ h
    → h ≤ i32_max
    → w ≤ i32_max
    → Encloses (record { left = 0; top = 48; width = w; height = h - 48 }) (display_overlay w h)
unfolding display_overlay external_link_overlay_region
below_status w h a b c = record {
  left = ground arith;
  top = ground arith;
  right = ground arith;
  bottom = ground arith;
}

-- On a screen of at least 584 rows that fits `i32`, two changes that are merged into one repaint what
-- each of them would repaint. This holds for every change but that of a control or the focus and, on
-- a page other than Home, of the status rows.
pub merge-Encloses_overlay :
    (page : UiPage) (w h : ℕ) (a b : DirtyArea)
    → 584 ≤ h
    → h ≤ i32_max
    → w ≤ i32_max
    → is_plain page a ≡ true
    → is_plain page b ≡ true
    → Encloses (region display_overlay (merge a b) w h page) (region display_overlay a w h page)
      × Encloses (region display_overlay (merge a b) w h page) (region display_overlay b w h page)
merge-Encloses_overlay page w h a b k l m p q =
    merge-Encloses display_overlay page w h a b k (below_status w h k l m) p q

-- The URL that an overlay shows, and the one that a result announces.
abbrev pub shown_url : Option ExternalLinkOverlay → Option Str
shown_url none = none
shown_url (some o) = some o.url

abbrev pub announced_url : Result ReaderControllerError ReaderEvent → Option Str
announced_url (err e) = none
announced_url (ok (ReaderEvent.external_url url)) = some url
announced_url (ok event) = none

module _ {R : Type 0} (qr_code : Str → Option QrMatrix) where
  -- What a controller and the result of its call have in common.
  abbrev Matches : R → ReaderController R × Result ReaderControllerError ReaderEvent → Type 0
  Matches r p = (p.0.inner ≡ r) × (shown_url p.0.external_link_overlay ≡ announced_url p.1)

  shown-Matches :
      (r : R) (url : Str) (q : Result QrError QrMatrix)
      → Matches r (shown qr_code r (ReaderEvent.external_url url) (new_overlay qr_code url q))
  shown-Matches r url (ok matrix) = (refl, refl)
  shown-Matches r url (err e) = (refl, refl)

  after_call-Matches : (p : R × Result ReaderError ReaderEvent) → Matches p.0 (after_call qr_code p)
  after_call-Matches (r, err e) = (refl, refl)
  after_call-Matches (r, ok (ReaderEvent.external_url url)) =
      shown-Matches r url (encode qr_code url)
  after_call-Matches (r, ok (ReaderEvent.opened l n)) = (refl, refl)
  after_call-Matches (r, ok (ReaderEvent.page_changed i n)) = (refl, refl)
  after_call-Matches (r, ok (ReaderEvent.navigated l i n)) = (refl, refl)
  after_call-Matches (r, ok (ReaderEvent.back l i n)) = (refl, refl)
  after_call-Matches (r, ok (ReaderEvent.forward l i n)) = (refl, refl)
  after_call-Matches (r, ok (ReaderEvent.asset path)) = (refl, refl)
  after_call-Matches (r, ok ReaderEvent.no_action) = (refl, refl)

  -- After any call of the controller the reader is the one that the call left, and an overlay is
  -- shown just when the call returned an external URL, which it then shows: an overlay of an earlier
  -- call is gone, also when this call fails.
  pub dispatch-Matches :
      (operation : R → R × Result ReaderError ReaderEvent) (c : ReaderController R)
      → ((dispatch qr_code operation c).0.inner ≡ (operation c.inner).0)
        × (shown_url (dispatch qr_code operation c).0.external_link_overlay
            ≡ announced_url (dispatch qr_code operation c).1)
  unfolding dispatch
  dispatch-Matches operation c = after_call-Matches (operation c.inner)
