-- ===== src/Markdown/Session.antt =====
-- session.rs: the overlay for an external link, and the controller that clears it on each call. The
-- encoder of the QR code is a parameter, as is a call of the reader.
pub mod Overlay
pub mod Lines
use sony_prs.Base.{
  ℕ, zero, suc, ◌-◌, Bool, true, false, ◌||◌, ◌&&◌, not, List, [], ◌∷◌, ◌++◌, Option, none, some,
  min, ◌==◌, if◌then◌else◌, is_empty, take, drop, Result, ok, err,
}
use sony_prs.Text.{Str, codes}
use sony_prs.Markdown.Coordinates.{as_i32}
use sony_prs.Markdown.Geometry.{Rect}
use sony_prs.Markdown.Reader.{ReaderError, ReaderEvent}

abbrev pub external_link_overlay_width : ℕ
external_link_overlay_width = 360

abbrev pub external_link_overlay_height : ℕ
external_link_overlay_height = 214

abbrev pub external_link_overlay_margin : ℕ
external_link_overlay_margin = 12

abbrev pub external_link_bottom_margin : ℕ
external_link_bottom_margin = 16

unfoldable pub external_link_overlay_region : ℕ → ℕ → Rect
external_link_overlay_region width height =
    let overlay_width = min external_link_overlay_width width in
    let overlay_height = min external_link_overlay_height (height - external_link_bottom_margin) in
    let right_margin = min external_link_overlay_margin (width - overlay_width) in
    let bottom = min (height - external_link_bottom_margin) height in
    let top = bottom - overlay_height in
    record {
      x = as_i32 (width - right_margin - overlay_width);
      y = as_i32 top;
      width = overlay_width;
      height = overlay_height;
    }

-- The loop of `truncated_url_lines`, with `rounds` lines left.
unfoldable pub url_lines : ℕ → ℕ → Str → List Str
url_lines zero chars remaining = []
url_lines (suc rounds) chars remaining =
    let line = take chars remaining in
    let rest = drop chars remaining in
    let lines = url_lines rounds chars rest in
    let has_more = not (is_empty rest) in
    let shown = if has_more && rounds == 0 then take (chars - 3) line ++ codes "..." else line in
    if is_empty shown then [] else if has_more then shown ∷ lines else shown ∷ []

unfoldable pub truncated_url_lines : Str → ℕ → ℕ → List Str
unfolding url_lines
truncated_url_lines url chars_per_line max_lines =
    if chars_per_line == 0 || max_lines == 0 then [] else url_lines max_lines chars_per_line url

pub data QrError : Type 0 where
  empty_value too_large : QrError

-- The matrix of the `qrcode` crate, or none when the value is too long for it.
pub record QrMatrix : Type 0 where
  pub size : ℕ
  pub modules : List Bool

pub record ExternalLinkOverlay : Type 0 where
  pub url : Str
  pub qr : QrMatrix

pub data ReaderControllerError : Type 0 where
  reader : ReaderError → ReaderControllerError
  external_link_qr : QrError → ReaderControllerError

-- Over any type of readers.
pub record ReaderController (R : Type 0) : Type 0 where
  pub inner : R
  pub external_link_overlay : Option ExternalLinkOverlay

module _ (qr_code : Str → Option QrMatrix) where
  -- `QrMatrix::encode`.
  unfoldable pub encode : Str → Result QrError QrMatrix
  encode value = elim (is_empty value) [
    | true ↦ err QrError.empty_value
    | false ↦ elim (qr_code value) [ none ↦ err QrError.too_large | some matrix ↦ ok matrix ]
  ]

  abbrev pub new_overlay : Str → Result QrError QrMatrix → Result QrError ExternalLinkOverlay
  new_overlay url (err e) = err e
  new_overlay url (ok qr) = ok (record { url = url; qr = qr })

  abbrev pub shown :
      {R : Type 0}
      → R
      → ReaderEvent
      → Result QrError ExternalLinkOverlay
      → ReaderController R × Result ReaderControllerError ReaderEvent
  shown r event (err e) = (
    record { inner = r; external_link_overlay = none },
    err (ReaderControllerError.external_link_qr e),
  )
  shown r event (ok overlay) =
      (record { inner = r; external_link_overlay = some overlay }, ok event)

  abbrev pub after_call :
      {R : Type 0}
      → R × Result ReaderError ReaderEvent
      → ReaderController R × Result ReaderControllerError ReaderEvent
  after_call (r, err e) =
      (record { inner = r; external_link_overlay = none }, err (ReaderControllerError.reader e))
  after_call (r, ok (ReaderEvent.external_url url)) =
      shown r (ReaderEvent.external_url url) (new_overlay url (encode url))
  after_call (r, ok event) = (record { inner = r; external_link_overlay = none }, ok event)

  -- `ReaderController::dispatch`.
  unfoldable pub dispatch :
      {R : Type 0}
      → (R → R × Result ReaderError ReaderEvent)
      → ReaderController R
      → ReaderController R × Result ReaderControllerError ReaderEvent
  unfolding encode
  dispatch operation c = after_call (operation c.inner)
