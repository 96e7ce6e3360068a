-- ===== src/Tests/Screens.antt =====
-- The T1's display: a screen of two by two pixels, preferences and touch points.
use sony_prs.Base.{
  ℕ, ◌+◌, ◌≤◌, ◌<◌, ◌≡◌, refl, ap, true, List, [], ◌∷◌, ◌++◌, Option, none, some, arith, ok,
  if◌then◌else◌, ◌==◌,
}
use sony_prs.T1.Region.{
  DisplayRegion, bounded, DamageOptions, default_options, expand_region, low_edge, high_edge,
  Covers,
}
use sony_prs.T1.Damage.{pixel_differs, extend, scan_row, scan_rows, changed_region}
use sony_prs.T1.Damage.Correct.{changed_region-Covers, changed_region_smallest}
use sony_prs.T1.Refresh.{du, gc16, monochrome, page_turn, default_policy, plan}
use sony_prs.T1.Refresh.Cadence.{Frame, run, turns_since, run-turns_since, plan-run}
use sony_prs.T1.Orientation.{landscape}
use sony_prs.T1.Preferences.{
  ReaderPreferences, StoredReaderPreferences, supported_font_scale, load_from, saved_bytes,
  load-saved,
}

abbrev before : List ℕ
before = 0 ∷ 0 ∷ 0 ∷ 0 ∷ 0 ∷ 0 ∷ 0 ∷ 0 ∷ []

-- The right pixel of the lower row has changed.
abbrev after : List ℕ
after = 0 ∷ 0 ∷ 0 ∷ 0 ∷ 0 ∷ 0 ∷ 0 ∷ 9 ∷ []

abbrev corner : DisplayRegion
corner = record { left = 1; top = 1; width = 1; height = 1 }

found : changed_region after before 2 2 default_options ≡ ok (some corner)
unfolding changed_region scan_rows scan_row pixel_differs extend expand_region bounded low_edge
    high_edge
found = refl

same : changed_region before before 2 2 default_options ≡ ok none
unfolding changed_region scan_rows scan_row pixel_differs extend expand_region bounded low_edge
    high_edge
same = refl

differs : pixel_differs after before 2 1 1 ≡ true
unfolding pixel_differs
differs = refl

changed_region-Covers_example : Covers corner 1 1
changed_region-Covers_example =
    changed_region-Covers after before 2 2 default_options corner 1 1 found (omega arith)
      (omega arith) differs

whole :
    (x y : ℕ)
    → x < 2
    → y < 2
    → pixel_differs after before 2 x y ≡ true
    → Covers (record { left = 0; top = 0; width = 2; height = 2 }) x y
whole x y h k e = record {
  left = omega arith;
  right = omega arith;
  top = omega arith;
  bottom = omega arith;
}

changed_region_smallest_example : (0 ≤ 1) × (1 + 1 ≤ 0 + 2) × (0 ≤ 1) × (1 + 1 ≤ 0 + 2)
changed_region_smallest_example =
    changed_region_smallest after before 2 2 corner
      (record { left = 0; top = 0; width = 2; height = 2 }) found whole
      (record { right = omega arith; bottom = omega arith })

abbrev padded : DamageOptions
padded = record { padding_x = 1; padding_y = 1; align_x = 2; align_y = 2 }

abbrev turn : Frame
turn = record { reason = page_turn monochrome; submitted = true }

run-turns_since_example :
    ((run default_policy (turn ∷ turn ∷ [])).fast_page_turns ≡ turns_since 0 (turn ∷ turn ∷ []))
    × ((run default_policy (turn ∷ turn ∷ [])).fast_page_turns ≤ 4)
run-turns_since_example = run-turns_since default_policy (turn ∷ turn ∷ []) (omega arith)

plan-run_example :
    let fs = turn ∷ turn ∷ turn ∷ turn ∷ [] in
    let p = plan (run default_policy fs) (page_turn monochrome) in
    (p.cleanup ≡ (turns_since 0 fs == 4))
    × (p.waveform ≡ (if turns_since 0 fs == 4 then gc16 else du))
    × (p.force_refresh ≡ p.cleanup)
    × (p.wait_for_completion ≡ p.cleanup)
plan-run_example = plan-run (turn ∷ turn ∷ turn ∷ turn ∷ [])

supported_125 : supported_font_scale 125 ≡ true
unfolding supported_font_scale
supported_125 = refl

abbrev preferences : ReaderPreferences
preferences = record { orientation = landscape; font_scale_percent = 125 }

-- An encoder that writes the numbers and then the text, and its decoder.
abbrev encode : StoredReaderPreferences → List ℕ
encode s = s.version ∷ s.font_scale_percent ∷ s.orientation

unfoldable without_last : List ℕ → List ℕ
without_last [] = []
without_last (b ∷ []) = []
without_last (b ∷ c ∷ bytes) = b ∷ without_last (c ∷ bytes)

abbrev decode : List ℕ → Option StoredReaderPreferences
decode [] = none
decode (v ∷ []) = none
decode (v ∷ f ∷ o) =
    some (record { version = v; orientation = without_last o; font_scale_percent = f })

without_last-append : (bytes : List ℕ) (b : ℕ) → without_last (bytes ++ b ∷ []) ≡ bytes
unfolding without_last
without_last-append [] b = refl
without_last-append (c ∷ []) b = refl
without_last-append (c ∷ d ∷ bytes) b = ap (λ s. c ∷ s) (without_last-append (d ∷ bytes) b)

codec : (s : StoredReaderPreferences) → decode (encode s ++ b'\n' ∷ []) ≡ some s
codec s = rw (without_last-append s.orientation b'\n')

load-saved_example : load_from decode (some (saved_bytes encode preferences)) ≡ preferences
load-saved_example = load-saved encode decode preferences codec supported_125
