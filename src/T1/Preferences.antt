-- ===== src/T1/Preferences.antt =====
-- preferences.rs: the stored form of the reader's preferences, and the steps of the font scale.
-- The JSON codec (serde) is a parameter; files are read and written elsewhere.
use sony_prs.Base.{
  ℕ, ◌+◌, ◌-◌, ◌%◌, ◌≡◌, ◌≢◌, ◌⊎◌, refl, Bool, true, ◌||◌, ◌&&◌, not, arith, min, max, leb, ◌==◌,
  if◌then◌else◌, Option, none, some, List, [], ◌∷◌, ◌++◌, inl, inr, Option-cases, map,
}
use sony_prs.Text.{Str, codes, str_eq}
use sony_prs.Markdown.Geometry.{
  default_font_scale_percent, min_font_scale_percent, max_font_scale_percent,
  font_scale_step_percent,
}
use sony_prs.T1.Orientation.{ReaderOrientation, portrait, landscape, label}

abbrev pub current_format_version : ℕ
current_format_version = 1

pub record ReaderPreferences : Type 0 where
  pub orientation : ReaderOrientation
  pub font_scale_percent : ℕ

abbrev pub default_preferences : ReaderPreferences
default_preferences = record {
  orientation = portrait;
  font_scale_percent = default_font_scale_percent;
}

-- `value.saturating_add(step).clamp(min, max)` on `u16`, behind the wrap at the maximum.
unfoldable pub next_font_scale_percent : ℕ → ℕ
next_font_scale_percent value =
    if leb max_font_scale_percent value
    then min_font_scale_percent
    else min (max (min (value + font_scale_step_percent) 65535) min_font_scale_percent)
        max_font_scale_percent

pub record StoredReaderPreferences : Type 0 where
  pub version : ℕ
  pub orientation : Str
  pub font_scale_percent : ℕ

-- `to_ascii_lowercase`.
unfoldable pub to_ascii_lowercase : Str → Str
to_ascii_lowercase = map (λ c. if leb b'A' c && leb c b'Z' then c + 32 else c)

-- `StoredReaderPreferences::from`.
unfoldable pub to_stored : ReaderPreferences → StoredReaderPreferences
unfolding label to_ascii_lowercase
to_stored p = record {
  version = current_format_version;
  orientation = to_ascii_lowercase (codes (label p.orientation));
  font_scale_percent = p.font_scale_percent;
}

unfoldable pub supported_font_scale : ℕ → Bool
supported_font_scale value =
    leb min_font_scale_percent value
    && leb value max_font_scale_percent
    && (value - min_font_scale_percent) % font_scale_step_percent == 0

unfoldable pub into_preferences : StoredReaderPreferences → Option ReaderPreferences
into_preferences stored =
    if not (stored.version == current_format_version)
      || not (supported_font_scale stored.font_scale_percent)
    then none
    else if str_eq stored.orientation (codes "portrait")
    then some (record { orientation = portrait; font_scale_percent = stored.font_scale_percent })
    else if str_eq stored.orientation (codes "landscape")
    then some (record { orientation = landscape; font_scale_percent = stored.font_scale_percent })
    else none

-- `load_from` on what `fs::read` gives (`none` for any error), with the decoder of the JSON.
unfoldable pub load_from :
    (List ℕ → Option StoredReaderPreferences) → Option (List ℕ) → ReaderPreferences
load_from from_slice none = default_preferences
load_from from_slice (some bytes) = elim (from_slice bytes) [
  | none ↦ default_preferences
  | some stored ↦ elim (into_preferences stored) [ none ↦ default_preferences | some p ↦ p ]
]

-- What `save_to` writes: the pretty JSON of the stored form and a line end.
unfoldable pub saved_bytes : (StoredReaderPreferences → List ℕ) → ReaderPreferences → List ℕ
saved_bytes to_vec_pretty p = to_vec_pretty (to_stored p) ++ b'\n' ∷ []

supported_values :
    (value : ℕ)
    → supported_font_scale value ≡ true
    → (value ≡ 75) ⊎ (value ≡ 100) ⊎ (value ≡ 125) ⊎ (value ≡ 150)
unfolding supported_font_scale
supported_values value h = ground arith

-- From a supported size the step goes to another supported one, and four steps come back.
pub next_font_scale_cycles :
    (value : ℕ)
    → supported_font_scale value ≡ true
    → let next = next_font_scale_percent in
      (supported_font_scale (next value) ≡ true)
      × (next (next (next (next value))) ≡ value)
      × (next value ≢ value)
unfolding supported_font_scale next_font_scale_percent
next_font_scale_cycles value h = elim (supported_values value h) [
  | inl e ↦ rw e (refl, refl, omega arith)
  | inr (inl e) ↦ rw e (refl, refl, omega arith)
  | inr (inr (inl e)) ↦ rw e (refl, refl, omega arith)
  | inr (inr (inr e)) ↦ rw e (refl, refl, omega arith)
]

into-to_stored :
    (p : ReaderPreferences)
    → supported_font_scale p.font_scale_percent ≡ true
    → into_preferences (to_stored p) ≡ some p
into-to_stored p h = by_orientation p.orientation p.font_scale_percent h
  where
    by_orientation :
        (o : ReaderOrientation) (scale : ℕ)
        → supported_font_scale scale ≡ true
        → into_preferences (to_stored (record { orientation = o; font_scale_percent = scale }))
          ≡ some (record { orientation = o; font_scale_percent = scale })
    by_orientation portrait scale h = unfold into_preferences to_stored in rw h
    by_orientation landscape scale h = unfold into_preferences to_stored in rw h

-- What was saved is loaded, if the JSON decoder reads what the encoder wrote.
pub load-saved :
    (to_vec_pretty : StoredReaderPreferences → List ℕ)
    (from_slice : List ℕ → Option StoredReaderPreferences) (p : ReaderPreferences)
    → ((s : StoredReaderPreferences) → from_slice (to_vec_pretty s ++ b'\n' ∷ []) ≡ some s)
    → supported_font_scale p.font_scale_percent ≡ true
    → load_from from_slice (some (saved_bytes to_vec_pretty p)) ≡ p
unfolding load_from saved_bytes
load-saved to_vec_pretty from_slice p codec h =
    rw (codec (to_stored p), load_from, into-to_stored p h)

into_preferences-supported :
    (stored : StoredReaderPreferences) (p : ReaderPreferences)
    → into_preferences stored ≡ some p
    → supported_font_scale p.font_scale_percent ≡ true
unfolding into_preferences
into_preferences-supported stored p h = ground arith

default_supported : supported_font_scale default_font_scale_percent ≡ true
unfolding supported_font_scale
default_supported = refl

-- Whatever the file holds, a missing, broken or foreign one included, the loaded scale is supported.
pub load-supported :
    (from_slice : List ℕ → Option StoredReaderPreferences) (file : Option (List ℕ))
    → supported_font_scale (load_from from_slice file).font_scale_percent ≡ true
unfolding load_from
load-supported from_slice none = default_supported
load-supported from_slice (some bytes) = elim (Option-cases (from_slice bytes)) [
  | inl e ↦ rw (e, load_from) default_supported
  | inr (stored, e) ↦ elim (Option-cases (into_preferences stored)) [
    | inl e' ↦ rw (e, load_from, e') default_supported
    | inr (p, e') ↦ rw (e, load_from, e') (into_preferences-supported stored p e')
  ]
]
