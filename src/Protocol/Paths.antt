-- ===== src/Protocol/Paths.antt =====
-- `BundlePath::new`, and what an accepted path looks like.
use sony_prs.Base.{
  ℕ, ◌≡◌, refl, ap, Bool, false, ◌||◌, List, [], ◌∷◌, ◌==◌, if◌then◌else◌, any, is_empty, arith,
  Result, ok, err, All, All-append, ◌∙◌,
}
use sony_prs.Text.{Str, codes, str_eq, starts_with}
use sony_prs.Text.Split.{split, Free, split-Free, split-append}
use sony_prs.Text.Split.Parts.{
  any-Free, Free-any, split-keeps-Free, split-All-Free, join, IsFilled, split-IsFilled, join-split,
}
use sony_prs.Protocol.{BundlePath, ValidationError, empty_path, unsafe_path, bad_component}

abbrev pub is_slash : ℕ → Bool
is_slash c = c == b'/'

-- `component.is_empty() || component == "." || component == ".."`.
unfoldable pub bad_part : Str → Bool
bad_part part = is_empty part || str_eq part (codes ".") || str_eq part (codes "..")

-- `BundlePath::new`.
unfoldable pub new_path : Str → Result ValidationError BundlePath
new_path value =
    if is_empty value
    then err empty_path
    else if starts_with value (codes "/") || any (λ c. c == b'\\') value || any (λ c. c == 0) value
    then err unsafe_path
    else if any bad_part (split is_slash value)
    then err bad_component
    else ok (record { value = value })

-- A component that a bundle path may have.
pub record IsPart (w : Str) : Type 0 where
  pub no_slash : Free is_slash w
  pub no_backslash : Free (λ c. c == b'\\') w
  pub no_nul : Free (λ c. c == 0) w
  pub good : bad_part w ≡ false

split-join :
    (w : Str) (ws : List Str) → All IsPart (w ∷ ws) → split is_slash (join b'/' (w ∷ ws)) ≡ w ∷ ws
split-join w [] h = split-Free is_slash w h.0.no_slash
split-join w (v ∷ ws) h =
    split-append is_slash w b'/' (join b'/' (v ∷ ws)) h.0.no_slash refl
    ∙ ap (◌∷◌ w) (split-join v ws h.1)

-- A test that `/` fails, failed by every character of the parts, fails on the joined text.
join-Free :
    (q : ℕ → Bool) (ws : List Str) → q b'/' ≡ false → All (Free q) ws → Free q (join b'/' ws)
join-Free q [] s h = tt
join-Free q (w ∷ []) s h = h.0
join-Free q (w ∷ v ∷ ws) s h =
    All-append (λ c. q c ≡ false) w (b'/' ∷ join b'/' (v ∷ ws)) h.0 (s, join-Free q (v ∷ ws) s h.1)

parts_backslash : (ws : List Str) → All IsPart ws → All (Free (λ c. c == b'\\')) ws
parts_backslash [] h = tt
parts_backslash (w ∷ ws) h = (h.0.no_backslash, parts_backslash ws h.1)

parts_nul : (ws : List Str) → All IsPart ws → All (Free (λ c. c == 0)) ws
parts_nul [] h = tt
parts_nul (w ∷ ws) h = (h.0.no_nul, parts_nul ws h.1)

parts_good : (ws : List Str) → All IsPart ws → All (λ w. bad_part w ≡ false) ws
parts_good [] h = tt
parts_good (w ∷ ws) h = (h.0.good, parts_good ws h.1)

-- The text begins with a character of its first part.
join_start :
    (w : Str) (ws : List Str)
    → IsPart w
    → (is_empty (join b'/' (w ∷ ws)) ≡ false)
      × (starts_with (join b'/' (w ∷ ws)) (codes "/") ≡ false)
unfolding bad_part
join_start [] ws h = cc (h.good)
join_start (c ∷ w) [] h = (refl, rw h.no_slash.0)
join_start (c ∷ w) (v ∷ ws) h = (refl, rw h.no_slash.0)

-- Every list of proper components, at least one, makes a path that is accepted.
pub new_path-join :
    (w : Str) (ws : List Str)
    → All IsPart (w ∷ ws)
    → new_path (join b'/' (w ∷ ws)) ≡ ok (record { value = join b'/' (w ∷ ws) })
unfolding new_path
new_path-join w ws h = rw (
  (join_start w ws h.0).0,
  (join_start w ws h.0).1,
  Free-any (λ c. c == b'\\') (join b'/' (w ∷ ws))
      (join-Free (λ c. c == b'\\') (w ∷ ws) refl (parts_backslash (w ∷ ws) h)),
  Free-any (λ c. c == 0) (join b'/' (w ∷ ws))
      (join-Free (λ c. c == 0) (w ∷ ws) refl (parts_nul (w ∷ ws) h)),
  split-join w ws h,
  Free-any bad_part (w ∷ ws) (parts_good (w ∷ ws) h),
)

make_parts :
    (ws : List Str)
    → All (Free is_slash) ws
    → All (Free (λ c. c == b'\\')) ws
    → All (Free (λ c. c == 0)) ws
    → All (λ w. bad_part w ≡ false) ws
    → All IsPart ws
make_parts [] a b c d = tt
make_parts (w ∷ ws) a b c d = (
  record { no_slash = a.0; no_backslash = b.0; no_nul = c.0; good = d.0 },
  make_parts ws a.1 b.1 c.1 d.1,
)

accepted :
    (s : Str) (p : BundlePath)
    → new_path s ≡ ok p
    → (p.value ≡ s)
      × (any (λ c. c == b'\\') s ≡ false)
      × (any (λ c. c == 0) s ≡ false)
      × (any bad_part (split is_slash s) ≡ false)
unfolding new_path
accepted s p h = ground arith

pub new_path-IsPart :
    (s : Str) (p : BundlePath)
    → new_path s ≡ ok p
    → (p.value ≡ s)
      × IsFilled (split is_slash s)
      × All IsPart (split is_slash s)
      × (join b'/' (split is_slash s) ≡ s)
new_path-IsPart s p h =
    let (same, backslash, nul, good) = accepted s p h in
    (
      same,
      split-IsFilled is_slash s,
      make_parts (split is_slash s) (split-All-Free is_slash s)
          (split-keeps-Free is_slash (λ c. c == b'\\') s (any-Free _ s backslash))
          (split-keeps-Free is_slash (λ c. c == 0) s (any-Free _ s nul)) (any-Free bad_part _ good),
      join-split b'/' s,
    )
