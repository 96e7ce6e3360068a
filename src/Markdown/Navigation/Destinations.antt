-- ===== src/Markdown/Navigation/Destinations.antt =====
-- The parts of a destination that `from_destination` returns.
use sony_prs.Base.{
  suc, ◌≡◌, refl, ap, Bool, true, false, [], ◌∷◌, ◌++◌, Option, none, some, ◌==◌, arith, sym,
  ==_iff, replicate, Bool-cases, append-nil, inl, inr, ℕ,
}
use sony_prs.Text.{Str, codes, starts_with}
use sony_prs.Text.Split.{split_once, Free}
use sony_prs.Markdown.Navigation.{
  NavigationTarget, trim_start_matches, is_markdown_destination, is_external_destination,
  from_parts, from_destination,
}

abbrev is_hash : ℕ → Bool
is_hash c = c == b'#'

-- Nothing, or a text that begins with `#`.
abbrev IsFragment : Str → Type 0
IsFragment [] = Unit
IsFragment (c ∷ s) = c ≡ b'#'

-- Neither an anchor of the same document nor an external URL.
abbrev IsLocal : Str → Type 0
IsLocal d = (is_external_destination d ≡ false) × (starts_with d (codes "#") ≡ false)

-- What a destination has to be for a target to be the right one.
abbrev pub Denotes : Str → NavigationTarget → Type 0
Denotes d (NavigationTarget.location l) = ⊥
Denotes d (NavigationTarget.anchor a) =
    (n : ℕ) × (d ≡ replicate (suc n) b'#' ++ a) × (starts_with a (codes "#") ≡ false)
Denotes d (NavigationTarget.external url) =
    (d ≡ url) × (is_external_destination d ≡ true) × (starts_with d (codes "#") ≡ false)
Denotes d (NavigationTarget.document id) =
    (d ≡ id) × Free is_hash id × (is_markdown_destination id ≡ true) × IsLocal d
Denotes d (NavigationTarget.document_anchor id a) =
    (d ≡ id ++ b'#' ∷ a) × Free is_hash id × (is_markdown_destination id ≡ true) × IsLocal d
Denotes d (NavigationTarget.asset id) =
    (rest : Str) × (d ≡ id ++ rest)
    × IsFragment rest
    × Free is_hash id
    × (is_markdown_destination id ≡ false)
    × IsLocal d

trim_start_matches-hash :
    (s : Str)
    → (n : ℕ) × (s ≡ replicate n b'#' ++ trim_start_matches b'#' s)
      × (starts_with (trim_start_matches b'#' s) (codes "#") ≡ false)
trim_start_matches-hash [] = (0, refl, refl)
trim_start_matches-hash (c ∷ s) = elim (Bool-cases (c == b'#')) [
  | inl h ↦
      let (n, e, f) = trim_start_matches-hash s in
      let hash : c ≡ b'#' = (==_iff c b'#').0 h in (suc n, rw (h, hash) (ap (◌∷◌ b'#') e), rw (h) f)
  | inr h ↦ (0, rw h refl, rw (h, h) refl)
]

-- What the split of a text says about it.
abbrev IsSplit : Str → Option (Str × Str) → Type 0
IsSplit s none = Free is_hash s
IsSplit s (some p) = (s ≡ p.0 ++ b'#' ∷ p.1) × Free is_hash p.0

cons-IsSplit :
    (c : ℕ) (s : Str) (o : Option (Str × Str))
    → (c == b'#') ≡ false
    → IsSplit s o
    → IsSplit (c ∷ s) (elim o [ none ↦ none | some (k, v) ↦ some (c ∷ k, v) ])
cons-IsSplit c s none h f = (h, f)
cons-IsSplit c s (some (k, v)) h f = (ap (◌∷◌ c) f.0, (h, f.1))

split_once-IsSplit : (s : Str) → IsSplit s (split_once b'#' s)
unfolding split_once
split_once-IsSplit [] = tt
split_once-IsSplit (c ∷ s) = elim (Bool-cases (c == b'#')) [
  | inl h ↦ let hash : c ≡ b'#' = (==_iff c b'#').0 h in rw h (ap (λ a. a ∷ s) hash, tt)
  | inr h ↦ rw h (cons-IsSplit c s (split_once b'#' s) h (split_once-IsSplit s))
]

from_parts-Denotes :
    (d : Str) (o : Option (Str × Str))
    → IsSplit d o
    → IsLocal d
    → Denotes d (elim o [ some (id, a) ↦ from_parts id (some a) | none ↦ from_parts d none ])
from_parts-Denotes d none f l = elim (Bool-cases (is_markdown_destination d)) [
  | inl m ↦ rw m (refl, f, m, l)
  | inr m ↦ rw m ([], sym (append-nil d), tt, f, m, l)
]
from_parts-Denotes d (some (id, a)) f l = elim (Bool-cases (is_markdown_destination id)) [
  | inl m ↦ rw m (f.0, f.1, m, l)
  | inr m ↦ rw m (b'#' ∷ a, f.0, refl, f.1, m, l)
]

starts_with-hash :
    (d : Str)
    → starts_with d (codes "#") ≡ true
    → Denotes d (NavigationTarget.anchor (trim_start_matches b'#' d))
starts_with-hash [] h = cc
starts_with-hash (c ∷ d) h =
    let hash : (c == b'#') ≡ true = ground (arith, h) in
    let (n, e, f) = trim_start_matches-hash d in
    rw hash (n, rw ((==_iff c b'#').0 hash) (ap (◌∷◌ b'#') e), f)

-- Every destination is what its target denotes: `#`s and an anchor that does not begin with one; an
-- external URL unchanged, just when it is one and does not begin with `#`; and when it is neither, a
-- Markdown document, alone or with its anchor behind the first `#`, or any other document up to the
-- first `#`.
pub from_destination-Denotes : (d : Str) → Denotes d (from_destination d)
unfolding from_destination
from_destination-Denotes d = elim (Bool-cases (starts_with d (codes "#"))) [
  | inl h ↦ rw h (starts_with-hash d h)
  | inr h ↦ elim (Bool-cases (is_external_destination d)) [
    | inl x ↦ rw (h, x) (refl, x, h)
    | inr x ↦ rw (h, x) (from_parts-Denotes d (split_once b'#' d) (split_once-IsSplit d) (x, h))
  ]
]
