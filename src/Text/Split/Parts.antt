-- ===== src/Text/Split/Parts.antt =====
-- The parts of a split text: their characters, and the text that they make up.
use sony_prs.Base.{
  ℕ, ◌≡◌, refl, ap, Bool, true, false, List, [], ◌∷◌, ◌++◌, All, any, arith, Bool-cases, inl, inr,
  ◌==◌,
}
use sony_prs.Text.{Str}
use sony_prs.Text.Split.{split, cons_first, Free}

pub any-Free {ℓ} :
    {A : Type ℓ} (p : A → Bool) (s : List A) → any p s ≡ false → All (λ c. p c ≡ false) s
any-Free p [] h = tt
any-Free p (c ∷ s) h = elim (Bool-cases (p c)) [
  | inl e ↦ absurd (cc (rw e at h))
  | inr e ↦ (e, any-Free p s (rw e at h))
]

pub Free-any {ℓ} :
    {A : Type ℓ} (p : A → Bool) (s : List A) → All (λ c. p c ≡ false) s → any p s ≡ false
Free-any p [] h = refl
Free-any p (c ∷ s) h = rw h.0 (Free-any p s h.1)

cons_first-All :
    (q : ℕ → Bool) (c : ℕ) (ws : List Str)
    → q c ≡ false
    → All (Free q) ws
    → All (Free q) (cons_first c ws)
cons_first-All q c [] h k = ((h, tt), tt)
cons_first-All q c (w ∷ ws) h k = ((h, k.0), k.1)

-- A character that the text does not have is in none of its parts.
pub split-keeps-Free : (p q : ℕ → Bool) (s : Str) → Free q s → All (Free q) (split p s)
unfolding split
split-keeps-Free p q [] h = (tt, tt)
split-keeps-Free p q (c ∷ s) h = elim (Bool-cases (p c)) [
  | inl e ↦ rw e (tt, split-keeps-Free p q s h.1)
  | inr e ↦ rw e (cons_first-All q c (split p s) h.0 (split-keeps-Free p q s h.1))
]

-- No part has a separator.
pub split-All-Free : (p : ℕ → Bool) (s : Str) → All (Free p) (split p s)
unfolding split
split-All-Free p [] = (tt, tt)
split-All-Free p (c ∷ s) = elim (Bool-cases (p c)) [
  | inl e ↦ rw e (tt, split-All-Free p s)
  | inr e ↦ rw e (cons_first-All p c (split p s) e (split-All-Free p s))
]

-- The parts with the separator between them.
abbrev pub join : ℕ → List Str → Str
join d [] = []
join d (w ∷ []) = w
join d (w ∷ v ∷ ws) = w ++ d ∷ join d (v ∷ ws)

-- There is at least one part.
abbrev pub IsFilled : List Str → Type 0
IsFilled [] = ⊥
IsFilled (w ∷ ws) = Unit {0}

pub split-IsFilled : (p : ℕ → Bool) (s : Str) → IsFilled (split p s)
unfolding split
split-IsFilled p [] = tt
split-IsFilled p (c ∷ s) = elim (Bool-cases (p c)) [
  | inl e ↦ rw e tt
  | inr e ↦ rw e (first (split p s))
]
  where
    first : (ws : List Str) → IsFilled (cons_first c ws)
    first [] = tt
    first (w ∷ ws) = tt

join-nil_cons : (d : ℕ) (ws : List Str) → IsFilled ws → join d ([] ∷ ws) ≡ d ∷ join d ws
join-nil_cons d [] h = absurd h
join-nil_cons d (w ∷ ws) h = refl

join-cons_first : (d c : ℕ) (ws : List Str) → IsFilled ws → join d (cons_first c ws) ≡ c ∷ join d ws
join-cons_first d c [] h = absurd h
join-cons_first d c (w ∷ []) h = refl
join-cons_first d c (w ∷ v ∷ ws) h = refl

-- A text is the parts between its separators, joined.
pub join-split : (d : ℕ) (s : Str) → join d (split (λ c. c == d) s) ≡ s
unfolding split
join-split d [] = refl
join-split d (c ∷ s) =
    let rest = join-split d s in
    let filled = split-IsFilled (λ c. c == d) s in
    elim (Bool-cases (c == d)) [
      | inl e ↦ rw (e, join-nil_cons d _ filled, rest) (ap (λ x. x ∷ s) (same e))
      | inr e ↦ rw (e, join-cons_first d c _ filled, rest)
    ]
  where
    same : (c == d) ≡ true → d ≡ c
    same h = ground arith
