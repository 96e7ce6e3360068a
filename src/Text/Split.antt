-- ===== src/Text/Split.antt =====
-- `str::split` by a test on characters, `split_whitespace` and `split_once`.
pub mod Parts
use sony_prs.Base.{
  not, ◌&&◌, Bool-cases, inl, inr, ℕ, ◌≡◌, ◌∙◌, ap, refl, All-append, Bool, true, false, List, [],
  ◌∷◌, ◌++◌, Option, none, some, ◌==◌, if◌then◌else◌, All, is_empty, ==_refl,
}
use sony_prs.Text.{Str, is_whitespace}

-- The text `c` in front of the first part.
abbrev pub cons_first : ℕ → List Str → List Str
cons_first c [] = (c ∷ []) ∷ []
cons_first c (w ∷ ws) = (c ∷ w) ∷ ws

-- `s.split(p)`: the parts between the characters that pass the test, empty parts included.
unfoldable pub split : (ℕ → Bool) → Str → List Str
split p [] = [] ∷ []
split p (c ∷ s) = let parts = split p s in if p c then [] ∷ parts else cons_first c parts

abbrev pub non_empty : List Str → List Str
non_empty [] = []
non_empty ([] ∷ ws) = non_empty ws
non_empty ((c ∷ w) ∷ ws) = (c ∷ w) ∷ non_empty ws

-- `s.split_whitespace()`.
unfoldable pub split_whitespace : Str → List Str
unfolding split is_whitespace
split_whitespace s = non_empty (split is_whitespace s)

-- `s.split_once(d)` for a character `d`.
unfoldable pub split_once : ℕ → Str → Option (Str × Str)
split_once d [] = none
split_once d (c ∷ s) =
    let rest = split_once d s in
    if c == d then some ([], s) else elim rest [ none ↦ none | some (k, v) ↦ some (c ∷ k, v) ]

-- No character of the text passes the test.
abbrev pub Free : (ℕ → Bool) → Str → Type 0
Free p = All (λ c. p c ≡ false)

pub split-Free : (p : ℕ → Bool) (w : Str) → Free p w → split p w ≡ w ∷ []
unfolding split
split-Free p [] f = refl
split-Free p (c ∷ w) f = rw (f.0, split-Free p w f.1)

pub split-append :
    (p : ℕ → Bool) (w : Str) (d : ℕ) (s : Str)
    → Free p w
    → p d ≡ true
    → split p (w ++ d ∷ s) ≡ w ∷ split p s
unfolding split
split-append p [] d s f h = rw h
split-append p (c ∷ w) d s f h = rw (f.0, split-append p w d s f.1 h)

-- A word is a text with no white space and at least one character.
pub record IsWord (w : Str) : Type 0 where
  pub free : Free is_whitespace w
  pub filled : is_empty w ≡ false

non_empty-cons :
    (w : Str) (ws : List Str) → is_empty w ≡ false → non_empty (w ∷ ws) ≡ w ∷ non_empty ws
non_empty-cons [] ws h = cc
non_empty-cons (c ∷ w) ws h = refl

pub split_whitespace-word : (w : Str) → IsWord w → split_whitespace w ≡ w ∷ []
split_whitespace-word w h =
    unfold split_whitespace in rw (split-Free is_whitespace w h.free) (non_empty-cons w [] h.filled)

-- The first word, before a blank.
pub split_whitespace-append :
    (w s : Str) → IsWord w → split_whitespace (w ++ b' ' ∷ s) ≡ w ∷ split_whitespace s
split_whitespace-append w s h =
    unfold split_whitespace in
    rw (split-append is_whitespace w b' ' s h.free refl) (non_empty-cons w _ h.filled)

pub split_once-append :
    (d : ℕ) (k v : Str) → All (λ c. (c == d) ≡ false) k → split_once d (k ++ d ∷ v) ≡ some (k, v)
unfolding split_once
split_once-append d [] v f = rw ==_refl
split_once-append d (c ∷ k) v f = rw (f.0, split_once-append d k v f.1)

-- A word, a blank and a text whose words are known.
pub next_word :
    (w s : Str) (ws : List Str)
    → IsWord w
    → split_whitespace s ≡ ws
    → split_whitespace (w ++ b' ' ∷ s) ≡ w ∷ ws
next_word w s ws h e = split_whitespace-append w s h ∙ ap (◌∷◌ w) e

pub append-IsWord : (v w : Str) → IsWord v → Free is_whitespace w → IsWord (v ++ w)
append-IsWord [] w h f = cc (h.filled)
append-IsWord (c ∷ v) w h f = record {
  free = All-append (λ c. is_whitespace c ≡ false) (c ∷ v) w h.free f;
  filled = refl;
}

-- A literal is a word by evaluation.
unfoldable pub is_dark : Str → Bool
unfolding is_whitespace
is_dark [] = true
is_dark (c ∷ s) = not (is_whitespace c) && is_dark s

is_dark-Free : (s : Str) → is_dark s ≡ true → Free is_whitespace s
unfolding is_dark
is_dark-Free [] h = tt
is_dark-Free (c ∷ s) h = elim (Bool-cases (is_whitespace c)) [
  | inl e ↦ absurd (cc (rw e at h))
  | inr e ↦ (e, is_dark-Free s (rw e at h))
]

pub literal : (s : Str) → is_dark s ≡ true → is_empty s ≡ false → IsWord s
literal s h k = record { free = is_dark-Free s h; filled = k }

pub split_whitespace_four :
    (a b c d : Str)
    → IsWord a
    → IsWord b
    → IsWord c
    → IsWord d
    → split_whitespace (a ++ b' ' ∷ (b ++ b' ' ∷ (c ++ b' ' ∷ d))) ≡ a ∷ b ∷ c ∷ d ∷ []
split_whitespace_four a b c d ha hb hc hd = rw (
  split_whitespace-append a (b ++ b' ' ∷ (c ++ b' ' ∷ d)) ha,
  split_whitespace-append b (c ++ b' ' ∷ d) hb,
  split_whitespace-append c d hc,
  split_whitespace-word d hd,
)
