-- ===== src/Markdown/Session/Lines.antt =====
-- The lines of a URL in the overlay.
use sony_prs.Base.{
  ℕ, zero, suc, ◌-◌, ◌*◌, ◌≤◌, ◌≡◌, refl, sym, ap, ◌∙◌, arith, true, false, List, [], ◌∷◌, ◌++◌,
  ◌==◌, if◌then◌else◌, is_empty, take, drop, length, length-take, length-drop, length-append, All,
  Bool-cases, inl, inr, take-append-drop, append-nil,
}
use sony_prs.Text.{Str, codes}
use sony_prs.Markdown.Session.{url_lines, truncated_url_lines}

-- The lines together.
abbrev pub joined : List Str → Str
joined [] = []
joined (l ∷ ls) = l ++ joined ls

is_empty→nil : (s : Str) → is_empty s ≡ true → s ≡ []
is_empty→nil [] h = refl
is_empty→nil (c ∷ s) h = cc

filled→length : (s : Str) → is_empty s ≡ false → 1 ≤ length s
filled→length [] h = cc
filled→length (c ∷ s) h = omega arith

length→filled : (s : Str) → 1 ≤ length s → is_empty s ≡ false
length→filled [] h = absurd (omega arith)
length→filled (c ∷ s) h = refl

joined-last : (s : Str) → joined (if is_empty s then [] else s ∷ []) ≡ s
joined-last [] = refl
joined-last (c ∷ s) = append-nil (c ∷ s)

url_lines-fit :
    (rounds chars : ℕ) (url : Str)
    → 1 ≤ chars
    → length url ≤ rounds * chars
    → joined (url_lines rounds chars url) ≡ url
unfolding url_lines
url_lines-fit zero chars [] p h = refl
url_lines-fit zero chars (c ∷ url) p h = absurd (omega arith)
url_lines-fit (suc rounds) chars url p h = elim (Bool-cases (is_empty (drop chars url))) [
  | inl last ↦ rw last (
      joined-last (take chars url)
      ∙ sym (append-nil (take chars url))
      ∙ ap (λ zs. take chars url ++ zs) (sym (is_empty→nil (drop chars url) last))
      ∙ take-append-drop chars url)
  | inr more ↦
      let rest : 1 ≤ length (drop chars url) = filled→length (drop chars url) more in
      let size : length (drop chars url) ≡ length url - chars = length-drop chars url in
      let again : (rounds == 0) ≡ false = ground (arith, rest, size, h) in
      let line : is_empty (take chars url) ≡ false =
        length→filled (take chars url) (omega (arith, length-take chars url, rest, size)) in
      rw (more, again, line)
        (ap (λ zs. take chars url ++ zs)
            (url_lines-fit rounds chars (drop chars url) p (omega (arith, size, h)))
          ∙ take-append-drop chars url)
]

url_lines-bound :
    (rounds chars : ℕ) (url : Str)
    → 3 ≤ chars
    → (length (url_lines rounds chars url) ≤ rounds)
      × All (λ l. length l ≤ chars) (url_lines rounds chars url)
unfolding url_lines
url_lines-bound zero chars url h = (omega arith, tt)
url_lines-bound (suc rounds) chars url h = ground (
  arith,
  url_lines-bound rounds chars (drop chars url),
  length-take chars url,
  length-take (chars - 3) (take chars url),
  length-append (take (chars - 3) (take chars url)) (codes "..."),
)

-- In an overlay with lines of at least three characters: there are never more lines than allowed, no
-- line is longer than allowed, and a URL that fits the lines is shown whole.
pub truncated_url_lines_lem :
    (url fitting : Str) (chars max_lines : ℕ)
    → 3 ≤ chars
    → 1 ≤ max_lines
    → length fitting ≤ max_lines * chars
    → (length (truncated_url_lines url chars max_lines) ≤ max_lines)
      × All (λ l. length l ≤ chars) (truncated_url_lines url chars max_lines)
      × (joined (truncated_url_lines fitting chars max_lines) ≡ fitting)
unfolding truncated_url_lines
truncated_url_lines_lem url fitting chars max_lines h k fit =
    let some_chars : (chars == 0) ≡ false = ground (arith, h) in
    let some_lines : (max_lines == 0) ≡ false = ground (arith, k) in
    let bound = url_lines-bound max_lines chars url h in
    rw (some_chars, some_lines)
      (bound.0, bound.1, url_lines-fit max_lines chars fitting (omega arith) fit)
