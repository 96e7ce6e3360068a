-- ===== src/Markdown/Resources/Inside.antt =====
-- The names of normalized paths.
use sony_prs.Base.{
  ◌≡◌, refl, Bool, true, false, ◌||◌, List, [], ◌∷◌, map, reverse, reverse-cons, is_empty, All,
  All-append, ok, Bool-cases, inl, inr, ok_inj,
}
use sony_prs.Text.{Str, codes, str_eq}
use sony_prs.Text.Split.{split, Free}
use sony_prs.Text.Split.Parts.{split-All-Free}
use sony_prs.Markdown.Resources.{
  Component, cons_part, part_components, is_absolute, is_slash, components, normalize_from,
  normalize_relative, parent,
}

-- A name below the root: not empty, `.` or `..`, and without a slash.
pub record IsName (w : Str) : Type 0 where
  pub no_slash : Free is_slash w
  pub filled : is_empty w ≡ false
  pub no_dot : str_eq w (codes ".") ≡ false
  pub no_parent : str_eq w (codes "..") ≡ false

abbrev pub IsNamed : Component → Type 0
IsNamed (Component.normal w) = IsName w
IsNamed Component.root_dir = Unit
IsNamed Component.cur_dir = Unit
IsNamed Component.parent_dir = Unit

All-reverse : (ws : List Str) → All IsName ws → All IsName (reverse ws)
All-reverse [] h = tt
All-reverse (w ∷ ws) h =
    rw (reverse-cons w ws) (All-append IsName (reverse ws) (w ∷ []) (All-reverse ws h.1) (h.0, tt))

neither : (a b : Bool) → a || b ≡ false → (a ≡ false) × (b ≡ false)
neither true b e = cc
neither false b e = (refl, e)

cons_part-IsNamed :
    (part : Str) (rest : List Component)
    → Free is_slash part
    → All IsNamed rest
    → All IsNamed (cons_part part rest)
cons_part-IsNamed part rest f h = elim (Bool-cases (is_empty part || str_eq part (codes "."))) [
  | inl skip ↦ rw skip h
  | inr kept ↦ elim (Bool-cases (str_eq part (codes ".."))) [
    | inl up ↦ rw (kept, up) (tt, h)
    | inr named ↦
        rw (kept, named)
          (
            record {
              no_slash = f;
              filled = (neither (is_empty part) (str_eq part (codes ".")) kept).0;
              no_dot = (neither (is_empty part) (str_eq part (codes ".")) kept).1;
              no_parent = named;
            },
            h,
          )
  ]
]

part_components-IsNamed :
    (parts : List Str) → All (Free is_slash) parts → All IsNamed (part_components parts)
part_components-IsNamed [] h = tt
part_components-IsNamed (p ∷ ps) h =
    cons_part-IsNamed p (part_components ps) h.0 (part_components-IsNamed ps h.1)

pub components-IsNamed : (path : Str) → All IsNamed (components path)
unfolding components
components-IsNamed path =
    let named = part_components-IsNamed (split is_slash path) (split-All-Free is_slash path) in
    elim (Bool-cases (is_absolute path)) [ inl a ↦ rw a (tt, named) | inr a ↦ rw a named ]

normalize_from-IsName :
    (cs : List Component) (done path : List Str)
    → All IsNamed cs
    → All IsName done
    → normalize_from cs done ≡ ok path
    → All IsName path
unfolding normalize_from
normalize_from-IsName [] done path h k e = rw (ok_inj e) at (All-reverse done k)
normalize_from-IsName (Component.cur_dir ∷ cs) done path h k e =
    normalize_from-IsName cs done path h.1 k e
normalize_from-IsName (Component.normal name ∷ cs) done path h k e =
    normalize_from-IsName cs (name ∷ done) path h.1 (h.0, k) e
normalize_from-IsName (Component.parent_dir ∷ cs) [] path h k e = cc
normalize_from-IsName (Component.parent_dir ∷ cs) (name ∷ done) path h k e =
    normalize_from-IsName cs done path h.1 k.1 e
normalize_from-IsName (Component.root_dir ∷ cs) done path h k e = cc

pub normalize_relative-IsName :
    (cs : List Component) (path : List Str)
    → All IsNamed cs
    → normalize_relative cs ≡ ok path
    → All IsName path
unfolding normalize_relative
normalize_relative-IsName cs path h e = normalize_from-IsName cs [] path h tt e

pub parent-IsNamed :
    (path : List Str) → All IsName path → All IsNamed (map Component.normal (parent path))
parent-IsNamed [] h = tt
parent-IsNamed (w ∷ []) h = tt
parent-IsNamed (w ∷ v ∷ ws) h = (h.0, parent-IsNamed (v ∷ ws) h.1)
