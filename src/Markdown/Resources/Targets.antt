-- ===== src/Markdown/Resources/Targets.antt =====
-- Where the references of a document lead.
use sony_prs.Base.{
  ◌≡◌, refl, true, false, List, ◌++◌, map, Option, none, some, is_empty, All, All-append, ok,
  >>=-eq-ok, Bool-cases, inl, inr, ok_inj, subst,
}
use sony_prs.Text.{Str}
use sony_prs.Markdown.Navigation.{is_external_destination}
use sony_prs.Markdown.Resources.{
  Component, Target, is_absolute, components, normalize_relative, parent, is_markdown_path,
  local_target, same_document, reference_parts, resolve_parts, resolve_reference_in_namespace,
}
use sony_prs.Markdown.Resources.Inside.{
  IsName, IsNamed, components-IsNamed, normalize_relative-IsName, parent-IsNamed,
}

-- A target of a reference: a path of names below the root, with an anchor only on a Markdown
-- document, an anchor alone, or the reference itself as an external URL, just when it is one.
abbrev pub IsInside : Str → Target → Type 0
IsInside reference (Target.anchor a) = is_external_destination reference ≡ false
IsInside reference (Target.document path) =
    All IsName path × (is_external_destination reference ≡ false)
IsInside reference (Target.document_anchor path a) =
    All IsName path × (is_markdown_path path ≡ true) × (is_external_destination reference ≡ false)
IsInside reference (Target.asset path) =
    All IsName path × (is_markdown_path path ≡ false) × (is_external_destination reference ≡ false)
IsInside reference (Target.external url) =
    (url ≡ reference) × (is_external_destination reference ≡ true)

module _ (reference : Str) where
  local_target-IsInside :
      (a : Option Str) (path : List Str) (t : Target)
      → All IsName path
      → is_external_destination reference ≡ false
      → local_target a path ≡ ok t
      → IsInside reference t
  local_target-IsInside (some a) path t h x e = elim (Bool-cases (is_markdown_path path)) [
    | inl m ↦ subst (IsInside reference) (ok_inj (rw m at e)) (h, m, x)
    | inr m ↦ cc
  ]
  local_target-IsInside none path t h x e = elim (Bool-cases (is_markdown_path path)) [
    | inl m ↦ subst (IsInside reference) (ok_inj (rw m at e)) (h, x)
    | inr m ↦ subst (IsInside reference) (ok_inj (rw m at e)) (h, m, x)
  ]

  same_document-IsInside :
      (containing : List Str) (a : Option Str) (t : Target)
      → All IsName containing
      → is_external_destination reference ≡ false
      → same_document containing a ≡ ok t
      → IsInside reference t
  same_document-IsInside containing (some a) t h x e = subst (IsInside reference) (ok_inj e) x
  same_document-IsInside containing none t h x e = subst (IsInside reference) (ok_inj e) (h, x)

  resolve_parts-IsInside :
      (containing : List Str) (path : Str) (a : Option Str) (t : Target)
      → All IsName containing
      → is_external_destination reference ≡ false
      → resolve_parts containing (path, a) ≡ ok t
      → IsInside reference t
  resolve_parts-IsInside containing path a t h x e = elim (Bool-cases (is_empty path)) [
    | inl none_left ↦ same_document-IsInside containing a t h x (rw none_left at e)
    | inr below ↦ elim (Bool-cases (is_absolute path)) [
      | inl rooted ↦ cc
      | inr relative ↦
          let cs = map Component.normal (parent containing) ++ components path in
          let found =
            >>=-eq-ok (normalize_relative cs) (local_target a) (rw (below, relative) at e) in
          local_target-IsInside a found.0 t
            (normalize_relative-IsName cs found.0
              (All-append IsNamed (map Component.normal (parent containing)) (components path)
                (parent-IsNamed containing h) (components-IsNamed path))
              found.1)
            x found.2
    ]
  ]

-- A reference that is resolved in a document with a path of names (not empty, not `.` or `..`, and
-- without a slash) leads, when it is an external URL, to that URL, and when it is not, to a path of
-- such names below the root, with an anchor only on a Markdown document and as an asset only where it
-- is none, or to an anchor of the same document.
pub resolve_reference_in_namespace-IsInside :
    (containing : List Str) (reference : Str) (t : Target)
    → All IsName containing
    → resolve_reference_in_namespace containing reference ≡ ok t
    → IsInside reference t
unfolding resolve_reference_in_namespace
resolve_reference_in_namespace-IsInside containing reference t h e =
    elim (Bool-cases (is_external_destination reference)) [
      | inl x ↦ subst (IsInside reference) (ok_inj (rw x at e)) (refl, x)
      | inr x ↦
          let parts = reference_parts reference in
          resolve_parts-IsInside reference containing parts.0 parts.1 t h x (rw x at e)
    ]
