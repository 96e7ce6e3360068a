-- ===== src/Markdown/Resources.antt =====
-- resources.rs: the namespace of a document root, and the provider that holds a library in memory. A
-- normalized path is the list of its names; an error keeps its cause, without the message.
pub mod Inside
pub mod Targets
use sony_prs.Base.{
  ℕ, Bool, true, false, not, ◌||◌, ◌&&◌, List, [], ◌∷◌, ◌++◌, map, reverse, Option, none, some, ltb,
  ◌==◌, if◌then◌else◌, is_empty, length, Result, ok, err, ◌>>=◌, ok_or,
}
use sony_prs.Text.{Str, codes, str_eq, starts_with}
use sony_prs.Text.Split.{split, split_once}
use sony_prs.Text.Utf8.{from_utf8}
use sony_prs.Markdown.Navigation.{rsplit_once, is_markdown_extension, is_external_destination}

pub data ResourceError : Type 0 where
  escapes_root absolute_path outside_root absolute_reference anchor_on_asset : ResourceError
  empty_entry_point empty_path missing_entry_point missing too_large invalid_utf8 : ResourceError

-- `Component` of a path on Unix.
pub data Component : Type 0 where
  root_dir cur_dir parent_dir : Component
  normal : Str → Component

abbrev pub is_slash : ℕ → Bool
is_slash c = c == b'/'

-- A part between slashes; an empty one and a `.` are passed over, which `normalize_relative` does
-- with the `.` that `components` keeps at the front.
abbrev pub cons_part : Str → List Component → List Component
cons_part part rest =
    if is_empty part || str_eq part (codes ".")
    then rest
    else if str_eq part (codes "..")
    then Component.parent_dir ∷ rest
    else Component.normal part ∷ rest

abbrev pub part_components : List Str → List Component
part_components [] = []
part_components (part ∷ parts) = cons_part part (part_components parts)

abbrev pub is_absolute : Str → Bool
is_absolute path = starts_with path (codes "/")

-- `path.components()`.
unfoldable pub components : Str → List Component
unfolding split
components path =
    let parts = part_components (split is_slash path) in
    if is_absolute path then Component.root_dir ∷ parts else parts

-- The loop of `normalize_relative`; `normalized` has its last name in front.
unfoldable pub normalize_from : List Component → List Str → Result ResourceError (List Str)
normalize_from [] normalized = ok (reverse normalized)
normalize_from (Component.cur_dir ∷ cs) normalized = normalize_from cs normalized
normalize_from (Component.normal name ∷ cs) normalized = normalize_from cs (name ∷ normalized)
normalize_from (Component.parent_dir ∷ cs) [] = err ResourceError.escapes_root
normalize_from (Component.parent_dir ∷ cs) (name ∷ normalized) = normalize_from cs normalized
normalize_from (Component.root_dir ∷ cs) normalized = err ResourceError.absolute_path

unfoldable pub normalize_relative : List Component → Result ResourceError (List Str)
unfolding normalize_from
normalize_relative path = normalize_from path []

-- `Path::extension` of a name: behind the last dot, when that is not the first character.
abbrev pub extension : Str → Option Str
extension name = elim (rsplit_once b'.' name) [
  | none ↦ none
  | some (stem, after) ↦ if is_empty stem then none else some after
]

abbrev pub last_name : List Str → Option Str
last_name [] = none
last_name (name ∷ []) = some name
last_name (name ∷ other ∷ names) = last_name (other ∷ names)

abbrev pub parent : List Str → List Str
parent [] = []
parent (name ∷ []) = []
parent (name ∷ other ∷ names) = name ∷ parent (other ∷ names)

abbrev has_markdown_extension : Option Str → Bool
has_markdown_extension none = false
has_markdown_extension (some name) = elim (extension name) [
  | none ↦ false
  | some e ↦ is_markdown_extension e
]

unfoldable pub is_markdown_path : List Str → Bool
is_markdown_path path = has_markdown_extension (last_name path)

-- `ResourceTarget`, with normalized paths.
pub data Target : Type 0 where
  anchor : Str → Target
  document : List Str → Target
  document_anchor : List Str → Str → Target
  asset : List Str → Target
  external : Str → Target

-- The target of a normalized path with its anchor.
abbrev pub local_target : Option Str → List Str → Result ResourceError Target
local_target (some a) path =
    if is_markdown_path path
    then ok (Target.document_anchor path a)
    else err ResourceError.anchor_on_asset
local_target none path =
    if is_markdown_path path then ok (Target.document path) else ok (Target.asset path)

abbrev pub same_document : List Str → Option Str → Result ResourceError Target
same_document containing (some a) = ok (Target.anchor a)
same_document containing none = ok (Target.document containing)

-- The part of a reference before its first `#`, and the part behind it.
abbrev pub reference_parts : Str → Str × Option Str
reference_parts reference = elim (split_once b'#' reference) [
  | none ↦ (reference, none)
  | some (path, fragment) ↦ (path, some fragment)
]

abbrev pub resolve_parts : List Str → Str × Option Str → Result ResourceError Target
resolve_parts containing (path, a) =
    if is_empty path
    then same_document containing a
    else if is_absolute path
    then err ResourceError.absolute_reference
    else normalize_relative (map Component.normal (parent containing) ++ components path)
      >>= local_target a

-- `is_external_reference` is written as `is_external_destination` of navigation.rs.
unfoldable pub resolve_reference_in_namespace : List Str → Str → Result ResourceError Target
unfolding normalize_relative components is_markdown_path is_external_destination split_once
resolve_reference_in_namespace containing reference =
    if is_external_destination reference
    then ok (Target.external reference)
    else resolve_parts containing (reference_parts reference)

abbrev pub same_path : List Str → List Str → Bool
same_path [] [] = true
same_path [] (q ∷ qs) = false
same_path (p ∷ ps) [] = false
same_path (p ∷ ps) (q ∷ qs) = str_eq p q && same_path ps qs

pub record BrowserResourceProvider : Type 0 where
  pub files : List (List Str × List ℕ)
  pub document : List Str

abbrev pub find_file : List (List Str × List ℕ) → List Str → Option (List ℕ)
find_file [] path = none
find_file (f ∷ fs) path =
    let rest = find_file fs path in if same_path f.0 path then some f.1 else rest

-- The files with normalized paths; a later file of the same path is found first.
abbrev insert_files :
    List (Str × List ℕ) → List (List Str × List ℕ) → Result ResourceError (List (List Str × List ℕ))
insert_files [] files = ok files
insert_files (f ∷ fs) files = normalize_relative (components f.0) >>= λ path.
    (if is_empty path then err ResourceError.empty_path else insert_files fs ((path, f.1) ∷ files))

abbrev with_entry :
    List Str → List (List Str × List ℕ) → Result ResourceError BrowserResourceProvider
with_entry entry files = elim (find_file files entry) [
  | none ↦ err ResourceError.missing_entry_point
  | some bytes ↦ ok (record { files = files; document = entry })
]

-- `BrowserResourceProvider::new`.
unfoldable pub new_provider :
    Str → List (Str × List ℕ) → Result ResourceError BrowserResourceProvider
unfolding normalize_relative components
new_provider entry_point files = normalize_relative (components entry_point) >>= λ entry.
    (if is_empty entry
      then err ResourceError.empty_entry_point
      else insert_files files [] >>= with_entry entry)

unfoldable pub read_binary_limited :
    BrowserResourceProvider → Str → ℕ → Result ResourceError (List ℕ)
unfolding normalize_relative components
read_binary_limited provider path max_bytes = normalize_relative (components path) >>= λ name.
    ok_or (find_file provider.files name) ResourceError.missing >>= λ bytes.
    (if ltb max_bytes (length bytes) then err ResourceError.too_large else ok bytes)

unfoldable pub read_text : BrowserResourceProvider → Str → Result ResourceError Str
unfolding normalize_relative components
read_text provider path = normalize_relative (components path) >>= λ name.
    ok_or (find_file provider.files name) ResourceError.missing >>= λ bytes.
    ok_or (from_utf8 bytes) ResourceError.invalid_utf8

unfoldable pub resolve_reference_from :
    BrowserResourceProvider → Str → Str → Result ResourceError Target
unfolding resolve_reference_in_namespace normalize_relative components is_external_destination
resolve_reference_from provider containing reference =
    if is_external_destination reference
    then ok (Target.external reference)
    else normalize_relative (components containing) >>= λ name.
        resolve_reference_in_namespace name reference
