-- ===== src/Markdown/Navigation.antt =====
-- navigation.rs: what a link's destination denotes, and the reader's list of visited locations.
pub mod Destinations
pub mod Visits
use sony_prs.Base.{
  ℕ, suc, ◌+◌, ◌-◌, Bool, true, false, not, ◌&&◌, ◌||◌, List, [], ◌∷◌, ◌++◌, Option, none, some,
  ltb, leb, ◌==◌, if◌then◌else◌, all, is_empty, length, take, get?,
}
use sony_prs.Text.{Str, codes, str_eq, starts_with}
use sony_prs.Text.Split.{split_once}
use sony_prs.Protocol.Texts.{is_ascii_alphanumeric}

abbrev pub DocumentId : Type 0
DocumentId = Str

pub record DocumentLocation : Type 0 where
  pub document : DocumentId
  pub anchor : Option Str

pub data NavigationTarget : Type 0 where
  location : DocumentLocation → NavigationTarget
  anchor : Str → NavigationTarget
  document : DocumentId → NavigationTarget
  document_anchor : DocumentId → Str → NavigationTarget
  asset : DocumentId → NavigationTarget
  external : Str → NavigationTarget

-- `s.trim_start_matches(c)`.
abbrev pub trim_start_matches : ℕ → Str → Str
trim_start_matches c [] = []
trim_start_matches c (d ∷ s) = if d == c then trim_start_matches c s else d ∷ s

-- `s.rsplit_once(c)`: around the last `c`.
abbrev pub rsplit_once : ℕ → Str → Option (Str × Str)
rsplit_once c [] = none
rsplit_once c (d ∷ s) = elim (rsplit_once c s) [
  | some (before, after) ↦ some (d ∷ before, after)
  | none ↦ if d == c then some ([], s) else none
]

-- `char::to_ascii_lowercase` and `str::eq_ignore_ascii_case`.
abbrev pub to_ascii_lowercase : ℕ → ℕ
to_ascii_lowercase c = if leb b'A' c && leb c b'Z' then c + 32 else c

abbrev pub eq_ignore_ascii_case : Str → Str → Bool
eq_ignore_ascii_case [] [] = true
eq_ignore_ascii_case [] (b ∷ t) = false
eq_ignore_ascii_case (a ∷ s) [] = false
eq_ignore_ascii_case (a ∷ s) (b ∷ t) =
    to_ascii_lowercase a == to_ascii_lowercase b && eq_ignore_ascii_case s t

abbrev pub is_markdown_extension : Str → Bool
is_markdown_extension extension =
    eq_ignore_ascii_case extension (codes "md") || eq_ignore_ascii_case extension (codes "markdown")

unfoldable pub is_markdown_destination : Str → Bool
is_markdown_destination destination = elim (rsplit_once b'.' destination) [
  | some (_, extension) ↦ is_markdown_extension extension
  | none ↦ false
]

abbrev pub is_ascii_alphabetic : ℕ → Bool
is_ascii_alphabetic c = (leb b'A' c && leb c b'Z') || (leb b'a' c && leb c b'z')

abbrev scheme_char : ℕ → Bool
scheme_char c = is_ascii_alphanumeric c || c == b'+' || c == b'-' || c == b'.'

abbrev pub is_scheme : Str → Bool
is_scheme [] = false
is_scheme (c ∷ s) = is_ascii_alphabetic c && all scheme_char s

unfoldable pub is_external_destination : Str → Bool
unfolding is_ascii_alphanumeric
is_external_destination destination =
    if starts_with destination (codes "//")
    then true
    else elim (split_once b':' destination) [ some (scheme, _) ↦ is_scheme scheme | none ↦ false ]

-- A destination in two parts, with `#` between them.
abbrev from_parts : DocumentId → Option Str → NavigationTarget
from_parts id (some a) =
    if is_markdown_destination id
    then NavigationTarget.document_anchor id a
    else NavigationTarget.asset id
from_parts id none =
    if is_markdown_destination id then NavigationTarget.document id else NavigationTarget.asset id

-- `NavigationTarget::from_destination`.
unfoldable pub from_destination : Str → NavigationTarget
unfolding is_markdown_destination is_external_destination split_once
from_destination destination =
    if starts_with destination (codes "#")
    then NavigationTarget.anchor (trim_start_matches b'#' destination)
    else if is_external_destination destination
    then NavigationTarget.external destination
    else elim (split_once b'#' destination) [
      | some (id, a) ↦ from_parts id (some a)
      | none ↦ from_parts destination none
    ]

abbrev same_anchor : Option Str → Option Str → Bool
same_anchor none none = true
same_anchor (some a) (some b) = str_eq a b
same_anchor _ _ = false

abbrev pub same_location : DocumentLocation → DocumentLocation → Bool
same_location a b = str_eq a.document b.document && same_anchor a.anchor b.anchor

pub record ReaderHistory : Type 0 where
  pub entries : List DocumentLocation
  pub cursor : ℕ

unfoldable pub new : DocumentLocation → ReaderHistory
new initial = record { entries = initial ∷ []; cursor = 0 }

abbrev pub current : ReaderHistory → Option DocumentLocation
current h = get? h.entries h.cursor

unfoldable pub can_go_back : ReaderHistory → Bool
can_go_back h = ltb 0 h.cursor

unfoldable pub can_go_forward : ReaderHistory → Bool
can_go_forward h = ltb (h.cursor + 1) (length h.entries)

abbrev is_current : Option DocumentLocation → DocumentLocation → Bool
is_current none l = false
is_current (some c) l = same_location c l

unfoldable pub push : ReaderHistory → DocumentLocation → ReaderHistory
push h l =
    let kept = take (h.cursor + 1) h.entries ++ l ∷ [] in
    if is_current (current h) l then h else record { entries = kept; cursor = length kept - 1 }

-- `back` and `forward`: the history after the call, and the location that it returns.
unfoldable pub back : ReaderHistory → ReaderHistory × Option DocumentLocation
unfolding can_go_back
back h =
    let moved = record h { cursor = h.cursor - 1 } in
    if not (can_go_back h) then (h, none) else (moved, current moved)

unfoldable pub forward : ReaderHistory → ReaderHistory × Option DocumentLocation
unfolding can_go_forward
forward h =
    let moved = record h { cursor = h.cursor + 1 } in
    if not (can_go_forward h) then (h, none) else (moved, current moved)
