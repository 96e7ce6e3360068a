-- ===== src/Markdown/Reader/History.antt =====
-- reader.rs: the reader's history of locations.
pub mod Bounds
use sony_prs.Base.{
  ℕ, zero, suc, ◌+◌, ◌-◌, Bool, List, [], ◌∷◌, ◌++◌, Option, none, some, max, ltb, if◌then◌else◌,
  length, take, drop,
}
use sony_prs.Markdown.Reader.{ReadingLocation, Backend, OpenDocument, Reader}
use sony_prs.Markdown.Reader.Opened.{snapshot_for}

-- `if let Some(entry) = history.get_mut(i) { *entry = l }`.
abbrev pub set_entry : List ReadingLocation → ℕ → ReadingLocation → List ReadingLocation
set_entry [] i l = []
set_entry (e ∷ es) zero l = l ∷ es
set_entry (e ∷ es) (suc i) l = e ∷ set_entry es i l

-- `limits.max_history_entries.max(1)`.
abbrev pub history_limit : {Document Style : Type 0} → Reader Document Style → ℕ
history_limit r = max r.limits.max_history_entries 1

module _ {Document Style : Type 0} where
  unfoldable pub push_history : Reader Document Style → ReadingLocation → Reader Document Style
  push_history r entry =
      let entries = take (r.history_index + 1) r.history ++ entry ∷ [] in
      let remove = length entries - history_limit r in
      if ltb (history_limit r) (length entries)
      then record r { history = drop remove entries; history_index = r.history_index - remove }
      else record r { history = entries; history_index = length entries - 1 }

  unfoldable pub can_go_back : Reader Document Style → Bool
  can_go_back r = ltb 0 r.history_index

  unfoldable pub can_go_forward : Reader Document Style → Bool
  can_go_forward r = ltb (r.history_index + 1) (length r.history)

module _ {Document Style : Type 0} (backend : Backend Document Style) where
  abbrev pub noted : Reader Document Style → Option (OpenDocument Document) → Reader Document Style
  noted r none = r
  noted r (some d) = record r {
    history = set_entry r.history r.history_index (snapshot_for backend d);
  }

  unfoldable pub update_current_history : Reader Document Style → Reader Document Style
  unfolding snapshot_for
  update_current_history r = noted r r.current
