-- ===== src/Markdown/Reader/History/Bounds.antt =====
-- The bounds of the reader's history, and the entry that a push selects.
use sony_prs.Base.{
  ℕ, zero, suc, ◌+◌, ◌-◌, ◌≤◌, ◌<◌, ◌≡◌, refl, arith, true, false, List, [], ◌∷◌, ◌++◌, Option,
  none, some, max, ltb, leb, if◌then◌else◌, length, take, drop, get?, Bool-cases, inl, inr,
  length-append, length-take, length-drop,
}
use sony_prs.Markdown.Reader.{ReadingLocation, Backend, OpenDocument, Reader, ReaderLimits}
use sony_prs.Markdown.Reader.Opened.{snapshot_for}
use sony_prs.Markdown.Reader.History.{
  set_entry, noted, history_limit, push_history, update_current_history,
}

length-set_entry :
    (es : List ReadingLocation) (i : ℕ) (l : ReadingLocation)
    → length (set_entry es i l) ≡ length es
length-set_entry [] i l = refl
length-set_entry (e ∷ es) zero l = refl
length-set_entry (e ∷ es) (suc i) l = omega (arith, length-set_entry es i l)

get?-last :
    {A : Type 0} (xs : List A) (a : A) (k j : ℕ)
    → j + k ≡ length xs
    → get? (drop k (xs ++ a ∷ [])) j ≡ some a
get?-last [] a zero zero e = refl
get?-last [] a k (suc j) e = absurd (omega arith)
get?-last [] a (suc k) j e = absurd (omega arith)
get?-last (x ∷ xs) a zero zero e = absurd (omega arith)
get?-last (x ∷ xs) a zero (suc j) e = get?-last xs a zero j (omega arith)
get?-last (x ∷ xs) a (suc k) j e = get?-last xs a k j (omega arith)

-- The index is that of an entry, or 0 in an empty history, and the entries are within the limit.
abbrev pub Bounded : List ReadingLocation → ℕ → ReaderLimits → Type 0
Bounded entries index limits =
    (index < max (length entries) 1) × (length entries ≤ max limits.max_history_entries 1)

module _ {Document Style : Type 0} where
  abbrev pub IsBounded : Reader Document Style → Type 0
  IsBounded r = Bounded r.history r.history_index r.limits

  length-kept :
      (r : Reader Document Style) (entry : ReadingLocation)
      → r.history_index < max (length r.history) 1
      → (1 ≤ length (take (r.history_index + 1) r.history ++ entry ∷ []))
        × (r.history_index ≤ length (take (r.history_index + 1) r.history ++ entry ∷ []) - 1)
        × (length (take (r.history_index + 1) r.history ++ entry ∷ []) ≤ r.history_index + 2)
  length-kept r entry h = ground (
    arith,
    length-append (take (r.history_index + 1) r.history) (entry ∷ []),
    length-take (r.history_index + 1) r.history,
  )

  pub push_history-IsBounded :
      (r : Reader Document Style) (entry : ReadingLocation)
      → IsBounded r
      → IsBounded (push_history r entry)
  unfolding push_history
  push_history-IsBounded r entry h =
      let kept = take (r.history_index + 1) r.history ++ entry ∷ [] in
      ground (arith, length-kept r entry h.0, h.1, length-drop (length kept - history_limit r) kept)

  noted-IsBounded :
      (b : Backend Document Style) (r : Reader Document Style) (o : Option (OpenDocument Document))
      → IsBounded r
      → IsBounded (noted b r o)
  noted-IsBounded b r none h = h
  noted-IsBounded b r (some d) h =
      let same = length-set_entry r.history r.history_index (snapshot_for b d) in
      (omega (arith, h.0, same), omega (arith, h.1, same))

  pub update_current_history-IsBounded :
      (b : Backend Document Style) (r : Reader Document Style)
      → IsBounded r
      → IsBounded (update_current_history b r)
  unfolding update_current_history
  update_current_history-IsBounded b r h = noted-IsBounded b r r.current h

  -- An entry is written over, with any document open.
  pub set_entry-IsBounded :
      (r : Reader Document Style) (o : Option (OpenDocument Document)) (l : ReadingLocation)
      → IsBounded r
      → IsBounded (record r { current = o; history = set_entry r.history r.history_index l })
  set_entry-IsBounded r o l h =
      let same = length-set_entry r.history r.history_index l in
      (omega (arith, h.0, same), omega (arith, h.1, same))

  -- The entries after a push: those up to the current one, and the new one.
  abbrev pub pushed : Reader Document Style → ReadingLocation → List ReadingLocation
  pushed r entry = take (r.history_index + 1) r.history ++ entry ∷ []

  -- A push into a history of entries, the index at one of them, with a limit of at least two: the
  -- history holds the entries up to the current one and the new one at its end, and when that is one
  -- more than the limit, these without the oldest one. While they are within the limit the new entry
  -- is the current one; when the oldest one is dropped, the index is at the entry before the new one.
  pub push_history_lem :
      (r : Reader Document Style) (entry : ReadingLocation)
      → 2 ≤ r.limits.max_history_entries
      → r.history_index < length r.history
      → length r.history ≤ history_limit r
      → ((push_history r entry).history ≡ (
          if leb (r.history_index + 2) (history_limit r)
          then pushed r entry
          else drop 1 (pushed r entry)))
        × (get? (push_history r entry).history (length (push_history r entry).history - 1)
            ≡ some entry)
        × ((push_history r entry).history_index ≡ (
            if leb (r.history_index + 2) (history_limit r)
            then length (push_history r entry).history - 1
            else length (push_history r entry).history - 2))
  unfolding push_history
  push_history_lem r entry h i l =
      let kept = take (r.history_index + 1) r.history in
      let size : length kept ≡ r.history_index + 1 =
        omega (arith, length-take (r.history_index + 1) r.history) in
      let all : length (pushed r entry) ≡ r.history_index + 2 =
        omega (arith, length-append kept (entry ∷ []), size) in
      elim (Bool-cases (ltb (history_limit r) (length (pushed r entry)))) [
        | inl over ↦
            let one : length (pushed r entry) - history_limit r ≡ 1 =
              ground (arith, over, all, l) in
            let at_end : length (drop 1 (pushed r entry)) - 1 ≡ r.history_index =
              omega (arith, length-drop 1 (pushed r entry), all) in
            let past : leb (r.history_index + 2) (history_limit r) ≡ false =
              ground (arith, over, all) in
            let index : r.history_index - 1 ≡ length (drop 1 (pushed r entry)) - 2 =
              omega (arith, length-drop 1 (pushed r entry), all) in
            rw (over, one, past)
              (
                refl,
                rw at_end (get?-last kept entry 1 r.history_index (omega (arith, size))),
                index,
              )
        | inr within ↦
            let at_end : length (pushed r entry) - 1 ≡ r.history_index + 1 = omega (arith, all) in
            let inside : leb (r.history_index + 2) (history_limit r) ≡ true =
              ground (arith, within, all) in
            rw (within, inside)
              (
                refl,
                rw at_end (get?-last kept entry 0 (r.history_index + 1) (omega (arith, size))),
                refl,
              )
      ]
