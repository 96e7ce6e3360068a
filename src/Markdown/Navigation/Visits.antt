-- ===== src/Markdown/Navigation/Visits.antt =====
-- `ReaderHistory` against two stacks of visited locations.
use sony_prs.Base.{
  ℕ, suc, ◌+◌, ◌≡◌, refl, arith, true, false, List, [], ◌∷◌, ◌++◌, Option, none, some,
  if◌then◌else◌, length, take, get?, ltb, ◌-◌, Bool-cases, inl, inr,
}
use sony_prs.Markdown.Navigation.{
  DocumentLocation, same_location, ReaderHistory, new, current, push, back, forward, can_go_back,
  can_go_forward,
}

-- The locations before the current one, the nearest first, and those after it.
pub record Visits : Type 0 where
  pub before : List DocumentLocation
  pub here : DocumentLocation
  pub after : List DocumentLocation

pub data Move : Type 0 where
  visit : DocumentLocation → Move
  go_back go_forward : Move

abbrev pub start : DocumentLocation → Visits
start initial = record { before = []; here = initial; after = [] }

abbrev nearest_before :
    List DocumentLocation
    → DocumentLocation
    → List DocumentLocation
    → Visits × Option DocumentLocation
nearest_before [] l fs = (record { before = []; here = l; after = fs }, none)
nearest_before (b ∷ bs) l fs = (record { before = bs; here = b; after = l ∷ fs }, some b)

abbrev nearest_after :
    List DocumentLocation
    → DocumentLocation
    → List DocumentLocation
    → Visits × Option DocumentLocation
nearest_after bs l [] = (record { before = bs; here = l; after = [] }, none)
nearest_after bs l (f ∷ fs) = (record { before = l ∷ bs; here = f; after = fs }, some f)

-- The visits after a move, and the location that it returns.
abbrev pub step : Move → Visits → Visits × Option DocumentLocation
step (visit l) v =
    let further : Visits = record { before = v.here ∷ v.before; here = l; after = [] } in
    (if same_location v.here l then v else further, none)
step go_back v = nearest_before v.before v.here v.after
step go_forward v = nearest_after v.before v.here v.after

-- The same move on the list with a cursor.
abbrev pub apply : Move → ReaderHistory → ReaderHistory × Option DocumentLocation
apply (visit l) h = (push h l, none)
apply go_back h = back h
apply go_forward h = forward h

-- The state after some moves, and what each of them returned.
abbrev pub run :
    {S : Type 0}
    → (Move → S → S × Option DocumentLocation)
    → List Move
    → S
    → S × List (Option DocumentLocation)
run f [] s = (s, [])
run f (m ∷ ms) s =
    let (next, answer) = f m s in let (last, answers) = run f ms next in (last, answer ∷ answers)

module _ {ℓ} {A : Type ℓ} where
  -- A stack put back in front of a list.
  abbrev unwind : List A → List A → List A
  unwind [] ys = ys
  unwind (x ∷ xs) ys = unwind xs (x ∷ ys)

  get?-unwind : (xs ys : List A) (i j : ℕ) → j ≡ i + length xs → get? (unwind xs ys) j ≡ get? ys i
  get?-unwind [] ys i j e = let same : j ≡ i = omega arith in rw same refl
  get?-unwind (x ∷ xs) ys i j e = get?-unwind xs (x ∷ ys) (suc i) j (omega arith)

  take-unwind :
      (xs ys : List A) (n m : ℕ) → m ≡ n + length xs → take m (unwind xs ys) ≡ unwind xs (take n ys)
  take-unwind [] ys n m e = let same : m ≡ n = omega arith in rw same refl
  take-unwind (x ∷ xs) ys n m e = take-unwind xs (x ∷ ys) (suc n) m (omega arith)

  length-unwind : (xs ys : List A) → length (unwind xs ys) ≡ length xs + length ys
  length-unwind [] ys = omega arith
  length-unwind (x ∷ xs) ys = omega (arith, length-unwind xs (x ∷ ys))

  unwind-append : (xs ys zs : List A) → unwind xs ys ++ zs ≡ unwind xs (ys ++ zs)
  unwind-append [] ys zs = refl
  unwind-append (x ∷ xs) ys zs = unwind-append xs (x ∷ ys) zs

-- The history shows the visits: its entries are theirs in order, its cursor at the current one.
pub record Shows (h : ReaderHistory) (v : Visits) : Type 0 where
  pub entries : h.entries ≡ unwind v.before (v.here ∷ v.after)
  pub cursor : h.cursor ≡ length v.before

current-Shows : (h : ReaderHistory) (v : Visits) → Shows h v → current h ≡ some v.here
current-Shows h v s =
    rw s.entries (get?-unwind v.before (v.here ∷ v.after) 0 h.cursor (omega (arith, s.cursor)))

-- A move keeps the two in step, and they return the same.
abbrev Agree : ReaderHistory × Option DocumentLocation → Visits × Option DocumentLocation → Type 0
Agree p q = Shows p.0 q.0 × (p.1 ≡ q.1)

kept-unwind :
    (h : ReaderHistory) (v : Visits) (l : DocumentLocation)
    → Shows h v
    → take (h.cursor + 1) h.entries ++ l ∷ [] ≡ unwind v.before (v.here ∷ l ∷ [])
kept-unwind h v l s =
    rw
      (
        s.entries,
        take-unwind v.before (v.here ∷ v.after) 1 (h.cursor + 1) (omega (arith, s.cursor)),
      )
      (unwind-append v.before (v.here ∷ []) (l ∷ []))

push-Shows :
    (h : ReaderHistory) (v : Visits) (l : DocumentLocation)
    → Shows h v
    → Agree (apply (visit l) h) (step (visit l) v)
unfolding push
push-Shows h v l s = elim (Bool-cases (same_location v.here l)) [
  | inl same ↦ rw (current-Shows h v s, same) (s, refl)
  | inr other ↦
      rw (current-Shows h v s, other)
        (
          record {
            entries = kept-unwind h v l s;
            cursor =
                rw (kept-unwind h v l s) (omega (arith, length-unwind v.before (v.here ∷ l ∷ [])));
          },
          refl,
        )
]

-- The number of entries from the current one on.
length-Shows :
    (h : ReaderHistory) (v : Visits)
    → Shows h v
    → length h.entries ≡ h.cursor + suc (length v.after)
length-Shows h v s =
    rw s.entries (omega (arith, length-unwind v.before (v.here ∷ v.after), s.cursor))

back-Shows :
    (h : ReaderHistory) (bs fs : List DocumentLocation) (l : DocumentLocation)
    → Shows h (record { before = bs; here = l; after = fs })
    → Agree (back h) (nearest_before bs l fs)
unfolding back can_go_back
back-Shows h [] fs l s =
    let first : ltb 0 h.cursor ≡ false = ground (arith, s.cursor) in rw first (s, refl)
back-Shows h (b ∷ bs) fs l s =
    let able : ltb 0 h.cursor ≡ true = ground (arith, s.cursor) in
    let moved : Shows (record h { cursor = h.cursor - 1 })
        (record { before = bs; here = b; after = l ∷ fs }) =
      record { entries = s.entries; cursor = omega (arith, s.cursor) } in
    rw able (moved, current-Shows (record h { cursor = h.cursor - 1 }) _ moved)

forward-Shows :
    (h : ReaderHistory) (bs fs : List DocumentLocation) (l : DocumentLocation)
    → Shows h (record { before = bs; here = l; after = fs })
    → Agree (forward h) (nearest_after bs l fs)
unfolding forward can_go_forward
forward-Shows h bs [] l s =
    let last : ltb (h.cursor + 1) (length h.entries) ≡ false = ground (arith, length-Shows h _ s) in
    rw last (s, refl)
forward-Shows h bs (f ∷ fs) l s =
    let able : ltb (h.cursor + 1) (length h.entries) ≡ true = ground (arith, length-Shows h _ s) in
    let moved : Shows (record h { cursor = h.cursor + 1 })
        (record { before = l ∷ bs; here = f; after = fs }) =
      record { entries = s.entries; cursor = omega (arith, s.cursor) } in
    rw able (moved, current-Shows (record h { cursor = h.cursor + 1 }) _ moved)

apply-Shows : (m : Move) (h : ReaderHistory) (v : Visits) → Shows h v → Agree (apply m h) (step m v)
apply-Shows (visit l) h v s = push-Shows h v l s
apply-Shows go_back h v s = back-Shows h v.before v.after v.here s
apply-Shows go_forward h v s = forward-Shows h v.before v.after v.here s

-- After any moves from a related state the two are related, and have returned the same.
pub run-Shows :
    (ms : List Move) (h : ReaderHistory) (v : Visits)
    → Shows h v
    → Shows (run apply ms h).0 (run step ms v).0 × ((run apply ms h).1 ≡ (run step ms v).1)
run-Shows [] h v s = (s, refl)
run-Shows (m ∷ ms) h v s =
    let (shown, same) = apply-Shows m h v s in
    let (last, rest) = run-Shows ms (apply m h).0 (step m v).0 shown in (last, rw (same, rest) refl)

-- From a new history, any sequence of visits, steps back and steps forward leads to the list that
-- the two stacks of visits make up, with its cursor at the current location, and each step back or
-- forward returns the location that the stacks give, or none at the end.
pub run-new :
    (initial : DocumentLocation) (ms : List Move)
    → Shows (run apply ms (new initial)).0 (run step ms (start initial)).0
      × ((run apply ms (new initial)).1 ≡ (run step ms (start initial)).1)
unfolding new
run-new initial ms =
    run-Shows ms (new initial) (start initial) (record { entries = refl; cursor = refl })
