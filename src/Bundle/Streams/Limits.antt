-- ===== src/Bundle/Streams/Limits.antt =====
-- What passes through `LimitedWriter` and `CountingReader`.
use sony_prs.Base.{
  ℕ, ◌+◌, ◌-◌, ◌≤◌, ◌≡◌, refl, ap, sym, ◌∙◌, inl, inr, true, false, List, [], ◌∷◌, ◌++◌, none, some,
  ltb, arith, min, length, take, drop, length-append, append_assoc, append-nil, Bool-cases,
  Option-cases, take-append-drop, length-take,
}
use sony_prs.Bundle.{u64_max}
use sony_prs.Bundle.Streams.{
  LimitedWriter, new_writer, write, write_each, CountingReader, new_reader, read, read_each,
}

abbrev pub concat : List (List ℕ) → List ℕ
concat [] = []
concat (xs ∷ xss) = xs ++ concat xss

-- Nothing over the limit was taken, and what was is `buffers` unless the limit was exceeded.
record Holds (w : LimitedWriter) (taken : List ℕ) : Type 0 where
  counted : length w.contents ≡ w.written
  bounded : w.written ≤ w.limit
  small : w.limit ≤ u64_max
  whole : w.exceeded ≡ false → w.contents ≡ taken

write-Holds :
    (w : LimitedWriter) (buffer taken : List ℕ)
    → Holds w taken
    → Holds (write w buffer).1 (taken ++ buffer) × ((write w buffer).1.limit ≡ w.limit)
unfolding write
write-Holds w buffer taken h = elim (Bool-cases (ltb (w.limit - w.written) (length buffer))) [
  | inl over ↦
      rw over (
        record { counted = h.counted; bounded = h.bounded; small = h.small; whole = λ e. cc },
        refl,
      )
  | inr fits ↦ rw fits (
    record {
      counted = ground (arith, length-append w.contents buffer, h.counted, h.bounded, h.small);
      bounded = ground (arith, h.bounded);
      small = h.small;
      whole = λ e. ap (λ xs. xs ++ buffer) (h.whole e);
    },
    refl,
  )
]

write_each-Holds :
    (w : LimitedWriter) (buffers : List (List ℕ)) (taken : List ℕ)
    → Holds w taken
    → Holds (write_each w buffers) (taken ++ concat buffers)
      × ((write_each w buffers).limit ≡ w.limit)
unfolding write_each
write_each-Holds w [] taken h = (rw (append-nil taken) h, refl)
write_each-Holds w (buffer ∷ buffers) taken h =
    let (now, limit) = write-Holds w buffer taken h in
    let (later, limit') = write_each-Holds (write w buffer).1 buffers (taken ++ buffer) now in
    (rw (← append_assoc taken buffer (concat buffers)) later, limit' ∙ limit)

-- For a limit within 64 bits, the writer passes on at most that many bytes, and all that it was
-- given as long as it has not recorded that the limit was exceeded.
pub write_each-limited :
    (limit : ℕ) (buffers : List (List ℕ))
    → limit ≤ u64_max
    → (length (write_each (new_writer limit) buffers).contents ≤ limit)
      × ((write_each (new_writer limit) buffers).exceeded ≡ false
          → (write_each (new_writer limit) buffers).contents ≡ concat buffers)
write_each-limited limit buffers small =
    let start : Holds (new_writer limit) [] = record {
      counted = refl;
      bounded = omega arith;
      small = small;
      whole = λ e. refl;
    } in
    let (h, same) = write_each-Holds (new_writer limit) buffers [] start in
    (omega (arith, h.counted, h.bounded, same), h.whole)

-- The bytes that were read, and the reader afterwards, against the reader before.
record Reads (r : CountingReader) (bytes : List ℕ) (r' : CountingReader) : Type 0 where
  bounded : r.count + length bytes ≤ r.limit
  whole : r'.exceeded ≡ false → bytes ++ r'.source ≡ r.source
  longer : r'.exceeded ≡ true → r.limit + 1 ≤ r.count + length r.source

-- A reader that has not met the limit.
abbrev IsOpen : CountingReader → Type 0
IsOpen r = (r.count ≤ r.limit) × (r.limit ≤ u64_max) × (r.exceeded ≡ false)

length-take-drop : (n : ℕ) (xs : List ℕ) → length (take n xs) + length (drop n xs) ≡ length xs
length-take-drop n xs =
    sym (length-append (take n xs) (drop n xs)) ∙ ap length (take-append-drop n xs)

read-ok :
    (r r' : CountingReader) (call : ℕ × ℕ) (bytes : List ℕ)
    → IsOpen r
    → read r call ≡ (some bytes, r')
    → IsOpen r'
      × (bytes ++ r'.source ≡ r.source)
      × (r'.count ≡ r.count + length bytes)
      × (r'.limit ≡ r.limit)
unfolding read
read-ok r r' (size, given) bytes (opened, small, quiet) e =
    let amount = min given (min size (r.limit - r.count)) in
    ground (arith, take-append-drop amount r.source, length-take amount r.source)

read-err :
    (r r' : CountingReader) (call : ℕ × ℕ)
    → IsOpen r
    → read r call ≡ (none, r')
    → (r.limit + 1 ≤ r.count + length r.source) × (r'.exceeded ≡ true)
unfolding read
read-err r r' (size, given) (opened, small, quiet) e = ground arith

read_each-Reads :
    (r : CountingReader) (calls : List (ℕ × ℕ))
    → IsOpen r
    → Reads r (read_each r calls).0 (read_each r calls).1
unfolding read_each
read_each-Reads r [] (opened, small, quiet) = record {
  bounded = omega (arith, opened);
  whole = λ e. refl;
  longer = λ e. cc;
}
read_each-Reads r (call ∷ calls) h = elim (Option-cases (read r call).0) [
  | inl bad ↦
      let (long, noted) = read-err r (read r call).1 call h (ap (λ o. (o, (read r call).1)) bad) in
      rw (bad, read_each)
        (record { bounded = omega (arith, h.0); whole = λ e. cc; longer = λ e. long })
  | inr (bytes, good) ↦
      let (now, same, count, limit) =
        read-ok r (read r call).1 call bytes h (ap (λ o. (o, (read r call).1)) good) in
      let rest = read_each-Reads (read r call).1 calls now in
      rw (good, read_each)
        (record {
          bounded = omega (
            arith,
            rest.bounded,
            count,
            limit,
            length-append bytes (read_each (read r call).1 calls).0,
          );
          whole = λ e. append_assoc bytes _ _ ∙ ap (λ xs. bytes ++ xs) (rest.whole e) ∙ same;
          longer = λ e. omega (
            arith,
            rest.longer e,
            count,
            limit,
            length-append bytes (read r call).1.source,
            ap length same,
          );
        })
]

-- For a limit within 64 bits, calls of the reader give at most that many bytes. As long as it has
-- not recorded that the limit was exceeded they are the first bytes of the source, and it records
-- that only when the source is longer than the limit.
pub read_each-limited :
    (source : List ℕ) (limit : ℕ) (calls : List (ℕ × ℕ))
    → limit ≤ u64_max
    → let result = read_each (new_reader source limit) calls in
      (length result.0 ≤ limit)
      × (result.1.exceeded ≡ false → result.0 ++ result.1.source ≡ source)
      × (result.1.exceeded ≡ true → limit + 1 ≤ length source)
read_each-limited source limit calls small =
    let h = read_each-Reads (new_reader source limit) calls (omega arith, small, refl) in
    (omega (arith, h.bounded), h.whole, λ e. omega (arith, h.longer e))
