-- ===== src/Bundle/Streams.antt =====
-- `LimitedWriter` and `CountingReader`: the readers and writers that keep the limits. A stream that
-- is read is the list of the bytes left, and a read gives as many of them as it is asked for.
pub mod Limits
use sony_prs.Base.{
  ℕ, ◌+◌, ◌-◌, ◌≤◌, ◌≡◌, refl, Bool, true, false, not, List, [], ◌∷◌, ◌++◌, Option, none, some, ltb,
  leb, if◌then◌else◌, arith, min, length, take, drop,
}
use sony_prs.Bundle.{u64_max}

-- The writer around one that takes whole buffers; `contents` is what it has taken.
pub record LimitedWriter : Type 0 where
  pub contents : List ℕ
  pub written : ℕ
  pub limit : ℕ
  pub exceeded : Bool

abbrev pub new_writer : ℕ → LimitedWriter
new_writer limit = record { contents = []; written = 0; limit = limit; exceeded = false }

-- `write`; the count is `none` for the error.
unfoldable pub write : LimitedWriter → List ℕ → Option ℕ × LimitedWriter
write w buffer =
    if ltb (w.limit - w.written) (length buffer) then (none, record w { exceeded = true }) else (
      some (length buffer),
      record w {
        contents = w.contents ++ buffer;
        written = min (w.written + length buffer) u64_max;
      },
    )

unfoldable pub write_each : LimitedWriter → List (List ℕ) → LimitedWriter
write_each w [] = w
write_each w (buffer ∷ buffers) = write_each (write w buffer).1 buffers

pub record CountingReader : Type 0 where
  pub source : List ℕ
  pub count : ℕ
  pub limit : ℕ
  pub exceeded : Bool

abbrev pub new_reader : List ℕ → ℕ → CountingReader
new_reader source limit = record { source = source; count = 0; limit = limit; exceeded = false }

-- `read` into a buffer of `size` bytes, when the inner reader gives at most `given` at a time.
-- At the limit it probes for one byte more.
unfoldable pub read : CountingReader → ℕ × ℕ → Option (List ℕ) × CountingReader
read r (size, given) =
    let amount = min given (min size (r.limit - r.count)) in
    let bytes = take amount r.source in
    if leb r.limit r.count
    then (if leb (length r.source) 0
        then (some [], r)
        else (none, record r { source = drop 1 r.source; exceeded = true }))
    else (
      some bytes,
      record r { source = drop amount r.source; count = min (r.count + length bytes) u64_max },
    )

-- The bytes that successive calls give, up to the first error.
unfoldable pub read_each : CountingReader → List (ℕ × ℕ) → List ℕ × CountingReader
read_each r [] = ([], r)
read_each r (call ∷ calls) =
    let (given, r') = read r call in
    let rest = read_each r' calls in
    elim given [ none ↦ ([], r') | some bytes ↦ (bytes ++ rest.0, rest.1) ]
