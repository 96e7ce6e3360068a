-- ===== src/X50/RoundTrip.antt =====
-- `Request::decode` and `Answer::decode` on encoded bytes.
use sony_prs.Base.{
  ℕ, ◌+◌, ◌≤◌, ◌≡◌, refl, false, List, [], ◌++◌, some, arith, length, ok, le→ltb, le→leb,
  length-append, append-nil,
}
use sony_prs.X50.{u32_max, usize_max}
use sony_prs.X50.Words.{
  to_le_bytes, get_range, get_range-append, read_u32, read_u32-append, length-to_le_bytes,
}
use sony_prs.X50.Protocol.{
  ReadCommand, to_id, from_id, is_mutating, encode_request, decode_request, decode_answer,
  decode_handle, encode_handle, file_open,
}

from_id-to_id : (c : ReadCommand) → from_id (to_id c) ≡ ok c
unfolding from_id to_id
from_id-to_id file_open = refl
from_id-to_id _ = refl

-- An identifier that is accepted is that of the command, so none that changes the reader is.
pub from_id-accepts :
    (id : ℕ) (c : ReadCommand) → from_id id ≡ ok c → (id ≡ to_id c) × (is_mutating id ≡ false)
unfolding from_id to_id
from_id-accepts id file_open h = ground arith
from_id-accepts id _ h = ground arith

to_id-le : (c : ReadCommand) → to_id c ≤ u32_max
unfolding to_id
to_id-le file_open = omega arith
to_id-le _ = omega arith

-- The sixteen bytes of a header, in front of the payload.
abbrev pub frame : ℕ → List ℕ → List ℕ
frame id payload =
    (((to_le_bytes 4 id ++ to_le_bytes 4 0) ++ to_le_bytes 4 0) ++ to_le_bytes 4 (length payload))
    ++ payload

module _ (id : ℕ) (payload rest : List ℕ) where
  frame_id : id ≤ u32_max → read_u32 (frame id payload ++ rest) 0 ≡ ok id
  unfolding to_le_bytes
  frame_id h =
      read_u32-append []
        ((to_le_bytes 4 0 ++ (to_le_bytes 4 0 ++ to_le_bytes 4 (length payload)))
          ++ (payload ++ rest))
        id (omega arith)

  frame_size :
      length payload ≤ u32_max → read_u32 (frame id payload ++ rest) 12 ≡ ok (length payload)
  unfolding to_le_bytes
  frame_size h =
      read_u32-append (to_le_bytes 4 id ++ (to_le_bytes 4 0 ++ to_le_bytes 4 0)) (payload ++ rest)
        (length payload) (omega arith)

  frame_payload : get_range (frame id payload ++ rest) 16 (16 + length payload) ≡ some payload
  unfolding to_le_bytes
  frame_payload =
      get_range-append
        (((to_le_bytes 4 id ++ to_le_bytes 4 0) ++ to_le_bytes 4 0)
          ++ to_le_bytes 4 (length payload))
        payload rest (length payload) refl

  length-frame : length (frame id payload ++ rest) ≡ 16 + (length payload + length rest)
  unfolding to_le_bytes
  length-frame = omega (arith, length-append payload rest)

encode-eq-ok :
    (command : ReadCommand) (extra bytes : List ℕ)
    → encode_request command extra ≡ ok bytes
    → (length extra ≤ u32_max) × (frame (to_id command) extra ≡ bytes)
unfolding encode_request
encode-eq-ok command extra bytes h = ground arith

-- A request is read back from its encoding, also with more bytes behind it.
pub decode_request-encode_request :
    (command : ReadCommand) (extra bytes rest : List ℕ)
    → encode_request command extra ≡ ok bytes
    → decode_request (bytes ++ rest) ≡ ok (record { command = command; extra = extra })
unfolding decode_request
decode_request-encode_request command extra bytes rest h =
    let (small, eq) = encode-eq-ok command extra bytes h in
    rw (← eq, decode_request)
      (rw (
        le→ltb (length (frame (to_id command) extra ++ rest)) 16
            (omega (arith, length-frame (to_id command) extra rest)),
        frame_id (to_id command) extra rest (to_id-le command),
        from_id-to_id command,
        frame_size (to_id command) extra rest small,
        le→leb (16 + length extra) usize_max (omega arith),
        le→leb (16 + length extra) (length (frame (to_id command) extra ++ rest))
            (omega (arith, length-frame (to_id command) extra rest)),
        frame_payload (to_id command) extra rest,
      ))

-- The data of an answer whose length fits 32 bits is read from its frame, whatever the identifier
-- and whatever stands behind it.
pub decode_answer-frame :
    (id : ℕ) (payload rest : List ℕ)
    → length payload ≤ u32_max
    → decode_answer (frame id payload ++ rest) ≡ ok payload
unfolding decode_answer
decode_answer-frame id payload rest small = rw (
  le→ltb (length (frame id payload ++ rest)) 16 (omega (arith, length-frame id payload rest)),
  frame_size id payload rest small,
  le→leb (16 + length payload) usize_max (omega arith),
  le→leb (16 + length payload) (length (frame id payload ++ rest))
      (omega (arith, length-frame id payload rest)),
  frame_payload id payload rest,
)

-- A handle, and a position, as the requests carry them.
pub decode_handle-encode_handle :
    (handle : ℕ) → handle ≤ u32_max → decode_handle (encode_handle handle) ≡ ok handle
unfolding decode_handle encode_handle
decode_handle-encode_handle handle h =
    rw (length-to_le_bytes 4 handle)
      (rw (← append-nil (to_le_bytes 4 handle)) (read_u32-append [] [] handle (omega arith)))
