-- ===== src/X50/Protocol.antt =====
-- protocol.rs: the legacy requests and answers, with their 16-byte headers.
use sony_prs.Base.{
  ℕ, ◌+◌, Bool, ◌||◌, ◌&&◌, List, [], ◌++◌, ltb, leb, ◌==◌, if◌then◌else◌, length, any, Result, ok,
  err, ok_or, ◌>>=◌, guard, ◌>>◌,
}
use sony_prs.Text.{Str}
use sony_prs.Text.Utf8.{to_bytes}
use sony_prs.X50.{Error, invalid_argument, protocol, u32_max, usize_max}
use sony_prs.X50.Words.{put_u32, put_u64, get_range, read_u32, read_u64}

abbrev pub request_header_len : ℕ
request_header_len = 16

abbrev pub answer_header_len : ℕ
answer_header_len = 16

pub data ReadCommand : Type 0 where
  file_open file_close get_size set_position get_position file_read : ReadCommand
  directory_iterator_new directory_iterator_dispose directory_iterator_get_next : ReadCommand
  get_property get_media_info get_free_space : ReadCommand

-- `command as u32`.
unfoldable pub to_id : ReadCommand → ℕ
to_id file_open = 0x10
to_id file_close = 0x11
to_id get_size = 0x12
to_id set_position = 0x14
to_id get_position = 0x15
to_id file_read = 0x16
to_id directory_iterator_new = 0x33
to_id directory_iterator_dispose = 0x34
to_id directory_iterator_get_next = 0x35
to_id get_property = 0x101
to_id get_media_info = 0x102
to_id get_free_space = 0x103

-- The commands that change the reader's files, which are refused by name.
unfoldable pub is_mutating : ℕ → Bool
is_mutating id =
    id == 0x13
    || id == 0x17
    || id == 0x1a
    || id == 0x1b
    || id == 0x1c
    || id == 0x30
    || id == 0x31
    || id == 0x32
    || (leb 0x300 id && leb id 0x304)

unfoldable pub from_id : ℕ → Result Error ReadCommand
unfolding is_mutating
from_id id =
    if id == 0x10
    then ok file_open
    else if id == 0x11
    then ok file_close
    else if id == 0x12
    then ok get_size
    else if id == 0x14
    then ok set_position
    else if id == 0x15
    then ok get_position
    else if id == 0x16
    then ok file_read
    else if id == 0x33
    then ok directory_iterator_new
    else if id == 0x34
    then ok directory_iterator_dispose
    else if id == 0x35
    then ok directory_iterator_get_next
    else if id == 0x101
    then ok get_property
    else if id == 0x102
    then ok get_media_info
    else if id == 0x103
    then ok get_free_space
    else if is_mutating id
    then err protocol
    else err protocol

pub record Request : Type 0 where
  pub command : ReadCommand
  pub extra : List ℕ

unfoldable pub encode_request : ReadCommand → List ℕ → Result Error (List ℕ)
encode_request command extra =
    if ltb u32_max (length extra)
    then err invalid_argument
    else ok (put_u32 (put_u32 (put_u32 (put_u32 [] (to_id command)) 0) 0) (length extra) ++ extra)

-- `Request::decode`.
unfoldable pub decode_request : List ℕ → Result Error Request
decode_request bytes = if ltb (length bytes) request_header_len then err protocol else do
  id ← read_u32 bytes 0
  command ← from_id id
  extra_len ← read_u32 bytes 12
  guard (leb (request_header_len + extra_len) usize_max) protocol
  guard (leb (request_header_len + extra_len) (length bytes)) protocol
  extra ← ok_or (get_range bytes request_header_len (request_header_len + extra_len)) protocol
  ok (record { command = command; extra = extra })

-- `Answer::decode`; an answer is its data.
unfoldable pub decode_answer : List ℕ → Result Error (List ℕ)
decode_answer bytes = if ltb (length bytes) answer_header_len then err protocol else do
  data_len ← read_u32 bytes 12
  guard (leb (answer_header_len + data_len) usize_max) protocol
  guard (leb (answer_header_len + data_len) (length bytes)) protocol
  ok_or (get_range bytes answer_header_len (answer_header_len + data_len)) protocol

unfoldable pub file_open_extra : Str → Result Error (List ℕ)
file_open_extra path =
    let path_bytes = to_bytes path in
    if any (λ b. b == 0) path_bytes
    then err invalid_argument
    else if ltb u32_max (length path_bytes)
    then err invalid_argument
    else ok (put_u32 (put_u32 [] 0) (length path_bytes) ++ path_bytes)

unfoldable pub encode_file_open : Str → Result Error (List ℕ)
encode_file_open path = do extra ← file_open_extra path; encode_request file_open extra

unfoldable pub encode_handle : ℕ → List ℕ
encode_handle handle = put_u32 [] handle

unfoldable pub file_read_extra : ℕ → ℕ → Result Error (List ℕ)
file_read_extra handle count =
    if ltb u32_max count then err invalid_argument else ok (put_u32 (encode_handle handle) count)

unfoldable pub encode_file_read : ℕ → ℕ → Result Error (List ℕ)
encode_file_read handle count = do
  extra ← file_read_extra handle count
  encode_request file_read extra

unfoldable pub set_position_extra : ℕ → ℕ → List ℕ
set_position_extra handle position = put_u64 (encode_handle handle) position

unfoldable pub encode_set_position : ℕ → ℕ → Result Error (List ℕ)
encode_set_position handle position =
    encode_request set_position (set_position_extra handle position)

unfoldable pub decode_handle : List ℕ → Result Error ℕ
decode_handle data_bytes = if length data_bytes == 4 then read_u32 data_bytes 0 else err protocol

unfoldable pub decode_integer : List ℕ → Result Error ℕ
decode_integer data_bytes =
    if length data_bytes == 4
    then read_u32 data_bytes 0
    else if length data_bytes == 8
    then read_u64 data_bytes 0
    else err protocol
