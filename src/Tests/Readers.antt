-- ===== src/Tests/Readers.antt =====
-- The X50's protocol and transfers, against a device that sends zeros.
use sony_prs.Base.{ℕ, ◌≡◌, refl, List, [], ◌∷◌, ◌++◌, length, ok}
use sony_prs.Text.{codes}
use sony_prs.Text.Utf8.{to_bytes, encode_char}
use sony_prs.X50.Words.{to_le_bytes, from_le_bytes, get_range, put_u32}
use sony_prs.X50.Io.{◌>>=◌}
use sony_prs.X50.Protocol.{
  file_close, get_size, to_id, is_mutating, from_id, encode_request, decode_request,
}
use sony_prs.X50.RoundTrip.{frame, decode_request-encode_request}
use sony_prs.X50.Sony.Transfers.{
  Host, path_request, signed_status, send_command_bytes, receive_command_bytes,
}
use sony_prs.X50.Sony.Files.{read_chunks}
use sony_prs.X50.Sony.Files

abbrev zeros : Host
zeros = record {
  World = Unit {0};
  execute = λ cdb direction buffer w. (ok (buffer, length buffer), w);
  write_all = λ bytes w. (ok tt, w);
}

read_zeros : (Files.file_read zeros 4096 (codes "a") 1 2 3 tt).0 ≡ ok (0 ∷ 0 ∷ [])
unfolding Files.file_read path_request send_command_bytes receive_command_bytes signed_status
    read_chunks get_range to_bytes encode_char ◌>>=◌ to_le_bytes from_le_bytes
read_zeros = refl

get_size_id : from_id 0x12 ≡ ok get_size
unfolding from_id is_mutating
get_size_id = refl

abbrev opened : List ℕ
opened = 7 ∷ 0 ∷ 0 ∷ 0 ∷ []

abbrev request_bytes : List ℕ
request_bytes = frame (to_id file_close) opened

encoded : encode_request file_close opened ≡ ok request_bytes
unfolding encode_request put_u32 to_le_bytes to_id
encoded = refl

decode_request-encode_request_example :
    decode_request (request_bytes ++ 9 ∷ []) ≡ ok (record { command = file_close; extra = opened })
decode_request-encode_request_example =
    decode_request-encode_request file_close opened request_bytes (9 ∷ []) encoded
