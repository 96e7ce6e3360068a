-- ===== src/Wire/Overlong.antt =====
-- The length check of `encode_response` against that of `decode_response`.
use sony_prs.Base.{
  ◌+◌, ◌≤◌, ◌≡◌, refl, ap, ◌∙◌, false, ◌||◌, ◌++◌, arith, ◌==◌, any, is_empty, length,
  length-append, ok, err,
}
use sony_prs.Text.{Str, codes}
use sony_prs.Text.Utf8.{to_bytes, encode_char, byte_len, to_bytes-append}
use sony_prs.Wire.{protocol, rendered}
use sony_prs.Wire.Lines.{validate_text, send, decode_line_long}
use sony_prs.Wire.Responses.{text_line, response_line, encode_response, decode_response}

byte_len-append : (s t : Str) → byte_len (s ++ t) ≡ byte_len s + byte_len t
byte_len-append s t = ap length (to_bytes-append s t) ∙ length-append (to_bytes s) (to_bytes t)

-- The prefix that the length check assumes, and that of a `RENDERED` response.
prefix_lengths : (byte_len (codes "PRS1 ERR ") ≡ 9) × (byte_len (codes "PRS1 OK RENDERED ") ≡ 17)
prefix_lengths = (unfold to_bytes encode_char in refl, unfold to_bytes encode_char in refl)

accepts :
    (value : Str)
    → is_empty value ≡ false
    → any (λ byte. byte == b'\r' || byte == b'\n') (to_bytes value) ≡ false
    → byte_len value ≤ 1015
    → validate_text value ≡ ok tt
unfolding validate_text
accepts value filled free short =
    ground (arith, byte_len-append (codes "PRS1 ERR ") value, prefix_lengths)

-- A non-empty text without line ends, of 1007 to 1015 bytes, is encoded as a `RENDERED` response
-- whose line `decode_response` refuses, being too long.
pub decode-encode_rendered :
    (value : Str)
    → is_empty value ≡ false
    → any (λ byte. byte == b'\r' || byte == b'\n') (to_bytes value) ≡ false
    → 1007 ≤ byte_len value
    → byte_len value ≤ 1015
    → let line = send (codes "PRS1 OK RENDERED " ++ value) in
      (encode_response (rendered value) ≡ ok line) × (decode_response line ≡ err protocol)
unfolding encode_response response_line text_line decode_response
decode-encode_rendered value filled free long short = (
  rw (accepts value filled free short),
  rw (
      decode_line_long (codes "PRS1 OK RENDERED " ++ value)
        (omega (arith, long, byte_len-append (codes "PRS1 OK RENDERED ") value, prefix_lengths.1))),
)
