-- ===== src/Tests/Lines.antt =====
-- The serial wire format.
use sony_prs.Base.{
  ◌≤◌, ◌≡◌, ◌||◌, ◌==◌, refl, false, ◌++◌, arith, replicate, any, All, length, ok, err, inl,
}
use sony_prs.Text.{Str, codes}
use sony_prs.Text.Utf8.{IsScalar, to_bytes, encode_char, byte_len}
use sony_prs.Wire.{execute, rendered, protocol, max_line_len}
use sony_prs.Wire.Lines.{send, validate_text}
use sony_prs.Wire.Requests.{encode_request, decode_request}
use sony_prs.Wire.Responses.{encode_response, decode_response, response_line, text_line}
use sony_prs.Wire.RequestRoundTrip.{InRange, decode-encode_request}
use sony_prs.Wire.RequestRange.{decode_request-InRange}
use sony_prs.Wire.ResponseRoundTrip.{decode-encode_response}
use sony_prs.Wire.Overlong.{decode-encode_rendered}

decode-encode_request_example :
    decode_request (encode_request (execute 4096 0xcbf43926)) ≡ ok (execute 4096 0xcbf43926)
decode-encode_request_example =
    decode-encode_request (execute 4096 0xcbf43926) (omega arith, omega arith, omega arith)

received : decode_request (encode_request (execute 4096 0xcbf43926)) ≡ ok (execute 4096 0xcbf43926)
received = decode-encode_request (execute 4096 0xcbf43926) (omega arith, omega arith, omega arith)

decode_request-InRange_example : InRange (execute 4096 0xcbf43926)
decode_request-InRange_example =
    decode_request-InRange (encode_request (execute 4096 0xcbf43926)) (execute 4096 0xcbf43926)
      received

encode : encode_response (rendered (codes "page 1")) ≡ ok (send (codes "PRS1 OK RENDERED page 1"))
unfolding encode_response response_line text_line validate_text to_bytes encode_char
encode = refl

sent_length : length (send (codes "PRS1 OK RENDERED page 1")) ≤ max_line_len
unfolding send to_bytes encode_char
sent_length = omega arith

page_1 : All IsScalar (codes "page 1")
page_1 = (
  inl (omega arith),
  (
    inl (omega arith),
    (inl (omega arith), (inl (omega arith), (inl (omega arith), (inl (omega arith), tt)))),
  ),
)

decode-encode_response_example :
    decode_response (send (codes "PRS1 OK RENDERED page 1")) ≡ ok (rendered (codes "page 1"))
decode-encode_response_example =
    decode-encode_response (rendered (codes "page 1")) (send (codes "PRS1 OK RENDERED page 1"))
      page_1 encode sent_length

abbrev long_text : Str
long_text = replicate 1010 b'x'

long_text_length : byte_len long_text ≡ 1010
unfolding to_bytes encode_char
long_text_length = refl

long_text_free : any (λ byte. byte == b'\r' || byte == b'\n') (to_bytes long_text) ≡ false
unfolding to_bytes encode_char
long_text_free = refl

decode-encode_rendered_example :
    let line = send (codes "PRS1 OK RENDERED " ++ long_text) in
    (encode_response (rendered long_text) ≡ ok line) × (decode_response line ≡ err protocol)
decode-encode_rendered_example =
    decode-encode_rendered long_text refl long_text_free (omega (arith, long_text_length))
      (omega (arith, long_text_length))
