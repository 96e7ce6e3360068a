-- ===== src/Wire/Responses.antt =====
-- `encode_response` and `decode_response`.
use sony_prs.Base.{ℕ, List, ◌++◌, none, some, if◌then◌else◌, is_empty, Result, ok, err, ◌>>=◌, ◌>>◌}
use sony_prs.Text.{Str, codes, str_eq, starts_with, strip_prefix}
use sony_prs.Text.Number.{decimal}
use sony_prs.Wire.{
  Error, protocol, Response, pong, rebooting, info, status, probe, rendered, ready, executed, error,
  ack, framebuffer, shell,
}
use sony_prs.Wire.Lines.{validate_text, send, decode_line}
use sony_prs.Wire.Fields.{
  parse_named_usize, parse_ack_kind, parse_named_text, encode_framebuffer_header,
  parse_framebuffer_header,
}

-- The line of a response that is one checked text behind a prefix.
unfoldable pub text_line : Str → Str → Result Error Str
text_line prefix value = do validate_text value; ok (prefix ++ value)

-- The match of `encode_response`.
unfoldable pub response_line : Response → Result Error Str
unfolding text_line
response_line pong = ok (codes "PRS1 OK PONG")
response_line (info value) = text_line (codes "PRS1 OK INFO ") value
response_line (status value) = text_line (codes "PRS1 OK STATUS ") value
response_line rebooting = ok (codes "PRS1 OK REBOOTING")
response_line (probe value) = text_line (codes "PRS1 OK PROBE ") value
response_line (rendered value) = text_line (codes "PRS1 OK RENDERED ") value
response_line (ready value) = text_line (codes "PRS1 READY ") value
response_line (ack kind bytes) = do
  validate_text kind
  ok (codes "PRS1 ACK " ++ (kind ++ (codes " bytes=" ++ decimal bytes)))
response_line (framebuffer header) = encode_framebuffer_header header
response_line (executed value) = text_line (codes "PRS1 OK EXEC ") value
response_line (shell bytes text) = do
  validate_text text
  ok (codes "PRS1 OK SHELL bytes=" ++ (decimal bytes ++ (codes " status=" ++ text)))
response_line (error value) = text_line (codes "PRS1 ERR ") value

unfoldable pub encode_response : Response → Result Error (List ℕ)
encode_response response = do line ← response_line response; ok (send line)

-- `if value.is_empty() { return Err } return Ok(make(value))`.
unfoldable pub filled_value : (Str → Response) → Str → Result Error Response
filled_value make value = if is_empty value then err protocol else ok (make value)

-- `if let Some(value) = line.strip_prefix(prefix) { return found(value) }`, with what follows it.
abbrev on_prefix :
    Str → Str → (Str → Result Error Response) → Result Error Response → Result Error Response
on_prefix line prefix found others = elim (strip_prefix line prefix) [
  | some value ↦ found value
  | none ↦ others
]

-- `decode_response` on the decoded line.
unfoldable pub parse_response : Str → Result Error Response
unfolding filled_value
parse_response line =
    if str_eq line (codes "PRS1 OK PONG")
    then ok pong
    else on_prefix line (codes "PRS1 OK INFO ") (filled_value info) (
        on_prefix line (codes "PRS1 OK STATUS ") (filled_value status) (
          if str_eq line (codes "PRS1 OK REBOOTING")
          then ok rebooting
          else on_prefix line (codes "PRS1 OK PROBE ") (filled_value probe) (
              on_prefix line (codes "PRS1 OK RENDERED ") (filled_value rendered) (
                on_prefix line (codes "PRS1 READY ") (filled_value ready) (
                  on_prefix line (codes "PRS1 ACK ")
                    (λ value. do
                      kind ← parse_ack_kind value
                      bytes ← parse_named_usize value (codes "bytes")
                      ok (ack kind bytes))
                    (if starts_with line (codes "PRS1 OK FRAMEBUFFER ")
                      then (do header ← parse_framebuffer_header line; ok (framebuffer header))
                      else on_prefix line (codes "PRS1 OK EXEC ") (filled_value executed) (
                          on_prefix line (codes "PRS1 OK SHELL ")
                            (λ value. do
                              bytes ← parse_named_usize value (codes "bytes")
                              text ← parse_named_text value (codes "status")
                              ok (shell bytes text))
                            (on_prefix line (codes "PRS1 ERR ") (filled_value error)
                              (err protocol)))))))))

unfoldable pub decode_response : List ℕ → Result Error Response
decode_response line = do line ← decode_line line; parse_response line
