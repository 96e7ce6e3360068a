-- ===== src/Wire/Requests.antt =====
-- `encode_request` and `decode_request`.
use sony_prs.Base.{
  ℕ, ◌||◌, ◌&&◌, List, ◌∷◌, ◌++◌, ltb, ◌==◌, if◌then◌else◌, Result, ok, err, ok_or, ◌>>=◌, guard,
  ◌>>◌, not,
}
use sony_prs.Text.{Str, codes, str_eq, starts_with}
use sony_prs.Text.Split.{split_whitespace}
use sony_prs.Text.Number.{decimal, hex8, parse, from_str_radix}
use sony_prs.Wire.{
  Error, invalid_argument, protocol, Request, ping, info, status, reboot, probe, render, capture,
  execute, shell, next, is_some, is_some_eq, u32_max, max_exec_bytes, max_shell_bytes,
}
use sony_prs.Wire.Lines.{send, decode_line}

-- A request's line, without its line end.
unfoldable pub request_line : Request → Str
request_line ping = codes "PRS1 PING"
request_line info = codes "PRS1 INFO"
request_line status = codes "PRS1 STATUS"
request_line reboot = codes "PRS1 REBOOT"
request_line probe = codes "PRS1 PROBE"
request_line render = codes "PRS1 RENDER"
request_line capture = codes "PRS1 CAPTURE"
request_line (execute bytes crc32) = codes "PRS1 EXEC " ++ (decimal bytes ++ b' ' ∷ hex8 crc32)
request_line (shell bytes crc32) = codes "PRS1 SHELL " ++ (decimal bytes ++ b' ' ∷ hex8 crc32)

unfoldable pub encode_request : Request → List ℕ
unfolding request_line
encode_request request = send (request_line request)

-- `parse_execute_request` on the fields of the line; `next` is `fields.next()`.
unfoldable pub parse_execute_fields : List Str → Result Error Request
parse_execute_fields fields =
    let (prefix, fields_1) = next fields in
    let (command, fields_2) = next fields_1 in
    let (bytes_field, fields_3) = next fields_2 in
    let (crc_field, fields_4) = next fields_3 in
    let (extra, rest) = next fields_4 in
    do
      bytes_text ← ok_or bytes_field protocol
      bytes ← ok_or (parse u32_max bytes_text) protocol
      crc_text ← ok_or crc_field protocol
      crc32 ← ok_or (from_str_radix 16 u32_max crc_text) protocol
      guard
          (is_some_eq prefix (codes "PRS1")
            && is_some_eq command (codes "EXEC")
            && not (is_some extra))
          protocol
      guard (not (bytes == 0 || ltb max_exec_bytes bytes)) invalid_argument
      ok (execute bytes crc32)

unfoldable pub parse_execute_request : Str → Result Error Request
unfolding parse_execute_fields
parse_execute_request line = parse_execute_fields (split_whitespace line)

-- `parse_shell_request` on the fields of the line.
unfoldable pub parse_shell_fields : List Str → Result Error Request
parse_shell_fields fields =
    let (prefix, fields_1) = next fields in
    let (command, fields_2) = next fields_1 in
    let (bytes_field, fields_3) = next fields_2 in
    let (crc_field, fields_4) = next fields_3 in
    let (extra, rest) = next fields_4 in
    do
      guard (is_some_eq prefix (codes "PRS1") && is_some_eq command (codes "SHELL")) protocol
      bytes_text ← ok_or bytes_field protocol
      bytes ← ok_or (parse u32_max bytes_text) protocol
      crc_text ← ok_or crc_field protocol
      crc32 ← ok_or (from_str_radix 16 u32_max crc_text) protocol
      guard (not (is_some extra)) protocol
      guard (not (bytes == 0 || ltb max_shell_bytes bytes)) invalid_argument
      ok (shell bytes crc32)

unfoldable pub parse_shell_request : Str → Result Error Request
unfolding parse_shell_fields
parse_shell_request line = parse_shell_fields (split_whitespace line)

-- The match of `decode_request` on the decoded line.
unfoldable pub parse_request : Str → Result Error Request
parse_request line =
    if str_eq line (codes "PRS1 PING")
    then ok ping
    else if str_eq line (codes "PRS1 INFO")
    then ok info
    else if str_eq line (codes "PRS1 STATUS")
    then ok status
    else if str_eq line (codes "PRS1 REBOOT")
    then ok reboot
    else if str_eq line (codes "PRS1 PROBE")
    then ok probe
    else if str_eq line (codes "PRS1 RENDER")
    then ok render
    else if str_eq line (codes "PRS1 CAPTURE")
    then ok capture
    else if starts_with line (codes "PRS1 EXEC ")
    then parse_execute_request line
    else if starts_with line (codes "PRS1 SHELL ")
    then parse_shell_request line
    else err protocol

unfoldable pub decode_request : List ℕ → Result Error Request
decode_request line = do line ← decode_line line; parse_request line
