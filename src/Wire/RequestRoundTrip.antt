-- ===== src/Wire/RequestRoundTrip.antt =====
-- `decode_request` on what `encode_request` sends.
use sony_prs.Base.{
  ℕ, ◌≤◌, ◌<◌, ◌≡◌, ◌≢◌, refl, ◌∙◌, [], ◌∷◌, ◌++◌, arith, ok, length-append, All-append,
}
use sony_prs.Text.{codes}
use sony_prs.Text.Utf8.{encode_char, IsScalar, to_bytes, byte_len, to_bytes_ascii}
use sony_prs.Text.Split.{is_dark, literal, split_whitespace, split_whitespace_four, IsWord}
use sony_prs.Text.Number.{decimal, hex8, IsRadix}
use sony_prs.Text.Number.Digits.{to_radix-IsWord, to_radix-le}
use sony_prs.Text.Number.RoundTrip.{
  from_str_radix-to_radix, from_str_radix-hex8, hex8-IsWord, length-hex8, to_radix_ascii,
  hex8_ascii,
}
use sony_prs.Wire.{Request, ping, execute, shell, u32_max, max_exec_bytes, max_shell_bytes}
use sony_prs.Wire.Lines.{decode_line-send, IsLine, word-IsLine, ascii-IsScalar}
use sony_prs.Wire.Requests.{
  request_line, encode_request, parse_execute_request, parse_shell_request, parse_request,
  decode_request,
}

-- What the sender has to respect: a payload length within its limit, and a 32-bit checksum.
abbrev pub InRange : Request → Type 0
InRange (execute bytes crc32) = (0 < bytes) × (bytes ≤ max_exec_bytes) × (crc32 ≤ u32_max)
InRange (shell bytes crc32) = (0 < bytes) × (bytes ≤ max_shell_bytes) × (crc32 ≤ u32_max)
InRange _ = Unit

IsWord-prs1 : IsWord (codes "PRS1")
unfolding is_dark
IsWord-prs1 = literal (codes "PRS1") refl refl

IsWord-exec : IsWord (codes "EXEC")
unfolding is_dark
IsWord-exec = literal (codes "EXEC") refl refl

IsWord-shell : IsWord (codes "SHELL")
unfolding is_dark
IsWord-shell = literal (codes "SHELL") refl refl

IsRadix-ten : IsRadix 10
IsRadix-ten = omega arith

module _ (bytes crc32 : ℕ) where
  execute_fields :
      split_whitespace (request_line (execute bytes crc32))
      ≡ codes "PRS1" ∷ codes "EXEC" ∷ decimal bytes ∷ hex8 crc32 ∷ []
  unfolding request_line
  execute_fields =
      split_whitespace_four (codes "PRS1") (codes "EXEC") (decimal bytes) (hex8 crc32) IsWord-prs1
        IsWord-exec (to_radix-IsWord 10 bytes IsRadix-ten) (hex8-IsWord crc32)

  shell_fields :
      split_whitespace (request_line (shell bytes crc32))
      ≡ codes "PRS1" ∷ codes "SHELL" ∷ decimal bytes ∷ hex8 crc32 ∷ []
  unfolding request_line
  shell_fields =
      split_whitespace_four (codes "PRS1") (codes "SHELL") (decimal bytes) (hex8 crc32) IsWord-prs1
        IsWord-shell (to_radix-IsWord 10 bytes IsRadix-ten) (hex8-IsWord crc32)

  arguments-IsLine : IsLine (decimal bytes ++ b' ' ∷ hex8 crc32)
  arguments-IsLine =
      All-append (λ c. IsScalar c × (c ≢ b'\r') × (c ≢ b'\n')) (decimal bytes) (b' ' ∷ hex8 crc32)
        (word-IsLine (decimal bytes) (to_radix-IsWord 10 bytes IsRadix-ten).free
          (ascii-IsScalar _ (to_radix_ascii 10 bytes IsRadix-ten)))
        (
          omega arith,
          word-IsLine (hex8 crc32) (hex8-IsWord crc32).free (ascii-IsScalar _ (hex8_ascii crc32)),
        )

  arguments-le :
      bytes ≤ max_exec_bytes → crc32 ≤ u32_max → byte_len (decimal bytes ++ b' ' ∷ hex8 crc32) ≤ 20
  arguments-le h k =
      rw
        (to_bytes_ascii (decimal bytes ++ b' ' ∷ hex8 crc32) (
          All-append (λ c. c < 0x80) (decimal bytes) (b' ' ∷ hex8 crc32)
            (to_radix_ascii 10 bytes IsRadix-ten) (omega arith, hex8_ascii crc32)))
        (omega (
          arith,
          length-append (decimal bytes) (b' ' ∷ hex8 crc32),
          to_radix-le 10 bytes 9 IsRadix-ten (omega arith),
          length-hex8 crc32 (omega arith),
        ))

  execute_dispatch :
      parse_request (request_line (execute bytes crc32))
      ≡ parse_execute_request (request_line (execute bytes crc32))
  unfolding parse_request request_line
  execute_dispatch = refl

  shell_dispatch :
      parse_request (request_line (shell bytes crc32))
      ≡ parse_shell_request (request_line (shell bytes crc32))
  unfolding parse_request request_line
  shell_dispatch = refl

  parse_execute_lem :
      0 < bytes
      → bytes ≤ max_exec_bytes
      → crc32 ≤ u32_max
      → parse_execute_request (request_line (execute bytes crc32)) ≡ ok (execute bytes crc32)
  unfolding parse_execute_request
  parse_execute_lem p h k =
      rw
        (
          parse_execute_request,
          execute_fields,
          from_str_radix-to_radix 10 u32_max bytes IsRadix-ten (omega arith),
          from_str_radix-hex8 u32_max crc32 k,
        )
        (ground arith)

  parse_shell_lem :
      0 < bytes
      → bytes ≤ max_shell_bytes
      → crc32 ≤ u32_max
      → parse_shell_request (request_line (shell bytes crc32)) ≡ ok (shell bytes crc32)
  unfolding parse_shell_request
  parse_shell_lem p h k =
      rw
        (
          parse_shell_request,
          shell_fields,
          from_str_radix-to_radix 10 u32_max bytes IsRadix-ten (omega arith),
          from_str_radix-hex8 u32_max crc32 k,
        )
        (ground arith)

-- The line of a request in range has no line end within it, and is read as the request.
request_line-IsLine : (r : Request) → IsLine (request_line r)
unfolding request_line
request_line-IsLine ping = omega arith
request_line-IsLine (execute bytes crc32) =
    All-append (λ c. IsScalar c × (c ≢ b'\r') × (c ≢ b'\n')) (codes "PRS1 EXEC ") _ (omega arith)
      (arguments-IsLine bytes crc32)
request_line-IsLine (shell bytes crc32) =
    All-append (λ c. IsScalar c × (c ≢ b'\r') × (c ≢ b'\n')) (codes "PRS1 SHELL ") _ (omega arith)
      (arguments-IsLine bytes crc32)
request_line-IsLine _ = omega arith

request_line-le : (r : Request) → InRange r → byte_len (request_line r) ≤ 40
unfolding request_line
request_line-le ping h = unfold to_bytes encode_char in omega arith
request_line-le (execute bytes crc32) h =
    unfold to_bytes encode_char in omega (arith, arguments-le bytes crc32 h.1 h.2)
request_line-le (shell bytes crc32) h =
    unfold to_bytes encode_char in omega (arith, arguments-le bytes crc32 (omega arith) h.2)
request_line-le _ h = unfold to_bytes encode_char in omega arith

parse-request_line : (r : Request) → InRange r → parse_request (request_line r) ≡ ok r
parse-request_line ping h = unfold parse_request request_line in refl
parse-request_line (execute bytes crc32) h =
    execute_dispatch bytes crc32 ∙ parse_execute_lem bytes crc32 h.0 h.1 h.2
parse-request_line (shell bytes crc32) h =
    shell_dispatch bytes crc32 ∙ parse_shell_lem bytes crc32 h.0 h.1 h.2
parse-request_line _ h = unfold parse_request request_line in refl

-- Every request whose payload length is in range is decoded from its encoding.
pub decode-encode_request : (r : Request) → InRange r → decode_request (encode_request r) ≡ ok r
unfolding decode_request encode_request
decode-encode_request r h =
    rw
      (decode_line-send (request_line r) (request_line-IsLine r)
        (omega (arith, request_line-le r h)))
      (parse-request_line r h)
