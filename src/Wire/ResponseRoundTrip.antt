-- ===== src/Wire/ResponseRoundTrip.antt =====
-- `decode_response` on what `encode_response` sends.
use sony_prs.Base.{
  ok_inj, >>-eq-ok, ℕ, ◌≤◌, ◌<◌, ◌≡◌, refl, ap, ◌∙◌, false, List, [], ◌∷◌, ◌++◌, some, arith, ◌==◌,
  All, length, ok, ◌>>=◌, >>=-eq-ok, is_empty,
}
use sony_prs.Text.{Str, codes, starts_with}
use sony_prs.Text.Equality.{str_eq_refl}
use sony_prs.Text.Split.{
  is_dark, literal, next_word, append-IsWord, split_whitespace, split_whitespace-word, IsWord,
  split_once-append,
}
use sony_prs.Text.Number.{decimal, parse}
use sony_prs.Text.Number.Digits.{to_radix-filled, to_radix-IsWord}
use sony_prs.Text.Number.RoundTrip.{from_str_radix-to_radix}
use sony_prs.Wire.{
  Response, pong, rebooting, info, status, probe, rendered, ready, executed, error, ack,
  framebuffer, shell, FramebufferHeader, u32_max, usize_max, max_line_len,
}
use sony_prs.Wire.Lines.{send, decode_line-send, validate_text, length-send}
use sony_prs.Wire.Fields.{
  parse_header_field, parse_header_text_field, parse_named_usize, parse_ack_kind, parse_named_text,
  parse_framebuffer_header, header_line,
}
use sony_prs.Wire.Responses.{
  filled_value, text_line, response_line, encode_response, parse_response, decode_response,
}
use sony_prs.Wire.ResponseLines.{
  IsReadable, text_line-eq-ok, validate_text-filled, framebuffer-eq-ok, response_line-IsLine,
}

read_text :
    (make : Str → Response) (prefix s line : Str)
    → text_line prefix s ≡ ok line
    → parse_response (prefix ++ s) ≡ filled_value make s
    → parse_response line ≡ ok (make s)
unfolding filled_value
read_text make prefix s line e read =
    let (valid, eq) = text_line-eq-ok prefix s line e in
    rw (← eq) (read ∙ rw (validate_text-filled s valid))

number_field : (name : Str) (n : ℕ) → IsWord name → IsWord (name ++ decimal n)
number_field name n h = append-IsWord name (decimal n) h (to_radix-IsWord 10 n (omega arith)).free

parse-decimal : (n : ℕ) → n ≤ usize_max → parse usize_max (decimal n) ≡ some n
parse-decimal n h = from_str_radix-to_radix 10 usize_max n (omega arith) h

name_bytes : IsWord (codes "bytes=")
unfolding is_dark
name_bytes = literal (codes "bytes=") refl refl

name_status : IsWord (codes "status=")
unfolding is_dark
name_status = literal (codes "status=") refl refl

-- `kind bytes=n`.
module _ (kind : Str) (bytes : ℕ) (word : IsWord kind) where
  ack_fields :
      split_whitespace (kind ++ (codes " bytes=" ++ decimal bytes))
      ≡ kind ∷ (codes "bytes=" ++ decimal bytes) ∷ []
  ack_fields =
      next_word kind (codes "bytes=" ++ decimal bytes) _ word
        (split_whitespace-word _ (number_field (codes "bytes=") bytes name_bytes))

  ack_kind : parse_ack_kind (kind ++ (codes " bytes=" ++ decimal bytes)) ≡ ok kind
  unfolding parse_ack_kind
  ack_kind = rw (parse_ack_kind, ack_fields) (rw word.filled)

  ack_bytes :
      starts_with kind (codes "bytes=") ≡ false
      → bytes ≤ usize_max
      → parse_named_usize (kind ++ (codes " bytes=" ++ decimal bytes)) (codes "bytes") ≡ ok bytes
  unfolding parse_named_usize
  ack_bytes other h = rw (parse_named_usize, ack_fields, other, parse-decimal bytes h)

-- `bytes=n status=text`.
module _ (bytes : ℕ) (text : Str) (word : IsWord text) where
  shell_fields :
      split_whitespace (codes "bytes=" ++ (decimal bytes ++ (codes " status=" ++ text)))
      ≡ (codes "bytes=" ++ decimal bytes) ∷ (codes "status=" ++ text) ∷ []
  shell_fields =
      next_word (codes "bytes=" ++ decimal bytes) (codes "status=" ++ text) _
        (number_field (codes "bytes=") bytes name_bytes)
        (split_whitespace-word _ (append-IsWord (codes "status=") text name_status word.free))

  shell_bytes :
      bytes ≤ usize_max
      → parse_named_usize
          (codes "bytes=" ++ (decimal bytes ++ (codes " status=" ++ text)))
          (codes "bytes")
        ≡ ok bytes
  unfolding parse_named_usize
  shell_bytes h = rw (parse_named_usize, shell_fields, parse-decimal bytes h)

  shell_status :
      parse_named_text
        (codes "bytes=" ++ (decimal bytes ++ (codes " status=" ++ text)))
        (codes "status")
      ≡ ok text
  unfolding parse_named_text
  shell_status = rw (parse_named_text, shell_fields) (rw word.filled)

-- A named field is read back, and the fields behind it are left.
number_header :
    (max n : ℕ) (name : Str) (rest : List Str)
    → All (λ c. (c == b'=') ≡ false) name
    → n ≤ max
    → parse_header_field max ((name ++ b'=' ∷ decimal n) ∷ rest) name ≡ ok (n, rest)
unfolding parse_header_field
number_header max n name rest h le = rw (
  parse_header_field,
  split_once-append b'=' name (decimal n) h,
  str_eq_refl name,
  to_radix-filled 10 n,
  from_str_radix-to_radix 10 max n (omega arith) le,
)

text_header :
    (text name : Str) (rest : List Str)
    → All (λ c. (c == b'=') ≡ false) name
    → is_empty text ≡ false
    → parse_header_text_field ((name ++ b'=' ∷ text) ∷ rest) name ≡ ok (text, rest)
unfolding parse_header_text_field
text_header text name rest h filled =
    rw (parse_header_text_field, split_once-append b'=' name text h, str_eq_refl name, filled)

-- The seven words of a framebuffer header.
module _ (h : FramebufferHeader) (word : IsWord h.format) where
  header_fields :
      split_whitespace (header_line h)
      ≡ codes "PRS1"
        ∷ codes "OK"
        ∷ codes "FRAMEBUFFER"
        ∷ (codes "width=" ++ decimal h.width)
        ∷ (codes "height=" ++ decimal h.height)
        ∷ (codes "format=" ++ h.format)
        ∷ (codes "bytes=" ++ decimal h.bytes)
        ∷ []
  unfolding header_line is_dark
  header_fields = next_word (codes "PRS1") _ _ (literal (codes "PRS1") refl refl) (
      next_word (codes "OK") _ _ (literal (codes "OK") refl refl) (
        next_word (codes "FRAMEBUFFER") _ _ (literal (codes "FRAMEBUFFER") refl refl) (
          next_word (codes "width=" ++ decimal h.width) _ _
            (number_field (codes "width=") h.width (literal (codes "width=") refl refl))
            (next_word (codes "height=" ++ decimal h.height) _ _
              (number_field (codes "height=") h.height (literal (codes "height=") refl refl))
              (next_word (codes "format=" ++ h.format) _ _
                (append-IsWord (codes "format=") h.format (literal (codes "format=") refl refl)
                  word.free)
                (split_whitespace-word _ (number_field (codes "bytes=") h.bytes name_bytes)))))))

  header_parses :
      (0 < h.width)
      → (0 < h.height)
      → (0 < h.bytes)
      → h.width ≤ u32_max
      → h.height ≤ u32_max
      → h.bytes ≤ usize_max
      → parse_framebuffer_header (header_line h) ≡ ok h
  unfolding parse_framebuffer_header
  header_parses w t b w' t' b' =
      rw
        (
          parse_framebuffer_header,
          header_fields,
          number_header u32_max h.width (codes "width") _ (refl, (refl, (refl, (refl, (refl, tt)))))
              w',
          number_header u32_max h.height (codes "height") _
              (refl, (refl, (refl, (refl, (refl, (refl, tt)))))) t',
          text_header h.format (codes "format") _ (refl, (refl, (refl, (refl, (refl, (refl, tt))))))
              word.filled,
          number_header usize_max h.bytes (codes "bytes") _
              (refl, (refl, (refl, (refl, (refl, tt))))) b',
        )
        (ground arith)

  header_dispatch :
      parse_response (header_line h)
      ≡ (parse_framebuffer_header (header_line h) >>= λ header. ok (framebuffer header))
  unfolding parse_response header_line
  header_dispatch = refl

-- The line of a response that is sent is read as the response.
parse-response_line :
    (r : Response) (line : Str)
    → IsReadable r
    → response_line r ≡ ok line
    → parse_response line ≡ ok r
unfolding response_line
parse-response_line pong line h e = rw (← ok_inj e) (unfold parse_response in refl)
parse-response_line rebooting line h e = rw (← ok_inj e) (unfold parse_response in refl)
parse-response_line (info s) line h e =
    read_text info (codes "PRS1 OK INFO ") s line e (unfold parse_response in refl)
parse-response_line (status s) line h e =
    read_text status (codes "PRS1 OK STATUS ") s line e (unfold parse_response in refl)
parse-response_line (probe s) line h e =
    read_text probe (codes "PRS1 OK PROBE ") s line e (unfold parse_response in refl)
parse-response_line (rendered s) line h e =
    read_text rendered (codes "PRS1 OK RENDERED ") s line e (unfold parse_response in refl)
parse-response_line (ready s) line h e =
    read_text ready (codes "PRS1 READY ") s line e (unfold parse_response in refl)
parse-response_line (executed s) line h e =
    read_text executed (codes "PRS1 OK EXEC ") s line e (unfold parse_response in refl)
parse-response_line (error s) line h e =
    read_text error (codes "PRS1 ERR ") s line e (unfold parse_response in refl)
parse-response_line (ack kind bytes) line (_, word, other, le) e =
    let (_, eq) = >>-eq-ok (validate_text kind) _ e in
    rw (← ok_inj eq)
      (unfold parse_response in rw (ack_kind kind bytes word, ack_bytes kind bytes word other le))
parse-response_line (shell bytes text) line (_, word, le) e =
    let (_, eq) = >>-eq-ok (validate_text text) _ e in
    rw (← ok_inj eq)
      (unfold parse_response in rw (shell_bytes bytes text word le, shell_status bytes text word))
parse-response_line (framebuffer x) line (_, word, w, t, b) e =
    let (_, eq, w', t', b') = framebuffer-eq-ok x line e in
    rw (← eq) (header_dispatch x word ∙ rw (header_parses x word w' t' b' w t b))

-- A response of characters, with numbers that fit their types, that is encoded in a line of at most
-- 1024 bytes is decoded from its bytes, when an ACK kind, a shell status and a framebuffer format are
-- single words and an ACK kind does not begin with `bytes=`.
pub decode-encode_response :
    (r : Response) (line : List ℕ)
    → IsReadable r
    → encode_response r ≡ ok line
    → length line ≤ max_line_len
    → decode_response line ≡ ok r
unfolding encode_response decode_response
decode-encode_response r line h e fits =
    let (text, made, sent) = >>=-eq-ok (response_line r) (λ line. ok (send line)) e in
    rw (← ok_inj sent) (
      rw
        (decode_line-send text (response_line-IsLine r text h made)
          (omega (arith, ap length (ok_inj sent), length-send text)))
        (parse-response_line r text h made))
