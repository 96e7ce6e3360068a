-- ===== src/Wire/Lines.antt =====
-- `decode_line` and `validate_text`, and what reaches the other end of the line.
use sony_prs.Base.{
  ℕ, suc, ◌≤◌, ◌<◌, ◌≡◌, ◌≢◌, refl, ap, ◌∙◌, ◌||◌, List, [], ◌∷◌, ◌++◌, arith, ltb, ◌==◌,
  if◌then◌else◌, All, length, any, is_empty, Result, ok, err, ok_or, inl, le→ltb, lt→ltb,
  length-append, All-append,
}
use sony_prs.Text.{Str, codes, is_whitespace}
use sony_prs.Text.Split.{Free}
use sony_prs.Text.Utf8.{
  to_bytes, from_utf8, byte_len, encode_char, IsScalar, from_utf8-to_bytes, to_bytes-append,
}
use sony_prs.Wire.{Error, invalid_argument, protocol, max_line_len}

-- `bytes.strip_suffix(&[b]).unwrap_or(bytes)`.
unfoldable pub strip_last : ℕ → List ℕ → List ℕ
strip_last d [] = []
strip_last d (b ∷ []) = if b == d then [] else b ∷ []
strip_last d (b ∷ c ∷ s) = b ∷ strip_last d (c ∷ s)

unfoldable pub decode_line : List ℕ → Result Error Str
unfolding strip_last
decode_line line =
    if ltb max_line_len (length line)
    then err protocol
    else ok_or (from_utf8 (strip_last b'\r' (strip_last b'\n' line))) protocol

-- The check of every text that goes into a response; the length is that of `PRS1 ERR` and the text.
unfoldable pub validate_text : Str → Result Error Unit
validate_text value =
    if is_empty value || any (λ byte. byte == b'\r' || byte == b'\n') (to_bytes value)
    then err invalid_argument
    else if ltb max_line_len (byte_len (codes "PRS1 ERR " ++ value))
    then err invalid_argument
    else ok tt

strip_last-append : (d : ℕ) (s : List ℕ) → strip_last d (s ++ d ∷ []) ≡ s
unfolding strip_last
strip_last-append d [] = ground arith
strip_last-append d (b ∷ []) = ground arith
strip_last-append d (b ∷ c ∷ s) = ap (◌∷◌ b) (strip_last-append d (c ∷ s))

strip_last-free : (d : ℕ) (s : List ℕ) → All (λ b. b ≢ d) s → strip_last d s ≡ s
unfolding strip_last
strip_last-free d [] h = refl
strip_last-free d (b ∷ []) h = ground (arith, h.0)
strip_last-free d (b ∷ c ∷ s) h = ap (◌∷◌ b) (strip_last-free d (c ∷ s) h.1)

-- A text of one line: characters, none of them a line end.
abbrev pub IsLine : Str → Type 0
IsLine s = All (λ c. IsScalar c × (c ≢ b'\r') × (c ≢ b'\n')) s

encode_char-ne : (d c : ℕ) → d < 0x80 → c ≢ d → All (λ b. b ≢ d) (encode_char c)
unfolding encode_char
encode_char-ne d c h k = ground arith

-- A word has no line end.
pub word-IsLine : (s : Str) → Free is_whitespace s → All IsScalar s → IsLine s
unfolding is_whitespace
word-IsLine [] f h = tt
word-IsLine (c ∷ s) f h = (
  (h.0, (λ e. cc (f.0, ap is_whitespace e)), (λ e. cc (f.0, ap is_whitespace e))),
  word-IsLine s f.1 h.1,
)

pub ascii-IsScalar : (s : Str) → All (λ c. c < 0x80) s → All IsScalar s
ascii-IsScalar [] h = tt
ascii-IsScalar (c ∷ s) h = (inl (omega arith), ascii-IsScalar s h.1)

line-IsScalar : (s : Str) → IsLine s → All IsScalar s
line-IsScalar [] h = tt
line-IsScalar (c ∷ s) h = (h.0.0, line-IsScalar s h.1)

line_bytes : (s : Str) → IsLine s → All (λ b. b ≢ b'\r') (to_bytes s)
unfolding to_bytes
line_bytes [] h = tt
line_bytes (c ∷ s) h =
    All-append (λ b. b ≢ b'\r') (encode_char c) (to_bytes s)
      (encode_char-ne b'\r' c (omega arith) h.0.1) (line_bytes s h.1)

-- `format!("{line}\n").into_bytes()`.
unfoldable pub send : Str → List ℕ
send line = to_bytes (line ++ b'\n' ∷ [])

send_bytes : (line : Str) → send line ≡ to_bytes line ++ b'\n' ∷ []
unfolding send
send_bytes line = to_bytes-append line (b'\n' ∷ []) ∙ (unfold to_bytes encode_char in refl)

pub length-send : (line : Str) → length (send line) ≡ suc (byte_len line)
length-send line = rw (send_bytes line) (omega (arith, length-append (to_bytes line) (b'\n' ∷ [])))

-- A line that fits with its line end is received as it was sent.
pub decode_line-send :
    (line : Str) → IsLine line → byte_len line < max_line_len → decode_line (send line) ≡ ok line
unfolding decode_line
decode_line-send line h fits = rw (
  decode_line,
  le→ltb max_line_len (length (send line)) (omega (arith, length-send line)),
  send_bytes line,
  strip_last-append b'\n' (to_bytes line),
  strip_last-free b'\r' (to_bytes line) (line_bytes line h),
  from_utf8-to_bytes line (line-IsScalar line h),
)

-- A longer one is refused.
pub decode_line_long :
    (line : Str) → max_line_len ≤ byte_len line → decode_line (send line) ≡ err protocol
unfolding decode_line
decode_line_long line h =
    rw (decode_line, lt→ltb max_line_len (length (send line)) (omega (arith, length-send line)))
