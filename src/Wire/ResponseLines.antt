-- ===== src/Wire/ResponseLines.antt =====
-- The lines that `encode_response` sends.
use sony_prs.Base.{
  ok_inj, >>-eq-ok, Result-cases, subst, ℕ, ◌≤◌, ◌<◌, ◌≡◌, ◌≢◌, refl, Bool, false, List, [], ◌∷◌,
  ◌++◌, arith, ◌==◌, All, ok, All-append, inl, is_empty, any, ◌||◌, Bool-cases, inr,
}
use sony_prs.Text.{Str, codes, starts_with}
use sony_prs.Text.Utf8.{encode_char, IsScalar, to_bytes}
use sony_prs.Text.Split.{IsWord}
use sony_prs.Text.Number.{decimal}
use sony_prs.Text.Number.Digits.{to_radix-IsWord}
use sony_prs.Text.Number.RoundTrip.{to_radix_ascii}
use sony_prs.Wire.{
  Response, pong, rebooting, info, status, probe, rendered, ready, executed, error, ack,
  framebuffer, shell, FramebufferHeader, u32_max, usize_max,
}
use sony_prs.Wire.Lines.{IsLine, word-IsLine, ascii-IsScalar, validate_text}
use sony_prs.Wire.Fields.{encode_framebuffer_header, header_line}
use sony_prs.Wire.Responses.{text_line, response_line}

-- The texts of a response: characters, and one word where the reader splits the line into words.
abbrev pub IsReadable : Response → Type 0
IsReadable pong = Unit
IsReadable rebooting = Unit
IsReadable (ack kind bytes) =
    All IsScalar kind
    × IsWord kind
    × (starts_with kind (codes "bytes=") ≡ false)
    × (bytes ≤ usize_max)
IsReadable (framebuffer h) =
    All IsScalar h.format
    × IsWord h.format
    × (h.width ≤ u32_max)
    × (h.height ≤ u32_max)
    × (h.bytes ≤ usize_max)
IsReadable (shell bytes text) = All IsScalar text × IsWord text × (bytes ≤ usize_max)
IsReadable (info s) = All IsScalar s
IsReadable (status s) = All IsScalar s
IsReadable (probe s) = All IsScalar s
IsReadable (rendered s) = All IsScalar s
IsReadable (ready s) = All IsScalar s
IsReadable (executed s) = All IsScalar s
IsReadable (error s) = All IsScalar s

-- What `validate_text` leaves to be checked of a text: nothing but its characters.
any-append :
    (p : ℕ → Bool) (xs ys : List ℕ)
    → any p (xs ++ ys) ≡ false
    → (any p xs ≡ false) × (any p ys ≡ false)
any-append p [] ys h = (refl, h)
any-append p (x ∷ xs) ys h = elim (Bool-cases (p x)) [
  | inl e ↦ absurd (cc (rw e at h))
  | inr e ↦ let r = any-append p xs ys (rw e at h) in (rw e r.0, r.1)
]

char_free :
    (c : ℕ)
    → any (λ byte. byte == b'\r' || byte == b'\n') (encode_char c) ≡ false
    → (c ≢ b'\r') × (c ≢ b'\n')
unfolding encode_char
char_free c h = ground arith

bytes_free :
    (s : Str)
    → All IsScalar s
    → any (λ byte. byte == b'\r' || byte == b'\n') (to_bytes s) ≡ false
    → IsLine s
unfolding to_bytes
bytes_free [] h e = tt
bytes_free (c ∷ s) h e =
    let (e₁, e₂) =
      any-append (λ byte. byte == b'\r' || byte == b'\n') (encode_char c) (to_bytes s) e in
    let (no_cr, no_lf) = char_free c e₁ in ((h.0, no_cr, no_lf), bytes_free s h.1 e₂)

validate_text_bytes :
    (s : Str)
    → validate_text s ≡ ok tt
    → any (λ byte. byte == b'\r' || byte == b'\n') (to_bytes s) ≡ false
unfolding validate_text
validate_text_bytes s e = ground arith

pub validate_text-filled : (s : Str) → validate_text s ≡ ok tt → is_empty s ≡ false
unfolding validate_text
validate_text-filled s e = ground arith

pub validate_text-IsLine : (s : Str) → All IsScalar s → validate_text s ≡ ok tt → IsLine s
validate_text-IsLine s h e = bytes_free s h (validate_text_bytes s e)

-- A text response that is sent is its prefix and its text, and the text was accepted.
pub text_line-eq-ok :
    (prefix s line : Str)
    → text_line prefix s ≡ ok line
    → (validate_text s ≡ ok tt) × (prefix ++ s ≡ line)
unfolding text_line
text_line-eq-ok prefix s line e =
    let (valid, rest) = >>-eq-ok (validate_text s) (ok (prefix ++ s)) e in (valid, ok_inj rest)

IsLine-append : (s t : Str) → IsLine s → IsLine t → IsLine (s ++ t)
IsLine-append s t h k = All-append (λ c. IsScalar c × (c ≢ b'\r') × (c ≢ b'\n')) s t h k

decimal-IsLine : (n : ℕ) → IsLine (decimal n)
decimal-IsLine n =
    word-IsLine (decimal n) (to_radix-IsWord 10 n (omega arith)).free
      (ascii-IsScalar _ (to_radix_ascii 10 n (omega arith)))

text-IsLine :
    (prefix s line : Str)
    → IsLine prefix
    → All IsScalar s
    → text_line prefix s ≡ ok line
    → IsLine line
text-IsLine prefix s line hp h e =
    let (valid, eq) = text_line-eq-ok prefix s line e in
    subst IsLine eq (IsLine-append prefix s hp (validate_text-IsLine s h valid))

header-IsLine : (h : FramebufferHeader) → IsLine h.format → IsLine (header_line h)
unfolding header_line
header-IsLine h f = IsLine-append (codes "PRS1 OK FRAMEBUFFER width=") _ (omega arith) (
    IsLine-append (decimal h.width) _ (decimal-IsLine h.width) (
      IsLine-append (codes " height=") _ (omega arith) (
        IsLine-append (decimal h.height) _ (decimal-IsLine h.height) (
          IsLine-append (codes " format=") _ (omega arith) (
            IsLine-append h.format _ f
              (IsLine-append (codes " bytes=") _ (omega arith) (decimal-IsLine h.bytes)))))))

pub framebuffer-eq-ok :
    (h : FramebufferHeader) (line : Str)
    → encode_framebuffer_header h ≡ ok line
    → (validate_text h.format ≡ ok tt)
      × (header_line h ≡ line)
      × (0 < h.width)
      × (0 < h.height)
      × (0 < h.bytes)
unfolding encode_framebuffer_header
framebuffer-eq-ok h line e = ground (arith, Result-cases (validate_text h.format))

-- The line of a response that is sent holds characters, and no line end.
pub response_line-IsLine :
    (r : Response) (line : Str) → IsReadable r → response_line r ≡ ok line → IsLine line
unfolding response_line
response_line-IsLine pong line h e = subst IsLine (ok_inj e) (omega arith)
response_line-IsLine rebooting line h e = subst IsLine (ok_inj e) (omega arith)
response_line-IsLine (info s) line h e =
    text-IsLine (codes "PRS1 OK INFO ") s line (omega arith) h e
response_line-IsLine (status s) line h e =
    text-IsLine (codes "PRS1 OK STATUS ") s line (omega arith) h e
response_line-IsLine (probe s) line h e =
    text-IsLine (codes "PRS1 OK PROBE ") s line (omega arith) h e
response_line-IsLine (rendered s) line h e =
    text-IsLine (codes "PRS1 OK RENDERED ") s line (omega arith) h e
response_line-IsLine (ready s) line h e = text-IsLine (codes "PRS1 READY ") s line (omega arith) h e
response_line-IsLine (executed s) line h e =
    text-IsLine (codes "PRS1 OK EXEC ") s line (omega arith) h e
response_line-IsLine (error s) line h e = text-IsLine (codes "PRS1 ERR ") s line (omega arith) h e
response_line-IsLine (ack kind bytes) line h e =
    let (valid, rest) = >>-eq-ok (validate_text kind) _ e in
    subst IsLine (ok_inj rest) (
      IsLine-append (codes "PRS1 ACK ") _ (omega arith) (
        IsLine-append kind _ (validate_text-IsLine kind h.0 valid)
          (IsLine-append (codes " bytes=") _ (omega arith) (decimal-IsLine bytes))))
response_line-IsLine (framebuffer x) line h e =
    let (valid, eq, _, _, _) = framebuffer-eq-ok x line e in
    subst IsLine eq (header-IsLine x (validate_text-IsLine x.format h.0 valid))
response_line-IsLine (shell bytes text) line h e =
    let (valid, rest) = >>-eq-ok (validate_text text) _ e in
    subst IsLine (ok_inj rest) (
      IsLine-append (codes "PRS1 OK SHELL bytes=") _ (omega arith) (
        IsLine-append (decimal bytes) _ (decimal-IsLine bytes)
          (IsLine-append (codes " status=") _ (omega arith) (validate_text-IsLine text h.0 valid))))
