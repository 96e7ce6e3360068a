-- ===== src/Wire/Fields.antt =====
-- The named fields of responses: `parse_named_usize`, `parse_ack_kind`, `parse_named_text`, and
-- those of the framebuffer header.
use sony_prs.Base.{
  ℕ, suc, ◌||◌, ◌&&◌, not, List, [], ◌∷◌, ◌++◌, Option, none, some, ◌==◌, ltb, if◌then◌else◌,
  is_empty, Result, ok, err, ok_or, ◌>>=◌, guard, ◌>>◌,
}
use sony_prs.Text.{Str, codes, str_eq, starts_with, strip_prefix}
use sony_prs.Text.Split.{split_whitespace, split_once}
use sony_prs.Text.Number.{decimal, parse}
use sony_prs.Text.Utf8.{byte_len}
use sony_prs.Wire.{
  Error, invalid_argument, protocol, FramebufferHeader, next, is_some, is_some_eq, u32_max,
  usize_max, max_line_len,
}
use sony_prs.Wire.Lines.{validate_text}

-- `fields.find(|field| field.starts_with(prefix))`.
unfoldable pub find_prefixed : Str → List Str → Option Str
find_prefixed prefix [] = none
find_prefixed prefix (w ∷ ws) = if starts_with w prefix then some w else find_prefixed prefix ws

unfoldable pub parse_named_usize : Str → Str → Result Error ℕ
unfolding find_prefixed
parse_named_usize value name = do
  field ← ok_or (find_prefixed (name ++ b'=' ∷ []) (split_whitespace value)) protocol
  text ← ok_or (strip_prefix field (name ++ b'=' ∷ [])) protocol
  ok_or (parse usize_max text) protocol

unfoldable pub parse_ack_kind : Str → Result Error Str
parse_ack_kind value =
    let (kind, rest) = next (split_whitespace value) in
    do kind ← ok_or kind protocol; guard (not (is_empty kind)) protocol; ok kind

unfoldable pub parse_named_text : Str → Str → Result Error Str
unfolding find_prefixed
parse_named_text value name = do
  field ← ok_or (find_prefixed (name ++ b'=' ∷ []) (split_whitespace value)) protocol
  text ← ok_or (strip_prefix field (name ++ b'=' ∷ [])) protocol
  guard (not (is_empty text)) protocol
  ok text

-- `parse_header_text_field`: the next field, which has to be `name=value`, and the fields left.
unfoldable pub parse_header_text_field : List Str → Str → Result Error (Str × List Str)
parse_header_text_field fields name =
    let (field, rest) = next fields in
    do
      field ← ok_or field protocol
      pair ← ok_or (split_once b'=' field) protocol
      guard (str_eq pair.0 name && not (is_empty pair.1)) protocol
      ok (pair.1, rest)

-- `parse_header_field`, at the integer type with this maximum.
unfoldable pub parse_header_field : ℕ → List Str → Str → Result Error (ℕ × List Str)
parse_header_field max fields name =
    let (field, rest) = next fields in
    do
      field ← ok_or field protocol
      pair ← ok_or (split_once b'=' field) protocol
      guard (str_eq pair.0 name && not (is_empty pair.1)) protocol
      value ← ok_or (parse max pair.1) protocol
      ok (value, rest)

unfoldable pub header_line : FramebufferHeader → Str
header_line h =
    codes "PRS1 OK FRAMEBUFFER width="
    ++ (decimal h.width
        ++ (codes " height="
            ++ (decimal h.height
                ++ (codes " format=" ++ (h.format ++ (codes " bytes=" ++ decimal h.bytes))))))

unfoldable pub encode_framebuffer_header : FramebufferHeader → Result Error Str
encode_framebuffer_header h =
    if h.width == 0 || h.height == 0 || h.bytes == 0 then err invalid_argument else do
      validate_text h.format
      if ltb max_line_len (suc (byte_len (header_line h)))
          then err invalid_argument
          else ok (header_line h)

unfoldable pub parse_framebuffer_header : Str → Result Error FramebufferHeader
parse_framebuffer_header line =
    let (word_1, fields_1) = next (split_whitespace line) in
    let (word_2, fields_2) = next fields_1 in
    let (word_3, fields_3) = next fields_2 in
    do
      guard
          (is_some_eq word_1 (codes "PRS1")
            && is_some_eq word_2 (codes "OK")
            && is_some_eq word_3 (codes "FRAMEBUFFER"))
          protocol
      width ← parse_header_field u32_max fields_3 (codes "width")
      height ← parse_header_field u32_max width.1 (codes "height")
      format ← parse_header_text_field height.1 (codes "format")
      bytes ← parse_header_field usize_max format.1 (codes "bytes")
      guard (not (is_some (next bytes.1).0 || width.0 == 0 || height.0 == 0 || bytes.0 == 0))
          protocol
      ok (record { width = width.0; height = height.0; format = format.0; bytes = bytes.0 })
