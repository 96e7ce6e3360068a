-- ===== src/Protocol/Texts.antt =====
-- The constructors of the checked string types: identifiers, names, entity tags and secrets.
use sony_prs.Base.{
  ℕ, Bool, not, ◌&&◌, ◌||◌, ltb, leb, ◌==◌, if◌then◌else◌, any, all, is_empty, Result, ok, err,
}
use sony_prs.Text.{Str, is_whitespace, is_control}
use sony_prs.Text.Utf8.{to_bytes, byte_len}
use sony_prs.Protocol.{
  ValidationError, identifier_length, identifier_character, ascii_length, control_character, quotes,
  name_length, name_control, bad_secret,
}

-- `u8::is_ascii_alphanumeric`.
unfoldable pub is_ascii_alphanumeric : ℕ → Bool
is_ascii_alphanumeric b =
    (leb b'0' b && leb b b'9') || (leb b'A' b && leb b b'Z') || (leb b'a' b && leb b b'z')

-- `b"-_.~".contains(&byte)`, or alphanumeric.
unfoldable pub identifier_byte : ℕ → Bool
unfolding is_ascii_alphanumeric
identifier_byte b = is_ascii_alphanumeric b || (b == b'-' || b == b'_' || b == b'.' || b == b'~')

unfoldable pub validate_identifier : Str → Result ValidationError (Unit {0})
validate_identifier value =
    if is_empty value || ltb 128 (byte_len value)
    then err identifier_length
    else if any (λ b. not (identifier_byte b)) (to_bytes value)
    then err identifier_character
    else ok tt

-- `str::is_ascii`, and `u8::is_ascii_control`.
abbrev pub is_ascii : Str → Bool
is_ascii = all (λ c. ltb c 0x80)

abbrev pub is_ascii_control : ℕ → Bool
is_ascii_control b = ltb b 0x20 || b == 0x7f

unfoldable pub validate_non_empty_ascii : Str → Result ValidationError (Unit {0})
validate_non_empty_ascii value =
    if is_empty value || ltb 128 (byte_len value) || not (is_ascii value)
    then err ascii_length
    else if any (λ b. is_ascii_control b || b == b' ') (to_bytes value)
    then err control_character
    else ok tt

unfoldable pub validate_secret : Str → Result ValidationError (Unit {0})
validate_secret value =
    if is_empty value || ltb 4096 (byte_len value) || any is_whitespace value
    then err bad_secret
    else ok tt

-- `EntityTag::new`.
unfoldable pub new_entity_tag : Str → Result ValidationError Str
new_entity_tag value = elim (validate_non_empty_ascii value) [
  | err e ↦ err e
  | ok _ ↦ if any (λ c. c == b'"') value then err quotes else ok value
]

-- `SenderCredentialName::new`.
unfoldable pub new_credential_name : Str → Result ValidationError Str
new_credential_name value =
    if is_empty value || ltb 64 (byte_len value)
    then err name_length
    else if any is_control value
    then err name_control
    else ok value
