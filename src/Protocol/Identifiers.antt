-- ===== src/Protocol/Identifiers.antt =====
-- What `validate_identifier` accepts.
use sony_prs.Base.{◌≤◌, ◌≡◌, true, length, All}
use sony_prs.Text.{Str}
use sony_prs.Protocol.Texts.{identifier_byte}

abbrev pub IsIdentifier : Str → Type 0
IsIdentifier s = (1 ≤ length s) × (length s ≤ 128) × All (λ c. identifier_byte c ≡ true) s
