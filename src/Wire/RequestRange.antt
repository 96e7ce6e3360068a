-- ===== src/Wire/RequestRange.antt =====
-- The numbers of the requests that `decode_request` accepts.
use sony_prs.Base.{
  ok_inj, ℕ, ◌≡◌, Bool, true, false, List, [], ◌∷◌, arith, if◌then◌else◌, Result, ok, err,
  >>=-eq-ok, Option-cases, subst, inr, inl,
}
use sony_prs.Text.{Str}
use sony_prs.Text.Split.{split_whitespace}
use sony_prs.Text.Number.{from_str_radix}
use sony_prs.Text.Number.RoundTrip.{from_str_radix-le_max}
use sony_prs.Wire.{Error, Request, execute, shell, u32_max}
use sony_prs.Wire.Lines.{decode_line}
use sony_prs.Wire.Requests.{
  parse_execute_fields, parse_shell_fields, parse_execute_request, parse_shell_request,
  parse_request, decode_request,
}
use sony_prs.Wire.RequestRoundTrip.{InRange}

execute_fields-InRange :
    (fields : List Str) (r : Request) → parse_execute_fields fields ≡ ok r → InRange r
unfolding parse_execute_fields
execute_fields-InRange [] r h = ground arith
execute_fields-InRange (_ ∷ []) r h = ground arith
execute_fields-InRange (_ ∷ _ ∷ []) r h = ground arith
execute_fields-InRange (_ ∷ _ ∷ b ∷ []) r h = ground arith
execute_fields-InRange (p ∷ q ∷ b ∷ c ∷ rest) (execute bytes crc32) h =
    elim (Option-cases (from_str_radix 16 u32_max c)) [
      | inl e ↦ ground arith
      | inr (v, e) ↦ ground (arith, from_str_radix-le_max 16 u32_max c v e)
    ]
execute_fields-InRange (p ∷ q ∷ b ∷ c ∷ rest) (shell bytes crc32) h = absurd (ground arith)
execute_fields-InRange (p ∷ q ∷ b ∷ c ∷ rest) _ h = tt

shell_fields-InRange :
    (fields : List Str) (r : Request) → parse_shell_fields fields ≡ ok r → InRange r
unfolding parse_shell_fields
shell_fields-InRange [] r h = ground arith
shell_fields-InRange (_ ∷ []) r h = ground arith
shell_fields-InRange (_ ∷ _ ∷ []) r h = ground arith
shell_fields-InRange (_ ∷ _ ∷ b ∷ []) r h = ground arith
shell_fields-InRange (p ∷ q ∷ b ∷ c ∷ rest) (shell bytes crc32) h =
    elim (Option-cases (from_str_radix 16 u32_max c)) [
      | inl e ↦ ground arith
      | inr (v, e) ↦ ground (arith, from_str_radix-le_max 16 u32_max c v e)
    ]
shell_fields-InRange (p ∷ q ∷ b ∷ c ∷ rest) (execute bytes crc32) h = absurd (ground arith)
shell_fields-InRange (p ∷ q ∷ b ∷ c ∷ rest) _ h = tt

-- A successful result is in range.
record OkInRange (m : Result Error Request) : Type 0 where
  at : (r : Request) → m ≡ ok r → InRange r

OkInRange-ok : (r : Request) → InRange r → OkInRange (ok r)
OkInRange-ok r h = record { at = λ s e. subst InRange (ok_inj e) h }

OkInRange-err : (e : Error) → OkInRange (err e)
OkInRange-err e = record { at = λ s h. cc }

OkInRange-if :
    (b : Bool) (x y : Result Error Request)
    → OkInRange x
    → OkInRange y
    → OkInRange (if b then x else y)
OkInRange-if true x y hx hy = hx
OkInRange-if false x y hx hy = hy

parse_execute-OkInRange : (line : Str) → OkInRange (parse_execute_request line)
unfolding parse_execute_request
parse_execute-OkInRange line = record { at = execute_fields-InRange (split_whitespace line) }

parse_shell-OkInRange : (line : Str) → OkInRange (parse_shell_request line)
unfolding parse_shell_request
parse_shell-OkInRange line = record { at = shell_fields-InRange (split_whitespace line) }

ruleset range_rules =
    (OkInRange-ok, OkInRange-err, OkInRange-if, parse_execute-OkInRange, parse_shell-OkInRange)

parse_request-OkInRange : (line : Str) → OkInRange (parse_request line)
unfolding parse_request
parse_request-OkInRange line = search range_rules depth 14

-- What a device accepts, from any bytes, is in range.
pub decode_request-InRange : (line : List ℕ) (r : Request) → decode_request line ≡ ok r → InRange r
unfolding decode_request
decode_request-InRange line r h =
    let (text, _, parsed) = >>=-eq-ok (decode_line line) parse_request h in
    (parse_request-OkInRange text).at r parsed
