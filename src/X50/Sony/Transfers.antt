-- ===== src/X50/Sony/Transfers.antt =====
-- `SonyExtendedTransport`: one command phase at a time.
use sony_prs.Base.{
  ℕ, ◌-◌, ◌||◌, not, List, [], ◌∷◌, ◌++◌, none, some, ltb, leb, ◌==◌, if◌then◌else◌, length, take,
  replicate, any, Result, ok, err,
}
use sony_prs.Text.{Str}
use sony_prs.Text.Utf8.{to_bytes}
use sony_prs.X50.{Error, invalid_argument, protocol, u32_max}
use sony_prs.X50.Io.{M, pure, ◌>>=◌, ◌>>◌, check}
use sony_prs.X50.Words.{from_le_bytes, get_range}

pub data Direction : Type 0 where
  to_device from_device : Direction

-- What the program uses of the machine. `execute` gives the buffer after the transfer and the
-- number of bytes transferred.
pub record Host : Type 1 where
  pub World : Type 0
  pub execute : List ℕ → Direction → List ℕ → World → Result Error (List ℕ × ℕ) × World
  pub write_all : List ℕ → World → Result Error (Unit {0}) × World

abbrev pub sc_sony_extended : ℕ
sc_sony_extended = 0x20

abbrev pub default_buffer_size : ℕ
default_buffer_size = 4096

unfoldable pub cdb : ℕ → ℕ → List ℕ
cdb command phase = sc_sony_extended ∷ 0 ∷ command ∷ 0 ∷ phase ∷ 0 ∷ 0 ∷ 0 ∷ 0 ∷ 0 ∷ []

-- `SonyExtendedTransport::with_max_transfer`: the accepted maximum.
unfoldable pub with_max_transfer : ℕ → Result Error ℕ
with_max_transfer max_transfer =
    if max_transfer == 0 || ltb u32_max max_transfer then err invalid_argument else ok max_transfer

-- `path_request`.
unfoldable pub path_request : Str → Result Error (List ℕ)
path_request path =
    let path_bytes = to_bytes path in
    if any (λ b. b == 0) path_bytes
    then err invalid_argument
    else if leb 256 (length path_bytes)
    then err invalid_argument
    else ok (path_bytes ++ replicate (256 - length path_bytes) 0)

-- `signed_status`: an `i32`, as its bit pattern; it is negative from 2 ^ 31 on.
unfoldable pub signed_status : List ℕ → Result Error ℕ
signed_status response = elim (get_range response 0 4) [
  | none ↦ err protocol
  | some bytes ↦ ok (from_le_bytes bytes)
]

module _ (host : Host) where
  open host use {World, execute, write_all}

  module _ (max_transfer : ℕ) where
    unfoldable pub send_command_bytes : ℕ → List ℕ → M World (Unit {0})
    send_command_bytes command request = do
      check (leb (length request) max_transfer) invalid_argument
      execute (cdb command 1) to_device request
      pure tt

    unfoldable pub receive_command_bytes : ℕ → ℕ → ℕ → M World (List ℕ)
    receive_command_bytes command phase response_capacity = do
      check (not (response_capacity == 0 || ltb max_transfer response_capacity)) invalid_argument
      response ← execute (cdb command phase) from_device (replicate response_capacity 0)
      pure (take response.1 response.0)

    unfoldable pub exchange_command_bytes : ℕ → List ℕ → ℕ → M World (List ℕ)
    exchange_command_bytes command request response_capacity = do
      check (leb (length request) max_transfer) invalid_argument
      check (not (response_capacity == 0 || ltb max_transfer response_capacity)) invalid_argument
      send_command_bytes command request
      response ← execute (cdb command 2) from_device (replicate response_capacity 0)
      pure (take response.1 response.0)
