-- ===== src/X50/Sony/Files.antt =====
-- The file operations of `SonyExtendedTransport`.
use sony_prs.Base.{
  ℕ, zero, suc, ◌+◌, ◌-◌, ◌^◌, ◌&&◌, not, List, [], ◌∷◌, ◌++◌, ltb, leb, ◌==◌, if◌then◌else◌,
  length, min, is_empty,
}
use sony_prs.Text.{Str, codes, starts_with}
use sony_prs.X50.{invalid_argument, protocol, u32_max}
use sony_prs.X50.Io.{M, pure, lift, ◌>>=◌, ◌>>◌, check}
use sony_prs.X50.Words.{to_le_bytes}
use sony_prs.X50.Sony.Transfers.{
  Host, path_request, signed_status, send_command_bytes, receive_command_bytes,
  exchange_command_bytes,
}

-- The 0x10c bytes of a read request: the padded path and three words.
abbrev pub read_request : List ℕ → ℕ → ℕ → ℕ → List ℕ
read_request path_bytes offset count total_size =
    path_bytes ++ (to_le_bytes 4 offset ++ (to_le_bytes 4 count ++ to_le_bytes 4 total_size))

module _ (host : Host) (max_transfer : ℕ) where
  open host use {World, write_all}

  unfoldable pub initialize : M World (Unit {0})
  initialize = do
    response ← receive_command_bytes host max_transfer 0x06 1 0x15c
    check (length response == 0x15c && starts_with response (codes "Reader" ++ 0 ∷ [])) protocol

  unfoldable pub file_size : Str → M World ℕ
  file_size path = do
    request ← lift (path_request path)
    response ← exchange_command_bytes host max_transfer 0x80 request 4
    status ← lift (signed_status response)
    check (ltb status (2 ^ 31)) protocol
    pure status

  -- The `while remaining != 0` of `file_read`, with the bytes so far. Each round takes at least one
  -- byte off `remaining`, so `remaining` is fuel enough.
  unfoldable pub read_chunks : ℕ → ℕ → List ℕ → M World (List ℕ)
  read_chunks zero remaining result = pure result
  read_chunks (suc fuel) remaining result =
      let chunk = min (min remaining max_transfer) 0x1000 in
      let phase = if chunk == remaining then 2 else 3 in
      if remaining == 0 then pure result else do
        response ← receive_command_bytes host max_transfer 0x81 phase chunk
        check (length response == chunk) protocol
        read_chunks fuel (remaining - chunk) (result ++ response)

  unfoldable pub file_read : Str → ℕ → ℕ → ℕ → M World (List ℕ)
  file_read path offset count total_size = do
    check (not (count == 0)) invalid_argument
    check (leb offset u32_max) invalid_argument
    check (leb count u32_max) invalid_argument
    check (leb total_size u32_max) invalid_argument
    check (leb (offset + count) u32_max) invalid_argument
    check (leb (offset + count) total_size) invalid_argument
    path_bytes ← lift (path_request path)
    send_command_bytes host max_transfer 0x81 (read_request path_bytes offset count total_size)
    status_response ← receive_command_bytes host max_transfer 0x81 3 4
    status ← lift (signed_status status_response)
    check (status == 0) protocol
    read_chunks count count []

  -- The `while offset < total_size` of `copy_file`. Each round copies at least one byte, so the
  -- bytes left are fuel enough.
  unfoldable pub copy_chunks : ℕ → Str → ℕ → ℕ → M World ℕ
  copy_chunks zero path offset total_size = pure offset
  copy_chunks (suc fuel) path offset total_size =
      if not (ltb offset total_size) then pure offset else do
        bytes ←
            file_read path offset (min (total_size - offset) (min max_transfer 0x1000)) total_size
        check (not (is_empty bytes)) protocol
        write_all bytes
        copy_chunks fuel path (offset + length bytes) total_size

  unfoldable pub copy_file : Str → M World ℕ
  copy_file path = do
    initialize
    total_size ← file_size path
    copy_chunks total_size path 0 total_size
