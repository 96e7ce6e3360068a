-- ===== src/X50/Sony/Copying.antt =====
-- The results of `file_read` and of the loop of `copy_file`.
use sony_prs.Base.{
  ℕ, zero, suc, ◌+◌, ◌-◌, ◌≤◌, ◌<◌, ◌≡◌, List, [], ◌++◌, ◌==◌, arith, length, min, ok, Bool-cases,
  leb→le, ==_iff, inl, inr, length-append,
}
use sony_prs.Text.{Str}
use sony_prs.X50.Io.{M}
use sony_prs.X50.Io.Returns.{Returns, Returns-bind, Returns-bind_with, Returns-pure, Returns-check}
use sony_prs.X50.Sony.Transfers.{Host, receive_command_bytes}
use sony_prs.X50.Sony.Files.{read_chunks, file_read}

-- An empty transfer is refused.
receive-Returns :
    (host : Host) (max_transfer command phase capacity : ℕ)
    → Returns
        (λ (r : List ℕ). 0 < capacity)
        (receive_command_bytes host max_transfer command phase capacity)
unfolding receive_command_bytes
receive-Returns host max_transfer command phase capacity =
    Returns-check _ _ _ (λ h. Returns-bind _ _ (λ r. Returns-pure _ (ground arith)))

module _ (host : Host) (max_transfer : ℕ) where
  open host use {World, write_all}

  -- The chunks of a read that succeeds add up to the bytes that were asked for.
  read_chunks-Returns :
      (fuel remaining : ℕ) (result : List ℕ)
      → remaining ≤ fuel
      → Returns
          (λ (bytes : List ℕ). length bytes ≡ length result + remaining)
          (read_chunks host max_transfer fuel remaining result)
  unfolding read_chunks
  read_chunks-Returns zero remaining result h = Returns-pure result (omega arith)
  read_chunks-Returns (suc fuel) remaining result h = elim (Bool-cases (remaining == 0)) [
    | inl done ↦ rw done (Returns-pure result (ground arith))
    | inr more ↦
        let chunk = min (min remaining max_transfer) 0x1000 in
        rw more (
          Returns-bind_with (λ _. 0 < chunk) _ _ (receive-Returns host max_transfer 0x81 _ chunk)
            (λ response some_bytes. Returns-check _ _ _ (λ full.
              weaken result response (remaining - chunk) remaining
                (read_chunks host max_transfer fuel (remaining - chunk) (result ++ response))
                (omega (arith, (==_iff (length response) chunk).0 full))
                (read_chunks-Returns fuel (remaining - chunk) (result ++ response) (omega arith)))))
  ]
    where
      weaken :
          (result response : List ℕ) (left remaining : ℕ) (m : M World (List ℕ))
          → length response + left ≡ remaining
          → Returns (λ (bytes : List ℕ). length bytes ≡ length (result ++ response) + left) m
          → Returns (λ (bytes : List ℕ). length bytes ≡ length result + remaining) m
      weaken result response left remaining m e h = record {
        at = λ w a p. omega (arith, h.at w a p, length-append result response);
      }

  -- A read that succeeds has the number of bytes that was asked for, within the file.
  file_read-Returns :
      (path : Str) (offset count total_size : ℕ)
      → Returns
          (λ (bytes : List ℕ). (length bytes ≡ count) × (0 < count) × (offset + count ≤ total_size))
          (file_read host max_transfer path offset count total_size)
  unfolding file_read
  file_read-Returns path offset count total_size = Returns-check _ _ _ (λ some_bytes.
      Returns-check _ _ _ (λ _. Returns-check _ _ _ (λ _. Returns-check _ _ _ (λ _.
        Returns-check _ _ _ (λ _. Returns-check _ _ _ (λ inside. Returns-bind _ _ (λ _.
          Returns-bind _ _ (λ _. Returns-bind _ _ (λ _. Returns-bind _ _ (λ _.
            Returns-check _ _ _ (λ _.
              facts (ground arith) (leb→le _ _ inside)
                (read_chunks-Returns count count [] (omega arith)))))))))))))
    where
      facts :
          {m : M World (List ℕ)}
          → 0 < count
          → offset + count ≤ total_size
          → Returns (λ (bytes : List ℕ). length bytes ≡ length {A = ℕ} [] + count) m
          → Returns
              (λ (bytes : List ℕ).
                (length bytes ≡ count) × (0 < count) × (offset + count ≤ total_size))
              m
      facts p q h = record { at = λ w a e. (omega (arith, h.at w a e), p, q) }

  -- A read that succeeds returns the number of bytes that was asked for, and these lie within the
  -- file, whatever the device does.
  pub file_read-length :
      (path : Str) (offset count total_size : ℕ) (w : World) (bytes : List ℕ)
      → (file_read host max_transfer path offset count total_size w).0 ≡ ok bytes
      → (length bytes ≡ count) × (0 < count) × (offset + count ≤ total_size)
  file_read-length path offset count total_size w bytes e =
      (file_read-Returns path offset count total_size).at w bytes e
