-- ===== src/X50.antt =====
-- crates/sony-x50/src: the read-only file protocol of the Sony x50 readers and its transport.
-- A byte string is the list of its bytes, and `usize` is that of a 64-bit host. An error keeps its
-- variant; its message is not modelled.
pub mod Words
pub mod Protocol
pub mod RoundTrip
pub mod Io
pub mod Sony
use sony_prs.Base.{ℕ, ◌-◌, ◌^◌}

-- error.rs, without the variants that only wrap an operating system error.
pub data Error : Type 0 where
  invalid_argument protocol : Error
  -- a failed SCSI command
  transport : Error

abbrev pub u32_max : ℕ
u32_max = 2 ^ 32 - 1

abbrev pub usize_max : ℕ
usize_max = 2 ^ 64 - 1
