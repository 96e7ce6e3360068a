-- ===== src/Wire.antt =====
-- crates/prs350-wire/src/lib.rs: the serial wire format of the PRS-350. A line is a list of bytes,
-- a text a list of characters. An error keeps its variant; its message is not modelled.
pub mod Lines
pub mod Requests
pub mod Responses
pub mod Fields
pub mod RequestRoundTrip
pub mod RequestRange
pub mod ResponseLines
pub mod Overlong
pub mod ResponseRoundTrip
use sony_prs.Base.{ℕ, ◌-◌, ◌*◌, ◌^◌, List, [], ◌∷◌, Option, none, some, Bool, true, false}
use sony_prs.Text.{Str, str_eq}

pub data Error : Type 0 where
  invalid_argument protocol : Error

abbrev pub max_line_len : ℕ
max_line_len = 1024

abbrev pub max_exec_bytes : ℕ
max_exec_bytes = 1024 * 1024

abbrev pub max_shell_bytes : ℕ
max_shell_bytes = 4096

abbrev pub u32_max : ℕ
u32_max = 2 ^ 32 - 1

-- `usize` is that of a 64-bit host, which reads the responses.
abbrev pub usize_max : ℕ
usize_max = 2 ^ 64 - 1

pub data Request : Type 0 where
  ping info status reboot probe render capture : Request
  execute shell : (bytes crc32 : ℕ) → Request

pub record FramebufferHeader : Type 0 where
  pub width : ℕ
  pub height : ℕ
  pub format : Str
  pub bytes : ℕ

pub data Response : Type 0 where
  pong rebooting : Response
  info status probe rendered ready executed error : Str → Response
  ack : (kind : Str) (bytes : ℕ) → Response
  framebuffer : FramebufferHeader → Response
  shell : (bytes : ℕ) (status : Str) → Response

-- `fields.next()`: the field, and the fields left.
abbrev pub next : List Str → Option Str × List Str
next [] = (none, [])
next (w ∷ ws) = (some w, ws)

-- `field == Some(text)`.
abbrev pub is_some_eq : Option Str → Str → Bool
is_some_eq none t = false
is_some_eq (some s) t = str_eq s t

abbrev pub is_some {ℓ} : {A : Type ℓ} → Option A → Bool
is_some none = false
is_some (some a) = true
