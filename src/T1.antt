-- ===== src/T1.antt =====
-- crates/prs-t1-agent/src: the pure parts of the PRS-T1 runtime, one module for each source file,
-- and the display rectangle of framebuffer.rs. The device is a 32-bit ARM, so `usize` is `u32`.
pub mod Region
pub mod Damage
pub mod Refresh
pub mod Orientation
pub mod Preferences
pub mod Details
pub mod Ui
pub mod Sync
use sony_prs.Base.{ℕ, ◌+◌, ◌-◌, ◌^◌, min}

abbrev pub u32_max : ℕ
u32_max = 2 ^ 32 - 1

-- `a.saturating_add(b)` on `u32`; `saturating_sub` is `-`.
abbrev pub saturating_add : ℕ → ℕ → ℕ
saturating_add a b = min (a + b) u32_max
