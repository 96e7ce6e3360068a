-- ===== src/Tests.antt =====
-- The properties at concrete inputs, one module for each part of the program.
pub mod Bundles
pub mod Builders
pub mod Lines
pub mod Screens
pub mod Shell
pub mod Syncs
pub mod Readers
pub mod Documents
