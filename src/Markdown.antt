-- ===== src/Markdown.antt =====
-- crates/prs-markdown/src: the Markdown reader's own logic, one module for each source file. A
-- screen coordinate is an `i32`; a page or line number is a `usize`, which is a `u32` on the device.
pub mod Coordinates
pub mod Navigation
pub mod Geometry
pub mod Pagination
pub mod Reader
pub mod Session
pub mod Resources
