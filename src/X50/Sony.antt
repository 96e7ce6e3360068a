-- ===== src/X50/Sony.antt =====
-- sony.rs: the vendor transport and the file operations on it. The SCSI device
-- (crates/scsi-transport) and the local writer are a parameter, `Host`.
pub mod Transfers
pub mod Files
pub mod Copying
