-- ===== src/ExFat.antt =====
-- crates/fs-exfat/src/lib.rs: exFAT.
pub mod Boot
pub mod Files
pub mod Names
pub mod Walk
