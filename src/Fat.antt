-- ===== src/Fat.antt =====
-- crates/fs-fat/src/lib.rs: FAT12, FAT16 and FAT32.
pub mod Boot
pub mod Table
pub mod Names
pub mod Files
pub mod Walk
