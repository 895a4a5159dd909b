-- ===== src/Part.antt =====
-- crates/reclaim-part: the partition schemes of a source.
pub mod Types
pub mod Reader
pub mod Labels
pub mod Crc
pub mod Mbr
pub mod Gpt
pub mod Scan
