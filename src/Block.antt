-- ===== src/Block.antt =====
-- crates/reclaim-block: the read-only block layer.
pub mod Bitset
pub mod Source
pub mod Fault
pub mod Segments
pub mod Concat
pub mod View
pub mod BadBlock
pub mod Memory
