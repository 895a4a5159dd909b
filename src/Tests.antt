-- ===== src/Tests.antt =====
-- The theorems at concrete inputs: small media, tables and records.
pub mod Data
pub mod Block
pub mod Part
pub mod Ntfs
pub mod Image
pub mod Fat
pub mod ExFat
pub mod Carve
pub mod Iso
pub mod Ext
