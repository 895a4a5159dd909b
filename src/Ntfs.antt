-- ===== src/Ntfs.antt =====
-- crates/fs-ntfs: the parts of an MFT record.
pub mod Record
