-- ===== src/FsCore.antt =====
-- crates/reclaim-fs-core: what the file systems share.
pub mod Bitmap
pub mod Reader
pub mod Text
pub mod Types
pub mod Extents
pub mod Pieces
