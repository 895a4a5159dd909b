-- ===== src/Imaging.antt =====
-- crates/reclaim-block/src/imaging: the copy of a source into an image file.
pub mod Types
pub mod Dest
pub mod Imager
