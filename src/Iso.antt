-- ===== src/Iso.antt =====
-- crates/fs-iso/src/lib.rs: ISO 9660 with Joliet names, and the detection of UDF.
pub mod Volume
pub mod Walk
