-- ===== src/Carve.antt =====
-- crates/reclaim-carve: the search for files by their signatures.
pub mod Matcher
