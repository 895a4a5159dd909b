-- ===== src/FsCore/Reader.antt =====
-- The reads that every file-system crate has a copy of (fs-ntfs/src/lib.rs, fs-fat/src/lib.rs,
-- fs-ext/src/bytes.rs): bytes at any offset, and little-endian numbers, zero where they are cut off.
pub mod Bytes
use reclaim.Prelude.{
  ℕ, ◌-◌, ◌%◌, min, max, ◌||◌, List, leb, ◌==◌, if◌then◌else◌, replicate, sat_add, sat_mul,
  div_ceil, slice, copy_slice,
}
use reclaim.Block.Source.{BlockSource}
use reclaim.Part.Reader.{le_at}

-- The part of `read` after the test for an empty request.
pub read_window : BlockSource → ℕ → ℕ → List ℕ → List ℕ
read_window src offset n out =
    let ss = max src.sector_size 1 in
    let aligned = offset - offset % ss in
    let stop = min (sat_add offset n) src.len in
    let aligned_end = sat_mul (div_ceil stop ss) ss in
    let span = aligned_end - aligned in
    let buf = (src.read_at aligned (replicate span 0)).1 in
    let skip = offset - aligned in
    let copied = min (min n (span - skip)) (stop - offset) in
    copy_slice out 0 copied (slice skip copied buf)

unfoldable pub read : BlockSource → ℕ → ℕ → List ℕ
unfolding read_window
read src offset n =
    let out = replicate n 0 in
    if n == 0 || leb src.len offset then out else read_window src offset n out

unfoldable pub le_u16 : List ℕ → ℕ → ℕ
le_u16 b off = le_at 2 b off
