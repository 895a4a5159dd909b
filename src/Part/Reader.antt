-- ===== src/Part/Reader.antt =====
-- crates/reclaim-part/src/lib.rs: reads at any offset, and little-endian numbers.
pub mod Bytes
pub mod Numbers
use reclaim.Prelude.{
  ℕ, ◌+◌, ◌-◌, ◌*◌, ◌%◌, min, max, ◌||◌, none, some, List, [], ◌∷◌, leb, ◌==◌, if◌then◌else◌,
  replicate, sat_add, sat_mul, div_ceil, slice, copy_slice,
}
use reclaim.Block.Source.{BlockSource}

-- `align_up` of this crate, the same as the block layer's.
unfoldable pub align_up : ℕ → ℕ → ℕ
align_up v a = if v % a == 0 then v else sat_add v (a - v % a)

-- The aligned window that covers a request, and what is copied out of it.
unfoldable pub aligned_end : ℕ → ℕ → ℕ → ℕ
unfolding align_up
aligned_end stop total ss = min (sat_mul (div_ceil stop ss) ss) (align_up total ss)

unfoldable pub read_span : BlockSource → ℕ → ℕ → ℕ → ℕ → List ℕ → List ℕ
read_span src offset n aligned_start span out =
    let buf = (src.read_at aligned_start (replicate span 0)).1 in
    let skip = offset - aligned_start in
    let stop = min (sat_add offset n) src.len in
    let copied = min (min n (span - skip)) (stop - offset) in
    copy_slice out 0 copied (slice skip copied buf)

unfoldable pub read_bytes : BlockSource → ℕ → ℕ → List ℕ
unfolding read_span aligned_end
read_bytes src offset n =
    let out = replicate n 0 in
    let ss = max src.sector_size 1 in
    let aligned_start = offset - offset % ss in
    let stop = min (sat_add offset n) src.len in
    let a_end = aligned_end stop src.len ss in
    if n == 0 || leb src.len offset
    then out
    else if leb a_end aligned_start
    then out
    else read_span src offset n aligned_start (a_end - aligned_start) out

-- `from_le_bytes`
unfoldable pub le_value : List ℕ → ℕ
le_value [] = 0
le_value (b ∷ bs) = b + 256 * le_value bs

unfoldable pub le_at : ℕ → List ℕ → ℕ → ℕ
unfolding le_value
le_at width b off = elim (slice off width b) [ none ↦ 0 | some s ↦ le_value s ]

unfoldable pub le_u32 : List ℕ → ℕ → ℕ
unfolding le_at
le_u32 b off = le_at 4 b off

unfoldable pub le_u64 : List ℕ → ℕ → ℕ
unfolding le_at
le_u64 b off = le_at 8 b off
