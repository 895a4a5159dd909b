-- ===== src/Block/View.antt =====
-- crates/reclaim-block/src/offset_view.rs: a window into a parent source, and
-- `mark_bad_from_byte` of image_file.rs, which marks its tail.
pub mod Window
pub mod Contract
pub mod Zeros
use reclaim.Prelude.{
  ℕ, ◌+◌, ◌-◌, min, max, Bool, not, ◌&&◌, ◌||◌, List, ◌++◌, ltb, leb, ◌==◌, if◌then◌else◌, length,
  take, drop, replicate, sat_add, sat_mul, div_ceil, is_multiple_of, for_range,
}
use reclaim.Block.Source.{
  ReadResult, BlockSource, all_good_result, mark_bad, mark_all_bad, mark_bad_each, mark_unread_each,
  bad_sectors, unread_sectors, align_down,
}

pub data BlockError : Type 0 where
  io out_of_range window_out_of_range geometry container : BlockError

pub data Opened {ℓ} (A : Type ℓ) : Type ℓ where
  ok : A → Opened A
  err : BlockError → Opened A

pub record OffsetView : Type 0 where
  pub inner : BlockSource
  pub start : ℕ
  pub len : ℕ

unfoldable pub new : BlockSource → ℕ → ℕ → Opened OffsetView
new inner start len =
    if not (inner.sector_size == 0) && not (is_multiple_of start inner.sector_size)
    then err BlockError.geometry
    else if ltb inner.len start || ltb (inner.len - start) len
    then err BlockError.window_out_of_range
    else ok (record { inner = inner; start = start; len = len })

-- `sector_end > start_byte` of `mark_bad_from_byte`.
pub reaches_byte : ℕ → ℕ → ℕ → ℕ → Bool
reaches_byte sector_size buf_len start_byte i =
    ltb start_byte (min (sat_mul (sat_add i 1) sector_size) buf_len)

pub mark_bad_from_byte : ReadResult → ℕ → ℕ → ℕ → ReadResult
unfolding reaches_byte
mark_bad_from_byte res sector_size buf_len start_byte =
    if leb buf_len start_byte
    then res
    else for_range res.sector_count 0
        (λ i r. if reaches_byte sector_size buf_len start_byte i then mark_bad r i else r) res

-- The branch of `read_at` for a request that runs past the window: the part inside is read, the
-- rest is zeros in sectors marked bad.
pub read_clipped : OffsetView → ℕ → List ℕ → ℕ → ReadResult × List ℕ
unfolding mark_bad_from_byte
read_clipped v parent_off buf avail =
    let ss = max v.inner.sector_size 1 in
    let (r, head) = v.inner.read_at parent_off (take avail buf) in
    let fresh = all_good_result v.inner.sector_size (div_ceil (length buf) ss) in
    let res = mark_unread_each (unread_sectors r) (mark_bad_each (bad_sectors r) fresh) in
    (
      mark_bad_from_byte res v.inner.sector_size (length buf) avail,
      head ++ replicate (length (drop avail buf)) 0,
    )

pub read_at : OffsetView → ℕ → List ℕ → ReadResult × List ℕ
unfolding read_clipped
read_at v offset buf =
    let ss = max v.inner.sector_size 1 in
    let count = div_ceil (length buf) ss in
    let parent_off = align_down v.start ss + offset in
    let avail = min (v.len - offset) (length buf) in
    if leb v.len offset || not (is_multiple_of offset ss)
    then (mark_all_bad count (all_good_result v.inner.sector_size count), replicate (length buf) 0)
    else if avail == length buf
    then v.inner.read_at parent_off buf
    else read_clipped v parent_off buf avail

pub source : OffsetView → BlockSource
source v = record {
  len = v.len;
  sector_size = v.inner.sector_size;
  physical_sector_size = v.inner.physical_sector_size;
  read_at = read_at v;
}
