-- ===== src/Block/Memory.antt =====
-- crates/reclaim-block/src/memory.rs: a buffer in memory as a block source.
pub mod Reads
pub mod Contract
use reclaim.Prelude.{
  ℕ, ◌-◌, ◌*◌, min, max, List, leb, if◌then◌else◌, length, replicate, sat_add, div_ceil,
  is_multiple_of, slice, for_range, copy_slice,
}
use reclaim.Block.Source.{ReadResult, BlockSource, all_good_result, mark_bad, mark_all_bad}

pub record MemorySource : Type 0 where
  pub bytes : List ℕ
  pub sector_size : ℕ

pub with_sector_size : List ℕ → ℕ → MemorySource
with_sector_size bytes sector_size = record { bytes = bytes; sector_size = max sector_size 1 }

-- `MemorySource::new`, with the default sector size of 512.
pub new : List ℕ → MemorySource
unfolding with_sector_size
new bytes = with_sector_size bytes 512

-- One round of the loop of `read_at`: sector `i` of the request.
pub read_sector : MemorySource → ℕ → ℕ → ReadResult × List ℕ → ReadResult × List ℕ
read_sector m offset i (r, buf) =
    let ss = m.sector_size in
    let sect_off = sat_add offset (i * ss) in
    let want = min ss (length buf - i * ss) in
    let n = min want (length m.bytes - sect_off) in
    if leb (length m.bytes) sect_off
    then (mark_bad r i, buf)
    else (r, copy_slice buf (i * ss) n (slice sect_off n m.bytes))

pub read_at : MemorySource → ℕ → List ℕ → ReadResult × List ℕ
read_at m offset buf =
    let count = div_ceil (length buf) m.sector_size in
    let zeroed = replicate (length buf) 0 in
    let r = all_good_result m.sector_size count in
    if is_multiple_of offset m.sector_size
    then for_range count 0 (read_sector m offset) (r, zeroed)
    else (mark_all_bad count r, zeroed)

unfoldable pub source : MemorySource → BlockSource
source m = record {
  len = length m.bytes;
  sector_size = m.sector_size;
  physical_sector_size = m.sector_size;
  read_at = read_at m;
}
