-- ===== src/Block/Fault.antt =====
-- crates/reclaim-block/src/fault.rs: a source that reports chosen blocks as bad.
pub mod Injected
use reclaim.Prelude.{
  ℕ, ◌+◌, ◌-◌, ◌*◌, ◌/◌, min, max, Bool, false, ◌&&◌, ◌||◌, List, [], ◌∷◌, leb, ◌==◌, if◌then◌else◌,
  length, replicate, is_multiple_of, overwrite, for_range,
}
use reclaim.Block.Source.{ReadResult, BlockSource, mark_bad}

-- The `BTreeSet` of block numbers, as a list.
pub record FaultInjector : Type 0 where
  pub inner : BlockSource
  pub bad_lbas : List ℕ

pub is_injected : List ℕ → ℕ → Bool
is_injected [] lba = false
is_injected (x ∷ xs) lba = x == lba || is_injected xs lba

-- `if let Some(sect) = buf.get_mut(start..end) { sect.fill(0) }`
pub zero_range : List ℕ → ℕ → ℕ → List ℕ
zero_range buf start stop =
    if leb start stop && leb stop (length buf)
    then overwrite buf start (replicate (stop - start) 0)
    else buf

-- One round of the loop of `read_at`. The number of the sector is a natural number here; the 64-bit
-- sum of the code is the same unless the request itself runs past the last 64-bit sector number.
pub inject_sector : FaultInjector → ℕ → ℕ → ReadResult × List ℕ → ReadResult × List ℕ
unfolding is_injected zero_range
inject_sector f first_lba i (res, buf) =
    let ss = max f.inner.sector_size 1 in
    if is_injected f.bad_lbas (first_lba + i)
    then (mark_bad res i, zero_range buf (i * ss) (min (i * ss + ss) (length buf)))
    else (res, buf)

pub read_at : FaultInjector → ℕ → List ℕ → ReadResult × List ℕ
unfolding inject_sector
read_at f offset buf =
    let ss = max f.inner.sector_size 1 in
    let s = f.inner.read_at offset buf in
    if is_multiple_of offset ss
    then for_range s.0.sector_count 0 (inject_sector f (offset / ss)) s
    else s

pub source : FaultInjector → BlockSource
source f = record {
  len = f.inner.len;
  sector_size = f.inner.sector_size;
  physical_sector_size = f.inner.physical_sector_size;
  read_at = read_at f;
}
