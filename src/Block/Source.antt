-- ===== src/Block/Source.antt =====
-- crates/reclaim-block/src/source.rs: the block source interface and the per-sector outcome of a
-- read.
pub mod Laws
pub mod Align
pub mod Carry
pub mod Contract
use reclaim.Prelude.{
  ℕ, ◌-◌, ◌%◌, Bool, not, ◌&&◌, List, [], ◌∷◌, ◌==◌, if◌then◌else◌, set, sat_add, for_range,
}
use reclaim.Block.Bitset
use reclaim.Block.Bitset.{Bitset}

pub data SectorStatus : Type 0 where
  good bad unread : SectorStatus

pub record ReadResult : Type 0 where
  pub sector_size : ℕ
  pub sector_count : ℕ
  pub bad : Bitset
  pub unread : Bitset

-- `ReadResult::good`
pub all_good_result : ℕ → ℕ → ReadResult
all_good_result sector_size sector_count = record {
  sector_size = sector_size;
  sector_count = sector_count;
  bad = Bitset.new sector_count;
  unread = Bitset.new sector_count;
}

pub mark_bad : ReadResult → ℕ → ReadResult
mark_bad r i = record r { bad = Bitset.set r.bad i }

pub mark_unread : ReadResult → ℕ → ReadResult
mark_unread r i = record r { unread = Bitset.set r.unread i }

pub status : ReadResult → ℕ → SectorStatus
status r i =
    if Bitset.get r.bad i
    then SectorStatus.bad
    else if Bitset.get r.unread i
    then SectorStatus.unread
    else SectorStatus.good

pub all_good : ReadResult → Bool
all_good r = not (Bitset.any r.bad) && not (Bitset.any r.unread)

pub any_bad : ReadResult → Bool
any_bad r = Bitset.any r.bad

pub any_unread : ReadResult → Bool
any_unread r = Bitset.any r.unread

pub bad_count : ReadResult → ℕ
bad_count r = Bitset.count_ones r.bad

pub bad_sectors : ReadResult → List ℕ
bad_sectors r = Bitset.iter_set r.bad

pub unread_sectors : ReadResult → List ℕ
unread_sectors r = Bitset.iter_set r.unread

-- The trait `BlockSource`. `read_at` takes the offset and the caller's buffer, and returns the
-- outcome and the buffer as it leaves it.
pub record BlockSource : Type 0 where
  pub len : ℕ
  pub sector_size : ℕ
  pub physical_sector_size : ℕ
  pub read_at : ℕ → List ℕ → ReadResult × List ℕ

-- `for i in 0..count { res.mark_bad(i) }`
abbrev pub mark_all_bad : ℕ → ReadResult → ReadResult
mark_all_bad count r = for_range count 0 (λ i r'. mark_bad r' i) r

-- `for i in sectors { res.mark_bad(i) }`, and the same for unread ones.
pub mark_bad_each : List ℕ → ReadResult → ReadResult
mark_bad_each [] r = r
mark_bad_each (i ∷ is) r = mark_bad_each is (mark_bad r i)

pub mark_unread_each : List ℕ → ReadResult → ReadResult
mark_unread_each [] r = r
mark_unread_each (i ∷ is) r = mark_unread_each is (mark_unread r i)

pub align_down : ℕ → ℕ → ℕ
align_down value align = value - value % align

pub align_up : ℕ → ℕ → ℕ
align_up value align = if value % align == 0 then value else sat_add value (align - value % align)
