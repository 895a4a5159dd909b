-- ===== src/Block/Source/Contract.antt =====
-- What the trait `BlockSource` promises of every source (the comments of `read_at` and of
-- `SectorStatus` in source.rs), in two parts: the shape of a read, and its bytes.
use reclaim.Prelude.{
  ℕ, ◌/◌, ◌<◌, max, ◌≡◌, ◌≢◌, false, List, length, get_or, div_ceil, is_multiple_of,
}
use reclaim.Block.Source.{SectorStatus, BlockSource, status}
use reclaim.Block.Source.Laws.{IsResult}

-- The sectors of a request of `n` bytes.
abbrev pub sector_count_of : BlockSource → ℕ → ℕ
sector_count_of s n = div_ceil n (max s.sector_size 1)

-- The shape of a read: it fills the whole buffer, reports each sector of it, and is all-bad at an unaligned offset.
pub record IsSource (s : BlockSource) : Type 0 where
  pub fills : (offset : ℕ) (buf : List ℕ) → length (s.read_at offset buf).1 ≡ length buf
  pub result : (offset : ℕ) (buf : List ℕ) → IsResult (s.read_at offset buf).0
  pub counts :
      (offset : ℕ) (buf : List ℕ)
      → (s.read_at offset buf).0.sector_count ≡ sector_count_of s (length buf)
  pub unaligned :
      (offset : ℕ) (buf : List ℕ) (i : ℕ)
      → is_multiple_of offset (max s.sector_size 1) ≡ false
      → i < sector_count_of s (length buf)
      → status (s.read_at offset buf).0 i ≡ SectorStatus.bad

-- No byte of a sector that is not good is left over from the medium or from the caller.
abbrev pub ZeroFills : BlockSource → Type 0
ZeroFills s =
    (offset : ℕ) (buf : List ℕ) (i : ℕ)
    → status (s.read_at offset buf).0 (i / max s.sector_size 1) ≢ SectorStatus.good
    → get_or (s.read_at offset buf).1 i 0 ≡ 0

-- The whole contract.
pub record KeepsContract (s : BlockSource) : Type 0 where
  pub shape : IsSource s
  pub zero_fills : ZeroFills s
