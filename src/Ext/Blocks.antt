-- ===== src/Ext/Blocks.antt =====
-- crates/fs-ext/src/lib.rs: build_bitmap, the bitmaps of the groups as one bitmap of the volume.
pub mod Groups
use Prim.Native.Nat.{bit_and, bit_or}
use reclaim.Prelude.{
  ℕ, zero, suc, ◌+◌, ◌-◌, ◌*◌, ◌/◌, ◌%◌, ◌^◌, min, max, Bool, true, ◌||◌, Option, none, some, List,
  [], ◌∷◌, ltb, leb, ◌==◌, if◌then◌else◌, get_elem?, set, replicate, u32_max, sat_add, sat_mul,
  div_ceil,
}
use reclaim.Block.Source.{BlockSource}
use reclaim.FsCore.Bitmap
use reclaim.FsCore.Bitmap.{Bitmap}
use reclaim.FsCore.Reader.{read}
use reclaim.Ext.Superblock.{Superblock, GroupDesc}

-- `bits.get_mut(block / 8)`, with the bit of the block set or cleared.
pub put_bit : List ℕ → ℕ → Bool → List ℕ
put_bit bits block used = elim (get_elem? bits (block / 8)) [
  | none ↦ bits
  | some b ↦
      let bit = 2 ^ (block % 8) in
      set bits (block / 8) (if used then bit_or b bit else bit_and b (255 - bit))
]

-- Bit `i` of the bitmap of a group; a bit that it lacks counts as set.
pub group_bit : List ℕ → ℕ → Bool
group_bit bm i = elim (get_elem? bm (i / 8)) [
  | none ↦ true
  | some b ↦ bit_and (b / 2 ^ (i % 8)) 1 == 1
]

-- The loop over the blocks of one group, on the blocks that are left.
pub group_bits : List ℕ → ℕ → ℕ → ℕ → ℕ → List ℕ → List ℕ
unfolding put_bit group_bit
group_bits bm block_count first zero i bits = bits
group_bits bm block_count first (suc left) i bits =
    let block = sat_add first i in
    let rest = group_bits bm block_count first left (i + 1) (put_bit bits block (group_bit bm i)) in
    if leb block_count block then bits else rest

pub each_group : BlockSource → Superblock → ℕ → ℕ → List GroupDesc → List ℕ → List ℕ
unfolding group_bits
each_group src sb block_count g [] bits = bits
each_group src sb block_count g (gd ∷ gds) bits =
    let bm = read src (sat_mul gd.block_bitmap sb.block_size) sb.block_size in
    let first = sat_add sb.first_data_block (sat_mul g sb.blocks_per_group) in
    each_group src sb block_count (g + 1) gds
      (group_bits bm block_count first sb.blocks_per_group 0 bits)

abbrev pub max_bitmap_blocks : ℕ
max_bitmap_blocks = 64 * 1024 * 1024

unfoldable pub build_bitmap : BlockSource → Superblock → Option Bitmap
unfolding each_group
build_bitmap src sb =
    let addressable = src.len / max sb.block_size 1 + 1 in
    let block_count = min sb.blocks_count addressable in
    let bits = replicate (div_ceil block_count 8) 0xFF in
    if block_count == 0 || ltb max_bitmap_blocks block_count
    then none
    else some (
        Bitmap.new (if leb sb.block_size u32_max then sb.block_size else 4096) 0 block_count
          (each_group src sb block_count 0 sb.groups bits))
