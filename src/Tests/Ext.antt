-- ===== src/Tests/Ext.antt =====
-- The theorems on ext volumes at concrete inputs.
use reclaim.Prelude.{
  ℕ, ◌+◌, ◌*◌, ◌≤◌, min, ◌≡◌, inl, refl, ap, true, false, some, List, [], ◌∷◌, arith, length,
}
use reclaim.Block.Memory.{MemorySource, source}
use reclaim.FsCore.Types.{WalkOpts}
use reclaim.FsCore.Reader.{le_u16}
use reclaim.FsCore.Extents.{Covers}
use reclaim.FsCore.Pieces.{piece_byte}
use reclaim.Part.Reader.{le_u32, le_at, le_value}
use reclaim.FsCore.Bitmap
use reclaim.FsCore.Bitmap.{Bitmap, is_block_allocated}
use reclaim.Ext.Blocks.{each_group, group_bit, build_bitmap}
use reclaim.Ext.Blocks.Groups.{group_map, build_bitmap-group_bit}
use reclaim.Ext.Superblock.{GroupDesc, Superblock}
use reclaim.Ext.Inode.{Inode, runs_to_extents, sort_blocks, insert_block, extents, max_file_blocks}
use reclaim.Ext.Inode.Sorted.{IsSortOf}
use reclaim.Ext.Inode.Extents.{block_starts, runs_to_extents-Covers}
use reclaim.Ext.Inode.Budget.{length-extents}
use reclaim.Ext.Dir.{DirEntry, parse_dir_block, round4, is_plausible_name, is_dots, all_plain}
use reclaim.Ext.Dir.Stale.{IsRecordAt, Slack, ends, gap, found}
use reclaim.Ext.Dir.Slack.{Chain, closed, live, parse_dir_block-Chain}
use reclaim.Ext.Walk.{civil_from_days, WalkCtx}
use reclaim.Ext.Walk.Dates.{next_day, civil_from_days_lem}
use reclaim.Ext.Walk.Tree.{IsCounted}
use reclaim.Ext.Volume.{walk_volume, walk_volume_ends}

abbrev sb : Superblock
sb = record {
  block_size = 1024;
  inode_size = 128;
  inodes_count = 100;
  blocks_count = 1000;
  first_data_block = 1;
  blocks_per_group = 8192;
  inodes_per_group = 100;
  desc_size = 32;
  has_64bit = false;
  journal_inum = 0;
  groups = [];
  found_at_group = 0;
}

blocks : List (ℕ × ℕ)
blocks = (2, 9) ∷ (0, 5) ∷ (1, 6) ∷ []

blocks_sorted : sort_blocks blocks ≡ (0, 5) ∷ (1, 6) ∷ (2, 9) ∷ []
unfolding blocks sort_blocks insert_block
blocks_sorted = refl

runs_to_extents-Covers_example :
    IsSortOf blocks (sort_blocks blocks)
    × Covers
        (runs_to_extents sb blocks 3000)
        (min (length (sort_blocks blocks) * 1024) 3000)
        (piece_byte 1024 (block_starts 1024 (sort_blocks blocks)))
runs_to_extents-Covers_example =
    runs_to_extents-Covers sb blocks 3000 (omega arith)
      (rw blocks_sorted (omega arith, (omega arith, (omega arith, tt))))
      (omega (arith, ap length blocks_sorted))

few : MemorySource
few = record { bytes = 7 ∷ 8 ∷ 9 ∷ 10 ∷ []; sector_size = 2 }

inode : Inode
inode = record {
  mode = 0x81A4;
  size = 100;
  dtime = 0;
  links = 1;
  flags = 0x80000;
  ctime = 0;
  mtime = 0;
  i_block = [];
}

length-extents_example : length (extents (source few) sb inode) ≤ max_file_blocks + 1
length-extents_example = length-extents (source few) sb inode

-- A record `.`, and one of 36 bytes that has absorbed the one at byte 24.
abbrev block : List ℕ
block =
    2 ∷ 0 ∷ 0 ∷ 0 ∷ 12 ∷ 0 ∷ 1 ∷ 2 ∷ b'.' ∷ 0 ∷ 0 ∷ 0 ∷ 12 ∷ 0 ∷ 0 ∷ 0 ∷ 36 ∷ 0 ∷ 1 ∷ 1 ∷ b'a' ∷ 0
    ∷ 0 ∷ 0 ∷ 13 ∷ 0 ∷ 0 ∷ 0 ∷ 24 ∷ 0 ∷ 3 ∷ 2 ∷ b'b' ∷ b'c' ∷ b'd' ∷ 0 ∷ 0 ∷ 0 ∷ 0 ∷ 0 ∷ 0 ∷ 0 ∷ 0
    ∷ 0 ∷ 0 ∷ 0 ∷ 0 ∷ 0 ∷ []

abbrev kept : DirEntry
kept = record { inode = 12; raw_name = b'a' ∷ []; file_type = 1; deleted = false }

abbrev removed : DirEntry
removed = record { inode = 13; raw_name = b'b' ∷ b'c' ∷ b'd' ∷ []; file_type = 2; deleted = true }

abbrev dot : DirEntry
dot = record { inode = 2; raw_name = b'.' ∷ []; file_type = 2; deleted = false }

dot-IsRecordAt : IsRecordAt block 0 dot
unfolding le_u32 le_at le_value
dot-IsRecordAt = record {
  inode = refl;
  used = omega arith;
  name_len = refl;
  file_type = refl;
  some_name = omega arith;
  name = refl;
  inside = omega arith;
}

kept-IsRecordAt : IsRecordAt block 12 kept
unfolding le_u32 le_at le_value
kept-IsRecordAt = record {
  inode = refl;
  used = omega arith;
  name_len = refl;
  file_type = refl;
  some_name = omega arith;
  name = refl;
  inside = omega arith;
}

removed-IsRecordAt : IsRecordAt block 24 removed
unfolding le_u32 le_at le_value
removed-IsRecordAt = record {
  inode = refl;
  used = omega arith;
  name_len = refl;
  file_type = refl;
  some_name = omega arith;
  name = refl;
  inside = omega arith;
}

-- The slack of `kept` holds `removed`, and then a word that is no inode.
block-Slack : Slack sb block 48 24 (removed ∷ [])
unfolding le_u32 le_at le_value round4 is_plausible_name is_dots all_plain
block-Slack =
    found 24 removed [] removed-IsRecordAt refl refl (omega arith) (omega arith) (omega arith) (
      gap 36 [] (omega arith) (inl refl)
        (gap 40 [] (omega arith) (inl refl) (ends 44 (omega arith))))

block-Chain : Chain sb block 0 2 (kept ∷ removed ∷ [])
unfolding le_u16 le_at le_value round4 is_plausible_name is_dots all_plain
block-Chain =
    live 0 12 1 dot [] (kept ∷ removed ∷ []) refl dot-IsRecordAt refl refl (omega arith)
      (omega arith) (ends 12 (omega arith))
      (live 12 36 0 kept (removed ∷ []) [] refl kept-IsRecordAt refl refl (omega arith)
        (omega arith) block-Slack (closed 48 (omega arith)))

parse_dir_block-Chain_example : parse_dir_block sb block [] ≡ kept ∷ removed ∷ []
parse_dir_block-Chain_example =
    parse_dir_block-Chain sb block 2 (kept ∷ removed ∷ []) block-Chain (omega arith)

opts : WalkOpts
opts = record {
  include_live = true;
  include_deleted = true;
  max_entries = 100;
  include_system_volume = false;
}

walk_volume_ends_example :
    (fuel : ℕ) × (w : WalkCtx) × (walk_volume (source few) sb opts fuel ≡ some w) × IsCounted opts w
walk_volume_ends_example = walk_volume_ends (source few) sb opts

civil_from_days_lem_example :
    (civil_from_days 0 ≡ (1970, 1, 1))
    × (civil_from_days 20_000 ≡ next_day (civil_from_days 19_999))
civil_from_days_lem_example = civil_from_days_lem 19_999 (omega arith)

-- A volume of one group, of which the source holds one block.
abbrev group : GroupDesc
group = record { block_bitmap = 0; inode_table = 0 }

abbrev small : Superblock
small = record sb { first_data_block = 0; groups = group ∷ [] }

small_bitmap : Bitmap
small_bitmap = Bitmap.new 1024 0 1 (each_group (source few) small 1 0 (group ∷ []) (0xFF ∷ []))

small_bitmap-made : build_bitmap (source few) small ≡ some small_bitmap
unfolding build_bitmap source few small_bitmap
small_bitmap-made = refl

counted_one : small_bitmap.block_count ≡ 1
unfolding small_bitmap Bitmap.new
counted_one = refl

build_bitmap-group_bit_example :
    is_block_allocated small_bitmap 0 ≡ group_bit (group_map (source few) small group) 0
build_bitmap-group_bit_example =
    build_bitmap-group_bit (source few) small small_bitmap 0 0 group small_bitmap-made (omega arith)
      (omega arith) (omega arith) refl (omega arith) (omega (arith, counted_one))
