-- ===== src/Ext/Volume.antt =====
-- crates/fs-ext/src/lib.rs: probe and open, and the walk of a volume with what its own journal and
-- free blocks yield. The label and the identifier are left out.
use reclaim.Prelude.{
  ℕ, ◌≡◌, Bool, true, Option, none, some, leb, ◌==◌, if◌then◌else◌, length, u32_max, sat_mul,
}
use reclaim.Block.Source.{BlockSource}
use reclaim.FsCore.Bitmap.{Bitmap, is_block_allocated}
use reclaim.FsCore.Types.{FsError, WalkOpts}
use reclaim.Ext.Superblock.{Superblock, read_superblock}
use reclaim.Ext.Blocks.{build_bitmap}
use reclaim.Ext.Journal.{find_inode, recover_from_journal, scan_extent_nodes}
use reclaim.Ext.Walk
use reclaim.Ext.Walk.{WalkCtx}
use reclaim.Ext.Walk.Tree.{IsCounted, walk_ends}

pub record Probe : Type 0 where
  pub confidence : ℕ
  pub block_size : ℕ
  pub total_bytes : ℕ

pub probe : BlockSource → Option Probe
probe src = elim (read_superblock src) [
  | none ↦ none
  | some s ↦ some (record {
    confidence = if s.found_at_group == 0 then 950 else 800;
    block_size = if leb s.block_size u32_max then s.block_size else 0;
    total_bytes = sat_mul s.blocks_count s.block_size;
  })
]

pub data Opened : Type 0 where
  ok : Superblock → Opened
  err : FsError → Opened

pub open_volume : BlockSource → Opened
open_volume src = elim (read_superblock src) [
  | none ↦ Opened.err FsError.not_this_fs
  | some sb ↦ if length sb.groups == 0 then Opened.err FsError.corrupt else Opened.ok sb
]

-- The `allocated` of `extent_node_scan`.
pub allocated_in : Option Bitmap → ℕ → Bool
allocated_in none b = true
allocated_in (some bm) b = is_block_allocated bm b

-- `walk`, with fuel for the tree.
pub walk_volume : BlockSource → Superblock → WalkOpts → ℕ → Option WalkCtx
unfolding allocated_in
walk_volume src sb opts fuel =
    Walk.walk src sb (find_inode (recover_from_journal src sb)) opts fuel
      (scan_extent_nodes src sb (allocated_in (build_bitmap src sb)))

-- Whatever the volume holds, its journal and its free blocks included, the walk over the
-- directories, the inodes and the extent nodes ends, with no more entries than the cap, counted as
-- they were sent.
pub walk_volume_ends :
    (src : BlockSource) (sb : Superblock) (opts : WalkOpts)
    → (fuel : ℕ) × (w : WalkCtx) × (walk_volume src sb opts fuel ≡ some w) × IsCounted opts w
unfolding walk_volume
walk_volume_ends src sb opts =
    walk_ends src sb (find_inode (recover_from_journal src sb)) opts
      (scan_extent_nodes src sb (allocated_in (build_bitmap src sb)))
