-- ===== src/Ext/Journal.antt =====
-- crates/fs-ext/src/journal.rs: the inodes that the journal holds copies of, and the extent lists of
-- free blocks that once were leaves of an extent tree.
use Prim.Native.Nat.{bit_and, bit_or}
use reclaim.Prelude.{
  ℕ, zero, suc, ◌+◌, ◌-◌, ◌*◌, ◌/◌, ◌^◌, min, max, Bool, true, false, not, ◌&&◌, ◌||◌, Option, none,
  some, List, [], ◌∷◌, ◌++◌, ltb, leb, ◌==◌, if◌then◌else◌, length, get_elem?, get_or, u32_max,
  sat_add, sat_mul, slice,
}
use reclaim.Block.Source.{BlockSource}
use reclaim.FsCore.Types.{Extent}
use reclaim.FsCore.Reader.{read, le_u16}
use reclaim.Part.Reader.{le_u32}
use reclaim.Ext.Superblock.{Superblock, GroupDesc}
use reclaim.Ext.Inode.{Inode, inode_of, read_inode, extents}

-- The number of these bytes, the highest first, after `n`.
pub be_value : List ℕ → ℕ → ℕ
be_value [] n = n
be_value (b ∷ bs) n = be_value bs (n * 256 + b)

unfoldable pub be_u16 : List ℕ → ℕ → ℕ
unfolding be_value
be_u16 b off = elim (slice off 2 b) [ none ↦ 0 | some s ↦ be_value s 0 ]

unfoldable pub be_u32 : List ℕ → ℕ → ℕ
unfolding be_value
be_u32 b off = elim (slice off 4 b) [ none ↦ 0 | some s ↦ be_value s 0 ]

-- The blocks of a group's inode table.
pub table_blocks : Superblock → ℕ
table_blocks sb = sat_mul sb.inodes_per_group sb.inode_size / max sb.block_size 1

pub holds_block : Superblock → ℕ → GroupDesc → Bool
unfolding table_blocks
holds_block sb b g = leb g.inode_table b && ltb b (sat_add g.inode_table (max (table_blocks sb) 1))

pub any_holds : Superblock → ℕ → List GroupDesc → Bool
unfolding holds_block
any_holds sb b [] = false
any_holds sb b (g ∷ gs) = holds_block sb b g || any_holds sb b gs

pub in_inode_table : Superblock → ℕ → Bool
unfolding any_holds
in_inode_table sb b = any_holds sb b sb.groups

-- The layout of the tags of a journal, from its features.
pub record TagLayout : Type 0 where
  pub csum_v3 : Bool
  pub has_64 : Bool
  pub tag_size : ℕ

pub tag_layout : ℕ → TagLayout
tag_layout j_incompat =
    let v3 = not (bit_and j_incompat 0x10 == 0) in
    let has = not (bit_and j_incompat 0x2 == 0) in
    record {
      csum_v3 = v3;
      has_64 = has;
      tag_size =
          if v3
          then 16
          else (if has then 12 else 8) + (if bit_and j_incompat 0x8 == 0 then 0 else 2);
    }

-- The block and the flags of the tag at `p`.
pub tag_block : TagLayout → List ℕ → ℕ → ℕ
unfolding be_u32
tag_block t desc p =
    let lo = be_u32 desc p in
    if t.csum_v3 || t.has_64 then bit_or (be_u32 desc (p + 8) * 2 ^ 32) lo else lo

pub tag_flags : TagLayout → List ℕ → ℕ → ℕ
unfolding be_u16 be_u32
tag_flags t desc p = if t.csum_v3 then be_u32 desc (p + 4) else be_u16 desc (p + 6)

-- The loop over the tags, on the rounds that its guard leaves.
pub tags_loop : TagLayout → List ℕ → ℕ → ℕ → List ℕ → List ℕ
unfolding tag_block tag_flags
tags_loop t desc zero p out = out
tags_loop t desc (suc left) p out =
    let flags = tag_flags t desc p in
    let out' = out ++ (tag_block t desc p ∷ []) in
    let adv = if bit_and flags 0x2 == 0 then t.tag_size + 16 else t.tag_size in
    let rest = tags_loop t desc left (p + adv) out' in
    if ltb (length desc) (p + t.tag_size)
    then out
    else if not (bit_and flags 0x8 == 0) || ltb 4096 (length out')
    then out'
    else rest

unfoldable pub parse_descriptor_tags : ℕ → List ℕ → List ℕ
unfolding tag_layout tags_loop
parse_descriptor_tags j_incompat desc = tags_loop (tag_layout j_incompat) desc 100_000 12 []

-- The inodes found so far, each number once.
abbrev pub Found : Type 0
Found = List (ℕ × Inode)

pub find_inode : Found → ℕ → Option Inode
find_inode [] ino = none
find_inode ((n, i) ∷ found) ino = if n == ino then some i else find_inode found ino

-- `out.entry(ino).or_insert(inode)`
pub or_insert : Found → ℕ → Inode → Found
unfolding find_inode
or_insert found ino i = elim (find_inode found ino) [
  | some j ↦ found
  | none ↦ found ++ ((ino, i) ∷ [])
]

pub all_zero : List ℕ → Bool
all_zero [] = true
all_zero (b ∷ bs) = b == 0 && all_zero bs

pub parse_inode_bytes : List ℕ → Option Inode
parse_inode_bytes raw =
    if ltb (length raw) 128
    then none
    else elim (slice 0x28 60 raw) [ none ↦ none | some i_block ↦ some (inode_of raw i_block) ]

-- The copy of inode `k` of a block, if it has a map.
pub harvest_one : Superblock → List ℕ → ℕ → ℕ → Found → Found
unfolding parse_inode_bytes all_zero or_insert
harvest_one sb blk ino k out =
    if ltb u32_max ino then out else elim (slice (sat_mul k sb.inode_size) sb.inode_size blk) [
      | none ↦ out
      | some raw ↦ elim (parse_inode_bytes raw) [
        | none ↦ out
        | some i ↦ if ltb 0 i.size && not (all_zero i.i_block) then or_insert out ino i else out
      ]
    ]

pub harvest_each : Superblock → List ℕ → ℕ → ℕ → ℕ → ℕ → Found → Found
unfolding harvest_one
harvest_each sb blk gi first_index zero k out = out
harvest_each sb blk gi first_index (suc left) k out =
    let ino = sat_add (sat_add (sat_mul gi sb.inodes_per_group) (sat_add first_index k)) 1 in
    harvest_each sb blk gi first_index left (k + 1) (harvest_one sb blk ino k out)

-- The loop over the groups: the first whose table holds the block.
pub harvest_groups : Superblock → ℕ → List ℕ → ℕ → List GroupDesc → Found → Found
unfolding harvest_each holds_block
harvest_groups sb fs_block blk gi [] out = out
harvest_groups sb fs_block blk gi (g ∷ gs) out =
    let per_block = sb.block_size / max sb.inode_size 1 in
    let here =
      harvest_each sb blk gi (sat_mul (fs_block - g.inode_table) per_block) per_block 0 out in
    let on = harvest_groups sb fs_block blk (gi + 1) gs out in
    if holds_block sb fs_block g then here else on

unfoldable pub harvest_inode_block : Superblock → ℕ → List ℕ → Found → Found
unfolding harvest_groups
harvest_inode_block sb fs_block blk out = harvest_groups sb fs_block blk 0 sb.groups out

-- The blocks of one extent of the journal, on rounds: one more than the cap lets in.
pub extent_numbers : ℕ → ℕ → ℕ → ℕ → List ℕ → List ℕ
extent_numbers zero bs o stop v = v
extent_numbers (suc left) bs o stop v =
    let v' = v ++ (o / max bs 1 ∷ []) in
    let rest = extent_numbers left bs (sat_add o bs) stop v' in
    if not (ltb o stop) then v else if ltb 262_144 (length v') then v' else rest

pub journal_blocks : ℕ → List Extent → List ℕ → List ℕ
unfolding extent_numbers
journal_blocks bs [] v = v
journal_blocks bs (e ∷ es) v =
    journal_blocks bs es (extent_numbers 262_145 bs e.offset (sat_add e.offset e.len) v)

-- Where the loop over the targets leaves off, what it found, and whether the cap was reached.
pub record Harvest : Type 0 where
  pub data_idx : ℕ
  pub out : Found
  pub capped : Bool

pub each_target : BlockSource → Superblock → List ℕ → List ℕ → ℕ → Found → Harvest
unfolding in_inode_table
each_target src sb jblocks [] data_idx out = record {
  data_idx = data_idx;
  out = out;
  capped = false;
}
each_target src sb jblocks (target ∷ targets) data_idx out = elim (get_elem? jblocks data_idx) [
  | none ↦ record { data_idx = data_idx; out = out; capped = false }
  | some jbn ↦
      let blk = read src (sat_mul jbn sb.block_size) sb.block_size in
      let found = harvest_inode_block sb target blk out in
      let known = in_inode_table sb target in
      let rest = each_target src sb jblocks targets (data_idx + 1) (if known then found else out) in
      if known && leb 1_000_000 (length found)
      then record { data_idx = data_idx + 1; out = found; capped = true }
      else rest
]

-- The loop over the blocks of the journal, on rounds: each moves on.
pub journal_loop : BlockSource → Superblock → ℕ → List ℕ → ℕ → ℕ → Found → Found
unfolding each_target
journal_loop src sb j_incompat jblocks zero i out = out
journal_loop src sb j_incompat jblocks (suc left) i out = elim (get_elem? jblocks i) [
  | none ↦ out
  | some jb ↦
      let hdr = read src (sat_mul jb sb.block_size) 12 in
      let desc = read src (sat_mul jb sb.block_size) sb.block_size in
      let h = each_target src sb jblocks (parse_descriptor_tags j_incompat desc) (i + 1) out in
      let next = journal_loop src sb j_incompat jblocks left (i + 1) out in
      let on = journal_loop src sb j_incompat jblocks left (max h.data_idx (i + 1)) h.out in
      if not (be_u32 hdr 0 == 0xC03B3998) || not (be_u32 hdr 4 == 1)
      then next
      else if h.capped
      then h.out
      else on
]

pub recover_from_journal : BlockSource → Superblock → Found
unfolding journal_loop journal_blocks
recover_from_journal src sb =
    if sb.journal_inum == 0 || ltb sb.inodes_count sb.journal_inum
    then []
    else elim (read_inode src sb sb.journal_inum) [
      | none ↦ []
      | some jinode ↦
          let jblocks = journal_blocks sb.block_size (extents src sb jinode) [] in
          let jsb = read src (sat_mul (get_or jblocks 0 0) sb.block_size) 0x2C in
          let j_incompat = if be_u32 jsb 0 == 0xC03B3998 then be_u32 jsb 0x28 else 0 in
          journal_loop src sb j_incompat jblocks (length jblocks) 0 []
    ]

-- The extents of a leaf, and their bytes.
pub leaf_extents : Superblock → List ℕ → ℕ → ℕ → List Extent
leaf_extents sb node zero i = []
leaf_extents sb node (suc left) i =
    let base = 12 + i * 12 in
    let len = le_u16 node (base + 4) in
    let blocks = if ltb 32768 len then len - 32768 else len in
    let phys = bit_or (le_u16 node (base + 6) * 2 ^ 32) (le_u32 node (base + 8)) in
    let rest = leaf_extents sb node left (i + 1) in
    if ltb (length node) (base + 12)
    then []
    else if len == 0 || phys == 0 || leb sb.blocks_count phys
    then rest
    else record { offset = sat_mul phys sb.block_size; len = sat_mul blocks sb.block_size } ∷ rest

pub total_bytes : List Extent → ℕ → ℕ
total_bytes [] n = n
total_bytes (e ∷ es) n = total_bytes es (sat_add n e.len)

-- The leaf of a free block, if it is one.
pub free_leaf : BlockSource → Superblock → ℕ → List Extent
unfolding leaf_extents total_bytes
free_leaf src sb b =
    let node = read src (sat_mul b sb.block_size) (min sb.block_size 4096) in
    let entries = le_u16 node 2 in
    let exts = leaf_extents sb node entries 0 in
    if not (le_u16 node 0 == 0xF30A)
    then []
    else if not (le_u16 node 6 == 0) || entries == 0 || ltb 340 entries
    then []
    else if total_bytes exts 0 == 0
    then []
    else exts

-- The loop over the blocks, on those that are left. It ends at the cap as soon as that is passed.
pub node_scan :
    BlockSource → Superblock → (ℕ → Bool) → ℕ → ℕ → List (List Extent) → List (List Extent)
unfolding free_leaf
node_scan src sb allocated zero b found = found
node_scan src sb allocated (suc left) b found =
    let skip = node_scan src sb allocated left (b + 1) found in
    if allocated b then skip else elim (free_leaf src sb b) [
      | [] ↦ skip
      | e ∷ es ↦
          let more = found ++ ((e ∷ es) ∷ []) in
          if ltb 100_000 (length more) then more else node_scan src sb allocated left (b + 1) more
    ]

pub scan_extent_nodes : BlockSource → Superblock → (ℕ → Bool) → List (List Extent)
unfolding node_scan
scan_extent_nodes src sb allocated =
    let addressable = src.len / max sb.block_size 1 + 1 in
    let total = min (min sb.blocks_count addressable) (1024 * 1024) in
    node_scan src sb allocated (total - sb.first_data_block) sb.first_data_block []
