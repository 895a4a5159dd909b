-- ===== src/Ext/Inode.antt =====
-- crates/fs-ext/src/inode.rs: inodes, and the blocks that an inode maps.
pub mod Extents
pub mod Sorted
pub mod Budget
use Prim.Native.Nat.{bit_and, bit_or}
use reclaim.Prelude.{
  ℕ, zero, suc, ◌+◌, ◌-◌, ◌*◌, ◌/◌, ◌^◌, min, Bool, not, ◌&&◌, ◌||◌, Option, none, some, List, [],
  ◌∷◌, ◌++◌, ltb, leb, ◌==◌, if◌then◌else◌, length, sat_add, sat_mul, slice,
}
use reclaim.Block.Source.{BlockSource}
use reclaim.Part.Reader.{le_u32}
use reclaim.FsCore.Reader.{read, le_u16}
use reclaim.FsCore.Types.{Extent}
use reclaim.Ext.Superblock.{Superblock, inode_location}

pub record Inode : Type 0 where
  pub mode : ℕ
  pub size : ℕ
  pub dtime : ℕ
  pub links : ℕ
  pub flags : ℕ
  pub ctime : ℕ
  pub mtime : ℕ
  pub i_block : List ℕ

pub is_dir : Inode → Bool
is_dir i = bit_and i.mode 0xF000 == 0x4000

pub is_regular : Inode → Bool
is_regular i = bit_and i.mode 0xF000 == 0x8000

pub looks_deleted : Inode → Bool
looks_deleted i = not (i.dtime == 0) || i.links == 0

unfoldable pub inode_of : List ℕ → List ℕ → Inode
inode_of raw i_block =
    let mode = le_u16 raw 0x00 in
    let size_lo = le_u32 raw 0x04 in
    record {
      mode = mode;
      size =
          if bit_and mode 0xF000 == 0x8000
          then bit_or (le_u32 raw 0x6C * 2 ^ 32) size_lo
          else size_lo;
      dtime = le_u32 raw 0x14;
      links = le_u16 raw 0x1A;
      flags = le_u32 raw 0x20;
      ctime = le_u32 raw 0x0C;
      mtime = le_u32 raw 0x10;
      i_block = i_block;
    }

pub read_inode : BlockSource → Superblock → ℕ → Option Inode
unfolding inode_of
read_inode src sb ino = elim (inode_location sb ino) [
  | none ↦ none
  | some off ↦
      let raw = read src off sb.inode_size in
      if ltb (length raw) 128
      then none
      else elim (slice 0x28 60 raw) [ none ↦ none | some i_block ↦ some (inode_of raw i_block) ]
]

-- The blocks collected so far, each a logical and a physical number, and the nodes that may still
-- be read.
pub record Collected : Type 0 where
  pub budget : ℕ
  pub out : List (ℕ × ℕ)

abbrev pub max_file_blocks : ℕ
max_file_blocks = 8 * 1024 * 1024

unfoldable pub is_full : Collected → Bool
is_full s = ltb max_file_blocks (length s.out)

-- The blocks of one leaf extent, from block `b` of it on.
pub push_leaf : ℕ → ℕ → ℕ → ℕ → Collected → Collected
push_leaf zero b logical phys s = s
push_leaf (suc left) b logical phys s =
    let next =
      push_leaf left (b + 1) logical phys
        (record s { out = s.out ++ ((sat_add logical b, sat_add phys b) ∷ []) }) in
    if is_full s then s else next

-- The length of a leaf extent, without the mark of an uninitialised one.
pub leaf_len : ℕ → ℕ
leaf_len len = if ltb 32768 len then len - 32768 else len

pub leaf_entry : List ℕ → ℕ → Collected → Collected
unfolding push_leaf leaf_len
leaf_entry node base s =
    push_leaf (leaf_len (le_u16 node (base + 4))) 0 (le_u32 node base)
      (bit_or (le_u16 node (base + 6) * 2 ^ 32) (le_u32 node (base + 8))) s

-- The loop over the entries of a leaf, which ends the whole node when the blocks are too many.
pub leaf_entries : List ℕ → ℕ → ℕ → Collected → Collected
unfolding leaf_entry
leaf_entries node zero i s = s
leaf_entries node (suc left) i s =
    let base = 12 + i * 12 in
    let s' = leaf_entry node base s in
    let rest = leaf_entries node left (i + 1) s' in
    if ltb (length node) (base + 12)
    then s
    else if is_full s' && ltb 0 (leaf_len (le_u16 node (base + 4)))
    then s'
    else rest

-- The loop over the entries of an index node, by the collection of a child.
pub index_entries : (ℕ → Collected → Collected) → List ℕ → ℕ → ℕ → Collected → Collected
index_entries child node zero i s = s
index_entries child node (suc left) i s =
    let base = 12 + i * 12 in
    let block = bit_or (le_u16 node (base + 8) * 2 ^ 32) (le_u32 node (base + 4)) in
    let rest = index_entries child node left (i + 1) (child block s) in
    if ltb (length node) (base + 12) then s else rest

unfoldable pub has_entries : List ℕ → Bool
has_entries node =
    le_u16 node 0 == 0xF30A
    && not (ltb (le_u16 node 4) (le_u16 node 2) || ltb ((length node - 12) / 12) (le_u16 node 4))

-- `collect_extent_tree`, with the levels that the guard leaves.
pub collect_extent_tree : BlockSource → Superblock → ℕ → List ℕ → Collected → Collected
unfolding leaf_entries index_entries
collect_extent_tree src sb zero node s = s
collect_extent_tree src sb (suc left) node s =
    let spent = record s { budget = s.budget - 1 } in
    let child = λ (b : ℕ) (t : Collected).
      collect_extent_tree src sb left (read src (sat_mul b sb.block_size) sb.block_size) t in
    let entries = le_u16 node 2 in
    let below = index_entries child node entries 0 spent in
    if is_full s || s.budget == 0
    then s
    else if not (has_entries node)
    then spent
    else if le_u16 node 6 == 0
    then leaf_entries node entries 0 spent
    else below

-- A direct or indirect pointer to a data block.
pub record Classic : Type 0 where
  pub logical : ℕ
  pub got : Collected

pub push_data_block : ℕ → Classic → Classic
push_data_block phys c = record {
  logical = c.logical + 1;
  got =
      if not (phys == 0)
      then record { budget = c.got.budget; out = c.got.out ++ ((c.logical, phys) ∷ []) }
      else c.got;
}

pub direct_blocks : List ℕ → ℕ → ℕ → Classic → Classic
unfolding push_data_block
direct_blocks i_block zero i c = c
direct_blocks i_block (suc left) i c =
    direct_blocks i_block left (i + 1) (push_data_block (le_u32 i_block (i * 4)) c)

-- The loop over the pointers of an indirect block, by what is done with each.
pub each_pointer : (ℕ → Classic → Classic) → List ℕ → ℕ → ℕ → Classic → Classic
each_pointer visit block zero i c = c
each_pointer visit block (suc left) i c =
    let c' = visit (le_u32 block (i * 4)) c in
    let rest = each_pointer visit block left (i + 1) c' in if is_full c'.got then c' else rest

pub walk_indirect : BlockSource → Superblock → ℕ → ℕ → Classic → Classic
unfolding each_pointer push_data_block
walk_indirect src sb zero block c = push_data_block block c
walk_indirect src sb (suc level) block c =
    let spent = record c { got = record { budget = c.got.budget - 1; out = c.got.out } } in
    let node = read src (sat_mul block sb.block_size) sb.block_size in
    let below =
      each_pointer (λ b t. walk_indirect src sb level b t) node (sb.block_size / 4) 0 spent in
    if block == 0 || is_full c.got || c.got.budget == 0 then c else below

pub collect_classic : BlockSource → Superblock → List ℕ → Collected → Collected
unfolding direct_blocks walk_indirect
collect_classic src sb i_block s =
    let direct = direct_blocks i_block 12 0 (record { logical = 0; got = s }) in
    let single = walk_indirect src sb 1 (le_u32 i_block 48) direct in
    let double = walk_indirect src sb 2 (le_u32 i_block 52) single in
    (walk_indirect src sb 3 (le_u32 i_block 56) double).got

-- `sort_by_key` on the logical number, which keeps the order of equal ones.
unfoldable pub insert_block : ℕ × ℕ → List (ℕ × ℕ) → List (ℕ × ℕ)
insert_block b [] = b ∷ []
insert_block b (c ∷ cs) = if ltb b.0 c.0 || b.0 == c.0 then b ∷ c ∷ cs else c ∷ insert_block b cs

unfoldable pub sort_blocks : List (ℕ × ℕ) → List (ℕ × ℕ)
unfolding insert_block
sort_blocks [] = []
sort_blocks (b ∷ bs) = insert_block b (sort_blocks bs)

-- One round of the loop of `runs_to_extents`: a block that follows on lengthens the last extent.
pub push_block : ℕ → ℕ → List Extent → List Extent
push_block bs off [] = record { offset = off; len = bs } ∷ []
push_block bs off (e ∷ []) =
    if sat_add e.offset e.len == off
    then record { offset = e.offset; len = sat_add e.len bs } ∷ []
    else e ∷ record { offset = off; len = bs } ∷ []
push_block bs off (e ∷ f ∷ es) = e ∷ push_block bs off (f ∷ es)

pub push_blocks : ℕ → List (ℕ × ℕ) → List Extent → List Extent
unfolding push_block
push_blocks bs [] es = es
push_blocks bs (b ∷ blocks) es = push_blocks bs blocks (push_block bs (sat_mul b.1 bs) es)

-- The loop of `trim_to_size`, after `acc` bytes.
pub trim_loop : ℕ → ℕ → List Extent → List Extent
trim_loop size acc [] = []
trim_loop size acc (e ∷ es) =
    let kept = min e.len (size - acc) in
    if leb size acc
    then []
    else record { offset = e.offset; len = kept } ∷ trim_loop size (sat_add acc kept) es

unfoldable pub trim_to_size : ℕ → List Extent → List Extent
unfolding trim_loop
trim_to_size size es = if size == 0 then [] else trim_loop size 0 es

unfoldable pub runs_to_extents : Superblock → List (ℕ × ℕ) → ℕ → List Extent
unfolding push_blocks sort_blocks
runs_to_extents sb blocks size =
    trim_to_size size (push_blocks sb.block_size (sort_blocks blocks) [])

unfoldable pub extents : BlockSource → Superblock → Inode → List Extent
unfolding collect_extent_tree collect_classic
extents src sb i =
    let start : Collected = record { budget = 4096; out = [] } in
    let got =
      if not (bit_and i.flags 0x00080000 == 0)
      then collect_extent_tree src sb 6 i.i_block start
      else collect_classic src sb i.i_block start in
    runs_to_extents sb got.out i.size
