-- ===== src/Ext/Superblock.antt =====
-- crates/fs-ext/src/sb.rs: the superblock, its backups, and the block groups. The label and the
-- UUID, which are only shown, are left out.
use Prim.Native.Nat.{bit_and, bit_or}
use reclaim.Prelude.{
  ℕ, zero, suc, ◌+◌, ◌-◌, ◌*◌, ◌/◌, ◌%◌, ◌^◌, min, max, Bool, false, not, ◌&&◌, ◌||◌, Option, none,
  some, List, [], ◌∷◌, ◌++◌, ltb, leb, ◌==◌, if◌then◌else◌, get_elem?, u32_max, sat_add, sat_mul,
  div_ceil,
}
use reclaim.Block.Source.{BlockSource}
use reclaim.Part.Reader.{le_u32}
use reclaim.FsCore.Reader.{read, le_u16}

pub record GroupDesc : Type 0 where
  pub block_bitmap : ℕ
  pub inode_table : ℕ

pub record Superblock : Type 0 where
  pub block_size : ℕ
  pub inode_size : ℕ
  pub inodes_count : ℕ
  pub blocks_count : ℕ
  pub first_data_block : ℕ
  pub blocks_per_group : ℕ
  pub inodes_per_group : ℕ
  pub desc_size : ℕ
  pub has_64bit : Bool
  pub journal_inum : ℕ
  pub groups : List GroupDesc
  pub found_at_group : ℕ

unfoldable pub inode_location : Superblock → ℕ → Option ℕ
inode_location sb ino =
    let group = (ino - 1) / sb.inodes_per_group in
    let index = (ino - 1) % sb.inodes_per_group in
    if ino == 0 || sb.inodes_per_group == 0 then none else elim (get_elem? sb.groups group) [
      | none ↦ none
      | some gd ↦
          some (sat_add (sat_mul gd.inode_table sb.block_size) (sat_mul index sb.inode_size))
    ]

pub group_count : Superblock → ℕ
group_count sb =
    if sb.blocks_per_group == 0
    then 0
    else div_ceil (sb.blocks_count - sb.first_data_block) sb.blocks_per_group

pub read_lo_hi : List ℕ → ℕ → ℕ → Bool → ℕ
read_lo_hi b lo hi has_64 =
    if has_64 then bit_or (le_u32 b lo) (le_u32 b hi * 2 ^ 32) else le_u32 b lo

pub group_desc : Superblock → List ℕ → ℕ → GroupDesc
unfolding read_lo_hi
group_desc sb bytes g =
    let base = g * sb.desc_size in
    record {
      block_bitmap = read_lo_hi bytes base (base + 0x20) sb.has_64bit;
      inode_table = read_lo_hi bytes (base + 8) (base + 0x28) sb.has_64bit;
    }

pub descs_from : Superblock → List ℕ → ℕ → ℕ → List GroupDesc
unfolding group_desc
descs_from sb bytes zero g = []
descs_from sb bytes (suc left) g = group_desc sb bytes g ∷ descs_from sb bytes left (g + 1)

-- The groups whose descriptors are read.
pub ngroups : BlockSource → Superblock → ℕ
unfolding group_count
ngroups src sb =
    let addressable =
      sat_add (div_ceil (src.len / max sb.block_size 1) (max sb.blocks_per_group 1)) 1 in
    min (min (group_count sb) addressable) 65_536

pub read_group_descs : BlockSource → Superblock → List GroupDesc
unfolding descs_from ngroups
read_group_descs src sb =
    let n = ngroups src sb in
    let gdt_off = sat_mul (sb.first_data_block + 1) sb.block_size in
    let total = min (sat_mul n sb.desc_size) (src.len - gdt_off) in
    if n == 0 then [] else descs_from sb (read src gdt_off total) n 0

-- `d.is_power_of_two()` of a descriptor size in 64..=1024.
pub is_desc_size : ℕ → Bool
is_desc_size d = leb 64 d && leb d 1024 && bit_and d (d - 1) == 0

-- The fields of a superblock, before the group descriptors.
pub fields_at : List ℕ → ℕ → Superblock
fields_at sb found_group =
    let has_64bit = not (bit_and (le_u32 sb 0x60) 0x80 == 0) in
    record {
      block_size = 1024 * 2 ^ le_u32 sb 0x18;
      inode_size = if leb 1 (le_u32 sb 0x4C) then max (le_u16 sb 0x58) 128 else 128;
      inodes_count = le_u32 sb 0x00;
      blocks_count =
          if has_64bit then bit_or (le_u32 sb 0x150 * 2 ^ 32) (le_u32 sb 0x04) else le_u32 sb 0x04;
      first_data_block = le_u32 sb 0x14;
      blocks_per_group = le_u32 sb 0x20;
      inodes_per_group = le_u32 sb 0x28;
      desc_size = if has_64bit then le_u16 sb 0xFE else 32;
      has_64bit = has_64bit;
      journal_inum = le_u32 sb 0xE0;
      groups = [];
      found_at_group = found_group;
    }

pub accepts_sb : List ℕ → Superblock → Bool
unfolding is_desc_size
accepts_sb sb f =
    if not (le_u16 sb 0x38 == 0xEF53)
    then false
    else if ltb 6 (le_u32 sb 0x18)
    then false
    else if f.has_64bit && not (is_desc_size f.desc_size)
    then false
    else not (f.blocks_per_group == 0 || f.inodes_per_group == 0 || f.inode_size == 0)

pub parse_at : BlockSource → ℕ → ℕ → Option Superblock
unfolding fields_at accepts_sb read_group_descs
parse_at src off found_group =
    let sb = read src off 1024 in
    let me = fields_at sb found_group in
    if not (accepts_sb sb me) then none else elim (read_group_descs src me) [
      | [] ↦ none
      | g ∷ gs ↦ some (record me { groups = g ∷ gs })
    ]

-- The powers of a base below the limit, from `p` on.
pub powers_below : ℕ → ℕ → ℕ → ℕ → List ℕ
powers_below zero base limit p = []
powers_below (suc left) base limit p =
    let more = powers_below left base limit (min (p * base) u32_max) in
    if ltb p limit then p ∷ more else []

pub insert_group : ℕ → List ℕ → List ℕ
insert_group g [] = g ∷ []
insert_group g (h ∷ hs) =
    let rest = h ∷ insert_group g hs in
    if g == h then h ∷ hs else if ltb g h then g ∷ h ∷ hs else rest

-- `sort_unstable` and `dedup`
pub sort_groups : List ℕ → List ℕ
unfolding insert_group
sort_groups [] = []
sort_groups (g ∷ gs) = insert_group g (sort_groups gs)

unfoldable pub backup_groups : ℕ → List ℕ
unfolding powers_below sort_groups
backup_groups limit =
    sort_groups
      (1 ∷ (powers_below 32 3 limit 3 ++ (powers_below 32 5 limit 5 ++ powers_below 32 7 limit 7)))

pub first_data_block_for : ℕ → ℕ
first_data_block_for block_size = if block_size == 1024 then 1 else 0

abbrev pub block_sizes : List ℕ
block_sizes = 1024 ∷ 4096 ∷ 2048 ∷ 8192 ∷ 16384 ∷ 32768 ∷ 65536 ∷ []

-- The backup of group `g`, with each block size in turn.
pub try_sizes : BlockSource → ℕ → List ℕ → Option Superblock
unfolding parse_at first_data_block_for
try_sizes src g [] = none
try_sizes src g (bs ∷ sizes) =
    let off = sat_mul (g * (bs * 8) + first_data_block_for bs) bs in
    let rest = try_sizes src g sizes in
    elim (parse_at src off g) [
      | none ↦ rest
      | some sb ↦ if sb.block_size == bs then some sb else rest
    ]

pub hunt_backups : BlockSource → List ℕ → Option Superblock
unfolding try_sizes
hunt_backups src [] = none
hunt_backups src (g ∷ gs) =
    let rest = hunt_backups src gs in
    elim (try_sizes src g block_sizes) [ some sb ↦ some sb | none ↦ rest ]

unfoldable pub read_superblock : BlockSource → Option Superblock
unfolding parse_at hunt_backups
read_superblock src = elim (parse_at src 1024 0) [
  | some sb ↦ some sb
  | none ↦ hunt_backups src (backup_groups 4096)
]
