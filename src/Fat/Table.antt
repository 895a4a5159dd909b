-- ===== src/Fat/Table.antt =====
-- crates/fs-fat/src/lib.rs: the FAT itself. Where a cluster lies, the entry of a cluster, chains of
-- clusters, and the bitmap of the clusters that are in use.
pub mod Clusters
pub mod Chains
pub mod Usage
use Prim.Native.Nat.{bit_and, bit_or}
use reclaim.Prelude.{
  ℕ, zero, suc, ◌+◌, ◌-◌, ◌*◌, ◌/◌, ◌%◌, ◌^◌, min, max, Bool, not, ◌&&◌, ◌||◌, Option, none, some,
  List, [], ◌∷◌, ◌++◌, ltb, leb, ◌==◌, if◌then◌else◌, length, get_or, replicate, u32_max, sat_add,
  div_ceil, slice, for_range,
}
use reclaim.Part.Reader.{le_u32}
use reclaim.FsCore.Reader.{read, le_u16}
use reclaim.FsCore.Bitmap
use reclaim.FsCore.Bitmap.{Bitmap, new}
use reclaim.Fat.Boot.{FatKind, eoc, mask, FatFs}

unfoldable pub cluster_offset : FatFs → ℕ → Option ℕ
cluster_offset fs cluster =
    if ltb cluster 2 || leb (min (fs.count_of_clusters + 2) u32_max) cluster
    then none
    else some (
        (fs.first_data_sector + (cluster - 2) * (fs.cluster_size / fs.bytes_per_sector))
        * fs.bytes_per_sector)

-- `n` bytes of the first FAT: cached, or read.
unfoldable pub fat_bytes : FatFs → ℕ → ℕ → List ℕ
fat_bytes fs idx n = elim (slice idx n fs.fat0) [
  | some b ↦ b
  | none ↦
      if ltb idx fs.fat_size_bytes then read fs.src (sat_add fs.fat_offset idx) n else replicate n 0
]

-- The entry of FAT12, which is one and a half bytes.
unfoldable pub entry12 : List ℕ → ℕ → ℕ
entry12 b cluster =
    let v = bit_or (get_or b 0 0) (get_or b 1 0 * 2 ^ 8) in
    if bit_and cluster 1 == 0 then bit_and v 0x0FFF else bit_and (v / 2 ^ 4) 0x0FFF

unfoldable pub fat_entry : FatFs → ℕ → ℕ
unfolding entry12 fat_bytes
fat_entry fs cluster = elim fs.kind [
  | FatKind.fat32 ↦ bit_and (le_u32 (fat_bytes fs (cluster * 4) 4) 0) (mask FatKind.fat32)
  | FatKind.fat16 ↦ le_u16 (fat_bytes fs (cluster * 2) 2) 0
  | FatKind.fat12 ↦ entry12 (fat_bytes fs (cluster + cluster / 2) 2) cluster
]

abbrev pub in_range : FatFs → ℕ → Bool
in_range fs c = leb 2 c && ltb c (fs.count_of_clusters + 2)

-- The test at the end of a round: the chain stops at `cur`.
unfoldable pub stops_at : FatFs → ℕ → ℕ → Bool
stops_at fs cur next =
    leb (eoc fs.kind) next || ltb next 2 || leb (fs.count_of_clusters + 2) next || next == cur

-- The loop of `chain`, on the rounds that the cap leaves.
pub chain_loop : FatFs → ℕ → ℕ → List ℕ
unfolding stops_at fat_entry
chain_loop fs zero cur = []
chain_loop fs (suc left) cur =
    let more = chain_loop fs left (fat_entry fs cur) in
    let rest = if stops_at fs cur (fat_entry fs cur) then [] else more in
    if in_range fs cur then cur ∷ rest else []

unfoldable pub chain : FatFs → ℕ → ℕ → List ℕ
unfolding chain_loop
chain fs first limit = chain_loop fs (max (min limit (fs.count_of_clusters + 2)) 1) first

-- `*byte |= 1 << k` on the byte at index `i`, if there is one.
pub or_byte_at : List ℕ → ℕ → ℕ → List ℕ
or_byte_at [] i k = []
or_byte_at (b ∷ bs) zero k = bit_or b (2 ^ k) ∷ bs
or_byte_at (b ∷ bs) (suc i) k = b ∷ or_byte_at bs i k

-- One round of the loop over the clusters.
pub mark_used : FatFs → ℕ → List ℕ → List ℕ
unfolding or_byte_at fat_entry
mark_used fs c bits = if not (fat_entry fs c == 0) then or_byte_at bits (c / 8) (c % 8) else bits

-- The clusters that the bitmap has, besides the two that do not exist.
unfoldable pub described : FatFs → ℕ
described fs =
    let entry_bytes : ℕ = elim fs.kind [
      | FatKind.fat32 ↦ 4
      | FatKind.fat16 ↦ 2
      | FatKind.fat12 ↦ 1
    ] in
    let describable = fs.fat_size_bytes / entry_bytes - 2 in
    min (min fs.count_of_clusters describable) (128 * 2 ^ 20)

pub used_bits : FatFs → ℕ → List ℕ
unfolding mark_used
used_bits fs n =
    let bytes = div_ceil (n + 2) 8 in
    for_range n 2 (mark_used fs) (replicate (min bytes (16 * 1024 * 1024)) 0)

pub cluster0_off : FatFs → ℕ
cluster0_off fs = elim (cluster_offset fs 2) [ none ↦ 0 | some o ↦ o - 2 * fs.cluster_size ]

-- `u32::try_from(n).unwrap_or(0)`
unfoldable pub as_u32 : ℕ → ℕ
as_u32 n = if leb n u32_max then n else 0

unfoldable pub fat_bitmap : FatFs → Option Bitmap
unfolding described used_bits cluster0_off as_u32
fat_bitmap fs =
    let n = described fs in
    if n == 0
    then none
    else some (Bitmap.new (as_u32 fs.cluster_size) (cluster0_off fs) (n + 2) (used_bits fs n))

-- A directory's bytes: the clusters of its chain, as long as they lie on the volume and the cap is
-- not reached.
pub append_clusters : FatFs → List ℕ → List ℕ → List ℕ
append_clusters fs [] buf = buf
append_clusters fs (c ∷ cs) buf = elim (cluster_offset fs c) [
  | none ↦ buf
  | some off ↦
      if leb (8 * 1024 * 1024) (length buf)
      then buf
      else append_clusters fs cs (buf ++ read fs.src off fs.cluster_size)
]

unfoldable pub read_directory : FatFs → ℕ → Bool → List ℕ
unfolding append_clusters
read_directory fs first_cluster is_fixed_root =
    if is_fixed_root
    then read fs.src fs.root_region_off (min fs.root_region_len (16 * 1024 * 1024))
    else append_clusters fs
        (chain fs first_cluster (sat_add (8 * 1024 * 1024 / max fs.cluster_size 1) 1)) []
