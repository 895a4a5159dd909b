-- ===== src/Fat/Boot.antt =====
-- crates/fs-fat/src/lib.rs: the boot sector, the width of the FAT, and opening a volume.
pub mod Geometry
use Prim.Native.Nat.{bit_and}
use reclaim.Prelude.{
  ℕ, ◌+◌, ◌-◌, ◌*◌, ◌/◌, ◌%◌, ◌^◌, min, max, Bool, true, false, not, ◌&&◌, ◌||◌, Option, none, some,
  List, [], ◌∷◌, ltb, leb, ◌==◌, if◌then◌else◌, length, get_or, take, sat_mul, div_ceil, slice,
}
use reclaim.Block.Source.{BlockSource}
use reclaim.Part.Reader.{le_u32}
use reclaim.FsCore.Text.{trim_end, from_utf8_lossy}
use reclaim.FsCore.Reader.{read, le_u16}
use reclaim.FsCore.Types.{FsError}

pub data FatKind : Type 0 where
  fat12 fat16 fat32 : FatKind

unfoldable pub eoc : FatKind → ℕ
eoc FatKind.fat12 = 0x0FF8
eoc FatKind.fat16 = 0xFFF8
eoc FatKind.fat32 = 0x0FFFFFF8

unfoldable pub mask : FatKind → ℕ
mask FatKind.fat12 = 0x0FFF
mask FatKind.fat16 = 0xFFFF
mask FatKind.fat32 = 0x0FFFFFFF

pub record FatFs : Type 0 where
  pub src : BlockSource
  pub kind : FatKind
  pub bytes_per_sector : ℕ
  pub cluster_size : ℕ
  pub fat_offset : ℕ
  pub fat_size_bytes : ℕ
  pub num_fats : ℕ
  pub first_data_sector : ℕ
  pub count_of_clusters : ℕ
  pub root_region_off : ℕ
  pub root_region_len : ℕ
  pub root_cluster : ℕ
  pub total_bytes : ℕ
  pub serial : ℕ
  pub fats_match : Bool
  pub fat0 : List ℕ

pub record Bpb : Type 0 where
  pub bytes_per_sector : ℕ
  pub sectors_per_cluster : ℕ
  pub reserved_sectors : ℕ
  pub num_fats : ℕ
  pub root_entries : ℕ
  pub total_sectors : ℕ
  pub fat_size : ℕ
  pub root_cluster : ℕ
  pub serial : ℕ

-- `is_power_of_two`
unfoldable pub is_power_of_two : ℕ → Bool
is_power_of_two n = not (n == 0) && bit_and n (n - 1) == 0

-- The fields of a boot sector, before they are checked.
unfoldable pub bpb_fields : List ℕ → Bpb
bpb_fields boot =
    let tot16 = le_u16 boot 19 in
    let fat16 = le_u16 boot 22 in
    record {
      bytes_per_sector = le_u16 boot 11;
      sectors_per_cluster = get_or boot 13 0;
      reserved_sectors = le_u16 boot 14;
      num_fats = get_or boot 16 0;
      root_entries = le_u16 boot 17;
      total_sectors = if not (tot16 == 0) then tot16 else le_u32 boot 32;
      fat_size = if not (fat16 == 0) then fat16 else le_u32 boot 36;
      root_cluster = le_u32 boot 44;
      serial = if not (fat16 == 0) then le_u32 boot 39 else le_u32 boot 67;
    }

unfoldable pub is_sector_size : ℕ → Bool
is_sector_size n = n == 512 || n == 1024 || n == 2048 || n == 4096

-- The checks of `parse_bpb`, in their order.
unfoldable pub accepts_bpb : Bpb → Bool
unfolding is_sector_size is_power_of_two
accepts_bpb b =
    if not (is_sector_size b.bytes_per_sector)
    then false
    else if not (is_power_of_two b.sectors_per_cluster) || b.sectors_per_cluster == 0
    then false
    else if b.reserved_sectors == 0
    then false
    else if b.num_fats == 0 || ltb 2 b.num_fats
    then false
    else if b.total_sectors == 0 || b.fat_size == 0
    then false
    else true

pub parse_bpb : List ℕ → Option Bpb
unfolding bpb_fields accepts_bpb
parse_bpb boot = if accepts_bpb (bpb_fields boot) then some (bpb_fields boot) else none

-- The sectors of the root directory, and the first sector of cluster 2.
pub root_dir_sectors : Bpb → ℕ
root_dir_sectors b = div_ceil (b.root_entries * 32) b.bytes_per_sector

pub data_start : Bpb → ℕ
data_start b = b.reserved_sectors + b.num_fats * b.fat_size + root_dir_sectors b

pub classify : Bpb → FatKind × ℕ
unfolding data_start root_dir_sectors
classify b =
    let count = (b.total_sectors - data_start b) / b.sectors_per_cluster % 2 ^ 32 in
    let kind : FatKind =
      if ltb count 4085
      then FatKind.fat12
      else if ltb count 65525
      then FatKind.fat16
      else FatKind.fat32 in
    (kind, count)

-- `boot.get(510..512) == Some(&[0x55, 0xAA])`
unfoldable pub has_boot_mark : List ℕ → Bool
has_boot_mark boot = elim (slice 510 2 boot) [
  | some (a ∷ b ∷ []) ↦ a == 0x55 && b == 0xAA
  | _ ↦ false
]

abbrev pub max_fat_cache : ℕ
max_fat_cache = 64 * 1024 * 1024

-- The comparison of the two FATs, as far as both were read.
pub bytes_eq : List ℕ → List ℕ → Bool
bytes_eq [] [] = true
bytes_eq (a ∷ as') (b ∷ bs) = a == b && bytes_eq as' bs
bytes_eq [] (b ∷ bs) = false
bytes_eq (a ∷ as') [] = false

pub compare_fats : BlockSource → ℕ → ℕ → List ℕ → Bool
unfolding bytes_eq
compare_fats src fat_offset fat_size_bytes fat0 =
    let fat1 = read src (fat_offset + fat_size_bytes) (min fat_size_bytes (1024 * 1024)) in
    let n = min (length fat1) (length fat0) in bytes_eq (take n fat0) (take n fat1)

-- The volume of a boot sector that was accepted.
pub volume_of : BlockSource → Bpb → FatFs
unfolding classify data_start root_dir_sectors compare_fats
volume_of src b =
    let bps = b.bytes_per_sector in
    let fat_offset = b.reserved_sectors * bps in
    let fat_size_bytes = b.fat_size * bps in
    let fat0 = read src fat_offset (min fat_size_bytes max_fat_cache) in
    record {
      src = src;
      kind = (classify b).0;
      bytes_per_sector = bps;
      cluster_size = bps * b.sectors_per_cluster;
      fat_offset = fat_offset;
      fat_size_bytes = fat_size_bytes;
      num_fats = b.num_fats;
      first_data_sector = data_start b;
      count_of_clusters = (classify b).1;
      root_region_off = (b.reserved_sectors + b.num_fats * b.fat_size) * bps;
      root_region_len = root_dir_sectors b * bps;
      root_cluster = b.root_cluster;
      total_bytes = b.total_sectors * bps;
      serial = b.serial;
      fats_match =
          if leb 2 b.num_fats then compare_fats src fat_offset fat_size_bytes fat0 else true;
      fat0 = fat0;
    }

pub data Opened : Type 0 where
  ok : FatFs → Opened
  err : FsError → Opened

-- The boot sector at sector `bk`, the backup of FAT32.
pub open_backup : BlockSource → List ℕ → Opened
unfolding parse_bpb volume_of
open_backup src boot =
    let bk = le_u16 boot 50 in
    let bps = max (le_u16 boot 11) 512 in
    if bk == 0 then Opened.err FsError.not_this_fs else elim (parse_bpb (read src (bk * bps) 512)) [
      | none ↦ Opened.err FsError.corrupt
      | some b ↦ Opened.ok (volume_of src b)
    ]

unfoldable pub open_volume : BlockSource → Opened
unfolding parse_bpb has_boot_mark volume_of open_backup
open_volume src =
    let boot = read src 0 512 in
    elim (parse_bpb boot) [
      | some b ↦ if has_boot_mark boot then Opened.ok (volume_of src b) else open_backup src boot
      | none ↦ open_backup src boot
    ]

pub read_label : List ℕ → FatKind → Option (List ℕ)
unfolding bytes_eq
read_label boot kind =
    let off : ℕ = elim kind [ FatKind.fat32 ↦ 71 | _ ↦ 43 ] in
    elim (slice off 11 boot) [
      | none ↦ none
      | some raw ↦
          let s = trim_end (from_utf8_lossy raw) in
          if length s == 0 || bytes_eq s (b'N' ∷ b'O' ∷ 32 ∷ b'N' ∷ b'A' ∷ b'M' ∷ b'E' ∷ [])
          then none
          else some s
    ]

pub record Probe : Type 0 where
  pub fs_kind : FatKind
  pub block_size : ℕ
  pub label : Option (List ℕ)
  pub uuid : ℕ
  pub total_bytes : ℕ

-- The name that another file system puts at byte 3.
pub names_other : List ℕ → Bool
unfolding bytes_eq
names_other boot = elim (slice 3 8 boot) [
  | none ↦ false
  | some s ↦
      bytes_eq s (b'N' ∷ b'T' ∷ b'F' ∷ b'S' ∷ 32 ∷ 32 ∷ 32 ∷ 32 ∷ [])
      || bytes_eq s (b'E' ∷ b'X' ∷ b'F' ∷ b'A' ∷ b'T' ∷ 32 ∷ 32 ∷ 32 ∷ [])
]

pub probe : BlockSource → Option Probe
unfolding has_boot_mark parse_bpb classify names_other read_label
probe src =
    let boot = read src 0 512 in
    if not (has_boot_mark boot) then none else elim (parse_bpb boot) [
      | none ↦ none
      | some b ↦
          if names_other boot
          then none
          else if (classify b).1 == 0
          then none
          else some (record {
            fs_kind = (classify b).0;
            block_size = b.bytes_per_sector * b.sectors_per_cluster;
            label = read_label boot (classify b).0;
            uuid = b.serial;
            total_bytes = sat_mul b.total_sectors b.bytes_per_sector;
          })
    ]
