-- ===== src/ExFat/Boot.antt =====
-- crates/fs-exfat/src/lib.rs: the boot sector and its backup, its checksum, probe and open. The
-- serial number is a number, and a confidence is in thousandths.
use reclaim.Prelude.{
  ℕ, ◌+◌, ◌-◌, ◌*◌, ◌/◌, ◌%◌, ◌^◌, min, max, Bool, false, not, ◌&&◌, ◌||◌, Option, none, some, List,
  [], ◌∷◌, ltb, leb, ◌==◌, if◌then◌else◌, length, get_or, u32_max, sat_add, sat_mul, slice,
}
use reclaim.Block.Source.{BlockSource}
use reclaim.FsCore.Types.{FsError}
use reclaim.FsCore.Reader.{read}
use reclaim.Part.Reader.{le_u32, le_u64}
use reclaim.Fat.Boot.{bytes_eq}
use reclaim.ExFat.Names.{find_label_entry}

pub record ExFat : Type 0 where
  pub src : BlockSource
  pub bytes_per_sector : ℕ
  pub cluster_size : ℕ
  pub fat_offset : ℕ
  pub fat_length : ℕ
  pub number_of_fats : ℕ
  pub cluster_heap_offset : ℕ
  pub cluster_count : ℕ
  pub root_dir_cluster : ℕ
  pub volume_length : ℕ
  pub serial : ℕ
  pub checksum_ok : Bool

-- `boot.get(3..11) == Some(b"EXFAT   ")`
pub has_name : List ℕ → Bool
has_name boot = elim (slice 3 8 boot) [
  | none ↦ false
  | some s ↦ bytes_eq s (b'E' ∷ b'X' ∷ b'F' ∷ b'A' ∷ b'T' ∷ 32 ∷ 32 ∷ 32 ∷ [])
]

-- The backups, by the shift of the sector size.
pub try_backups : BlockSource → List ℕ → Option (List ℕ)
unfolding has_name
try_backups src [] = none
try_backups src (shift ∷ shifts) =
    let bak = read src (12 * 2 ^ shift) 512 in
    if has_name bak && get_or bak 108 0 == shift then some bak else try_backups src shifts

pub read_boot : BlockSource → Option (List ℕ)
unfolding has_name try_backups
read_boot src =
    let main = read src 0 512 in
    if has_name main then some main else try_backups src (9 ∷ 10 ∷ 11 ∷ 12 ∷ [])

-- The shifts of the sector and the cluster size are plausible.
pub has_shifts : List ℕ → Bool
has_shifts boot =
    let bps_shift = get_or boot 108 0 in
    leb 9 bps_shift && leb bps_shift 12 && leb (bps_shift + get_or boot 109 0) 25

-- `checksum.rotate_right(1).wrapping_add(b)`, but at the bytes that are left out.
pub checksum_from : ℕ → ℕ → List ℕ → ℕ
checksum_from sum i [] = sum
checksum_from sum i (b ∷ bs) =
    let rotated = sum / 2 + sum % 2 * 2 ^ 31 in
    checksum_from (if i == 106 || i == 107 || i == 112 then sum else (rotated + b) % 2 ^ 32) (i + 1)
      bs

pub verify_boot_checksum : BlockSource → ℕ → Bool
unfolding checksum_from
verify_boot_checksum src bytes_per_sector =
    let region = read src 0 (bytes_per_sector * 11) in
    if bytes_per_sector == 0 || ltb 4096 bytes_per_sector
    then false
    else if ltb (length region) (bytes_per_sector * 11)
    then false
    else le_u32 (read src (bytes_per_sector * 11) 4) 0 == checksum_from 0 0 region

pub read_volume_label : BlockSource → List ℕ → Option (List ℕ)
unfolding has_shifts
read_volume_label src boot =
    let bytes_per_sector = 2 ^ get_or boot 108 0 in
    let cluster_size = bytes_per_sector * 2 ^ get_or boot 109 0 in
    let heap = sat_mul (le_u32 boot 88) bytes_per_sector in
    let root = le_u32 boot 96 in
    let dir = read src (sat_add heap (sat_mul (root - 2) cluster_size)) (min cluster_size 4096) in
    if not (has_shifts boot)
    then none
    else if ltb root 2 || cluster_size == 0
    then none
    else find_label_entry dir (length dir / 32) 0

pub record Probe : Type 0 where
  pub confidence : ℕ
  pub block_size : ℕ
  pub label : Option (List ℕ)
  pub uuid : ℕ
  pub total_bytes : ℕ

pub probe : BlockSource → Option Probe
unfolding read_boot has_shifts
probe src = elim (read_boot src) [
  | none ↦ none
  | some boot ↦
      let bytes_per_sector = 2 ^ get_or boot 108 0 in
      let cluster_size = bytes_per_sector * 2 ^ get_or boot 109 0 in
      if not (has_shifts boot)
      then none
      else some (record {
        confidence = if verify_boot_checksum src bytes_per_sector then 990 else 850;
        block_size = if leb cluster_size u32_max then cluster_size else 0;
        label = read_volume_label src boot;
        uuid = le_u32 boot 100;
        total_bytes = sat_mul (le_u64 boot 72) bytes_per_sector;
      })
]

pub data Opened : Type 0 where
  ok : ExFat → Opened
  err : FsError → Opened

-- The volume of a boot sector whose shifts are plausible.
pub volume_of : BlockSource → List ℕ → ExFat
volume_of src boot =
    let bytes_per_sector = 2 ^ get_or boot 108 0 in
    record {
      src = src;
      bytes_per_sector = bytes_per_sector;
      cluster_size = bytes_per_sector * 2 ^ get_or boot 109 0;
      fat_offset = le_u32 boot 80 * bytes_per_sector;
      fat_length = le_u32 boot 84 * bytes_per_sector;
      number_of_fats = max (get_or boot 110 1) 1;
      cluster_heap_offset = le_u32 boot 88 * bytes_per_sector;
      cluster_count = le_u32 boot 92;
      root_dir_cluster = le_u32 boot 96;
      volume_length = sat_mul (le_u64 boot 72) bytes_per_sector;
      serial = le_u32 boot 100;
      checksum_ok = verify_boot_checksum src bytes_per_sector;
    }

pub open_volume : BlockSource → Opened
unfolding read_boot has_shifts volume_of
open_volume src = elim (read_boot src) [
  | none ↦ Opened.err FsError.not_this_fs
  | some boot ↦
      let fs = volume_of src boot in
      if not (has_shifts boot)
      then Opened.err FsError.corrupt
      else if fs.cluster_size == 0 || ltb fs.root_dir_cluster 2
      then Opened.err FsError.corrupt
      else Opened.ok fs
]
