-- ===== src/Tests/Fat.antt =====
-- The theorems on FAT volumes at concrete inputs.
use reclaim.Prelude.{
  ℕ, ◌+◌, ◌≡◌, refl, sym, ap, ◌∙◌, Bool, true, false, not, ◌&&◌, some, List, [], ◌∷◌, ◌++◌, map,
  arith, ltb, ◌==◌, length, replicate, IsByte, All,
}
use reclaim.Block.Memory.{MemorySource, source}
use reclaim.FsCore.Types.{WalkOpts}
use reclaim.FsCore.Reader.{read, le_u16}
use reclaim.FsCore.Reader.Bytes.{read-read_bytes, read-IsByte, read_all}
use reclaim.FsCore.Extents.{Covers}
use reclaim.FsCore.Text.{from_utf16_lossy}
use reclaim.FsCore.Bitmap
use reclaim.FsCore.Bitmap.{Bitmap, is_offset_allocated}
use reclaim.Part.Reader.{read_bytes, le_at, le_value}
use reclaim.Fat.Boot.{
  FatFs, FatKind, eoc, bpb_fields, accepts_bpb, has_boot_mark, volume_of, is_sector_size,
  is_power_of_two,
}
use reclaim.Fat.Boot.Geometry.{IsVolume, open_volume-volume_of}
use reclaim.Fat.Table.{
  stops_at, fat_entry, fat_bytes, fat_bitmap, described, cluster0_off, used_bits, as_u32,
}
use reclaim.Fat.Table.Clusters.{start_of}
use reclaim.Fat.Table.Chains.{Links, link, last}
use reclaim.Fat.Table.Usage.{is_offset_allocated_lem}
use reclaim.Fat.Files.{resolve_extents}
use reclaim.Fat.Files.Extents.{byte_at}
use reclaim.Fat.Files.Resolve.{resolve_extents-Links}
use reclaim.Fat.Names.{assemble_lfn, lfn_chars}
use reclaim.Fat.Names.Long.{write_entries, pieces, assemble_lfn-write_entries}
use reclaim.Fat.Walk.{walk}
use reclaim.Fat.Walk.Bounds.{IsWalk, walk-IsWalk}
use mathlib.Core.List.{reverse}

-- A source of four bytes.
abbrev few : MemorySource
few = record { bytes = 7 ∷ 8 ∷ 9 ∷ 10 ∷ []; sector_size = 2 }

-- A volume of four clusters of one sector, in which cluster 2 goes on in cluster 3.
abbrev disk : FatFs
disk = record {
  src = source few;
  kind = FatKind.fat16;
  bytes_per_sector = 512;
  cluster_size = 512;
  fat_offset = 512;
  fat_size_bytes = 512;
  num_fats = 1;
  first_data_sector = 3;
  count_of_clusters = 4;
  root_region_off = 1024;
  root_region_len = 512;
  root_cluster = 0;
  total_bytes = 3584;
  serial = 0;
  fats_match = true;
  fat0 = 0xF8 ∷ 0xFF ∷ 0xFF ∷ 0xFF ∷ 3 ∷ 0 ∷ 0xFF ∷ 0xFF ∷ 0 ∷ 0 ∷ 0 ∷ 0 ∷ [];
}

disk-IsVolume : IsVolume disk
disk-IsVolume = record {
  sectors_per_cluster = 1;
  unit = omega arith;
  whole = omega arith;
  some_sectors = omega arith;
  word = omega arith;
  small = omega arith;
  holds = λ h. omega arith;
}

entry_two : fat_entry disk 2 ≡ 3
unfolding fat_entry fat_bytes le_u16 le_at le_value
entry_two = refl

entry_three : stops_at disk 3 (fat_entry disk 3) ≡ true
unfolding fat_entry fat_bytes le_u16 le_at le_value stops_at eoc
entry_three = refl

two_goes_on : stops_at disk 2 3 ≡ false
unfolding stops_at eoc
two_goes_on = refl

two_clusters : Links disk (2 ∷ 3 ∷ [])
two_clusters = link 2 3 [] refl entry_two two_goes_on (last 3 refl entry_three)

resolve_extents-Links_example :
    Covers (resolve_extents disk 2 700 false).0 700 (byte_at disk (2 ∷ 3 ∷ []))
    × ((resolve_extents disk 2 700 false).1 ≡ false)
resolve_extents-Links_example =
    resolve_extents-Links disk disk-IsVolume (omega arith) 2 (3 ∷ []) 700 two_clusters (omega arith)
      (omega arith) (omega arith) (omega arith)

four_described : described disk ≡ 4
unfolding described
four_described = refl

disk_bitmap : Bitmap
disk_bitmap = Bitmap.new 512 (cluster0_off disk) 6 (used_bits disk 4)

disk_bitmap-made : fat_bitmap disk ≡ some disk_bitmap
unfolding fat_bitmap described as_u32 disk_bitmap
disk_bitmap-made = refl

is_offset_allocated_lem_example :
    is_offset_allocated disk_bitmap (start_of disk 2 + 5) ≡ not (fat_entry disk 2 == 0)
is_offset_allocated_lem_example =
    is_offset_allocated_lem disk disk-IsVolume disk_bitmap disk_bitmap-made
      (omega (arith, four_described)) 2 5 (omega arith) (omega arith)
      (omega (arith, four_described)) (omega arith)

assemble_lfn-write_entries_example :
    assemble_lfn
      (map lfn_chars (reverse (write_entries (λ k. 0xE5) 0 1 (pieces 2 (b'A' ∷ b'b' ∷ [])))))
    ≡ some (from_utf16_lossy (b'A' ∷ b'b' ∷ []))
assemble_lfn-write_entries_example =
    assemble_lfn-write_entries (λ k. 0xE5) 0 b'A' (b'b' ∷ [])
      ((omega arith, omega arith), ((omega arith, omega arith), tt))

read-read_bytes_example : read (source few) 1 2 ≡ read_bytes (source few) 1 2
unfolding source
read-read_bytes_example = read-read_bytes (source few) 1 2 (omega arith)

-- A FAT12 volume of eight sectors, of which only the boot sector is not empty.
boot_head : List ℕ
boot_head =
    0xEB ∷ 0x3C ∷ 0x90 ∷ []
    ++ replicate 8 32
    ++ (0 ∷ 2 ∷ 1 ∷ 1 ∷ 0 ∷ 1 ∷ 16 ∷ 0 ∷ 8 ∷ 0 ∷ 0xF8 ∷ 1 ∷ 0 ∷ [])

boot_sector : List ℕ
boot_sector = boot_head ++ replicate 486 0 ++ (0x55 ∷ 0xAA ∷ [])

abbrev floppy : MemorySource
floppy = record { bytes = boot_sector; sector_size = 512 }

all_bytes : List ℕ → Bool
all_bytes [] = true
all_bytes (x ∷ xs) = ltb x 256 && all_bytes xs

all_bytes-All : (xs : List ℕ) → all_bytes xs ≡ true → All IsByte xs
unfolding all_bytes
all_bytes-All [] h = tt
all_bytes-All (x ∷ xs) h = (ground arith, all_bytes-All xs (ground arith))

boot_length : length boot_sector ≡ 512
unfolding boot_sector boot_head
boot_length = refl

boot_bytes : all_bytes boot_sector ≡ true
unfolding boot_sector boot_head all_bytes
boot_bytes = refl

boot_taken : accepts_bpb (bpb_fields boot_sector) ≡ true
unfolding boot_sector boot_head accepts_bpb bpb_fields is_sector_size is_power_of_two le_u16 le_at
    le_value
boot_taken = refl

boot_marked : has_boot_mark boot_sector ≡ true
unfolding boot_sector boot_head has_boot_mark
boot_marked = refl

reads_back : read (source floppy) 0 512 ≡ boot_sector
reads_back =
    ap (λ n. read (source floppy) 0 n) (sym boot_length)
    ∙ read_all floppy (omega arith) (omega (arith, boot_length))

opts : WalkOpts
opts = record {
  include_live = true;
  include_deleted = true;
  max_entries = 100;
  include_system_volume = false;
}

floppy_volume : FatFs
floppy_volume = volume_of (source floppy) (bpb_fields (read (source floppy) 0 512))

walk-IsWalk_example : IsWalk floppy_volume opts (walk floppy_volume opts)
unfolding floppy_volume
walk-IsWalk_example =
    walk-IsWalk (source floppy) floppy_volume opts
      (λ offset.
        read-IsByte floppy (omega arith) (omega (arith, boot_length))
          (all_bytes-All boot_sector boot_bytes) offset 512)
      (open_volume-volume_of (source floppy)
        (ap (λ b. accepts_bpb (bpb_fields b)) reads_back ∙ boot_taken)
        (ap has_boot_mark reads_back ∙ boot_marked))
