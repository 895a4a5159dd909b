-- ===== src/Tests/Part.antt =====
-- The theorems of the partition scan at concrete inputs.
use native.Mathlib.Nat.{add-zero, zero-add}
use reclaim.Prelude.{
  ℕ, zero, suc, ◌+◌, ◌*◌, ◌<◌, ◌≡◌, refl, ◌≢◌, inl, inr, Bool, true, false, some, List, [], ◌∷◌,
  ◌++◌, arith, leb, Bool-cases, length, get_or, replicate, All,
}
use reclaim.Block.Source.{BlockSource}
use reclaim.Block.Memory
use reclaim.Block.Memory.{MemorySource}
use reclaim.Part.Types.{
  Scheme, Partition, PartitionMap, Container, ContainerKind, Note, volume_windows,
}
use reclaim.Part.Reader.{read_bytes}
use reclaim.Part.Reader.Bytes.{read_bytes-byte}
use reclaim.Part.Mbr
use reclaim.Part.Mbr.Chains.{expand_bounds}
use reclaim.Part.Mbr.Bounds.{InSource, NumberedFrom}
use reclaim.Part.Gpt.{Header, choose_header, has_tag, bytes_eq, gpt_sig}
use reclaim.Part.Gpt.Absent.{LacksHeader}
use reclaim.Part.Mbr.{is_extended}
use reclaim.Part.Mbr.Primary.{type_at, IsNoPrimary}
use reclaim.Part.Scan.Extended.{scan-IsNoPrimary}
use reclaim.Part.Scan.{scan, detect_containers}
use reclaim.Part.Scan.Outcome.{WindowIn, scan_bounds, volume_windows-scan, detect_containers_lem}

-- A boot sector with one Linux partition, of one block at block 1, in a medium of two blocks.
entry : List ℕ
entry = 0 ∷ 0 ∷ 0 ∷ 0 ∷ 0x83 ∷ 0 ∷ 0 ∷ 0 ∷ 1 ∷ 0 ∷ 0 ∷ 0 ∷ 1 ∷ 0 ∷ 0 ∷ 0 ∷ []

boot : List ℕ
boot = replicate 446 0 ++ entry ++ replicate 48 0 ++ (0x55 ∷ 0xAA ∷ [])

disk : MemorySource
disk = record { bytes = boot ++ replicate 512 0; sector_size = 512 }

disk_source : BlockSource
disk_source = Memory.source disk

scan_bounds_example : All (InSource disk_source.len) (scan disk_source).entries
scan_bounds_example = scan_bounds disk_source

volume_windows-scan_example :
    All (WindowIn disk_source.len) (volume_windows (scan disk_source) disk_source.len)
    × (0 < length (volume_windows (scan disk_source) disk_source.len))
volume_windows-scan_example = volume_windows-scan disk_source

detect_containers_lem_example :
    All
      (λ (c : Container). c.kind ≡ ContainerKind.apfs_container)
      (detect_containers disk_source 1024)
detect_containers_lem_example = detect_containers_lem disk_source 1024

-- A map of one extended partition and no other.
only_extended : PartitionMap
only_extended = record {
  scheme = Scheme.mbr;
  entries = [];
  confidence = 90;
  notes = Note.extended_present 1 ∷ [];
  containers = [];
}

-- A medium of three blocks: a boot sector with one extended partition, the record of its chain, which
-- holds a logical partition, and that one.
extended_boot : List ℕ
extended_boot =
    replicate 446 0
    ++ (0 ∷ 0 ∷ 0 ∷ 0 ∷ 0x05 ∷ 0 ∷ 0 ∷ 0 ∷ 1 ∷ 0 ∷ 0 ∷ 0 ∷ 2 ∷ 0 ∷ 0 ∷ 0 ∷ [])
    ++ replicate 48 0
    ++ (0x55 ∷ 0xAA ∷ [])

chained : MemorySource
chained = record { bytes = extended_boot ++ boot ++ replicate 512 0; sector_size = 512 }

chained_size : (chained.sector_size ≡ 512) × (length chained.bytes ≡ 1536)
unfolding chained extended_boot boot entry
chained_size = (refl, refl)

chained_byte :
    (offset i : ℕ)
    → i < 512
    → get_or (read_bytes (Memory.source chained) offset 512) i 0
      ≡ get_or chained.bytes (offset + i) 0
chained_byte offset i lt =
    read_bytes-byte chained (omega (arith, chained_size.0))
      (omega (arith, chained_size.0, chained_size.1)) offset 512 i lt

has_tag-first : (b : List ℕ) → get_or b 0 0 ≢ 0x45 → has_tag b 0 gpt_sig ≡ false
unfolding has_tag bytes_eq
has_tag-first [] h = refl
has_tag-first (x ∷ xs) h = elim (Bool-cases (leb 8 (length (x ∷ xs)))) [
  | inl held ↦ rw (held, has_tag) (ground (arith, h))
  | inr cut ↦ rw (cut, has_tag) refl
]

chained-LacksHeader :
    (offset : ℕ) → get_or chained.bytes offset 0 ≡ 0 → LacksHeader (Memory.source chained) offset
chained-LacksHeader offset h =
    has_tag-first (read_bytes (Memory.source chained) offset 512)
      (rw (chained_byte offset 0 (omega arith), add-zero offset, h) (omega arith))

chained_type :
    (i : ℕ)
    → i < 4
    → type_at (read_bytes (Memory.source chained) 0 512) i
      ≡ get_or chained.bytes (446 + i * 16 + 4) 0
chained_type i h = rw zero-add at (chained_byte 0 (446 + i * 16 + 4) (omega arith))

chained-IsNoPrimary : (i : ℕ) → i < 4 → IsNoPrimary (read_bytes (Memory.source chained) 0 512) i
unfolding chained extended_boot is_extended
chained-IsNoPrimary zero h = inr (rw (chained_type 0 h) refl)
chained-IsNoPrimary (suc zero) h = inl (rw (chained_type 1 h) refl)
chained-IsNoPrimary (suc (suc zero)) h = inl (rw (chained_type 2 h) refl)
chained-IsNoPrimary (suc (suc (suc zero))) h = inl (rw (chained_type 3 h) refl)
chained-IsNoPrimary (suc (suc (suc (suc i)))) h = absurd (omega arith)

scan-IsNoPrimary_example :
    ((scan (Memory.source chained)).entries ≡ [])
    × (volume_windows (scan (Memory.source chained)) (Memory.source chained).len
        ≡ (0, (Memory.source chained).len) ∷ [])
unfolding Memory.source chained extended_boot boot entry
scan-IsNoPrimary_example =
    scan-IsNoPrimary (Memory.source chained) (chained-LacksHeader 512 refl)
      (chained-LacksHeader 1024 refl) chained-IsNoPrimary

expand_bounds_example :
    (more : List Partition) × ((Mbr.expand disk_source boot 1024 only_extended).entries
      ≡ only_extended.entries ++ more)
    × All (InSource 1024) more
    × NumberedFrom (Mbr.max_index only_extended.entries + 1) more
expand_bounds_example = expand_bounds disk_source boot 1024 only_extended

-- A header whose checksum holds or not.
header : Bool → Header
header ok = record {
  entry_lba = 2;
  num_entries = 128;
  entry_size = 128;
  entries_crc = 0;
  header_crc_ok = ok;
}

chosen :
    choose_header (some (header false)) (some (header true))
    ≡ some (header true, true, Note.used_backup_header ∷ [])
unfolding choose_header header
chosen = refl

disk_size : (disk.sector_size ≡ 512) × (length disk.bytes ≡ 1024)
unfolding disk boot entry
disk_size = (refl, refl)

read_bytes-byte_example : get_or (read_bytes disk_source 450 4) 0 0 ≡ get_or disk.bytes (450 + 0) 0
unfolding disk_source
read_bytes-byte_example =
    read_bytes-byte disk (omega (arith, disk_size.0)) (omega (arith, disk_size.0, disk_size.1)) 450
      4 0 (omega arith)
