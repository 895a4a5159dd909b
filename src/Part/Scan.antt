-- ===== src/Part/Scan.antt =====
-- crates/reclaim-part/src/{lib.rs,apm.rs}: the scan for a partition scheme.
pub mod Outcome
pub mod Extended
use reclaim.Prelude.{
  ℕ, suc, ◌+◌, ◌*◌, max, Bool, false, not, ◌&&◌, Option, none, some, List, [], ◌∷◌, ◌++◌, map, ltb,
  ◌==◌, if◌then◌else◌, length, get_or,
}
use reclaim.Block.Source.{BlockSource}
use reclaim.Part.Types.{Scheme, Partition, ContainerKind, Container, Note, PartitionMap}
use reclaim.Part.Reader.{read_bytes}
use reclaim.Part.Mbr
use reclaim.Part.Gpt
use reclaim.Part.Gpt.{has_tag, parse}

-- `apm::detect`: the number of entries that the first map entry tells, big-endian.
pub detect_apm : BlockSource → ℕ → Option ℕ
detect_apm src ss =
    let b0 = read_bytes src 0 512 in
    let b1 = read_bytes src ss 512 in
    if not (has_tag b0 0 (0x45 ∷ 0x52 ∷ []))
    then none
    else if not (has_tag b1 0 (0x50 ∷ 0x4D ∷ []))
    then none
    else some (get_or b1 7 0 + 256 * (get_or b1 6 0 + 256 * (get_or b1 5 0 + 256 * get_or b1 4 0)))

-- The APFS magic "NXSB" and the Core Storage signature "CS", looked for in the first 64 bytes.
pub detect_containers : BlockSource → ℕ → List Container
detect_containers src total =
    let head = read_bytes src 0 64 in
    let apfs =
      if has_tag head 32 (0x4E ∷ 0x58 ∷ 0x53 ∷ 0x42 ∷ [])
      then record { kind = ContainerKind.apfs_container; offset = 0 } ∷ []
      else [] in
    let cs =
      if ltb 0 total && has_tag head 88 (0x43 ∷ 0x53 ∷ [])
      then record { kind = ContainerKind.core_storage; offset = 0 } ∷ []
      else [] in
    apfs ++ cs

-- The entries of the MBR but for protective ones, of type 0xEE.
pub is_protective : Partition → Bool
is_protective p = elim p.type_byte [ none ↦ false | some t ↦ t == 0xEE ]

pub real_entries : List Partition → List Partition
real_entries [] = []
real_entries (p ∷ ps) = if is_protective p then real_entries ps else p ∷ real_entries ps

pub as_mbr : Partition → Partition
as_mbr p = record p { scheme = Scheme.mbr }

-- `g.entries.iter().filter(|p| p.scheme == Scheme::Mbr).count()`
pub count_mbr : List Partition → ℕ
count_mbr [] = 0
count_mbr (p ∷ ps) = elim p.scheme [ Scheme.mbr ↦ suc (count_mbr ps) | _ ↦ count_mbr ps ]

pub real_mbr : Option PartitionMap → List Partition
real_mbr none = []
real_mbr (some m) = real_entries m.entries

-- A GPT beside an MBR that maps real partitions becomes a hybrid.
pub with_hybrid : PartitionMap → List Partition → PartitionMap
with_hybrid g [] = g
with_hybrid g (p ∷ ps) =
    let entries = g.entries ++ map as_mbr (p ∷ ps) in
    record g {
      scheme = Scheme.hybrid_mbr;
      entries = entries;
      notes = g.notes ++ (Note.hybrid (count_mbr entries) ∷ []);
    }

-- Neither a GPT nor a usable MBR.
pub without_table : BlockSource → ℕ → List Container → PartitionMap
without_table src ss containers = elim (detect_apm src ss) [
  | some count ↦ record {
    scheme = Scheme.apm;
    entries = [];
    confidence = 60;
    notes = Note.apple_map count ∷ [];
    containers = containers;
  }
  | none ↦ record {
    scheme = Scheme.no_scheme;
    entries = [];
    confidence = 50;
    notes = Note.no_table ∷ [];
    containers = containers;
  }
]

pub append_containers : PartitionMap → List Container → PartitionMap
append_containers m more = record m { containers = m.containers ++ more }

pub without_gpt : BlockSource → List ℕ → ℕ → Option PartitionMap → List Container → PartitionMap
without_gpt src lba0 ss none containers = without_table src ss containers
without_gpt src lba0 ss (some m) containers =
    if length m.entries == 0
    then without_table src ss containers
    else append_containers (Mbr.expand src lba0 src.len m) containers

pub scan : BlockSource → PartitionMap
scan src =
    let ss = max src.sector_size 512 in
    let total = src.len in
    let lba0 = read_bytes src 0 512 in
    let mbr = Mbr.parse lba0 total in
    let containers = detect_containers src total in
    elim (Gpt.parse src ss total) [
      | some g ↦ append_containers (with_hybrid g (real_mbr mbr)) containers
      | none ↦ without_gpt src lba0 ss mbr containers
    ]
