-- ===== src/Part/Types.antt =====
-- crates/reclaim-part/src/lib.rs: the data of a partition map. Human-readable notes are values of
-- a type with a constructor for each message, and a confidence is a number of hundredths.
use Prim.Native.String.{String}
use reclaim.Prelude.{ℕ, Option, List, [], ◌∷◌, map}

pub data Scheme : Type 0 where
  gpt mbr hybrid_mbr apm no_scheme : Scheme

pub label : Scheme → String
label Scheme.gpt = "gpt"
label Scheme.mbr = "mbr"
label Scheme.hybrid_mbr = "hybrid-mbr"
label Scheme.apm = "apm"
label Scheme.no_scheme = "none"

-- A partition's `name` is its UTF-16 code units, before they are decoded to text.
pub record Partition : Type 0 where
  pub index : ℕ
  pub start : ℕ
  pub len : ℕ
  pub scheme : Scheme
  pub type_byte : Option ℕ
  pub type_guid : Option String
  pub type_label : String
  pub name : Option (List ℕ)
  pub fs_hint : Option String

pub data ContainerKind : Type 0 where
  apfs_container core_storage : ContainerKind

pub record Container : Type 0 where
  pub kind : ContainerKind
  pub offset : ℕ

pub data Note : Type 0 where
  extended_present : ℕ → Note
  used_backup_header : Note
  primary_crc_mismatch : Note
  backup_crc_mismatch : Note
  implausible_geometry : ℕ → ℕ → Note
  entries_crc_mismatch : Note
  hybrid : ℕ → Note
  apple_map : ℕ → Note
  no_table : Note

pub record PartitionMap : Type 0 where
  pub scheme : Scheme
  pub entries : List Partition
  pub confidence : ℕ
  pub notes : List Note
  pub containers : List Container

-- `PartitionMap::volume_windows`
unfoldable pub volume_windows : PartitionMap → ℕ → List (ℕ × ℕ)
volume_windows m source_len = elim m.entries [
  | [] ↦ (0, source_len) ∷ []
  | p ∷ ps ↦ (p.start, p.len) ∷ map (λ (q : Partition). (q.start, q.len)) ps
]
