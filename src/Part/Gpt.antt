-- ===== src/Part/Gpt.antt =====
-- crates/reclaim-part/src/gpt.rs: the primary and backup headers of a GPT and its entries.
pub mod Choice
pub mod Absent
pub mod Bounds
use text.Mathlib.Text.{◌==◌ as str_eq}
use mathlib.Core.Option
use reclaim.Prelude.{
  ℕ, zero, suc, ◌+◌, ◌-◌, ◌*◌, ◌^◌, min, Bool, true, false, not, ◌&&◌, ◌||◌, Option, none, some,
  List, [], ◌∷◌, ◌++◌, map, ltb, leb, ◌==◌, if◌then◌else◌, length, take, replicate, sat_add,
  sat_mul, slice, overwrite,
}
use reclaim.Block.Source.{BlockSource}
use reclaim.Part.Types.{Scheme, Partition, ContainerKind, Container, Note, PartitionMap, label}
use reclaim.Part.Labels.{guid_to_string, guid_type_label, gpt_fs_hint, is_zero_guid}
use reclaim.Part.Crc.{crc32}
use reclaim.Part.Reader.{read_bytes, le_u32, le_u64}

-- `b"EFI PART"`
abbrev pub gpt_sig : List ℕ
gpt_sig = 0x45 ∷ 0x46 ∷ 0x49 ∷ 0x20 ∷ 0x50 ∷ 0x41 ∷ 0x52 ∷ 0x54 ∷ []

unfoldable pub bytes_eq : List ℕ → List ℕ → Bool
bytes_eq [] [] = true
bytes_eq [] (y ∷ ys) = false
bytes_eq (x ∷ xs) [] = false
bytes_eq (x ∷ xs) (y ∷ ys) = x == y && bytes_eq xs ys

-- `b.get(off..off + tag.len()) == Some(tag)`
unfoldable pub has_tag : List ℕ → ℕ → List ℕ → Bool
unfolding bytes_eq
has_tag b off tag = elim (slice off (length tag) b) [ none ↦ false | some s ↦ bytes_eq s tag ]

pub record Header : Type 0 where
  pub entry_lba : ℕ
  pub num_entries : ℕ
  pub entry_size : ℕ
  pub entries_crc : ℕ
  pub header_crc_ok : Bool

pub header_of : List ℕ → List ℕ → Header
header_of buf hdr = record {
  entry_lba = le_u64 buf 72;
  num_entries = le_u32 buf 80;
  entry_size = le_u32 buf 84;
  entries_crc = le_u32 buf 88;
  header_crc_ok = crc32 (overwrite hdr 16 (replicate 4 0)) == le_u32 buf 16;
}

pub parse_header : List ℕ → Option Header
parse_header buf =
    let header_size = le_u32 buf 12 in
    if not (has_tag buf 0 gpt_sig)
    then none
    else if ltb header_size 92 || ltb 512 header_size
    then none
    else Option.map (header_of buf) (slice 0 header_size buf)

-- The header that is used, whether it is the backup, and the note that tells of it.
unfoldable pub choose_header : Option Header → Option Header → Option (Header × Bool × List Note)
choose_header none none = none
choose_header none (some b) =
    if b.header_crc_ok
    then some (b, true, Note.used_backup_header ∷ [])
    else some (b, true, Note.backup_crc_mismatch ∷ [])
choose_header (some p) none =
    if p.header_crc_ok then some (p, false, []) else some (p, false, Note.primary_crc_mismatch ∷ [])
choose_header (some p) (some b) =
    if p.header_crc_ok
    then some (p, false, [])
    else if b.header_crc_ok
    then some (b, true, Note.used_backup_header ∷ [])
    else some (p, false, Note.primary_crc_mismatch ∷ [])

-- The loop of `decode_name`: UTF-16 code units up to the first zero.
pub name_units : List ℕ → List ℕ
name_units [] = []
name_units (b ∷ []) = []
name_units (lo ∷ hi ∷ rest) =
    let more = name_units rest in if lo + 256 * hi == 0 then [] else (lo + 256 * hi) ∷ more

pub decode_name : List ℕ → Option (List ℕ)
unfolding name_units
decode_name raw = elim (name_units raw) [ [] ↦ none | u ∷ us ↦ some (u ∷ us) ]

pub record Entries : Type 0 where
  pub entries : List Partition
  pub containers : List Container
  pub idx : ℕ

-- The container that a partition of a known Apple type announces.
pub container_of : ℕ → List ℕ → List Container
container_of start type_raw =
    let label = guid_type_label (guid_to_string type_raw) in
    if str_eq label "Apple APFS"
    then record { kind = ContainerKind.apfs_container; offset = start } ∷ []
    else if str_eq label "Apple Core Storage"
    then record { kind = ContainerKind.core_storage; offset = start } ∷ []
    else []

pub gpt_partition : List ℕ → ℕ → ℕ → ℕ → Partition
gpt_partition rec index start len =
    let guid = guid_to_string (take 16 rec) in
    record {
      index = index;
      start = start;
      len = len;
      scheme = Scheme.gpt;
      type_byte = none;
      type_guid = some guid;
      type_label = guid_type_label guid;
      name = decode_name (elim (slice 56 72 rec) [ none ↦ [] | some s ↦ s ]);
      fs_hint = gpt_fs_hint (guid_type_label guid);
    }

-- An entry whose type is set and whose last block is not before its first.
pub place_entry : List ℕ → ℕ → ℕ → ℕ → Entries → Entries
place_entry rec start len total a = if leb total start || len == 0 then a else record {
  entries = a.entries ++ (gpt_partition rec a.idx start len ∷ []);
  containers = a.containers ++ container_of start (take 16 rec);
  idx = a.idx + 1;
}

pub entry_record : List ℕ → ℕ → ℕ → Entries → Entries
entry_record rec ss total a =
    let first_lba = le_u64 rec 32 in
    let last_lba = le_u64 rec 40 in
    let start = sat_mul first_lba ss in
    let len = min (sat_mul (sat_add (last_lba - first_lba) 1) ss) (total - start) in
    if is_zero_guid (take 16 rec)
    then a
    else if ltb last_lba first_lba
    then a
    else place_entry rec start len total a

-- The loop over the entries, on the rounds that are left: it ends at the first record that the
-- table does not hold whole.
pub entry_loop : List ℕ → ℕ → ℕ → ℕ → ℕ → ℕ → Entries → Entries
entry_loop table entry_size ss total zero i a = a
entry_loop table entry_size ss total (suc left) i a =
    elim (slice (i * entry_size) entry_size table) [
      | none ↦ a
      | some rec ↦ entry_loop table entry_size ss total left (i + 1) (entry_record rec ss total a)
    ]

pub confidence_of : Bool → Bool → Bool → ℕ
confidence_of true true false = 99
confidence_of true true true = 90
confidence_of true false _ = 60
confidence_of false _ _ = 60

pub plausible : Header → Bool
plausible h =
    leb 128 h.entry_size
    && leb h.entry_size 4096
    && (not (h.num_entries == 0) && leb h.num_entries 4096)

pub parse_entries : BlockSource → ℕ → ℕ → Header → Bool → List Note → PartitionMap
parse_entries src ss total hdr used_backup notes =
    let table_bytes = min (sat_mul hdr.num_entries hdr.entry_size) (2 ^ 20) in
    let table = read_bytes src (sat_mul hdr.entry_lba ss) table_bytes in
    let crc_ok = crc32 table == hdr.entries_crc in
    let a =
      entry_loop table hdr.entry_size ss total hdr.num_entries 0
        (record { entries = []; containers = []; idx = 1 }) in
    record {
      scheme = Scheme.gpt;
      entries = a.entries;
      confidence = confidence_of hdr.header_crc_ok crc_ok used_backup;
      notes = if crc_ok then notes else notes ++ (Note.entries_crc_mismatch ∷ []);
      containers = a.containers;
    }

pub parse_with : BlockSource → ℕ → ℕ → Header → Bool → List Note → PartitionMap
parse_with src ss total hdr used_backup notes =
    if plausible hdr then parse_entries src ss total hdr used_backup notes else record {
      scheme = Scheme.gpt;
      entries = [];
      confidence = 40;
      notes = notes ++ (Note.implausible_geometry hdr.num_entries hdr.entry_size ∷ []);
      containers = [];
    }

pub parse : BlockSource → ℕ → ℕ → Option PartitionMap
parse src ss total =
    let primary = parse_header (read_bytes src ss 512) in
    let backup = parse_header (read_bytes src (total - ss) 512) in
    elim (choose_header primary backup) [
      | none ↦ none
      | some (hdr, used_backup, notes) ↦ some (parse_with src ss total hdr used_backup notes)
    ]
