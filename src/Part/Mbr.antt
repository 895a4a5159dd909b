-- ===== src/Part/Mbr.antt =====
-- crates/reclaim-part/src/mbr.rs: the MBR and its chains of extended partitions.
pub mod Bounds
pub mod Chains
pub mod Primary
use reclaim.Prelude.{
  ℕ, zero, suc, ◌+◌, ◌-◌, ◌*◌, min, max, Bool, not, ◌&&◌, ◌||◌, Option, none, some, List, [], ◌∷◌,
  ◌++◌, ltb, leb, ◌==◌, if◌then◌else◌, length, get_or, sat_add, sat_mul, slice, for_range,
}
use reclaim.Block.Source.{BlockSource}
use reclaim.Part.Types.{Scheme, Partition, Note, PartitionMap}
use reclaim.Part.Labels.{mbr_type_label, mbr_fs_hint}
use reclaim.Part.Reader.{read_bytes, le_u32}

abbrev pub mbr_sig_off : ℕ
mbr_sig_off = 510

abbrev pub mbr_table_off : ℕ
mbr_table_off = 446

unfoldable pub is_extended : ℕ → Bool
is_extended t = t == 0x05 || (t == 0x0F || t == 0x85)

-- `b.get(510) == Some(&0x55) && b.get(511) == Some(&0xAA)`
pub has_signature : List ℕ → Bool
has_signature b =
    ltb (mbr_sig_off + 1) (length b)
    && (get_or b mbr_sig_off 0 == 0x55 && get_or b (mbr_sig_off + 1) 0 == 0xAA)

pub mbr_partition : ℕ → ℕ → ℕ → ℕ → Partition
mbr_partition index start len type_byte = record {
  index = index;
  start = start;
  len = len;
  scheme = Scheme.mbr;
  type_byte = some type_byte;
  type_guid = none;
  type_label = mbr_type_label type_byte;
  name = none;
  fs_hint = mbr_fs_hint type_byte;
}

-- What the loop of `parse` collects: the entries, the extended partitions and the next index.
pub record Table : Type 0 where
  pub entries : List Partition
  pub extended : List (ℕ × ℕ)
  pub idx : ℕ

-- One record of the table, with the bounds that the round computes.
pub table_entry : ℕ → ℕ → ℕ → ℕ → Table → Table
table_entry type_byte start len total t =
    if leb total start || len == 0
    then t
    else if is_extended type_byte
    then record t { extended = t.extended ++ ((start, len) ∷ []) }
    else record t {
      entries = t.entries ++ (mbr_partition t.idx start len type_byte ∷ []);
      idx = t.idx + 1;
    }

pub table_record : List ℕ → ℕ → Table → Table
unfolding table_entry
table_record rec total t =
    let type_byte = get_or rec 4 0 in
    let start = sat_mul (le_u32 rec 8) 512 in
    let num = le_u32 rec 12 in
    if type_byte == 0 || num == 0
    then t
    else table_entry type_byte start (min (sat_mul num 512) (total - start)) total t

pub table_round : List ℕ → ℕ → ℕ → Table → Table
unfolding table_record
table_round lba0 total i t = elim (slice (mbr_table_off + i * 16) 16 lba0) [
  | none ↦ t
  | some rec ↦ table_record rec total t
]

pub parse_table : List ℕ → ℕ → Table
unfolding table_round
parse_table lba0 total =
    for_range 4 0 (table_round lba0 total) (record { entries = []; extended = []; idx = 1 })

pub parse : List ℕ → ℕ → Option PartitionMap
unfolding has_signature
parse lba0 total =
    let t = parse_table lba0 total in
    if not (has_signature lba0)
    then none
    else some (record {
      scheme = Scheme.mbr;
      entries = t.entries;
      confidence = 90;
      notes =
          if ltb 0 (length t.extended) then Note.extended_present (length t.extended) ∷ [] else [];
      containers = [];
    })

-- What `expand` carries along: the entries so far and the next index.
pub record Logical : Type 0 where
  pub entries : List Partition
  pub next_index : ℕ

-- The first entry of an EBR at `cur`: a logical partition relative to it.
pub logical_entry : List ℕ → ℕ → ℕ → Logical → Logical
logical_entry e0 cur total l =
    let t0 = get_or e0 4 0 in
    let rel = le_u32 e0 8 * 512 in
    let num = le_u32 e0 12 * 512 in
    let start = sat_add cur rel in
    let len = min num (total - start) in
    if not (t0 == 0) && not (num == 0) && (ltb start total && ltb 0 len)
    then record {
      entries = l.entries ++ (mbr_partition l.next_index start len t0 ∷ []);
      next_index = l.next_index + 1;
    }
    else l

-- The offset of the next EBR, if the chain goes on: forwards only.
pub next_ebr : List ℕ → ℕ → ℕ → Option ℕ
next_ebr e1 ext_base cur =
    let nxt = le_u32 e1 8 * 512 in
    let next_abs = sat_add ext_base nxt in
    if get_or e1 4 0 == 0 || nxt == 0
    then none
    else if leb next_abs cur
    then none
    else some next_abs

-- One EBR that has been read: the partition that it adds, and where the chain goes.
pub ebr_step : List ℕ → ℕ → ℕ → ℕ → Logical → Logical × Option ℕ
ebr_step ebr ext_base cur total l =
    if not (has_signature ebr) then (l, none) else elim (slice mbr_table_off 16 ebr) [
      | none ↦ (l, none)
      | some e0 ↦ elim (slice (mbr_table_off + 16) 16 ebr) [
        | none ↦ (logical_entry e0 cur total l, none)
        | some e1 ↦ (logical_entry e0 cur total l, next_ebr e1 ext_base cur)
      ]
    ]

-- The `while guard < 256` loop, on the rounds that are left.
pub follow : BlockSource → ℕ → ℕ → ℕ → ℕ → Logical → Logical
follow src ext_base total zero cur l = l
follow src ext_base total (suc left) cur l =
    if leb total cur
    then l
    else let (l', next) = ebr_step (read_bytes src cur 512) ext_base cur total l in
      elim next [ none ↦ l' | some cur' ↦ follow src ext_base total left cur' l' ]

pub expand_round : BlockSource → List ℕ → ℕ → ℕ → Logical → Logical
expand_round src lba0 total i l = elim (slice (mbr_table_off + i * 16) 16 lba0) [
  | none ↦ l
  | some rec ↦
      if is_extended (get_or rec 4 0)
      then follow src (le_u32 rec 8 * 512) total 256 (le_u32 rec 8 * 512) l
      else l
]

pub max_index : List Partition → ℕ
max_index [] = 0
max_index (p ∷ ps) = max p.index (max_index ps)

pub expand : BlockSource → List ℕ → ℕ → PartitionMap → PartitionMap
expand src lba0 total m =
    let l =
      for_range 4 0 (expand_round src lba0 total)
        (record { entries = m.entries; next_index = max_index m.entries + 1 }) in
    record m { entries = l.entries }
