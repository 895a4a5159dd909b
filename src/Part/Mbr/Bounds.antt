-- ===== src/Part/Mbr/Bounds.antt =====
-- The partitions that mbr.rs finds lie inside the source and are numbered in order.
use reclaim.Prelude.Loops.{for_range_keeps}
use reclaim.Prelude.{
  ℕ, ◌+◌, ◌-◌, ◌*◌, ◌≤◌, ◌<◌, ◌≡◌, refl, ◌∙◌, inl, inr, ◌||◌, some, List, [], ◌∷◌, ◌++◌, arith, leb,
  ◌==◌, Bool-cases, Option-cases, length, length-append, get_or, sat_mul, slice, All, All-append,
}
use reclaim.Part.Types.{Partition, PartitionMap}
use reclaim.Part.Reader.{le_u32}
use reclaim.Part.Mbr.{
  Table, mbr_table_off, is_extended, mbr_partition, table_entry, table_record, table_round,
  parse_table, parse,
}

-- A partition that is not empty and lies inside a source of `total` bytes.
pub record InSource (total : ℕ) (p : Partition) : Type 0 where
  pub starts : p.start < total
  pub nonempty : 0 < p.len
  pub ends : p.start + p.len ≤ total

-- The indices are `k`, `k + 1`, …
abbrev pub NumberedFrom : ℕ → List Partition → Type 0
NumberedFrom k [] = Unit {0}
NumberedFrom k (p ∷ ps) = (p.index ≡ k) × NumberedFrom (k + 1) ps

pub NumberedFrom-append :
    (k : ℕ) (ps : List Partition) (p : Partition)
    → NumberedFrom k ps
    → p.index ≡ k + length ps
    → NumberedFrom k (ps ++ (p ∷ []))
NumberedFrom-append k [] p n e = (omega arith, tt)
NumberedFrom-append k (q ∷ qs) p (h, n) e = (h, NumberedFrom-append (k + 1) qs p n (omega arith))

record TableOk (total : ℕ) (t : Table) : Type 0 where
  bounds : All (InSource total) t.entries
  numbered : NumberedFrom 1 t.entries
  next : t.idx ≡ 1 + length t.entries

pub mbr_partition-InSource :
    (index start len t total : ℕ)
    → start < total
    → 0 < len
    → start + len ≤ total
    → InSource total (mbr_partition index start len t)
unfolding mbr_partition
mbr_partition-InSource index start len t total a b c = record { starts = a; nonempty = b; ends = c }

pub index-mbr_partition : (index start len t : ℕ) → (mbr_partition index start len t).index ≡ index
unfolding mbr_partition
index-mbr_partition index start len t = refl

table_entry-TableOk :
    (type_byte start len total : ℕ) (t : Table)
    → len ≤ total - start
    → TableOk total t
    → TableOk total (table_entry type_byte start len total t)
unfolding table_entry
table_entry-TableOk type_byte start len total t le ok =
    elim (Bool-cases (leb total start || len == 0)) [
      | inl outside ↦ rw outside ok
      | inr inside ↦ elim (Bool-cases (is_extended type_byte)) [
        | inl ext ↦
            rw (inside, ext) (record { bounds = ok.bounds; numbered = ok.numbered; next = ok.next })
        | inr plain ↦
            rw (inside, plain)
              (record {
                bounds = All-append (InSource total) t.entries _ ok.bounds (
                  mbr_partition-InSource t.idx start len type_byte total (ground arith)
                      (ground arith) (ground arith),
                  tt,
                );
                numbered =
                    NumberedFrom-append 1 t.entries _ ok.numbered
                      (index-mbr_partition t.idx start len type_byte ∙ ok.next);
                next = omega (
                  arith,
                  ok.next,
                  length-append t.entries (mbr_partition t.idx start len type_byte ∷ []),
                );
              })
      ]
    ]

table_record-TableOk :
    (rec : List ℕ) (total : ℕ) (t : Table)
    → TableOk total t
    → TableOk total (table_record rec total t)
unfolding table_record
table_record-TableOk rec total t ok =
    elim (Bool-cases (get_or rec 4 0 == 0 || le_u32 rec 12 == 0)) [
      | inl unused ↦ rw unused ok
      | inr used ↦ rw used (
          table_entry-TableOk (get_or rec 4 0) (sat_mul (le_u32 rec 8) 512) _ total t (omega arith)
            ok)
    ]

table_round-TableOk :
    (lba0 : List ℕ) (total i : ℕ) (t : Table)
    → TableOk total t
    → TableOk total (table_round lba0 total i t)
unfolding table_round
table_round-TableOk lba0 total i t ok =
    elim (Option-cases (slice (mbr_table_off + i * 16) 16 lba0)) [
      | inl missing ↦ rw (missing, table_round) ok
      | inr (rec, e) ↦ rw (e, table_round) (table_record-TableOk rec total t ok)
    ]

parse_table-TableOk : (lba0 : List ℕ) (total : ℕ) → TableOk total (parse_table lba0 total)
unfolding parse_table
parse_table-TableOk lba0 total =
    for_range_keeps (table_round lba0 total) (TableOk total) (table_round-TableOk lba0 total) 4 0 _
      (record { bounds = tt; numbered = tt; next = refl })

-- Every primary partition of an MBR table is a non-empty range inside the source, and they are
-- numbered 1, 2, … in the order of the table.
pub parse_table_bounds :
    (lba0 : List ℕ) (total : ℕ)
    → All (InSource total) (parse_table lba0 total).entries
      × NumberedFrom 1 (parse_table lba0 total).entries
parse_table_bounds lba0 total = let ok = parse_table-TableOk lba0 total in (ok.bounds, ok.numbered)

-- The same of a whole MBR.
pub parse_bounds :
    (lba0 : List ℕ) (total : ℕ) (m : PartitionMap)
    → parse lba0 total ≡ some m
    → All (InSource total) m.entries × NumberedFrom 1 m.entries
unfolding parse
parse_bounds lba0 total m e =
    let h : m.entries ≡ (parse_table lba0 total).entries = ground arith in
    rw h (parse_table_bounds lba0 total)
