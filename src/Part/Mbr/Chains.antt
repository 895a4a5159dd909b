-- ===== src/Part/Mbr/Chains.antt =====
-- The logical partitions that the chains of mbr.rs add.
use reclaim.Prelude.Loops.{for_range_keeps}
use reclaim.Prelude.{
  ℕ, zero, suc, ◌+◌, ◌-◌, ◌*◌, min, ◌≡◌, sym, ap, ◌∙◌, inl, inr, Bool, true, false, not, ◌&&◌, none,
  some, List, [], ◌∷◌, ◌++◌, arith, ltb, leb, ◌==◌, Bool-cases, Option-cases, length, length-append,
  get_or, sat_add, slice, All, All-append,
}
use reclaim.Block.Source.{BlockSource}
use reclaim.Part.Types.{Partition, PartitionMap}
use mathlib.Core.List.{append_assoc, append-nil}
use reclaim.Part.Reader.{le_u32, read_bytes}
use reclaim.Part.Mbr.{
  Logical, mbr_table_off, is_extended, has_signature, mbr_partition, logical_entry, ebr_step,
  follow, expand_round, max_index, expand,
}
use reclaim.Part.Mbr.Bounds.{
  InSource, NumberedFrom, NumberedFrom-append, mbr_partition-InSource, index-mbr_partition,
}

-- What the chains have added behind the entries of the table.
pub record Chained (total : ℕ) (base : List Partition) (first : ℕ) (l : Logical) : Type 0 where
  pub more : List Partition
  pub grown : l.entries ≡ base ++ more
  pub bounds : All (InSource total) more
  pub numbered : NumberedFrom first more
  pub next : l.next_index ≡ first + length more

module _ (src : BlockSource) (ext_base total left cur : ℕ) where
  follow_past :
      (l : Logical) → leb total cur ≡ true → follow src ext_base total (suc left) cur l ≡ l
  unfolding follow
  follow_past l e = rw (e, follow)

  follow_last :
      (l : Logical)
      → leb total cur ≡ false
      → (ebr_step (read_bytes src cur 512) ext_base cur total l).1 ≡ none
      → follow src ext_base total (suc left) cur l
        ≡ (ebr_step (read_bytes src cur 512) ext_base cur total l).0
  unfolding follow
  follow_last l e n = rw (e, n, follow)

  follow_next :
      (cur' : ℕ) (l : Logical)
      → leb total cur ≡ false
      → (ebr_step (read_bytes src cur 512) ext_base cur total l).1 ≡ some cur'
      → follow src ext_base total (suc left) cur l
        ≡ follow src ext_base total left cur'
            (ebr_step (read_bytes src cur 512) ext_base cur total l).0
  unfolding follow
  follow_next cur' l e n = rw (e, n, follow)

module _ (total : ℕ) (base : List Partition) (first : ℕ) where
  logical_entry-Chained :
      (e0 : List ℕ) (cur : ℕ) (l : Logical)
      → Chained total base first l
      → Chained total base first (logical_entry e0 cur total l)
  unfolding logical_entry
  logical_entry-Chained e0 cur l c = elim (Bool-cases used) [
    | inr unused ↦ rw unused c
    | inl hit ↦ rw hit (record {
      more = c.more ++ (p ∷ []);
      grown = ap (λ xs. xs ++ (p ∷ [])) c.grown ∙ append_assoc base c.more (p ∷ []);
      bounds = All-append (InSource total) c.more (p ∷ []) c.bounds (
        mbr_partition-InSource l.next_index start len (get_or e0 4 0) total (ground arith)
            (ground arith) (ground arith),
        tt,
      );
      numbered =
          NumberedFrom-append first c.more p c.numbered
            (index-mbr_partition l.next_index start len (get_or e0 4 0) ∙ c.next);
      next = omega (arith, c.next, length-append c.more (p ∷ []));
    })
  ]
    where
      start : ℕ
      start = sat_add cur (le_u32 e0 8 * 512)

      len : ℕ
      len = min (le_u32 e0 12 * 512) (total - start)

      p : Partition
      p = mbr_partition l.next_index start len (get_or e0 4 0)

      used : Bool
      used =
          not (get_or e0 4 0 == 0)
          && not (le_u32 e0 12 * 512 == 0)
          && (ltb start total && ltb 0 len)

  ebr_step-Chained :
      (ebr : List ℕ) (ext_base cur : ℕ) (l : Logical)
      → Chained total base first l
      → Chained total base first (ebr_step ebr ext_base cur total l).0
  unfolding ebr_step
  ebr_step-Chained ebr ext_base cur l c = elim (Bool-cases (has_signature ebr)) [
    | inr unsigned ↦ rw unsigned c
    | inl signed ↦ elim (Option-cases (slice mbr_table_off 16 ebr)) [
      | inl missing ↦ rw (signed, missing, ebr_step) c
      | inr (e0, e) ↦ elim (Option-cases (slice (mbr_table_off + 16) 16 ebr)) [
        | inl missing ↦ rw (signed, e, missing, ebr_step) (logical_entry-Chained e0 cur l c)
        | inr (e1, e') ↦ rw (signed, e, e', ebr_step) (logical_entry-Chained e0 cur l c)
      ]
    ]
  ]

  follow-Chained :
      (src : BlockSource) (ext_base left cur : ℕ) (l : Logical)
      → Chained total base first l
      → Chained total base first (follow src ext_base total left cur l)
  follow-Chained src ext_base zero cur l c = unfold follow in c
  follow-Chained src ext_base (suc left) cur l c =
      let out = ebr_step (read_bytes src cur 512) ext_base cur total l in
      let c' : Chained total base first out.0 =
        ebr_step-Chained (read_bytes src cur 512) ext_base cur l c in
      elim (Bool-cases (leb total cur)) [
        | inl past ↦ rw (follow_past src ext_base total left cur l past) c
        | inr inside ↦ elim (Option-cases out.1) [
          | inl last ↦ rw (follow_last src ext_base total left cur l inside last) c'
          | inr (cur', e) ↦
              rw (follow_next src ext_base total left cur cur' l inside e)
                (follow-Chained src ext_base left cur' out.0 c')
        ]
      ]

  expand_round-Chained :
      (src : BlockSource) (lba0 : List ℕ) (i : ℕ) (l : Logical)
      → Chained total base first l
      → Chained total base first (expand_round src lba0 total i l)
  unfolding expand_round
  expand_round-Chained src lba0 i l c =
      elim (Option-cases (slice (mbr_table_off + i * 16) 16 lba0)) [
        | inl missing ↦ rw (missing, expand_round) c
        | inr (rec, e) ↦ elim (Bool-cases (is_extended (get_or rec 4 0))) [
          | inl ext ↦ rw (e, expand_round, ext) (follow-Chained src _ 256 _ l c)
          | inr plain ↦ rw (e, expand_round, plain) c
        ]
      ]

-- Following the chains of extended partitions keeps the entries of the table in front, and every
-- logical partition that it adds is a non-empty range inside the source, numbered on from the
-- largest index so far.
pub expand_bounds :
    (src : BlockSource) (lba0 : List ℕ) (total : ℕ) (m : PartitionMap)
    → (more : List Partition) × ((expand src lba0 total m).entries ≡ m.entries ++ more)
      × All (InSource total) more
      × NumberedFrom (max_index m.entries + 1) more
unfolding expand
expand_bounds src lba0 total m =
    let first = max_index m.entries + 1 in
    let start : Chained total m.entries first (record { entries = m.entries; next_index = first }) =
      record {
        more = [];
        grown = sym (append-nil m.entries);
        bounds = tt;
        numbered = tt;
        next = omega arith;
      } in
    let c =
      for_range_keeps (expand_round src lba0 total) (Chained total m.entries first)
        (expand_round-Chained total m.entries first src lba0) 4 0 _ start in
    (c.more, c.grown, c.bounds, c.numbered)
