-- ===== src/Part/Gpt/Bounds.antt =====
-- The partitions that gpt.rs finds lie inside the source and are numbered in order.
use reclaim.Prelude.{
  ℕ, zero, suc, ◌+◌, ◌-◌, ◌*◌, ◌^◌, ◌≤◌, ◌<◌, min, ◌≡◌, refl, ◌∙◌, inl, inr, Bool, ◌||◌, Option,
  none, some, List, [], ◌∷◌, arith, ltb, leb, ◌==◌, Bool-cases, Option-cases, length, length-append,
  take, sat_mul, slice, All, All-append,
}
use reclaim.Block.Source.{BlockSource}
use reclaim.Part.Types.{PartitionMap, Note}
use reclaim.Part.Labels.{is_zero_guid}
use reclaim.Part.Reader.{read_bytes, le_u64}
use reclaim.Part.Mbr.Bounds.{InSource, NumberedFrom, NumberedFrom-append}
use reclaim.Part.Gpt.{
  Header, Entries, gpt_partition, place_entry, entry_record, entry_loop, plausible, parse_entries,
  parse_with, parse, parse_header, choose_header,
}

record EntriesOk (total : ℕ) (a : Entries) : Type 0 where
  bounds : All (InSource total) a.entries
  numbered : NumberedFrom 1 a.entries
  next : a.idx ≡ 1 + length a.entries

gpt_partition-InSource :
    (rec : List ℕ) (index start len total : ℕ)
    → start < total
    → 0 < len
    → start + len ≤ total
    → InSource total (gpt_partition rec index start len)
unfolding gpt_partition
gpt_partition-InSource rec index start len total a b c = record {
  starts = a;
  nonempty = b;
  ends = c;
}

index-gpt_partition :
    (rec : List ℕ) (index start len : ℕ) → (gpt_partition rec index start len).index ≡ index
unfolding gpt_partition
index-gpt_partition rec index start len = refl

place_entry-EntriesOk :
    (rec : List ℕ) (start len total : ℕ) (a : Entries)
    → len ≤ total - start
    → EntriesOk total a
    → EntriesOk total (place_entry rec start len total a)
unfolding place_entry
place_entry-EntriesOk rec start len total a le ok =
    elim (Bool-cases (leb total start || len == 0)) [
      | inl outside ↦ rw outside ok
      | inr inside ↦ rw inside (record {
        bounds = All-append (InSource total) a.entries _ ok.bounds (
          gpt_partition-InSource rec a.idx start len total (ground arith) (ground arith)
              (ground arith),
          tt,
        );
        numbered =
            NumberedFrom-append 1 a.entries _ ok.numbered
              (index-gpt_partition rec a.idx start len ∙ ok.next);
        next =
            omega
              (arith, ok.next, length-append a.entries (gpt_partition rec a.idx start len ∷ []));
      })
    ]

entry_record-EntriesOk :
    (rec : List ℕ) (ss total : ℕ) (a : Entries)
    → EntriesOk total a
    → EntriesOk total (entry_record rec ss total a)
unfolding entry_record
entry_record-EntriesOk rec ss total a ok = elim (Bool-cases (is_zero_guid (take 16 rec))) [
  | inl unused ↦ rw unused ok
  | inr used ↦ elim (Bool-cases (ltb (le_u64 rec 40) (le_u64 rec 32))) [
    | inl backwards ↦ rw (used, backwards) ok
    | inr forwards ↦ rw (used, forwards) (place_entry-EntriesOk rec _ _ total a (omega arith) ok)
  ]
]

module _ (table : List ℕ) (entry_size ss total left i : ℕ) (a : Entries) where
  entry_loop_ends :
      slice (i * entry_size) entry_size table ≡ none
      → entry_loop table entry_size ss total (suc left) i a ≡ a
  unfolding entry_loop
  entry_loop_ends e = rw (e, entry_loop)

  entry_loop_goes :
      (rec : List ℕ)
      → slice (i * entry_size) entry_size table ≡ some rec
      → entry_loop table entry_size ss total (suc left) i a
        ≡ entry_loop table entry_size ss total left (i + 1) (entry_record rec ss total a)
  unfolding entry_loop
  entry_loop_goes rec e = rw (e, entry_loop)

entry_loop-EntriesOk :
    (table : List ℕ) (entry_size ss total left i : ℕ) (a : Entries)
    → EntriesOk total a
    → EntriesOk total (entry_loop table entry_size ss total left i a)
entry_loop-EntriesOk table entry_size ss total zero i a ok = unfold entry_loop in ok
entry_loop-EntriesOk table entry_size ss total (suc left) i a ok =
    elim (Option-cases (slice (i * entry_size) entry_size table)) [
      | inl missing ↦ rw (entry_loop_ends table entry_size ss total left i a missing) ok
      | inr (rec, e) ↦ rw (entry_loop_goes table entry_size ss total left i a rec e) (
          entry_loop-EntriesOk table entry_size ss total left (i + 1) _
            (entry_record-EntriesOk rec ss total a ok))
    ]

-- Every partition that the entries of a header yield is a non-empty range inside the source,
-- whatever the header and the table say, and they are numbered 1, 2, … in the order of the table.
pub parse_with_bounds :
    (src : BlockSource) (ss total : ℕ) (hdr : Header) (used_backup : Bool) (notes : List Note)
    → All (InSource total) (parse_with src ss total hdr used_backup notes).entries
      × NumberedFrom 1 (parse_with src ss total hdr used_backup notes).entries
unfolding parse_with parse_entries
parse_with_bounds src ss total hdr used_backup notes = elim (Bool-cases (plausible hdr)) [
  | inr odd ↦ rw odd (tt, tt)
  | inl fine ↦
      let ok =
        entry_loop-EntriesOk
          (read_bytes src (sat_mul hdr.entry_lba ss)
            (min (sat_mul hdr.num_entries hdr.entry_size) (2 ^ 20)))
          hdr.entry_size ss total hdr.num_entries 0
          (record { entries = []; containers = []; idx = 1 })
          (record { bounds = tt; numbered = tt; next = refl }) in
      rw fine (ok.bounds, ok.numbered)
]

-- The same of a whole GPT.
pub gpt_bounds :
    (src : BlockSource) (ss total : ℕ) (m : PartitionMap)
    → parse src ss total ≡ some m
    → All (InSource total) m.entries × NumberedFrom 1 m.entries
unfolding parse
gpt_bounds src ss total m e = elim (Option-cases chosen) [
  | inl none_read ↦ absurd (ground arith)
  | inr ((hdr, used_backup, notes), c) ↦
      let h : m ≡ parse_with src ss total hdr used_backup notes =
        let e' : some (parse_with src ss total hdr used_backup notes) ≡ some m =
          rw (c, parse) at e in
        ground arith in
      rw h (parse_with_bounds src ss total hdr used_backup notes)
]
  where
    chosen : Option (Header × Bool × List Note)
    chosen =
        choose_header (parse_header (read_bytes src ss 512))
          (parse_header (read_bytes src (total - ss) 512))
