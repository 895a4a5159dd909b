-- ===== src/Part/Mbr/Primary.antt =====
-- A boot sector whose table has no primary partition: `parse` finds no entry in it.
use reclaim.Prelude.{
  ltb, ℕ, ◌+◌, ◌*◌, ◌<◌, ◌≡◌, refl, ◌∙◌, ◌⊎◌, inl, inr, true, ◌||◌, none, some, List, [], ◌∷◌,
  arith, ltb, leb, ◌==◌, if◌then◌else◌, Bool-cases, length, get_or, take, drop, get_or-take,
  get_or-drop,
}
use reclaim.Part.Types.{PartitionMap, Scheme, Note}
use reclaim.Part.Reader.{le_u32}
use reclaim.Part.Mbr.{
  Table, is_extended, table_entry, table_record, table_round, parse_table, has_signature, parse,
}

-- The type byte of record `i` of the table of a boot sector.
abbrev pub type_at : List ℕ → ℕ → ℕ
type_at b i = get_or b (446 + i * 16 + 4) 0

-- The record is unused, or tells of an extended partition.
abbrev pub IsNoPrimary : List ℕ → ℕ → Type 0
IsNoPrimary b i = (type_at b i ≡ 0) ⊎ (is_extended (type_at b i) ≡ true)

entries-table_entry :
    (type_byte start len total : ℕ) (t : Table)
    → is_extended type_byte ≡ true
    → (table_entry type_byte start len total t).entries ≡ t.entries
unfolding table_entry
entries-table_entry type_byte start len total t h = ground (arith, h)

entries-table_record :
    (rec : List ℕ) (total : ℕ) (t : Table)
    → (get_or rec 4 0 ≡ 0) ⊎ (is_extended (get_or rec 4 0) ≡ true)
    → (table_record rec total t).entries ≡ t.entries
unfolding table_record
entries-table_record rec total t (inl free) = rw free refl
entries-table_record rec total t (inr ext) =
    elim (Bool-cases (get_or rec 4 0 == 0 || le_u32 rec 12 == 0)) [
      | inl none_here ↦ rw none_here refl
      | inr some_here ↦ rw some_here (entries-table_entry (get_or rec 4 0) _ _ total t ext)
    ]

entries-table_round :
    (b : List ℕ) (total i : ℕ) (t : Table)
    → IsNoPrimary b i
    → (table_round b total i t).entries ≡ t.entries
unfolding table_round
entries-table_round b total i t h = elim (Bool-cases (leb (446 + i * 16 + 16) (length b))) [
  | inr cut ↦ rw (cut, table_round) refl
  | inl held ↦
      let same : get_or (take 16 (drop (446 + i * 16) b)) 4 0 ≡ type_at b i =
        ground
          (arith, get_or-take 16 (drop (446 + i * 16) b) 4 0, get_or-drop (446 + i * 16) b 4 0) in
      rw (held, table_round)
        (entries-table_record (take 16 (drop (446 + i * 16) b)) total t (rw same h))
]

entries-parse_table :
    (b : List ℕ) (total : ℕ)
    → ((i : ℕ) → i < 4 → IsNoPrimary b i)
    → (parse_table b total).entries ≡ []
unfolding parse_table
entries-parse_table b total h =
    entries-table_round b total 3 _ (h 3 (omega arith))
    ∙ entries-table_round b total 2 _ (h 2 (omega arith))
    ∙ entries-table_round b total 1 _ (h 1 (omega arith))
    ∙ entries-table_round b total 0 _ (h 0 (omega arith))

-- `parse` fails, or has no entry.
pub parse-IsNoPrimary :
    (b : List ℕ) (total : ℕ)
    → ((i : ℕ) → i < 4 → IsNoPrimary b i)
    → (parse b total ≡ none) ⊎ ((m : PartitionMap) × (parse b total ≡ some m) × (m.entries ≡ []))
unfolding parse
parse-IsNoPrimary b total h = elim (Bool-cases (has_signature b)) [
  | inl signed ↦ inr (
    record {
      scheme = Scheme.mbr;
      entries = (parse_table b total).entries;
      confidence = 90;
      notes =
          if ltb 0 (length (parse_table b total).extended)
          then Note.extended_present (length (parse_table b total).extended) ∷ []
          else [];
      containers = [];
    },
    rw signed refl,
    entries-parse_table b total h,
  )
  | inr unsigned ↦ inl (rw unsigned refl)
]
