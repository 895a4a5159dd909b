-- ===== src/Block/BadBlock.antt =====
-- crates/reclaim-block/src/bad_block.rs: the runs of bad and unread blocks of a source, and the
-- lookup of imaging/mapped.rs over them.
pub mod Coalesce
pub mod Lookup
use reclaim.Prelude.{
  ℕ, suc, ◌+◌, ◌-◌, max, Bool, true, false, ◌&&◌, ◌||◌, none, some, List, [], ◌∷◌, ◌++◌, ltb, leb,
  ◌==◌, if◌then◌else◌, length, get_elem?, sat_add,
}

-- A half-open run of blocks from `start` on.
pub record LbaRange : Type 0 where
  pub start : ℕ
  pub count : ℕ

-- `LbaRange::end`
pub end_of : LbaRange → ℕ
end_of r = sat_add r.start r.count

pub contains : LbaRange → ℕ → Bool
unfolding end_of
contains r lba = leb r.start lba && ltb lba (end_of r)

-- The identity of the source is left out: no operation reads it.
pub record BadBlockMap : Type 0 where
  pub sector_size : ℕ
  pub bad : List LbaRange
  pub unread : List LbaRange

pub new : ℕ → BadBlockMap
new sector_size = record { sector_size = sector_size; bad = []; unread = [] }

-- `sort_by_key(|r| r.start)`, which is stable.
pub insert_run : LbaRange → List LbaRange → List LbaRange
insert_run r [] = r ∷ []
insert_run r (x ∷ xs) = if leb r.start x.start then r ∷ x ∷ xs else x ∷ insert_run r xs

pub sort_runs : List LbaRange → List LbaRange
unfolding insert_run
sort_runs [] = []
sort_runs (r ∷ rs) = insert_run r (sort_runs rs)

-- The run that `last` becomes when `r` overlaps or touches it.
pub extend_run : LbaRange → LbaRange → LbaRange
unfolding end_of
extend_run last r = record last { count = max (end_of last) (end_of r) - last.start }

-- The loop over the sorted runs; `last` is `merged.last_mut()`.
pub merge_from : LbaRange → List LbaRange → List LbaRange
unfolding extend_run
merge_from last [] = last ∷ []
merge_from last (r ∷ rs) = elim (leb r.start (end_of last)) [
  | true ↦ merge_from (extend_run last r) rs
  | false ↦ last ∷ merge_from r rs
]

pub merge_runs : List LbaRange → List LbaRange
unfolding merge_from
merge_runs [] = []
merge_runs (r ∷ rs) = merge_from r rs

pub coalesce : List LbaRange → List LbaRange
unfolding sort_runs merge_runs
coalesce runs = if ltb (length runs) 2 then runs else merge_runs (sort_runs runs)

-- `runs.push(...)`, then `coalesce`.
pub insert_lba : List LbaRange → ℕ → List LbaRange
unfolding coalesce
insert_lba runs lba = coalesce (runs ++ (record { start = lba; count = 1 } ∷ []))

pub add_bad : BadBlockMap → ℕ → BadBlockMap
unfolding insert_lba
add_bad m lba = record m { bad = insert_lba m.bad lba }

pub add_bad_range : BadBlockMap → ℕ → ℕ → BadBlockMap
unfolding coalesce
add_bad_range m start count =
    if count == 0
    then m
    else record m { bad = coalesce (m.bad ++ (record { start = start; count = count } ∷ [])) }

pub add_unread : BadBlockMap → ℕ → BadBlockMap
unfolding insert_lba
add_unread m lba = record m { unread = insert_lba m.unread lba }

-- `runs.iter().any(|r| r.contains(lba))`
pub any_contains : List LbaRange → ℕ → Bool
unfolding contains
any_contains [] lba = false
any_contains (r ∷ rs) lba = contains r lba || any_contains rs lba

pub is_bad : BadBlockMap → ℕ → Bool
unfolding any_contains
is_bad m lba = any_contains m.bad lba

pub is_unread : BadBlockMap → ℕ → Bool
unfolding any_contains
is_unread m lba = any_contains m.unread lba

pub total_count : List LbaRange → ℕ
total_count [] = 0
total_count (r ∷ rs) = r.count + total_count rs

pub bad_sector_count : BadBlockMap → ℕ
unfolding total_count
bad_sector_count m = total_count m.bad

pub is_empty : BadBlockMap → Bool
is_empty m = length m.bad == 0 && length m.unread == 0

-- `partition_point(|r| r.start <= lba)`, the number of runs in front that start at or below `lba`.
pub partition_point : List LbaRange → ℕ → ℕ
partition_point [] lba = 0
partition_point (r ∷ rs) lba = if leb r.start lba then suc (partition_point rs lba) else 0

-- `in_ranges` of imaging/mapped.rs
pub in_ranges : List LbaRange → ℕ → Bool
unfolding partition_point contains
in_ranges rs lba =
    let i = partition_point rs lba in
    if ltb 0 i
    then elim (get_elem? rs (i - 1)) [ none ↦ false | some r ↦ contains r lba ]
    else false
