-- ===== src/ExFat/Names.antt =====
-- crates/fs-exfat/src/lib.rs: read_name, exfat_date and the label of a volume.
pub mod Written
use Prim.Native.Nat.{bit_and}
use reclaim.Prelude.{
  ℕ, zero, suc, ◌+◌, ◌-◌, ◌*◌, ◌/◌, ◌^◌, min, ◌||◌, Option, none, some, List, [], ◌∷◌, ◌++◌, ltb,
  leb, ◌==◌, if◌then◌else◌, length, get_or,
}
use reclaim.FsCore.Reader.{le_u16}
use reclaim.FsCore.Text.{from_utf16_lossy}
use reclaim.Fat.Names.{digits2, digits4}

-- The units of one name entry, on those that it still has room for and the name still wants.
pub take_units : List ℕ → ℕ → ℕ → ℕ → List ℕ → List ℕ
take_units dir off name_len zero units = units
take_units dir off name_len (suc left) units =
    let more =
      take_units dir off name_len left
        (units ++ (le_u16 dir (off + 2 + (15 - suc left) * 2) ∷ [])) in
    if leb name_len (length units) then units else more

-- The loop over the name entries, on those that are left.
pub name_loop : List ℕ → ℕ → ℕ → ℕ → List ℕ → List ℕ
unfolding take_units
name_loop dir name_len zero off units = units
name_loop dir name_len (suc left) off units =
    let rest = name_loop dir name_len left (off + 32) (take_units dir off name_len 15 units) in
    if ltb (length dir) (off + 32) || leb name_len (length units)
    then units
    else if bit_and (get_or dir off 0) 0x7F == 0x41
    then rest
    else units

-- `while units.last() == Some(&0) { units.pop() }`
pub strip_zeros : List ℕ → List ℕ
strip_zeros [] = []
strip_zeros (u ∷ us) = elim (strip_zeros us) [
  | [] ↦ if u == 0 then [] else u ∷ []
  | v ∷ vs ↦ u ∷ v ∷ vs
]

unfoldable pub read_name : List ℕ → ℕ → ℕ → ℕ → List ℕ
unfolding name_loop strip_zeros
read_name dir off name_entries name_len =
    from_utf16_lossy (strip_zeros (name_loop dir name_len name_entries off []))

pub exfat_date : ℕ → Option (List ℕ)
exfat_date ts =
    let date = ts / 2 ^ 16 in
    let day = bit_and date 0x1F in
    let month = bit_and (date / 2 ^ 5) 0x0F in
    let year = 1980 + bit_and (date / 2 ^ 9) 0x7F in
    if ts == 0
    then none
    else if month == 0 || day == 0 || ltb 12 month || ltb 31 day
    then none
    else some (digits4 year ++ (b'-' ∷ digits2 month ++ (b'-' ∷ digits2 day)))

pub label_units : List ℕ → ℕ → ℕ → ℕ → List ℕ
label_units dir i zero k = []
label_units dir i (suc left) k = le_u16 dir (i + 2 + k * 2) ∷ label_units dir i left (k + 1)

-- The label among the entries of a directory, on rounds.
pub find_label_entry : List ℕ → ℕ → ℕ → Option (List ℕ)
unfolding label_units
find_label_entry dir zero i = none
find_label_entry dir (suc left) i =
    let t = get_or dir i 0 in
    let n = min (get_or dir (i + 1) 0) 11 in
    let rest = find_label_entry dir left (i + 32) in
    if ltb (length dir) (i + 32)
    then none
    else if t == 0x83
    then some (from_utf16_lossy (label_units dir i n 0))
    else if t == 0x00
    then none
    else rest
