-- ===== src/Fat/Names.antt =====
-- crates/fs-fat/src/lib.rs: the names and dates of directory entries. A text is the list of its
-- code points.
pub mod Long
use Prim.Native.Nat.{bit_and}
use mathlib.Core.List.{reverse}
use mathlib.Core.Option
use reclaim.Prelude.{
  ℕ, zero, suc, ◌+◌, ◌/◌, ◌%◌, ◌^◌, Bool, true, false, not, ◌&&◌, ◌||◌, Option, none, some, List,
  [], ◌∷◌, ◌++◌, map, ltb, leb, ◌==◌, if◌then◌else◌, length, set, get_or, take, drop, replicate,
  slice,
}
use reclaim.FsCore.Reader.{le_u16}
use reclaim.FsCore.Text.{from_utf16_lossy, trim_end, lower_ascii}

-- The inner loop of `lfn_chars`, over one range of bytes.
pub range_units : ℕ → List ℕ → ℕ → ℕ → List ℕ
range_units zero ent p stop = []
range_units (suc left) ent p stop =
    let more = range_units left ent (p + 2) stop in
    if ltb (p + 1) stop then le_u16 ent p ∷ more else []

unfoldable pub lfn_chars : List ℕ → List ℕ
unfolding range_units
lfn_chars ent = range_units 13 ent 1 11 ++ (range_units 13 ent 14 26 ++ range_units 13 ent 28 32)

-- The units of a piece that are not padding, before `rest`.
pub push_units : List ℕ → List ℕ → List ℕ
push_units [] rest = rest
push_units (u ∷ us) rest =
    if u == 0x0000 || u == 0xFFFF then push_units us rest else u ∷ push_units us rest

pub join_pieces : List (List ℕ) → List ℕ
unfolding push_units
join_pieces [] = []
join_pieces (p ∷ ps) = push_units p (join_pieces ps)

unfoldable pub assemble_lfn : List (List ℕ) → Option (List ℕ)
unfolding join_pieces
assemble_lfn lfn = elim (join_pieces (reverse lfn)) [
  | [] ↦ none
  | u ∷ us ↦ some (from_utf16_lossy (u ∷ us))
]

-- `if b == 0x05 { 0xE5 } else { b } as char`, trimmed, and in lower case where the flag is set.
pub trim_fat : List ℕ → Bool → List ℕ
trim_fat raw lower =
    let trimmed = trim_end (map (λ b. if b == 0x05 then 0xE5 else b) raw) in
    if lower then lower_ascii trimmed else trimmed

-- The count of a first character, and where it is not there yet, a new one.
pub bump : ℕ → List (ℕ × ℕ) → List (ℕ × ℕ)
bump c [] = (c, 1) ∷ []
bump c ((ch, n) ∷ counts) = if ch == c then (ch, n + 1) ∷ counts else (ch, n) ∷ bump c counts

pub same_bytes : List ℕ → List ℕ → Bool
same_bytes [] [] = true
same_bytes (a ∷ xs) (b ∷ ys) = a == b && same_bytes xs ys
same_bytes [] (b ∷ ys) = false
same_bytes (a ∷ xs) [] = false

pub count_firsts : List ℕ → List (List ℕ) → List (ℕ × ℕ) → List (ℕ × ℕ)
unfolding bump same_bytes
count_firsts key [] counts = counts
count_firsts key (sib ∷ sibs) counts =
    let c = get_or sib 0 0 in
    count_firsts key sibs (
      if same_bytes (take 3 (drop 1 sib)) key && not (c == 0 || c == 32)
      then bump c counts
      else counts)

-- `max_by_key`: the last of the largest.
pub most_frequent : List (ℕ × ℕ) → Option (ℕ × ℕ)
most_frequent [] = none
most_frequent ((c, n) ∷ counts) = elim (most_frequent counts) [
  | none ↦ some (c, n)
  | some (d, m) ↦ if leb n m then some (d, m) else some (c, n)
]

unfoldable pub infer_first_char : List ℕ → List (List ℕ) → Option ℕ
unfolding count_firsts most_frequent
infer_first_char deleted siblings =
    Option.map (λ (p : ℕ × ℕ). p.0)
      (most_frequent (count_firsts (take 3 (drop 1 deleted)) siblings []))

-- The eleven bytes of a name, its first one guessed if the entry is deleted.
pub raw_short : List ℕ → Bool → List (List ℕ) → List ℕ
raw_short ent deleted siblings =
    let name : List ℕ = elim (slice 0 11 ent) [ some s ↦ s | none ↦ replicate 11 0 ] in
    if deleted
    then set name 0 (elim (infer_first_char name siblings) [ some c ↦ c | none ↦ b'_' ])
    else name

unfoldable pub short_name : List ℕ → Bool → List (List ℕ) → List ℕ
unfolding trim_fat raw_short
short_name ent deleted siblings =
    let name = raw_short ent deleted siblings in
    let ntres = get_or ent 12 0 in
    let base = trim_fat (take 8 name) (not (bit_and ntres 0x08 == 0)) in
    let ext = trim_fat (take 3 (drop 8 name)) (not (bit_and ntres 0x10 == 0)) in
    elim ext [ [] ↦ base | c ∷ cs ↦ base ++ (b'.' ∷ c ∷ cs) ]

-- Two and four decimal digits.
pub digits2 : ℕ → List ℕ
digits2 n = (b'0' + n / 10 % 10) ∷ (b'0' + n % 10) ∷ []

pub digits4 : ℕ → List ℕ
unfolding digits2
digits4 n = digits2 (n / 100) ++ digits2 (n % 100)

unfoldable pub fat_date : ℕ → Option (List ℕ)
unfolding digits4 digits2
fat_date date =
    let day = bit_and date 0x1F in
    let month = bit_and (date / 2 ^ 5) 0x0F in
    let year = 1980 + bit_and (date / 2 ^ 9) 0x7F in
    if date == 0
    then none
    else if month == 0 || day == 0 || ltb 12 month || ltb 31 day
    then none
    else some (digits4 year ++ (b'-' ∷ digits2 month ++ (b'-' ∷ digits2 day)))

-- The loop of `collect_sfn_names`, one round for each 32 bytes.
pub sfn_loop : ℕ → List ℕ → ℕ → List (List ℕ)
sfn_loop zero dir i = []
sfn_loop (suc left) dir i =
    let ent = take 32 (drop i dir) in
    let fb = get_or ent 0 0 in
    let more = sfn_loop left dir (i + 32) in
    if ltb (length dir) (i + 32)
    then []
    else if fb == 0
    then []
    else if not (get_or ent 11 0 == 0x0F) && not (fb == 0xE5) && not (fb == 0x2E)
    then take 11 ent ∷ more
    else more

unfoldable pub collect_sfn_names : List ℕ → List (List ℕ)
unfolding sfn_loop
collect_sfn_names dir = sfn_loop (length dir / 32) dir 0
