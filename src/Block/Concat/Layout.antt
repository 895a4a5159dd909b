-- ===== src/Block/Concat/Layout.antt =====
-- The parts of a concatenation: where each lies, and which one holds an offset.
use native.Mathlib.Nat.{div-add-mod', mul-mod_left}
use reclaim.Prelude.{
  ℕ, ◌+◌, ◌-◌, ◌*◌, ◌/◌, ◌%◌, ◌≤◌, ◌<◌, ◌≡◌, refl, ap, inl, inr, true, ◌&&◌, some, List, [], ◌∷◌,
  arith, ltb, leb, ◌==◌, Bool-cases, u64_max, sat_add, is_multiple_of,
}
use reclaim.Block.Source.{BlockSource}
use reclaim.Block.Concat.{ConcatPart, place_parts, first_sector_size, new, find_part}

-- The parts follow one another from `k` to `n`; each is whole sectors, and at least one.
abbrev pub LaidOut : ℕ → ℕ → List ConcatPart → ℕ → Type 0
LaidOut ss k [] n = k ≡ n
LaidOut ss k (p ∷ rest) n =
    (p.start ≡ k)
    × (0 < p.len)
    × (is_multiple_of p.len ss ≡ true)
    × (p.len ≤ p.src.len)
    × LaidOut ss (k + p.len) rest n

-- What the sources hold together.
abbrev pub sum_len : List BlockSource → ℕ
sum_len [] = 0
sum_len (p ∷ rest) = p.len + sum_len rest

whole_sectors : (n ss : ℕ) → 0 < ss → is_multiple_of (n - n % ss) ss ≡ true
whole_sectors n ss pos =
    let on_sector : n - n % ss ≡ n / ss * ss = omega (arith, div-add-mod' n ss) in
    ground (arith, ap (λ (t : ℕ). t % ss) on_sector, mul-mod_left (n / ss) ss)

place_parts-LaidOut :
    (ss : ℕ) (sources : List BlockSource) (cursor : ℕ)
    → 0 < ss
    → cursor + sum_len sources ≤ u64_max
    → LaidOut ss cursor (place_parts ss sources cursor).0 (place_parts ss sources cursor).1
unfolding place_parts
place_parts-LaidOut ss [] cursor pos fits = refl
place_parts-LaidOut ss (p ∷ rest) cursor pos fits = elim (Bool-cases (p.len - p.len % ss == 0)) [
  | inl empty ↦ rw empty (place_parts-LaidOut ss rest cursor pos (omega arith))
  | inr some_sectors ↦
      let e : sat_add cursor (p.len - p.len % ss) ≡ cursor + (p.len - p.len % ss) = omega arith in
      rw (some_sectors, e)
        (
          refl,
          ground arith,
          whole_sectors p.len ss pos,
          omega arith,
          place_parts-LaidOut ss rest (cursor + (p.len - p.len % ss)) pos (omega arith),
        )
]

positive : (sources : List BlockSource) → 0 < first_sector_size sources
unfolding first_sector_size
positive [] = omega arith
positive (p ∷ rest) = omega arith

-- A concatenation whose sources together fit 64 bits lays its parts end to end, from zero to its
-- length, each a positive whole number of sectors and no longer than its source.
pub new-LaidOut :
    (sources : List BlockSource)
    → sum_len sources ≤ u64_max
    → LaidOut (new sources).sector_size 0 (new sources).parts (new sources).total
unfolding new
new-LaidOut sources fits =
    place_parts-LaidOut (first_sector_size sources) sources 0 (positive sources) (omega arith)

-- In parts that are laid end to end, every offset from the first part to the end of the last is
-- found in a part that holds it.
pub find_part_lem :
    (ss k : ℕ) (parts : List ConcatPart) (n cur : ℕ)
    → LaidOut ss k parts n
    → k ≤ cur
    → cur < n
    → (p : ConcatPart) × (find_part parts cur ≡ some p) × (p.start ≤ cur) × (cur < p.start + p.len)
unfolding find_part
find_part_lem ss k [] n cur l a b = absurd (omega (arith, l))
find_part_lem ss k (p ∷ rest) n cur (e, pos, mult, small, l) a b =
    elim (Bool-cases (leb p.start cur && ltb cur (p.start + p.len))) [
      | inl here ↦ (p, rw here refl, ground arith, ground arith)
      | inr later ↦
          let (q, found, lo, hi) =
            find_part_lem ss (k + p.len) rest n cur l (ground (arith, e)) b in
          (q, rw later found, lo, hi)
    ]
