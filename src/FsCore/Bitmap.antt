-- ===== src/FsCore/Bitmap.antt =====
-- crates/reclaim-fs-core/src/bitmap.rs: the allocation bitmap of a volume. A fraction is the pair
-- of its counts.
pub mod Count
use Prim.Native.Nat.{bit_and}
use reclaim.Block.Bitset.{popcount}
use reclaim.Prelude.{
  ℕ, zero, suc, ◌+◌, ◌-◌, ◌/◌, ◌%◌, ◌^◌, min, max, Bool, true, ◌&&◌, ◌||◌, none, some, List, [],
  ◌∷◌, ltb, leb, ◌==◌, if◌then◌else◌, length, get_elem?, sat_add, sat_mul, slice,
}

pub record Bitmap : Type 0 where
  pub block_size : ℕ
  pub base_offset : ℕ
  pub block_count : ℕ
  pub bits : List ℕ

unfoldable pub new : ℕ → ℕ → ℕ → List ℕ → Bitmap
new block_size base_offset block_count bits = record {
  block_size = max block_size 1;
  base_offset = base_offset;
  block_count = block_count;
  bits = bits;
}

-- Out of range, a cluster counts as allocated.
unfoldable pub is_block_allocated : Bitmap → ℕ → Bool
is_block_allocated m index =
    if leb m.block_count index then true else elim (get_elem? m.bits (index / 8)) [
      | some b ↦ bit_and (b / 2 ^ (index % 8)) 1 == 1
      | none ↦ true
    ]

unfoldable pub is_offset_allocated : Bitmap → ℕ → Bool
is_offset_allocated m offset =
    if ltb offset m.base_offset
    then true
    else is_block_allocated m ((offset - m.base_offset) / m.block_size)

-- The `while c <= last && total < 1_000_000` loop, on the rounds that are left: free and total.
pub sample : Bitmap → ℕ → ℕ → ℕ → ℕ × ℕ → ℕ × ℕ
sample m last zero c counts = counts
sample m last (suc left) c (free, total) =
    let rest =
      sample m last left (c + 1)
        (if is_offset_allocated m (sat_mul c m.block_size) then free else free + 1, total + 1) in
    if leb c last && ltb total 1_000_000 then rest else (free, total)

-- `unallocated_fraction`, where 1.0 is one of one.
pub unallocated_fraction : Bitmap → ℕ → ℕ → ℕ × ℕ
unallocated_fraction m offset len =
    let first = offset / m.block_size in
    let last = sat_add offset (len - 1) / m.block_size in
    let counts = sample m last 1_000_000 first (0, 0) in
    if len == 0 || counts.1 == 0 then (1, 1) else counts

-- `x.count_ones()` of each byte, summed.
pub count_bytes : List ℕ → ℕ
count_bytes [] = 0
count_bytes (b ∷ bs) = popcount 8 b + count_bytes bs

pub allocated_count : Bitmap → ℕ
allocated_count m =
    let n = min m.block_count (sat_mul (length m.bits) 8) in
    let full = n / 8 in
    let rem = n % 8 in
    let whole : ℕ = elim (slice 0 full m.bits) [ none ↦ 0 | some bytes ↦ count_bytes bytes ] in
    if rem == 0 then whole else elim (get_elem? m.bits full) [
      | none ↦ whole
      | some last ↦ whole + popcount 8 (bit_and last (2 ^ rem - 1))
    ]
