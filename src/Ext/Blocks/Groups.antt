-- ===== src/Ext/Blocks/Groups.antt =====
-- The bitmap of the blocks in use: each block of a group has the bit that the group's own bitmap
-- gives it.
use Prim.Native.Nat.{bit_and, bit_or}
use mathlib.Core.Path.{subst}
use native.Mathlib.Nat.{mul-le-mul_right, mul-le-mul}
use reclaim.Prelude.{
  ℕ, zero, suc, ◌+◌, ◌-◌, ◌*◌, ◌/◌, ◌%◌, ◌^◌, ◌≤◌, ◌<◌, min, max, ◌≡◌, refl, sym, ap, ◌∙◌, ◌⊎◌, inl,
  inr, Bool, true, false, ◌&&◌, some, List, [], ◌∷◌, arith, ltb, leb, ◌==◌, if◌then◌else◌,
  Bool-cases, length, get_elem?, set, length-set, get_or, replicate, length-replicate, u64_max,
  u32_max, sat_add, sat_mul, div_ceil, div_ceil_bounds, get_elem?-get_or, get_elem?_past, set_past,
  get_or-set,
}
use reclaim.Prelude.Bits.{bit, bit-le-one, bit-or_pow, bit-and, shifted_bit}
use reclaim.Block.Source.{BlockSource}
use reclaim.FsCore.Bitmap
use reclaim.FsCore.Bitmap.{Bitmap, new, is_block_allocated}
use reclaim.FsCore.Reader.{read}
use reclaim.Ext.Superblock.{Superblock, GroupDesc}
use reclaim.Ext.Blocks.{put_bit, group_bit, group_bits, each_group, build_bitmap}

eq_of_test : (i j : ℕ) → (i == j) ≡ true → i ≡ j
eq_of_test i j h = ground arith

-- A test of all the numbers below `n`.
all_below : ℕ → (ℕ → Bool) → Bool
all_below zero p = true
all_below (suc n) p = p n && all_below n p

all_below_sound : (n : ℕ) (p : ℕ → Bool) (i : ℕ) → all_below n p ≡ true → i < n → p i ≡ true
unfolding all_below
all_below_sound zero p i h lt = absurd (omega arith)
all_below_sound (suc n) p i h lt =
    let here : p n ≡ true = ground arith in
    let below : all_below n p ≡ true = ground arith in
    elim (Bool-cases (i == n)) [
      | inl same ↦ subst (λ t. p t ≡ true) (omega (arith, eq_of_test i n same)) here
      | inr other ↦ all_below_sound n p i below (ground arith)
    ]

-- A byte of ones with one bit cleared.
mask_ok : ℕ → ℕ → Bool
mask_ok k j = bit (255 - 2 ^ k) j == (if j == k then 0 else 1)

masks_ok : all_below 8 (λ k. all_below 8 (mask_ok k)) ≡ true
unfolding all_below mask_ok
masks_ok = refl

bit-mask : (k j : ℕ) → k < 8 → j < 8 → bit (255 - 2 ^ k) j ≡ (if j == k then 0 else 1)
unfolding mask_ok
bit-mask k j lk lj = eq_of_test _ _ (
    all_below_sound 8 (mask_ok k) j (all_below_sound 8 (λ t. all_below 8 (mask_ok t)) k masks_ok lk)
      lj)

-- The bit of block `q`.
abbrev bit_at : List ℕ → ℕ → ℕ
bit_at bits q = bit (get_or bits (q / 8) 0) (q % 8)

abbrev of_bool : Bool → ℕ
of_bool used = if used then 1 else 0

-- A byte after one of its bits was set or cleared.
abbrev put_byte : ℕ → ℕ → Bool → ℕ
put_byte b k used = if used then bit_or b (2 ^ k) else bit_and b (255 - 2 ^ k)

bit-put_byte :
    (b k j : ℕ) (used : Bool)
    → k < 8
    → j < 8
    → bit (put_byte b k used) j ≡ (if j == k then of_bool used else bit b j)
bit-put_byte b k j true lk lj = bit-or_pow k j b
bit-put_byte b k j false lk lj =
    ground (arith, bit-and b (255 - 2 ^ k) j, bit-mask k j lk lj, bit-le-one b j)

put_bit-set :
    (bits : List ℕ) (c : ℕ) (used : Bool)
    → put_bit bits c used ≡ set bits (c / 8) (put_byte (get_or bits (c / 8) 0) (c % 8) used)
unfolding put_bit
put_bit-set bits c used = elim (Bool-cases (ltb (c / 8) (length bits))) [
  | inl inside ↦ rw (put_bit, get_elem?-get_or bits (c / 8) 0 (ground arith)) refl
  | inr past ↦
      rw (put_bit, get_elem?_past bits (c / 8) (ground arith))
        (sym (set_past bits (c / 8) (put_byte (get_or bits (c / 8) 0) (c % 8) used) (ground arith)))
]

length-put_bit : (bits : List ℕ) (c : ℕ) (used : Bool) → length (put_bit bits c used) ≡ length bits
length-put_bit bits c used = ap length (put_bit-set bits c used) ∙ length-set bits (c / 8) _

bit_at-put_bit :
    (bits : List ℕ) (c q : ℕ) (used : Bool)
    → q / 8 < length bits
    → bit_at (put_bit bits c used) q ≡ (if q == c then of_bool used else bit_at bits q)
bit_at-put_bit bits c q used inside = rw put_bit-set (elim (Bool-cases (q / 8 == c / 8)) [
  | inl same ↦
      let place : q / 8 ≡ c / 8 = eq_of_test _ _ same in
      let here : get_or (set bits (c / 8) (put_byte (get_or bits (c / 8) 0) (c % 8) used)) (q / 8) 0
          ≡ put_byte (get_or bits (c / 8) 0) (c % 8) used =
        ground (
          arith,
          get_or-set bits (c / 8) (put_byte (get_or bits (c / 8) 0) (c % 8) used) (q / 8) 0 inside,
        ) in
      let byte : get_or bits (c / 8) 0 ≡ get_or bits (q / 8) 0 =
        ap (λ t. get_or bits t 0) (sym place) in
      ap (λ t. bit t (q % 8)) here
      ∙ bit-put_byte (get_or bits (c / 8) 0) (c % 8) (q % 8) used (omega arith) (omega arith)
      ∙ (elim (Bool-cases (q == c)) [ inl eq ↦ ground arith | inr ne ↦ ground (arith, byte) ])
  | inr other ↦
      let there : get_or (set bits (c / 8) (put_byte (get_or bits (c / 8) 0) (c % 8) used)) (q / 8)
            0
          ≡ get_or bits (q / 8) 0 =
        ground (
          arith,
          get_or-set bits (c / 8) (put_byte (get_or bits (c / 8) 0) (c % 8) used) (q / 8) 0 inside,
        ) in
      let ne : (q == c) ≡ false = ground arith in rw ne (ap (λ t. bit t (q % 8)) there)
])

module _ (bm : List ℕ) (block_count first q : ℕ) (known : q < block_count) where
  length-group_bits :
      (left i : ℕ) (bits : List ℕ)
      → length (group_bits bm block_count first left i bits) ≡ length bits
  unfolding group_bits
  length-group_bits zero i bits = refl
  length-group_bits (suc left) i bits = elim (Bool-cases (leb block_count (sat_add first i))) [
    | inl past ↦ rw past refl
    | inr before ↦ rw before (
        length-group_bits left (i + 1) (put_bit bits (sat_add first i) (group_bit bm i))
        ∙ length-put_bit bits (sat_add first i) (group_bit bm i))
  ]

  -- A block that the rest of the group does not reach keeps its bit.
  group_bits-outside :
      (left i : ℕ) (bits : List ℕ)
      → q / 8 < length bits
      → first + i + left ≤ u64_max
      → (q < first + i) ⊎ (first + i + left ≤ q)
      → bit_at (group_bits bm block_count first left i bits) q ≡ bit_at bits q
  unfolding group_bits
  group_bits-outside zero i bits inside fits out = refl
  group_bits-outside (suc left) i bits inside fits out =
      elim (Bool-cases (leb block_count (sat_add first i))) [
        | inl past ↦ rw past refl
        | inr before ↦
            let used = group_bit bm i in
            let bits' = put_bit bits (sat_add first i) used in
            let ne : (q == sat_add first i) ≡ false = ground arith in
            rw before (
              group_bits-outside left (i + 1) bits'
                (omega (arith, length-put_bit bits (sat_add first i) used, inside)) (omega arith)
                (ground arith)
              ∙ rw ne at (bit_at-put_bit bits (sat_add first i) q used inside))
      ]

  group_bits-inside :
      (left i : ℕ) (bits : List ℕ)
      → q / 8 < length bits
      → first + i + left ≤ u64_max
      → first + i ≤ q
      → q < first + i + left
      → bit_at (group_bits bm block_count first left i bits) q ≡ of_bool (group_bit bm (q - first))
  unfolding group_bits
  group_bits-inside zero i bits inside fits lo hi = absurd (omega arith)
  group_bits-inside (suc left) i bits inside fits lo hi =
      let before : leb block_count (sat_add first i) ≡ false = ground (arith, known) in
      let used = group_bit bm i in
      let bits' = put_bit bits (sat_add first i) used in
      let inside' : q / 8 < length bits' =
        omega (arith, length-put_bit bits (sat_add first i) used, inside) in
      rw before (elim (Bool-cases (q == sat_add first i)) [
        | inl here ↦
            let at : i ≡ q - first = ground arith in
            group_bits-outside left (i + 1) bits' inside' (omega arith) (inl (ground arith))
            ∙ rw here at (bit_at-put_bit bits (sat_add first i) q used inside)
            ∙ ap (λ t. of_bool (group_bit bm t)) at
        | inr later ↦
            group_bits-inside left (i + 1) bits' inside' (omega arith) (ground arith) (omega arith)
      ])

-- Where the bitmap of a group was read.
abbrev pub group_map : BlockSource → Superblock → GroupDesc → List ℕ
group_map src sb gd = read src (sat_mul gd.block_bitmap sb.block_size) sb.block_size

module _ (src : BlockSource) (sb : Superblock) (block_count t i : ℕ)
    (first_fits : sb.first_data_block ≤ u32_max) (group_fits : sb.blocks_per_group ≤ u32_max)
    (own : i < sb.blocks_per_group)
    (known : sb.first_data_block + t * sb.blocks_per_group + i < block_count) where
  -- Block `i` of group `t`.
  abbrev q : ℕ
  q = sb.first_data_block + t * sb.blocks_per_group + i

  abbrev first_of : ℕ → ℕ
  first_of g = sat_add sb.first_data_block (sat_mul g sb.blocks_per_group)

  first_of_lem : (g : ℕ) → g ≤ 65_536 → first_of g ≡ sb.first_data_block + g * sb.blocks_per_group
  first_of_lem g few =
      let small : g * sb.blocks_per_group ≤ 65_536 * u32_max = mul-le-mul few group_fits in
      omega (arith, small, first_fits)

  length-each_group :
      (gds : List GroupDesc) (g : ℕ) (bits : List ℕ)
      → length (each_group src sb block_count g gds bits) ≡ length bits
  unfolding each_group
  length-each_group [] g bits = refl
  length-each_group (gd ∷ gds) g bits =
      length-each_group gds (g + 1) _
      ∙ length-group_bits (group_map src sb gd) block_count (first_of g) q known sb.blocks_per_group
          0 bits

  each_group-later :
      (gds : List GroupDesc) (g : ℕ) (bits : List ℕ)
      → q / 8 < length bits
      → g + length gds ≤ 65_536
      → t < g
      → bit_at (each_group src sb block_count g gds bits) q ≡ bit_at bits q
  unfolding each_group
  each_group-later [] g bits inside few after = refl
  each_group-later (gd ∷ gds) g bits inside few after =
      let bm = group_map src sb gd in
      let bits' = group_bits bm block_count (first_of g) sb.blocks_per_group 0 bits in
      let same_length =
        length-group_bits bm block_count (first_of g) q known sb.blocks_per_group 0 bits in
      let small : g * sb.blocks_per_group ≤ 65_536 * u32_max =
        mul-le-mul {n₂ = 65_536} (omega arith) group_fits in
      let apart : suc t * sb.blocks_per_group ≤ g * sb.blocks_per_group =
        mul-le-mul_right sb.blocks_per_group after in
      let step : suc t * sb.blocks_per_group ≡ t * sb.blocks_per_group + sb.blocks_per_group =
        grind arith in
      each_group-later gds (g + 1) bits' (omega (arith, same_length, inside)) (omega arith)
        (omega arith)
      ∙ group_bits-outside bm block_count (first_of g) q known sb.blocks_per_group 0 bits inside
          (omega (arith, first_of_lem g (omega arith), small, group_fits, first_fits))
          (inl (omega (arith, first_of_lem g (omega arith), apart, step, own)))

  each_group-own :
      (gds : List GroupDesc) (g : ℕ) (bits : List ℕ) (gd : GroupDesc)
      → q / 8 < length bits
      → g + length gds ≤ 65_536
      → g ≤ t
      → get_elem? gds (t - g) ≡ some gd
      → bit_at (each_group src sb block_count g gds bits) q
        ≡ of_bool (group_bit (group_map src sb gd) i)
  unfolding each_group
  each_group-own [] g bits gd inside few before found = absurd (ground arith)
  each_group-own (x ∷ gds) g bits gd inside few before found =
      let bm = group_map src sb x in
      let bits' = group_bits bm block_count (first_of g) sb.blocks_per_group 0 bits in
      let same_length =
        length-group_bits bm block_count (first_of g) q known sb.blocks_per_group 0 bits in
      elim (Bool-cases (t == g)) [
        | inl here ↦
            let at : t ≡ g = eq_of_test t g here in
            let zero_off : t - g ≡ 0 = omega arith in
            let same : x ≡ gd = ground (arith, zero_off) in
            let small : g * sb.blocks_per_group ≤ 65_536 * u32_max =
              mul-le-mul {n₂ = 65_536} (omega arith) group_fits in
            let product : t * sb.blocks_per_group ≡ g * sb.blocks_per_group =
              ap (λ n. n * sb.blocks_per_group) at in
            let start = first_of_lem g (omega arith) in
            each_group-later gds (g + 1) bits' (omega (arith, same_length, inside)) (omega arith)
              (omega arith)
            ∙ group_bits-inside bm block_count (first_of g) q known sb.blocks_per_group 0 bits
                inside (omega (arith, start, small, group_fits, first_fits))
                (omega (arith, start, product)) (omega (arith, start, product, own))
            ∙ ap (λ n. of_bool (group_bit bm n)) (omega (arith, start, product))
            ∙ ap (λ y. of_bool (group_bit (group_map src sb y) i)) same
        | inr later ↦
            let step : t - g ≡ suc (t - (g + 1)) = ground arith in
            each_group-own gds (g + 1) bits' gd (omega (arith, same_length, inside)) (omega arith)
              (ground arith) (rw step at found)
      ]

-- In a bitmap that is built from at most 65,536 groups of 32-bit sizes, each block of a group that
-- the bitmap has is allocated exactly when its bit in the bitmap of its own group is set, or lies
-- past the end of that.
pub build_bitmap-group_bit :
    (src : BlockSource) (sb : Superblock) (b : Bitmap) (t i : ℕ) (gd : GroupDesc)
    → build_bitmap src sb ≡ some b
    → sb.first_data_block ≤ u32_max
    → sb.blocks_per_group ≤ u32_max
    → length sb.groups ≤ 65_536
    → get_elem? sb.groups t ≡ some gd
    → i < sb.blocks_per_group
    → sb.first_data_block + t * sb.blocks_per_group + i < b.block_count
    → is_block_allocated b (sb.first_data_block + t * sb.blocks_per_group + i)
      ≡ group_bit (group_map src sb gd) i
unfolding build_bitmap is_block_allocated new
build_bitmap-group_bit src sb b t i gd made first_fits group_fits few found own known =
    let count = min sb.blocks_count (src.len / max sb.block_size 1 + 1) in
    let blank : List ℕ = replicate (div_ceil count 8) 0xFF in
    let n = sb.first_data_block + t * sb.blocks_per_group + i in
    let bits = each_group src sb count 0 sb.groups blank in
    let made_of : Bitmap.new (if leb sb.block_size u32_max then sb.block_size else 4096) 0 count
          bits
        ≡ b =
      ground arith in
    let counted : b.block_count ≡ count = sym (ap (λ (m : Bitmap). m.block_count) made_of) in
    let held : b.bits ≡ bits = sym (ap (λ (m : Bitmap). m.bits) made_of) in
    let below : n < count = omega (arith, counted, known) in
    let room : n / 8 < length blank = omega (
      arith,
      length-replicate {A = ℕ} (div_ceil count 8) 0xFF,
      div_ceil_bounds count 8 (omega arith),
      below,
    ) in
    let kept : n / 8 < length bits = omega (
      arith,
      length-each_group src sb count t i first_fits group_fits own below sb.groups 0 blank,
      room,
    ) in
    let at_once : t - 0 ≡ t = omega arith in
    let value =
      each_group-own src sb count t i first_fits group_fits own below sb.groups 0 blank gd room
        (omega arith) (omega arith) (ap (λ k. get_elem? sb.groups k) at_once ∙ found) in
    let inside : leb b.block_count n ≡ false = ground (arith, known) in
    let read_back : get_elem? b.bits (n / 8) ≡ some (get_or bits (n / 8) 0) =
      ap (λ bs. get_elem? bs (n / 8)) held ∙ get_elem?-get_or bits (n / 8) 0 kept in
    rw (inside, read_back, shifted_bit (get_or bits (n / 8) 0) (n % 8), value)
      (elim (Bool-cases (group_bit (group_map src sb gd) i)) [
        | inl e ↦ rw e refl
        | inr e ↦ rw e refl
      ])
