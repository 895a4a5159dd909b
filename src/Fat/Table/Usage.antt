-- ===== src/Fat/Table/Usage.antt =====
-- The bitmap of the clusters in use: each cluster of the bitmap is allocated exactly when its entry
-- in the FAT is not zero, and so is every byte of it.
use mathlib.Core.Path.{ap₂}
use native.Mathlib.Nat.{mul-add-div_right, div-eq_of_lt}
use reclaim.Prelude.{
  get_elem?-get_or, ℕ, zero, suc, ◌+◌, ◌-◌, ◌*◌, ◌/◌, ◌%◌, ◌^◌, ◌≤◌, ◌<◌, min, ◌≡◌, refl, ap, ◌∙◌,
  ◌≢◌, inl, inr, false, not, ◌&&◌, some, List, [], ◌∷◌, arith, ltb, leb, ◌==◌, if◌then◌else◌,
  Bool-cases, length, get_elem?, get_or, replicate, length-replicate, div_ceil, get_or-replicate,
  div_ceil_bounds,
}
use reclaim.Prelude.Bits.{shifted_bit, bit, bit-or_pow, bit-zero}
use reclaim.Prelude.Loops.{for_range_at, for_range_keeps}
use reclaim.FsCore.Bitmap
use reclaim.FsCore.Bitmap.{Bitmap, is_block_allocated, is_offset_allocated, new}
use reclaim.Fat.Boot.{FatFs}
use reclaim.Fat.Boot.Geometry.{IsVolume, cluster_size-pos}
use reclaim.Fat.Table.{
  cluster_offset, fat_entry, or_byte_at, mark_used, described, used_bits, cluster0_off, fat_bitmap,
  as_u32,
}
use reclaim.Fat.Table.Clusters.{start_of, cluster_offset_lem}

length-or_byte_at : (bs : List ℕ) (i k : ℕ) → length (or_byte_at bs i k) ≡ length bs
unfolding or_byte_at
length-or_byte_at [] i k = refl
length-or_byte_at (b ∷ bs) zero k = refl
length-or_byte_at (b ∷ bs) (suc i) k = ap suc (length-or_byte_at bs i k)

-- A bit after another was set in one of the bytes.
bit-or_byte_at :
    (bs : List ℕ) (i k j m : ℕ)
    → j < length bs
    → bit (get_or (or_byte_at bs i k) j 0) m
      ≡ (if j == i && m == k then 1 else bit (get_or bs j 0) m)
unfolding or_byte_at
bit-or_byte_at [] i k j m h = absurd (omega arith)
bit-or_byte_at (b ∷ bs) zero k zero m h = ground (arith, bit-or_pow k m b)
bit-or_byte_at (b ∷ bs) zero k (suc j) m h = ground arith
bit-or_byte_at (b ∷ bs) (suc i) k zero m h = ground arith
bit-or_byte_at (b ∷ bs) (suc i) k (suc j) m h =
    ground (arith, bit-or_byte_at bs i k j m (omega arith))

module _ (fs : FatFs) (n q : ℕ) (lo : 2 ≤ q) (hi : q < n + 2) (small : n + 2 ≤ 2 ^ 27) where
  abbrev used_bit : List ℕ → ℕ
  used_bit bits = bit (get_or bits (q / 8) 0) (q % 8)

  -- The bitmap's bytes.
  abbrev byte_count : ℕ
  byte_count = min (div_ceil (n + 2) 8) (16 * 1024 * 1024)

  -- The bit that the FAT asks for.
  abbrev wanted_bit : ℕ
  wanted_bit = if not (fat_entry fs q == 0) then 1 else 0

  byte_in : q / 8 < byte_count
  byte_in = omega (arith, div_ceil_bounds (n + 2) 8 (omega arith))

  other_cluster :
      (c : ℕ) (bits : List ℕ)
      → length bits ≡ byte_count
      → c ≢ q
      → used_bit (mark_used fs c bits) ≡ used_bit bits
  unfolding mark_used
  other_cluster c bits len ne = elim (Bool-cases (fat_entry fs c == 0)) [
    | inl free ↦ rw free refl
    | inr used ↦ rw used (
        ground (
          arith,
          bit-or_byte_at bits (c / 8) (c % 8) (q / 8) (q % 8) (omega (arith, byte_in, len)),
        ))
  ]

  own_cluster :
      (bits : List ℕ)
      → length bits ≡ byte_count
      → used_bit bits ≡ 0
      → used_bit (mark_used fs q bits) ≡ wanted_bit
  unfolding mark_used
  own_cluster bits len clear = elim (Bool-cases (fat_entry fs q == 0)) [
    | inl free ↦ rw free clear
    | inr used ↦ rw used (
        ground (
          arith,
          bit-or_byte_at bits (q / 8) (q % 8) (q / 8) (q % 8) (omega (arith, byte_in, len)),
        ))
  ]

  length-mark_used :
      (c : ℕ) (bits : List ℕ) → length bits ≡ byte_count → length (mark_used fs c bits) ≡ byte_count
  unfolding mark_used
  length-mark_used c bits len = ground (arith, length-or_byte_at bits (c / 8) (c % 8))

  used_bits_lem : used_bit (used_bits fs n) ≡ wanted_bit
  unfolding used_bits
  used_bits_lem =
      let blank : List ℕ = replicate byte_count 0 in
      let clear : used_bit blank ≡ 0 =
        rw (get_or-replicate {A = ℕ} byte_count (q / 8) 0) (bit-zero (q % 8)) in
      for_range_at (mark_used fs) (λ bits. length bits ≡ byte_count) length-mark_used used_bit q
        (λ c bits len ne. other_cluster c bits len ne) n 2 blank wanted_bit
        (length-replicate byte_count 0) lo (omega arith)
        (λ bits len same. own_cluster bits len (same ∙ clear))

  -- The bits keep their number.
  length-used_bits : length (used_bits fs n) ≡ byte_count
  unfolding used_bits
  length-used_bits =
      for_range_keeps (mark_used fs) (λ bits. length bits ≡ byte_count) length-mark_used n 2
        (replicate byte_count 0) (length-replicate byte_count 0)

described_bound : (fs : FatFs) → described fs ≤ fs.count_of_clusters
unfolding described
described_bound fs = omega arith

module _ (fs : FatFs) (v : IsVolume fs) (b : Bitmap) (made : fat_bitmap fs ≡ some b)
    (small : described fs + 2 ≤ 2 ^ 27) where
  bitmap_eq :
      b
      ≡ Bitmap.new fs.cluster_size
          (cluster0_off fs)
          (described fs + 2)
          (used_bits fs (described fs))
  unfolding fat_bitmap as_u32
  bitmap_eq = ground (arith, v.word)

  is_block_allocated_lem :
      (c : ℕ) → 2 ≤ c → c < described fs + 2 → is_block_allocated b c ≡ not (fat_entry fs c == 0)
  unfolding is_block_allocated new
  is_block_allocated_lem c lo hi =
      let n = described fs in
      let bits = used_bits fs n in
      let inside : leb (n + 2) c ≡ false = ground arith in
      let found : get_elem? bits (c / 8) ≡ some (get_or bits (c / 8) 0) =
        get_elem?-get_or bits (c / 8) 0
          (omega (arith, length-used_bits fs n c lo hi small, byte_in fs n c lo hi small)) in
      let value = used_bits_lem fs n c lo hi small in
      rw (bitmap_eq, inside, found, shifted_bit (get_or bits (c / 8) 0) (c % 8), value)
        (elim (Bool-cases (fat_entry fs c == 0)) [ inl e ↦ rw e refl | inr e ↦ rw e refl ])

  -- On an opened volume of at most 2^27 entries whose data start leaves room for two clusters
  -- before it, the bitmap takes each byte of a described cluster for allocated exactly when the
  -- entry of the FAT is not zero.
  pub is_offset_allocated_lem :
      (c j : ℕ)
      → 2 * fs.cluster_size ≤ start_of fs 2
      → 2 ≤ c
      → c < described fs + 2
      → j < fs.cluster_size
      → is_offset_allocated b (start_of fs c + j) ≡ not (fat_entry fs c == 0)
  unfolding is_offset_allocated new cluster0_off
  is_offset_allocated_lem c j room lo hi lt =
      let exists : cluster_offset fs 2 ≡ some (start_of fs 2) =
        cluster_offset_lem fs v 2 (omega arith, omega (arith, described_bound fs)) in
      let base : cluster0_off fs ≡ start_of fs 2 - 2 * fs.cluster_size =
        rw (exists, cluster0_off) refl in
      let unit = cluster_size-pos fs v in
      let base_eq : b.base_offset ≡ start_of fs 2 - 2 * fs.cluster_size =
        ap (λ (m : Bitmap). m.base_offset) bitmap_eq ∙ base in
      let size_eq : b.block_size ≡ fs.cluster_size =
        ap (λ (m : Bitmap). m.block_size) bitmap_eq ∙ omega (arith, unit) in
      let past : c * fs.cluster_size ≡ (c - 2) * fs.cluster_size + 2 * fs.cluster_size =
        let e : c ≡ (c - 2) + 2 = omega arith in rw e (grind arith) in
      let step : start_of fs c + j - (start_of fs 2 - 2 * fs.cluster_size)
          ≡ c * fs.cluster_size + j =
        omega (arith, past, room) in
      let index : (start_of fs c + j - b.base_offset) / b.block_size ≡ c =
        ap₂ (λ (x y : ℕ). (start_of fs c + j - x) / y) base_eq size_eq
        ∙ ap (λ (x : ℕ). x / fs.cluster_size) step
        ∙ mul-add-div_right unit c j
        ∙ omega (arith, div-eq_of_lt lt) in
      let reached : ltb (start_of fs c + j) b.base_offset ≡ false = ground (arith, base_eq, past) in
      rw (reached, index) (is_block_allocated_lem c lo hi)
