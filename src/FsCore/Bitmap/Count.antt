-- ===== src/FsCore/Bitmap/Count.antt =====
-- What the fraction of free clusters counts.
use reclaim.Prelude.{
  ℕ, zero, suc, ◌+◌, ◌-◌, ◌/◌, ◌≤◌, ◌<◌, ◌≡◌, refl, ◌∙◌, inl, inr, true, false, ◌&&◌, arith, ltb,
  leb, ◌==◌, if◌then◌else◌, Bool-cases, sat_add, sat_mul,
}
use reclaim.FsCore.Bitmap.{Bitmap, is_offset_allocated, sample, unallocated_fraction}

-- The free ones among the offsets `c * block_size` of the next `n` rounds.
abbrev pub free_points : Bitmap → ℕ → ℕ → ℕ
free_points m zero c = 0
free_points m (suc n) c =
    if is_offset_allocated m (sat_mul c m.block_size)
    then free_points m n (c + 1)
    else 1 + free_points m n (c + 1)

pair_eq : {a b c d : ℕ} → a ≡ c → b ≡ d → ◌≡◌ {A = ℕ × ℕ} (a, b) (c, d)
pair_eq p q = λ i. (p i, q i)

sample_ends :
    (m : Bitmap) (last left c free total : ℕ)
    → last < c
    → sample m last left c (free, total) ≡ (free, total)
unfolding sample
sample_ends m last zero c free total h = refl
sample_ends m last (suc left) c free total h =
    let past : (leb c last && ltb total 1_000_000) ≡ false = ground arith in rw past refl

sample_lem :
    (m : Bitmap) (last left n c free total : ℕ)
    → c + n ≡ last + 1
    → n ≤ left
    → total + n ≤ 1_000_000
    → sample m last left c (free, total) ≡ (free + free_points m n c, total + n)
unfolding sample
sample_lem m last left zero c free total e le few =
    sample_ends m last left c free total (ground arith) ∙ pair_eq (omega arith) (omega arith)
sample_lem m last zero (suc n) c free total e le few = absurd (omega arith)
sample_lem m last (suc left) (suc n) c free total e le few =
    let going : (leb c last && ltb total 1_000_000) ≡ true = ground arith in
    elim (Bool-cases (is_offset_allocated m (sat_mul c m.block_size))) [
      | inl used ↦
          rw (going, used)
            (sample_lem m last left n (c + 1) free (total + 1) (omega arith) (omega arith)
                (omega arith)
              ∙ pair_eq refl (omega arith))
      | inr unused ↦
          rw (going, unused)
            (sample_lem m last left n (c + 1) (free + 1) (total + 1) (omega arith) (omega arith)
                (omega arith)
              ∙ pair_eq (omega arith) (omega arith))
    ]

-- The clusters that a range of bytes touches, counted from the start of the volume.
abbrev pub touched : Bitmap → ℕ → ℕ → ℕ
touched m offset len = sat_add offset (len - 1) / m.block_size + 1 - offset / m.block_size

-- A range that is not empty and touches at most a million clusters, counted from the start of the
-- volume, is sampled once in each: the fraction is that of the free ones among the multiples of the
-- cluster size.
pub unallocated_fraction_lem :
    (m : Bitmap) (offset len : ℕ)
    → 0 < len
    → offset / m.block_size ≤ sat_add offset (len - 1) / m.block_size
    → touched m offset len ≤ 1_000_000
    → unallocated_fraction m offset len
      ≡ (free_points m (touched m offset len) (offset / m.block_size), touched m offset len)
unfolding unallocated_fraction
unallocated_fraction_lem m offset len pos le few =
    let counts =
      sample_lem m (sat_add offset (len - 1) / m.block_size) 1_000_000 (touched m offset len)
        (offset / m.block_size) 0 0 (omega arith) few (omega arith) in
    let some_len : (len == 0) ≡ false = ground arith in
    let some_touched : (0 + touched m offset len == 0) ≡ false = ground arith in
    rw (counts, some_len, some_touched) (pair_eq (omega arith) (omega arith))
