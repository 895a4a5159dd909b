-- ===== src/FsCore/Reader/Bytes.antt =====
-- The reads of the file systems against those of the partition scan.
use native.Mathlib.Nat.{div-add-mod', mod-lt, one-le-pow}
use native.Mathlib.Decide.{dec_lt}
use reclaim.Prelude.{
  eq_of_get_or, ℕ, zero, suc, ◌+◌, ◌-◌, ◌*◌, ◌/◌, ◌%◌, ◌^◌, ◌≤◌, ◌<◌, min, max, ◌≡◌, refl, ap, ◌∙◌,
  inl, inr, false, ◌||◌, List, [], ◌∷◌, arith, leb, ◌==◌, leb→le, Bool-cases, length, get_or, take,
  drop, replicate, length-replicate, u64_max, u32_max, IsByte, sat_add, sat_mul, div_ceil, All,
  length-copy_slice, length_slice, div_ceil_bounds,
}
use native.Mathlib.Nat.{zero-add}
use reclaim.Block.Source.{BlockSource}
use reclaim.Part.Reader.{align_up, read_bytes, read_span, aligned_end, le_at, le_u32}
use reclaim.Part.Reader.Bytes.{read_bytes-byte}
use reclaim.Part.Reader.Numbers.{le_value_bound}
use reclaim.Block.Memory.{MemorySource, source}
use reclaim.FsCore.Reader.{read, read_window, le_u16}

pub length-read : (src : BlockSource) (offset n : ℕ) → length (read src offset n) ≡ n
unfolding read read_window
length-read src offset n = elim (Bool-cases (n == 0 || leb src.len offset)) [
  | inl past ↦ rw past (length-replicate n 0)
  | inr inside ↦ rw inside (length-copy_slice (replicate n 0) 0 _ _ ∙ length-replicate n 0)
]

-- A multiple of the sector size below the next multiple but one is at most the next.
multiples : (a b ss : ℕ) → a * ss < b * ss + ss → a * ss ≤ b * ss
multiples a b ss h = elim (dec_lt b a) [
  | yes above ↦ let le : suc b ≤ a = above in absurd (grind arith)
  | no below ↦ let le : a ≤ b = omega arith in grind arith
]

-- The window of the scan's reader ends where that of a file system's does: the sectors that hold
-- the end of the request end no later than those of the whole source.
aligned_end_eq :
    (stop total ss : ℕ)
    → 0 < ss
    → stop ≤ total
    → total + ss ≤ u64_max
    → aligned_end stop total ss ≡ sat_mul (div_ceil stop ss) ss
unfolding aligned_end align_up
aligned_end_eq stop total ss pos le fits =
    let bounds = div_ceil_bounds stop ss pos in
    elim (Bool-cases (total % ss == 0)) [
      | inl whole ↦
          let exact : total ≡ total / ss * ss = ground (arith, div-add-mod' total ss) in
          let below = multiples (div_ceil stop ss) (total / ss) ss (omega (arith, bounds, exact)) in
          rw whole (omega (arith, below, exact))
      | inr part ↦
          let next : total + (ss - total % ss) ≡ total / ss * ss + ss =
            omega (arith, div-add-mod' total ss, mod-lt total pos) in
          let up : suc (total / ss) * ss ≡ total / ss * ss + ss = grind arith in
          let below =
            multiples (div_ceil stop ss) (suc (total / ss)) ss
              (omega (arith, bounds, next, up, mod-lt total pos)) in
          rw part (omega (arith, below, next, up, mod-lt total pos))
    ]

-- On a source whose length with one sector more fits 64 bits, the read of the file systems returns
-- what the read of the partition scan does.
pub read-read_bytes :
    (src : BlockSource) (offset n : ℕ)
    → src.len + max src.sector_size 1 ≤ u64_max
    → read src offset n ≡ read_bytes src offset n
unfolding read read_window read_bytes read_span
read-read_bytes src offset n fits = elim (Bool-cases (n == 0 || leb src.len offset)) [
  | inl past ↦ rw past refl
  | inr inside ↦
      let stop_eq = aligned_end_eq stop src.len ss (omega arith) (omega arith) fits in
      let not_empty : leb (sat_mul (div_ceil stop ss) ss) (offset - offset % ss) ≡ false =
        ground (arith, div_ceil_bounds stop ss) in
      rw (inside, stop_eq, not_empty) refl
]
  where
    ss : ℕ
    ss = max src.sector_size 1

    stop : ℕ
    stop = min (sat_add offset n) src.len

-- Over a buffer in memory, the bytes of a read are those from the offset on, and zeros past the end.
pub read-byte :
    (m : MemorySource) (offset n i : ℕ)
    → 0 < m.sector_size
    → length m.bytes + m.sector_size ≤ u64_max
    → i < n
    → get_or (read (source m) offset n) i 0 ≡ get_or m.bytes (offset + i) 0
unfolding source
read-byte m offset n i pos fits lt =
    ap (λ xs. get_or xs i 0) (read-read_bytes (source m) offset n (omega arith))
    ∙ read_bytes-byte m pos fits offset n i lt

pub IsByte-get_or : (xs : List ℕ) (i : ℕ) → All IsByte xs → IsByte (get_or xs i 0)
IsByte-get_or [] i a = omega arith
IsByte-get_or (x ∷ xs) zero (h, a) = h
IsByte-get_or (x ∷ xs) (suc i) (h, a) = IsByte-get_or xs i a

All-get_or : (xs : List ℕ) → ((i : ℕ) → i < length xs → IsByte (get_or xs i 0)) → All IsByte xs
All-get_or [] h = tt
All-get_or (x ∷ xs) h = (h 0 (omega arith), All-get_or xs (λ i lt. h (suc i) (omega arith)))

-- A buffer of bytes yields bytes.
pub read-IsByte :
    (m : MemorySource)
    → 0 < m.sector_size
    → length m.bytes + m.sector_size ≤ u64_max
    → All IsByte m.bytes
    → (offset n : ℕ) → All IsByte (read (source m) offset n)
read-IsByte m pos fits bytes offset n = All-get_or (read (source m) offset n) (λ i lt.
    let below : i < n = rw (length-read (source m) offset n) at lt in
    rw (read-byte m offset n i pos fits below) (IsByte-get_or m.bytes (offset + i) bytes))

All-take : (n : ℕ) (xs : List ℕ) → All IsByte xs → All IsByte (take n xs)
All-take zero xs a = tt
All-take (suc n) [] a = tt
All-take (suc n) (x ∷ xs) (h, a) = (h, All-take n xs a)

All-drop : (n : ℕ) (xs : List ℕ) → All IsByte xs → All IsByte (drop n xs)
All-drop zero xs a = a
All-drop (suc n) [] a = tt
All-drop (suc n) (x ∷ xs) (h, a) = All-drop n xs a

module _ (b : List ℕ) (bytes : All IsByte b) where
  le_at_bound : (width off : ℕ) → le_at width b off < 256 ^ width
  unfolding le_at
  le_at_bound width off = elim (Bool-cases (leb (off + width) (length b))) [
    | inr cut ↦ rw (cut, le_at) (one-le-pow width 256 (omega arith))
    | inl inside ↦
        let long : length (take width (drop off b)) ≡ width =
          length_slice off width b (leb→le _ _ inside) in
        rw (inside, le_at)
          (rw long at
            (le_value_bound (take width (drop off b)) (All-take width _ (All-drop off b bytes))))
  ]

  pub le_u16_bound : (off : ℕ) → le_u16 b off ≤ 0xFFFF
  unfolding le_u16
  le_u16_bound off = omega (arith, le_at_bound 2 off)

  pub le_u32_bound : (off : ℕ) → le_u32 b off ≤ u32_max
  unfolding le_u32
  le_u32_bound off = omega (arith, le_at_bound 4 off)

-- A buffer in memory is read whole as itself.
pub read_all :
    (m : MemorySource)
    → 0 < m.sector_size
    → length m.bytes + m.sector_size ≤ u64_max
    → read (source m) 0 (length m.bytes) ≡ m.bytes
read_all m pos fits =
    let same = length-read (source m) 0 (length m.bytes) in
    eq_of_get_or _ _ 0 same
      (λ i lt. rw (zero-add i) at (read-byte m 0 (length m.bytes) i pos fits (rw same at lt)))
