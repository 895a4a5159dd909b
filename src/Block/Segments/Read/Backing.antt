-- ===== src/Block/Segments/Read/Backing.antt =====
-- Reads of the backing store at any offset, when it is a buffer in memory.
use native.Mathlib.Nat.{div-add-mod', mul-mod_left, div-lt_iff_lt-mul}
use reclaim.Prelude.{
  ℕ, zero, suc, ◌+◌, ◌-◌, ◌*◌, ◌/◌, ◌%◌, ◌≤◌, ◌<◌, min, max, ◌≡◌, refl, sym, ap, ◌∙◌, inl, inr,
  true, false, ◌||◌, Option, none, some, List, arith, ltb, leb, ◌==◌, if◌then◌else◌, ltb→lt,
  Bool-cases, length, get_or, take, drop, replicate, length-replicate, u64_max, sat_add, sat_mul,
  div_ceil, is_multiple_of, slice, get_or-take, get_or-drop, length_slice, eq_of_get_or,
  div_lt_div_ceil, div_ceil_bounds,
}
use reclaim.Block.Source.{SectorStatus, ReadResult, status}
use reclaim.Block.Memory
use reclaim.Block.Memory.{MemorySource, source}
use reclaim.Block.Memory.Reads.{memory_byte, memory_status, length-read_at, missing, past_end}
use reclaim.Block.Segments.Read.{sectors_good, read_backing_unaligned}

sectors_good-all :
    (r : ReadResult) (n first : ℕ)
    → ((i : ℕ) → first ≤ i → i < first + n → status r i ≡ SectorStatus.good)
    → sectors_good r n first ≡ true
unfolding sectors_good
sectors_good-all r zero first h = refl
sectors_good-all r (suc n) first h =
    rw (h first (omega arith) (omega arith), sectors_good)
      (sectors_good-all r n (first + 1) (λ i a b. h i (omega arith) (omega arith)))

-- The bytes from `at` on, if the store holds them all.
abbrev pub stored_bytes : List ℕ → ℕ → ℕ → Option (List ℕ)
stored_bytes bytes at n =
    if n == 0 || leb (at + n) (length bytes) then some (take n (drop at bytes)) else none

times_le : (i n ss : ℕ) → 0 < ss → i ≤ n / ss → i * ss ≤ n
times_le i n ss pos le = elim (Bool-cases (ltb n (i * ss))) [
  | inl over ↦
      absurd
        (omega (arith, (div-lt_iff_lt-mul {k = ss} {x = n} {y = i} pos).1 (ltb→lt n (i * ss) over)))
  | inr fits ↦ ground arith
]

missing-inside :
    (m : MemorySource) (start i : ℕ)
    → is_multiple_of start m.sector_size ≡ true
    → start + i * m.sector_size < length m.bytes
    → length m.bytes ≤ u64_max
    → missing m start i ≡ false
unfolding missing past_end
missing-inside m start i aligned lt small = rw aligned (ground arith)

-- A request inside the store, from the sector that holds its first byte.
module _ (m : MemorySource) (at n start span : ℕ) (pos : 0 < m.sector_size)
    (aligned : is_multiple_of start m.sector_size ≡ true) (below : start ≤ at) (some_bytes : 0 < n)
    (inside : at + n ≤ length m.bytes) (covered : at + n ≤ start + span)
    (small : start + span ≤ u64_max) (fits : length m.bytes ≤ u64_max) where
  sectors_good-inside :
      let ss = m.sector_size in
      let first = (at - start) / ss in
      let last = (at + n - 1 - start) / ss in
      sectors_good (Memory.read_at m start (replicate span 0)).0 (last + 1 - first) first ≡ true
  sectors_good-inside = sectors_good-all _ _ _ (λ i a b.
      let lt : i < (at + n - 1 - start) / m.sector_size + 1 = omega arith in
      let low : i * m.sector_size ≤ at + n - 1 - start =
        times_le i (at + n - 1 - start) m.sector_size pos (omega arith) in
      memory_status m start (replicate span 0) i (
        rw (length-replicate {A = ℕ} span 0) (
          omega (arith, div_lt_div_ceil (at + n - 1 - start) span m.sector_size pos (omega arith))))
      ∙ rw (missing-inside m start i aligned (omega (arith, low)) fits) refl)

  bytes-inside :
      slice (at - start) n (Memory.read_at m start (replicate span 0)).1
      ≡ some (take n (drop at m.bytes))
  bytes-inside =
      let tmp = (Memory.read_at m start (replicate span 0)).1 in
      let long : length tmp ≡ span =
        length-read_at m start (replicate span 0) ∙ length-replicate span 0 in
      let whole : leb (at - start + n) (length tmp) ≡ true = ground (arith, long) in
      rw whole (
        ap some (
          eq_of_get_or (take n (drop (at - start) tmp)) (take n (drop at m.bytes)) 0
            (length_slice (at - start) n tmp (omega (arith, long))
              ∙ sym (length_slice at n m.bytes inside))
            (λ i lt.
              let lt' : i < n =
                omega (arith, length_slice (at - start) n tmp (omega (arith, long))) in
              let place : start + (at - start + i) ≡ at + i = omega arith in
              let byte : get_or tmp (at - start + i) 0
                  ≡ get_or m.bytes (start + (at - start + i)) 0 =
                memory_byte m start (replicate span 0) (at - start + i) pos aligned
                  (omega (arith, length-replicate {A = ℕ} span 0))
                  (omega (arith, length-replicate {A = ℕ} span 0)) in
              ground (
                arith,
                get_or-take n (drop (at - start) tmp) i 0,
                get_or-take n (drop at m.bytes) i 0,
                get_or-drop (at - start) tmp i 0,
                get_or-drop at m.bytes i 0,
                byte,
                ap (λ (t : ℕ). get_or m.bytes t 0) place,
              ))))

-- Over a buffer in memory with a sector size, whose length with one sector more fits 64 bits, a
-- read of the backing store at any offset yields the bytes when the store holds them all, and fails
-- when it does not.
pub read_backing_unaligned_lem :
    (m : MemorySource) (at n : ℕ)
    → 0 < m.sector_size
    → length m.bytes + m.sector_size ≤ u64_max
    → read_backing_unaligned (source m) at n ≡ stored_bytes m.bytes at n
unfolding read_backing_unaligned source
read_backing_unaligned_lem m at n pos fits = elim (Bool-cases (n == 0)) [
  | inl none_asked ↦ ground arith
  | inr some_asked ↦ elim (Bool-cases (leb (at + n) (length m.bytes))) [
    | inr outside ↦ ground (arith, some_asked)
    | inl within ↦
        let one_unit : max m.sector_size 1 ≡ m.sector_size = omega arith in
        let stop : sat_add at n ≡ at + n = ground arith in
        let back : at - at % m.sector_size ≤ at = omega arith in
        let ceil = div_ceil_bounds (at + n) m.sector_size pos in
        let reach : ltb
              (min (sat_mul (div_ceil (at + n) m.sector_size) m.sector_size) (length m.bytes))
              (at + n)
            ≡ false =
          ground (arith, ceil) in
        let start = at - at % m.sector_size in
        let end_al =
          min (sat_mul (div_ceil (at + n) m.sector_size) m.sector_size) (length m.bytes) in
        let on_sector : start ≡ at / m.sector_size * m.sector_size =
          omega (arith, div-add-mod' at m.sector_size) in
        let aligned : is_multiple_of start m.sector_size ≡ true = ground (
          arith,
          ap (λ (t : ℕ). t % m.sector_size) on_sector,
          mul-mod_left (at / m.sector_size) m.sector_size,
        ) in
        let covered : at + n ≤ start + (end_al - start) = ground (arith, reach) in
        let good =
          sectors_good-inside m at n start (end_al - start) pos aligned back (ground arith)
            (ground arith) covered (ground (arith, back)) (omega arith) in
        let bytes =
          bytes-inside m at n start (end_al - start) pos aligned back (ground arith) (ground arith)
            covered (ground (arith, back)) (omega arith) in
        rw (one_unit, stop, some_asked, reach, within, good) bytes
  ]
]
