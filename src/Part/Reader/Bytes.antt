-- ===== src/Part/Reader/Bytes.antt =====
-- What a read at any offset returns: always the length asked for, and over a buffer in memory its
-- bytes, with zeros past the end.
use native.Mathlib.Nat.{div-add-mod', mod-lt, mul-mod_left}
use reclaim.Prelude.{
  ℕ, ◌+◌, ◌-◌, ◌*◌, ◌/◌, ◌%◌, ◌≤◌, ◌<◌, min, max, ◌≡◌, sym, ap, ◌∙◌, inl, inr, true, false, ◌||◌,
  arith, ltb, leb, ◌==◌, ltb→lt, Bool-cases, length, get_or, replicate, length-replicate, u64_max,
  sat_add, is_multiple_of, get_or-replicate, length-copy_slice, get_or-copy_slice, get_or_past,
  div_ceil_bounds,
}
use reclaim.Part.Reader.{align_up, aligned_end, read_span, read_bytes}
use reclaim.Block.Source.{BlockSource}
use reclaim.Block.Memory
use reclaim.Block.Memory.{MemorySource, source, read_at}
use reclaim.Block.Memory.Reads.{memory_byte, length-read_at}

-- Whatever the source returns, a read yields as many bytes as it was asked for.
pub length-read_bytes : (src : BlockSource) (offset n : ℕ) → length (read_bytes src offset n) ≡ n
unfolding read_bytes read_span
length-read_bytes src offset n = elim (Bool-cases (n == 0 || leb src.len offset)) [
  | inl past ↦ rw past (length-replicate n 0)
  | inr inside ↦ elim (Bool-cases (leb a_end a_start)) [
    | inl empty ↦ rw (inside, empty) (length-replicate n 0)
    | inr window ↦
        rw (inside, window) (length-copy_slice (replicate n 0) 0 _ _ ∙ length-replicate n 0)
  ]
]
  where
    a_start : ℕ
    a_start = offset - offset % max src.sector_size 1

    a_end : ℕ
    a_end = aligned_end (min (sat_add offset n) src.len) src.len (max src.sector_size 1)

-- The window reaches the end of the request that lies in the source.
aligned_end_lem :
    (stop total ss : ℕ)
    → 0 < ss
    → stop ≤ total
    → total + ss ≤ u64_max
    → (stop ≤ aligned_end stop total ss) × (aligned_end stop total ss ≤ u64_max)
unfolding aligned_end align_up
aligned_end_lem stop total ss pos le fits =
    ground (arith, div_ceil_bounds stop ss pos, mod-lt total pos)

module _ (m : MemorySource) (pos : 0 < m.sector_size)
    (fits : length m.bytes + m.sector_size ≤ u64_max) where
  span_byte :
      (offset n start span i : ℕ)
      → is_multiple_of start m.sector_size ≡ true
      → start ≤ offset
      → offset < length m.bytes
      → start + span ≤ u64_max
      → min (offset + n) (length m.bytes) ≤ start + span
      → i < n
      → get_or (read_span (source m) offset n start span (replicate n 0)) i 0
        ≡ get_or m.bytes (offset + i) 0
  unfolding read_span source
  span_byte offset n start span i aligned le inside small covers lt =
      let buf = (Memory.read_at m start (replicate span 0)).1 in
      let skip = offset - start in
      let copied = min (min n (span - skip)) (min (sat_add offset n) (length m.bytes) - offset) in
      let long : length buf ≡ span =
        length-read_at m start (replicate span 0) ∙ length-replicate span 0 in
      let copy =
        get_or-copy_slice (replicate n 0) 0 skip copied buf i 0
          (omega (arith, length-replicate {A = ℕ} n 0)) (omega (arith, long)) in
      let shift : skip + (i - 0) ≡ skip + i = omega arith in
      elim (Bool-cases (ltb i copied)) [
        | inr past ↦
            ground (arith, copy, get_or-replicate {A = ℕ} n i 0, get_or_past m.bytes (offset + i) 0)
        | inl within ↦
            let within' : i < copied = ltb→lt i copied within in
            let place : start + (skip + i) ≡ offset + i = omega arith in
            let byte : get_or buf (skip + i) 0 ≡ get_or m.bytes (start + (skip + i)) 0 =
              memory_byte m start (replicate span 0) (skip + i) pos aligned
                (omega (arith, length-replicate {A = ℕ} span 0))
                (omega (arith, within', length-replicate {A = ℕ} span 0)) in
            ground (
              arith,
              copy,
              byte,
              ap (λ (t : ℕ). get_or buf t 0) shift,
              ap (λ (t : ℕ). get_or m.bytes t 0) place,
            )
      ]

  -- Over a buffer in memory with a sector size, whose length with one sector more fits 64 bits, a
  -- read at any offset, aligned or not, yields the bytes from that offset on, and zeros past the
  -- end.
  pub read_bytes-byte :
      (offset n i : ℕ)
      → i < n
      → get_or (read_bytes (source m) offset n) i 0 ≡ get_or m.bytes (offset + i) 0
  unfolding read_bytes source
  read_bytes-byte offset n i lt = elim (Bool-cases (n == 0 || leb (length m.bytes) offset)) [
    | inl past ↦
        rw past
          (get_or-replicate {A = ℕ} n i 0 ∙ sym (get_or_past m.bytes (offset + i) 0 (ground arith)))
    | inr inside ↦ elim (Bool-cases (leb a_end a_start)) [
      | inl empty ↦ absurd (ground (arith, reach, mod-lt offset unit, below))
      | inr window ↦
          rw (inside, window)
            (span_byte offset n a_start (a_end - a_start) i aligned (omega arith) (ground arith)
              (omega (arith, reach, leb_false window)) (omega (arith, reach, leb_false window)) lt)
    ]
  ]
    where
      ss : ℕ
      ss = max m.sector_size 1

      unit : 0 < ss
      unit = omega arith

      a_start : ℕ
      a_start = offset - offset % ss

      stop : ℕ
      stop = min (sat_add offset n) (length m.bytes)

      a_end : ℕ
      a_end = aligned_end stop (length m.bytes) ss

      reach : (stop ≤ a_end) × (a_end ≤ u64_max)
      reach = aligned_end_lem stop (length m.bytes) ss unit (omega arith) (omega arith)

      below : offset % ss ≤ offset
      below = omega arith

      leb_false : leb a_end a_start ≡ false → a_start < a_end
      leb_false e = ground arith

      on_sector : a_start ≡ offset / ss * ss
      on_sector = omega (arith, div-add-mod' offset ss)

      aligned : is_multiple_of a_start m.sector_size ≡ true
      aligned = ground (
        arith,
        on_sector,
        mul-mod_left (offset / ss) ss,
        ap (λ (t : ℕ). t % m.sector_size) on_sector,
      )
