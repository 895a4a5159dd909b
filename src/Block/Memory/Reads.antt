-- ===== src/Block/Memory/Reads.antt =====
-- What a read of memory.rs returns: the bytes of the buffer, zeros past the end, and which sectors
-- it reports bad.
use native.Mathlib.Nat.{div-add-mod', mod-lt}
use reclaim.Prelude.Loops.{for_range_at, for_range_keeps}
use reclaim.Prelude.{
  ℕ, ◌+◌, ◌-◌, ◌*◌, ◌/◌, ◌%◌, ◌≤◌, ◌<◌, min, max, ◌≡◌, sym, ap, ◌∙◌, ◌≢◌, inl, inr, Bool, true,
  false, ◌&&◌, List, arith, ltb, leb, if◌then◌else◌, Bool-cases, length, get_or, replicate,
  length-replicate, u64_max, sat_add, div_ceil, is_multiple_of, slice, get_or-replicate, copy_slice,
  length-copy_slice, get_or-copy_slice, get_or_past, block_apart, copy_slice_out, div_lt_div_ceil,
}
use reclaim.Block.Source.{ReadResult, all_good_result, mark_bad, SectorStatus, status}
use reclaim.Block.Source.Laws.{
  all_good_result-IsResult, status-all_good_result, mark_bad_where, mark_bad_where-IsResult,
  sector_count-mark_bad_where, status-mark_bad_where, for_range-mark_all, for_range-marks,
  sector_count-all_good_result,
}
use reclaim.Block.Source.Contract.{IsSource}
use reclaim.Block.Memory.{MemorySource, read_sector, read_at, source}

-- The sector `i` of a request at `offset` lies past the end of the buffer.
unfoldable pub past_end : MemorySource → ℕ → ℕ → Bool
past_end m offset i = leb (length m.bytes) (sat_add offset (i * m.sector_size))

-- The copy that `read_sector` makes, with its numbers as variables.
sector_copy :
    (bytes buf : List ℕ) (ss start from i : ℕ)
    → from < length bytes
    → let n = min (min ss (length buf - start)) (length bytes - from) in
      get_or (copy_slice buf start n (slice from n bytes)) i 0 ≡ (
        if leb start i && ltb i (start + n)
        then get_or bytes (from + (i - start)) 0
        else get_or buf i 0)
sector_copy bytes buf ss start from i hf = elim (Bool-cases (leb start (length buf))) [
  | inl fits ↦
      get_or-copy_slice buf start from (min (min ss (length buf - start)) (length bytes - from))
        bytes i 0 (ground arith) (omega arith)
  | inr out ↦ rw (copy_slice_out buf start _ _ (ground arith)) (ground arith)
]

copied_byte :
    (bytes : List ℕ) (len ss k start offset old : ℕ)
    → k < ss
    → start + k < len
    → offset + len ≤ u64_max
    → old ≡ 0
    → leb (length bytes) (sat_add offset start) ≡ false
    → (if leb start (start + k)
          && ltb
              (start + k)
              (start + min (min ss (len - start)) (length bytes - sat_add offset start))
        then get_or bytes (sat_add offset start + (start + k - start)) 0
        else old)
      ≡ get_or bytes (offset + (start + k)) 0
copied_byte bytes len ss k start offset old h within fits zero_before inside =
    let e : sat_add offset start + (start + k - start) ≡ offset + (start + k) = omega arith in
    ground (arith, ap (λ (t : ℕ). get_or bytes t 0) e, get_or_past bytes (offset + (start + k)) 0)

module _ (m : MemorySource) (offset : ℕ) where
  read_sector-result :
      (i : ℕ) (s : ReadResult × List ℕ)
      → (read_sector m offset i s).0 ≡ (if past_end m offset i then mark_bad s.0 i else s.0)
  unfolding read_sector past_end
  read_sector-result i s = ground arith

  pub length-read_sector :
      (i : ℕ) (s : ReadResult × List ℕ) → length (read_sector m offset i s).1 ≡ length s.1
  unfolding read_sector
  length-read_sector i s = ground (
    arith,
    length-copy_slice s.1 (i * m.sector_size)
        (min (min m.sector_size (length s.1 - i * m.sector_size))
          (length m.bytes - sat_add offset (i * m.sector_size)))
        (slice (sat_add offset (i * m.sector_size))
          (min (min m.sector_size (length s.1 - i * m.sector_size))
            (length m.bytes - sat_add offset (i * m.sector_size)))
          m.bytes),
  )

  pub other_sector :
      (q k : ℕ)
      → k < m.sector_size
      → (i : ℕ) (s : ReadResult × List ℕ) → Unit {0}
      → i ≢ q
      → get_or (read_sector m offset i s).1 (q * m.sector_size + k) 0
        ≡ get_or s.1 (q * m.sector_size + k) 0
  unfolding read_sector
  other_sector q k h i s tt ne = ground (
    arith,
    block_apart i q k m.sector_size h ne,
    sector_copy m.bytes s.1 m.sector_size (i * m.sector_size) (sat_add offset (i * m.sector_size))
        (q * m.sector_size + k),
  )

  -- Round `q` puts the medium's byte in its place, or leaves the zero past the end.
  own_sector :
      (q k : ℕ) (s : ReadResult × List ℕ)
      → k < m.sector_size
      → q * m.sector_size + k < length s.1
      → offset + length s.1 ≤ u64_max
      → get_or s.1 (q * m.sector_size + k) 0 ≡ 0
      → get_or (read_sector m offset q s).1 (q * m.sector_size + k) 0
        ≡ get_or m.bytes (offset + (q * m.sector_size + k)) 0
  unfolding read_sector
  own_sector q k s h within fits zero_before =
      elim (Bool-cases (leb (length m.bytes) (sat_add offset (q * m.sector_size)))) [
        | inl past ↦ rw past (
            zero_before
            ∙ sym (get_or_past m.bytes (offset + (q * m.sector_size + k)) 0 (ground arith)))
        | inr inside ↦
            rw
              (
                inside,
                sector_copy m.bytes s.1 m.sector_size (q * m.sector_size)
                    (sat_add offset (q * m.sector_size)) (q * m.sector_size + k) (ground arith),
              )
              (copied_byte m.bytes (length s.1) m.sector_size k (q * m.sector_size) offset _ h
                within fits zero_before inside)
      ]

-- An aligned read of a buffer in memory that does not overflow a 64-bit offset returns, at each
-- place, the byte of the medium, and zero past its end.
pub memory_byte :
    (m : MemorySource) (offset : ℕ) (buf : List ℕ) (i : ℕ)
    → 0 < m.sector_size
    → is_multiple_of offset m.sector_size ≡ true
    → offset + length buf ≤ u64_max
    → i < length buf
    → get_or (read_at m offset buf).1 i 0 ≡ get_or m.bytes (offset + i) 0
unfolding read_at
memory_byte m offset buf i pos aligned fits lt = rw aligned (
    rw (div-add-mod' i m.sector_size) at (
      for_range_at (read_sector m offset) (λ s. length s.1 ≡ length buf)
        (λ j s e. length-read_sector m offset j s ∙ e)
        (λ s. get_or s.1 (i / m.sector_size * m.sector_size + i % m.sector_size) 0)
        (i / m.sector_size)
        (λ j s e ne.
          other_sector m offset (i / m.sector_size) (i % m.sector_size) (mod-lt i pos) j s tt ne)
        (div_ceil (length buf) m.sector_size) 0
        (
          all_good_result m.sector_size (div_ceil (length buf) m.sector_size),
          replicate (length buf) 0,
        )
        (get_or m.bytes (offset + (i / m.sector_size * m.sector_size + i % m.sector_size)) 0)
        (length-replicate (length buf) 0) (omega arith)
        (div_lt_div_ceil i (length buf) m.sector_size pos lt)
        (λ s e z.
          own_sector m offset (i / m.sector_size) (i % m.sector_size) s (mod-lt i pos)
            (omega (arith, div-add-mod' i m.sector_size)) (omega arith)
            (z ∙ get_or-replicate {A = ℕ} (length buf) _ 0))))

-- The sectors that a read reports bad: those past the end, or all at an unaligned offset.
unfoldable pub missing : MemorySource → ℕ → ℕ → Bool
missing m offset = if is_multiple_of offset m.sector_size then past_end m offset else (λ i. true)

read_at-marks :
    (m : MemorySource) (offset : ℕ) (buf : List ℕ)
    → let count = div_ceil (length buf) m.sector_size in
      (read_at m offset buf).0
      ≡ mark_bad_where count 0 (missing m offset) (all_good_result m.sector_size count)
unfolding read_at missing
read_at-marks m offset buf = elim (Bool-cases (is_multiple_of offset m.sector_size)) [
  | inl aligned ↦ rw aligned (
      for_range-marks (λ (s : ReadResult × List ℕ). s.0) (read_sector m offset) (past_end m offset)
        (read_sector-result m offset) (div_ceil (length buf) m.sector_size) 0
        (
          all_good_result m.sector_size (div_ceil (length buf) m.sector_size),
          replicate (length buf) 0,
        ))
  | inr unaligned ↦ rw unaligned (for_range-mark_all _ 0 _)
]

-- A read of a buffer in memory reports a sector bad exactly when it starts past the end, and every
-- sector at an unaligned offset; it reports no sector unread.
pub memory_status :
    (m : MemorySource) (offset : ℕ) (buf : List ℕ) (i : ℕ)
    → i < div_ceil (length buf) m.sector_size
    → status (read_at m offset buf).0 i
      ≡ (if missing m offset i then SectorStatus.bad else SectorStatus.good)
memory_status m offset buf i h =
    let count = div_ceil (length buf) m.sector_size in
    rw
      (
        read_at-marks m offset buf,
        status-mark_bad_where count 0 (missing m offset) (all_good_result m.sector_size count) i
            (all_good_result-IsResult m.sector_size count),
        status-all_good_result,
      )
      (ground (arith, sector_count-all_good_result m.sector_size count))

pub length-read_at :
    (m : MemorySource) (offset : ℕ) (buf : List ℕ) → length (read_at m offset buf).1 ≡ length buf
unfolding read_at
length-read_at m offset buf = elim (Bool-cases (is_multiple_of offset m.sector_size)) [
  | inl aligned ↦ rw aligned (
      for_range_keeps (read_sector m offset) (λ s. length s.1 ≡ length buf)
        (λ j s e. length-read_sector m offset j s ∙ e) (div_ceil (length buf) m.sector_size) 0 _
        (length-replicate (length buf) 0))
  | inr unaligned ↦ rw unaligned (length-replicate (length buf) 0)
]

pub unit_or_more : (m : MemorySource) → 0 < m.sector_size → max m.sector_size 1 ≡ m.sector_size
unit_or_more m pos = omega arith

missing_unaligned :
    (m : MemorySource) (offset i : ℕ)
    → is_multiple_of offset m.sector_size ≡ false
    → missing m offset i ≡ true
unfolding missing
missing_unaligned m offset i h = rw h

pub source-IsSource : (m : MemorySource) → 0 < m.sector_size → IsSource (source m)
unfolding source
source-IsSource m pos = record {
  fills = length-read_at m;
  result = λ offset buf.
      rw (read_at-marks m offset buf)
        (mark_bad_where-IsResult _ 0 (missing m offset) _ (all_good_result-IsResult _ _));
  counts = λ offset buf.
      rw (read_at-marks m offset buf, sector_count-mark_bad_where)
        (sector_count-all_good_result _ _ ∙ rw (unit_or_more m pos));
  unaligned = λ offset buf i h lt. rw (
    memory_status m offset buf i (rw (unit_or_more m pos) at lt),
    (missing_unaligned m offset i (rw (unit_or_more m pos) at h)),
  );
}
