-- ===== src/Block/Fault/Injected.antt =====
-- What a read through the fault injector returns, against the read of the source behind it.
use native.Mathlib.Nat.{div-add-mod', mod-lt}
use reclaim.Prelude.Loops.{for_range_at}
use reclaim.Prelude.{
  ℕ, ◌+◌, ◌-◌, ◌*◌, ◌/◌, ◌%◌, ◌≤◌, ◌<◌, min, max, ◌≡◌, ap, ◌∙◌, ◌≢◌, ◌⊎◌, inl, inr, Bool, ◌&&◌,
  List, arith, ltb, leb, if◌then◌else◌, Bool-cases, length, get_or, replicate, length-replicate,
  is_multiple_of, overwrite, length-overwrite, get_or-overwrite, get_or-replicate, get_or_past,
  block_apart, div_lt_div_ceil,
}
use reclaim.Block.Source.{ReadResult, SectorStatus, mark_bad, status}
use reclaim.Block.Source.Laws.{status-mark_bad_where, for_range-marks}
use reclaim.Block.Source.Contract.{IsSource}
use reclaim.Block.Fault.{FaultInjector, is_injected, zero_range, inject_sector, read_at}

-- The sector `i` of a request at `offset` is an injected fault.
abbrev pub faulty : FaultInjector → ℕ → ℕ → Bool
faulty f offset i = is_injected f.bad_lbas (offset / max f.inner.sector_size 1 + i)

get_or-zero_range :
    (buf : List ℕ) (a b i : ℕ)
    → a ≤ b
    → b ≤ length buf
    → get_or (zero_range buf a b) i 0 ≡ (if leb a i && ltb i b then 0 else get_or buf i 0)
unfolding zero_range
get_or-zero_range buf a b i h k = elim (Bool-cases (ltb i (length buf))) [
  | inl within ↦ ground (
    arith,
    get_or-overwrite buf a (replicate (b - a) 0) i 0,
    length-replicate {A = ℕ} (b - a) 0,
    get_or-replicate {A = ℕ} (b - a) (i - a) 0,
  )
  | inr out ↦ ground (
    arith,
    get_or_past buf i 0,
    get_or_past (overwrite buf a (replicate (b - a) 0)) i 0,
    length-overwrite buf a (replicate (b - a) 0),
  )
]

zero_range_empty : (buf : List ℕ) (a b : ℕ) → b < a → zero_range buf a b ≡ buf
unfolding zero_range
zero_range_empty buf a b h = ground arith

-- A sector's zeros leave the bytes of the others alone, also where the buffer ends before it.
zero_range_apart :
    (buf : List ℕ) (start ss i : ℕ)
    → (i < start) ⊎ (start + ss ≤ i)
    → get_or (zero_range buf start (min (start + ss) (length buf))) i 0 ≡ get_or buf i 0
zero_range_apart buf start ss i h = elim (Bool-cases (leb start (length buf))) [
  | inl inside ↦
      get_or-zero_range buf start (min (start + ss) (length buf)) i (ground arith) (omega arith)
      ∙ ground arith
  | inr past ↦ rw (zero_range_empty buf start (min (start + ss) (length buf)) (ground arith))
]

module _ (f : FaultInjector) (offset : ℕ) where
  inject_sector-result :
      (i : ℕ) (s : ReadResult × List ℕ)
      → (inject_sector f (offset / max f.inner.sector_size 1) i s).0
        ≡ (if faulty f offset i then mark_bad s.0 i else s.0)
  unfolding inject_sector
  inject_sector-result i s = ground arith

  length-zero_range : (buf : List ℕ) (a b : ℕ) → length (zero_range buf a b) ≡ length buf
  unfolding zero_range
  length-zero_range buf a b = ground (arith, length-overwrite buf a (replicate (b - a) 0))

  length-inject_sector :
      (i : ℕ) (s : ReadResult × List ℕ)
      → length (inject_sector f (offset / max f.inner.sector_size 1) i s).1 ≡ length s.1
  unfolding inject_sector
  length-inject_sector i s = elim (Bool-cases (faulty f offset i)) [
    | inl hit ↦ rw hit (length-zero_range s.1 _ _)
    | inr miss ↦ rw miss
  ]

  zeroed_byte :
      (q k : ℕ) (s : ReadResult × List ℕ)
      → k < max f.inner.sector_size 1
      → q * max f.inner.sector_size 1 + k < length s.1
      → get_or
          (inject_sector f (offset / max f.inner.sector_size 1) q s).1
          (q * max f.inner.sector_size 1 + k)
          0
        ≡ (if faulty f offset q then 0 else get_or s.1 (q * max f.inner.sector_size 1 + k) 0)
  unfolding inject_sector
  zeroed_byte q k s h lt = elim (Bool-cases (faulty f offset q)) [
    | inl hit ↦
        rw
          (
            hit,
            get_or-zero_range s.1 (q * max f.inner.sector_size 1)
                (min (q * max f.inner.sector_size 1 + max f.inner.sector_size 1) (length s.1))
                (q * max f.inner.sector_size 1 + k) (omega arith) (omega arith),
          )
          (ground arith)
    | inr miss ↦ rw miss
  ]

  kept_byte :
      (q k i : ℕ) (s : ReadResult × List ℕ)
      → k < max f.inner.sector_size 1
      → i ≢ q
      → get_or
          (inject_sector f (offset / max f.inner.sector_size 1) i s).1
          (q * max f.inner.sector_size 1 + k)
          0
        ≡ get_or s.1 (q * max f.inner.sector_size 1 + k) 0
  unfolding inject_sector
  kept_byte q k i s h ne = elim (Bool-cases (faulty f offset i)) [
    | inl hit ↦ rw hit (
        zero_range_apart s.1 (i * max f.inner.sector_size 1) (max f.inner.sector_size 1)
          (q * max f.inner.sector_size 1 + k) (block_apart i q k (max f.inner.sector_size 1) h ne))
    | inr miss ↦ rw miss
  ]

-- A sector read through the fault injector is bad where a fault is injected in an aligned request,
-- and else has the status that the source gave it.
pub fault_status :
    (f : FaultInjector) (offset : ℕ) (buf : List ℕ) (i : ℕ)
    → IsSource f.inner
    → i < (f.inner.read_at offset buf).0.sector_count
    → status (read_at f offset buf).0 i ≡ (
        if is_multiple_of offset (max f.inner.sector_size 1) && faulty f offset i
        then SectorStatus.bad
        else status (f.inner.read_at offset buf).0 i)
unfolding read_at
fault_status f offset buf i c lt =
    elim (Bool-cases (is_multiple_of offset (max f.inner.sector_size 1))) [
      | inl aligned ↦
          rw
            (
              aligned,
              for_range-marks (λ (s : ReadResult × List ℕ). s.0)
                  (inject_sector f (offset / max f.inner.sector_size 1)) (faulty f offset)
                  (inject_sector-result f offset) (f.inner.read_at offset buf).0.sector_count 0
                  (f.inner.read_at offset buf),
              status-mark_bad_where (f.inner.read_at offset buf).0.sector_count 0 (faulty f offset)
                  (f.inner.read_at offset buf).0 i (c.result offset buf),
            )
            (ground arith)
      | inr unaligned ↦ rw unaligned
    ]

-- A byte read through the fault injector, over any source that keeps the contract, is zero in an
-- injected sector of an aligned request, and else what the source returned.
pub fault_byte :
    (f : FaultInjector) (offset : ℕ) (buf : List ℕ) (i : ℕ)
    → IsSource f.inner
    → i < length buf
    → get_or (read_at f offset buf).1 i 0 ≡ (
        if is_multiple_of offset (max f.inner.sector_size 1)
          && faulty f offset (i / max f.inner.sector_size 1)
        then 0
        else get_or (f.inner.read_at offset buf).1 i 0)
unfolding read_at
fault_byte f offset buf i c lt =
    elim (Bool-cases (is_multiple_of offset (max f.inner.sector_size 1))) [
      | inl aligned ↦ rw aligned (
          rw (div-add-mod' i ss) at (
            for_range_at (inject_sector f (offset / ss)) (λ s. length s.1 ≡ length buf)
              (λ j s e. length-inject_sector f offset j s ∙ e)
              (λ s. get_or s.1 (i / ss * ss + i % ss) 0) (i / ss)
              (λ j s e ne. kept_byte f offset (i / ss) (i % ss) j s (mod-lt i (omega arith)) ne)
              (f.inner.read_at offset buf).0.sector_count 0 (f.inner.read_at offset buf)
              (if faulty f offset (i / ss)
                then 0
                else get_or (f.inner.read_at offset buf).1 (i / ss * ss + i % ss) 0)
              (c.fills offset buf) (omega arith)
              (rw (c.counts offset buf) (div_lt_div_ceil i (length buf) ss (omega arith) lt))
              (λ s e old.
                zeroed_byte f offset (i / ss) (i % ss) s (mod-lt i (omega arith))
                  (omega (arith, div-add-mod' i ss))
                ∙ ap (λ (t : ℕ). if faulty f offset (i / ss) then 0 else t) old)))
      | inr unaligned ↦ rw unaligned
    ]
  where
    ss : ℕ
    ss = max f.inner.sector_size 1
