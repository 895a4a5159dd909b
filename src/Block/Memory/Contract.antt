-- ===== src/Block/Memory/Contract.antt =====
-- The contract of a block source for memory.rs, its zero-filling included: what becomes of the bytes
-- of the caller's buffer.
use native.Mathlib.Nat.{div-add-mod', mod-lt}
use reclaim.Prelude.Loops.{for_range_at}
use reclaim.Prelude.{
  ℕ, ◌+◌, ◌*◌, ◌/◌, ◌%◌, ◌<◌, ◌≡◌, refl, sym, ap, ◌∙◌, ◌≢◌, inl, inr, true, List, arith, ltb,
  if◌then◌else◌, Bool-cases, length, get_or, replicate, length-replicate, div_ceil, is_multiple_of,
  get_or-replicate, get_or_past, div_lt_div_ceil,
}
use reclaim.Block.Source.{ReadResult, SectorStatus, all_good_result}
use reclaim.Block.Source.Contract.{ZeroFills, KeepsContract}
use reclaim.Block.Memory.{MemorySource, read_sector, read_at, source}
use reclaim.Block.Memory.Reads.{
  past_end, length-read_sector, other_sector, missing, memory_status, length-read_at, unit_or_more,
  source-IsSource,
}

past_sector :
    (m : MemorySource) (offset q : ℕ) (s : ReadResult × List ℕ)
    → past_end m offset q ≡ true
    → (read_sector m offset q s).1 ≡ s.1
unfolding read_sector past_end
past_sector m offset q s h = rw (h, read_sector) refl

missing-true :
    (m : MemorySource) (offset i : ℕ) (st : SectorStatus)
    → st ≡ (if missing m offset i then SectorStatus.bad else SectorStatus.good)
    → st ≢ SectorStatus.good
    → missing m offset i ≡ true
missing-true m offset i st e h = elim (Bool-cases (missing m offset i)) [
  | inl gone ↦ gone
  | inr there ↦ absurd (h (rw there at e))
]

missing_aligned :
    (m : MemorySource) (offset i : ℕ)
    → is_multiple_of offset m.sector_size ≡ true
    → missing m offset i ≡ past_end m offset i
unfolding missing
missing_aligned m offset i h = rw h refl

missing_byte :
    (m : MemorySource) (offset : ℕ) (buf : List ℕ) (i : ℕ)
    → 0 < m.sector_size
    → missing m offset (i / m.sector_size) ≡ true
    → i < length buf
    → get_or (read_at m offset buf).1 i 0 ≡ 0
unfolding read_at
missing_byte m offset buf i pos gone lt = elim (Bool-cases (is_multiple_of offset m.sector_size)) [
  | inr unaligned ↦ rw unaligned (get_or-replicate {A = ℕ} (length buf) i 0)
  | inl aligned ↦
      let past = sym (missing_aligned m offset (i / m.sector_size) aligned) ∙ gone in
      rw aligned (
        rw (div-add-mod' i m.sector_size) at (
          for_range_at (read_sector m offset) (λ s. length s.1 ≡ length buf)
            (λ j s e. length-read_sector m offset j s ∙ e)
            (λ s. get_or s.1 (i / m.sector_size * m.sector_size + i % m.sector_size) 0)
            (i / m.sector_size)
            (λ j s e ne.
              other_sector m offset (i / m.sector_size) (i % m.sector_size) (mod-lt i pos) j s tt
                ne)
            (div_ceil (length buf) m.sector_size) 0
            (
              all_good_result m.sector_size (div_ceil (length buf) m.sector_size),
              replicate (length buf) 0,
            )
            0 (length-replicate (length buf) 0) (omega arith)
            (div_lt_div_ceil i (length buf) m.sector_size pos lt)
            (λ s e z.
              ap (λ t. get_or t (i / m.sector_size * m.sector_size + i % m.sector_size) 0)
                (past_sector m offset (i / m.sector_size) s past)
              ∙ z
              ∙ get_or-replicate {A = ℕ} (length buf) _ 0)))
]

source-ZeroFills : (m : MemorySource) → 0 < m.sector_size → ZeroFills (source m)
unfolding source
source-ZeroFills m pos offset buf i h = elim (Bool-cases (ltb i (length buf))) [
  | inr past ↦
      get_or_past (read_at m offset buf).1 i 0 (ground (arith, length-read_at m offset buf))
  | inl within ↦
      let lt : i < length buf = ground arith in
      let gone =
        missing-true m offset (i / m.sector_size) _
          (memory_status m offset buf (i / m.sector_size)
            (omega (arith, div_lt_div_ceil i (length buf) m.sector_size pos lt)))
          (rw (unit_or_more m pos) at h) in
      missing_byte m offset buf i pos gone lt
]

-- A buffer in memory with a positive sector size keeps the contract of a block source: a read fills
-- the whole buffer, reports every sector, is all bad at an unaligned offset, and holds zeros for
-- each sector that is not good, whatever the buffer of the caller held.
pub memory-KeepsContract : (m : MemorySource) → 0 < m.sector_size → KeepsContract (source m)
memory-KeepsContract m pos = record {
  shape = source-IsSource m pos;
  zero_fills = source-ZeroFills m pos;
}
