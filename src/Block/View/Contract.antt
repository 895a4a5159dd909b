-- ===== src/Block/View/Contract.antt =====
-- The shape of a read through a window of offset_view.rs, and of one across its end.
use reclaim.Prelude.{
  ℕ, ◌-◌, ◌≤◌, ◌<◌, min, max, ◌≡◌, sym, ◌∙◌, ◌⊎◌, inl, inr, true, false, not, ◌||◌, List, arith,
  leb, ◌==◌, if◌then◌else◌, Bool-cases, length, length-append, take, drop, replicate, length-take,
  length-drop, length-replicate, div_ceil, is_multiple_of,
}
use reclaim.Block.Source.{SectorStatus, ReadResult, all_good_result, status, mark_all_bad}
use reclaim.Block.Source.Carry.{
  carry_over, carry_over_lem, carry_over-IsResult, sector_count-carry_over, status-carry_over,
  mark_bad_where_none,
}
use reclaim.Block.Source.Laws.{
  IsResult, all_good_result-IsResult, sector_count-all_good_result, mark_bad_where,
  mark_bad_where-IsResult, sector_count-mark_bad_where, status-mark_bad_where, for_range-mark_bad,
  for_range-mark_all,
}
use reclaim.Block.Source.Contract.{IsSource}
use reclaim.Block.View.{OffsetView, reaches_byte, mark_bad_from_byte, read_clipped, read_at, source}

mark_bad_from_byte-where :
    (r : ReadResult) (ss buf_len start : ℕ)
    → mark_bad_from_byte r ss buf_len start
      ≡ mark_bad_where r.sector_count 0
          (if leb buf_len start then (λ i. false) else reaches_byte ss buf_len start)
          r
unfolding mark_bad_from_byte
mark_bad_from_byte-where r ss buf_len start = elim (Bool-cases (leb buf_len start)) [
  | inl full ↦ rw full (sym (mark_bad_where_none r.sector_count 0 r))
  | inr short ↦ rw short (for_range-mark_bad r.sector_count 0 (reaches_byte ss buf_len start) r)
]

-- The outcome of a clipped read: the parent's, with the sectors that reach past the window bad.
clipped-result :
    (v : OffsetView) (off : ℕ) (buf : List ℕ) (avail : ℕ)
    → let r = (v.inner.read_at off (take avail buf)).0 in
      let count = div_ceil (length buf) (max v.inner.sector_size 1) in
      (read_clipped v off buf avail).0
      ≡ mark_bad_where
          (carry_over r v.inner.sector_size count).sector_count
          0
          (if leb (length buf) avail
            then (λ i. false)
            else reaches_byte v.inner.sector_size (length buf) avail)
          (carry_over r v.inner.sector_size count)
unfolding read_clipped
clipped-result v off buf avail =
    rw carry_over_lem (mark_bad_from_byte-where _ v.inner.sector_size (length buf) avail)

pub clipped-fills :
    (v : OffsetView) (off : ℕ) (buf : List ℕ) (avail : ℕ)
    → IsSource v.inner
    → length (read_clipped v off buf avail).1 ≡ length buf
unfolding read_clipped
clipped-fills v off buf avail c = omega (
  arith,
  length-append (v.inner.read_at off (take avail buf)).1 (replicate (length (drop avail buf)) 0),
  length-replicate {A = ℕ} (length (drop avail buf)) 0,
  c.fills off (take avail buf),
  length-take avail buf,
  length-drop avail buf,
)

-- A read that runs past the window: a sector that lies inside has the parent's status, and each
-- sector with a byte past the end is bad.
pub status-read_clipped :
    (v : OffsetView) (off : ℕ) (buf : List ℕ) (avail i : ℕ)
    → IsSource v.inner
    → avail < length buf
    → i < div_ceil (length buf) (max v.inner.sector_size 1)
    → i < (v.inner.read_at off (take avail buf)).0.sector_count
    → status (read_clipped v off buf avail).0 i ≡ (
        if reaches_byte v.inner.sector_size (length buf) avail i
        then SectorStatus.bad
        else status (v.inner.read_at off (take avail buf)).0 i)
status-read_clipped v off buf avail i c short h k =
    let r = (v.inner.read_at off (take avail buf)).0 in
    let count = div_ceil (length buf) (max v.inner.sector_size 1) in
    let cut : leb (length buf) avail ≡ false = ground arith in
    rw
      (
        clipped-result v off buf avail,
        cut,
        status-mark_bad_where _ 0 (reaches_byte v.inner.sector_size (length buf) avail)
            (carry_over r v.inner.sector_size count) i
            (carry_over-IsResult r v.inner.sector_size count),
        status-carry_over r v.inner.sector_size count i (c.result off (take avail buf)) k h,
      )
      (ground (arith, sector_count-carry_over r v.inner.sector_size count))

-- What each branch of `read_at` gives: a full buffer and an outcome for each of its sectors.
abbrev Served : ℕ → ℕ → ReadResult × List ℕ → Type 0
Served ss n (res, filled) =
    (length filled ≡ n) × IsResult res × (res.sector_count ≡ div_ceil n (max ss 1))

all_bad-Served :
    (ss n : ℕ)
    → let count = div_ceil n (max ss 1) in
      Served ss n (mark_all_bad count (all_good_result ss count), replicate n 0)
all_bad-Served ss n =
    let count = div_ceil n (max ss 1) in
    rw (for_range-mark_all count 0 (all_good_result ss count)) (
      length-replicate {A = ℕ} n 0,
      mark_bad_where-IsResult count 0 _ _ (all_good_result-IsResult ss count),
      sector_count-mark_bad_where count 0 _ _ ∙ sector_count-all_good_result ss count,
    )

clipped-Served :
    (v : OffsetView) (off : ℕ) (buf : List ℕ) (avail : ℕ)
    → IsSource v.inner
    → Served v.inner.sector_size (length buf) (read_clipped v off buf avail)
clipped-Served v off buf avail c =
    let count = div_ceil (length buf) (max v.inner.sector_size 1) in
    (
      clipped-fills v off buf avail c,
      rw (clipped-result v off buf avail)
          (mark_bad_where-IsResult _ 0 _ _ (carry_over-IsResult _ _ count)),
      rw (clipped-result v off buf avail)
          (sector_count-mark_bad_where _ 0 _ _ ∙ sector_count-carry_over _ _ count),
    )

read_at-Served :
    (v : OffsetView) (offset : ℕ) (buf : List ℕ)
    → IsSource v.inner
    → Served v.inner.sector_size (length buf) (read_at v offset buf)
unfolding read_at
read_at-Served v offset buf c =
    elim (Bool-cases
      (leb v.len offset || not (is_multiple_of offset (max v.inner.sector_size 1)))) [
        | inl outside ↦ rw outside (all_bad-Served v.inner.sector_size (length buf))
        | inr inside ↦ elim (Bool-cases (min (v.len - offset) (length buf) == length buf)) [
          | inl whole ↦ rw (inside, whole) (c.fills _ buf, c.result _ buf, c.counts _ buf)
          | inr cut ↦ rw (inside, cut) (clipped-Served v _ buf _ c)
        ]
      ]

-- A read through a view that starts past its end or at an unaligned offset reports every sector
-- bad.
pub status-outside :
    (v : OffsetView) (offset : ℕ) (buf : List ℕ) (i : ℕ)
    → (v.len ≤ offset) ⊎ (is_multiple_of offset (max v.inner.sector_size 1) ≡ false)
    → i < div_ceil (length buf) (max v.inner.sector_size 1)
    → status (read_at v offset buf).0 i ≡ SectorStatus.bad
unfolding read_at
status-outside v offset buf i out lt =
    let count = div_ceil (length buf) (max v.inner.sector_size 1) in
    let outside : (leb v.len offset || not (is_multiple_of offset (max v.inner.sector_size 1)))
        ≡ true =
      ground arith in
    rw
      (
        outside,
        for_range-mark_all count 0 (all_good_result v.inner.sector_size count),
        status-mark_bad_where count 0 (λ i. true) (all_good_result v.inner.sector_size count) i
            (all_good_result-IsResult v.inner.sector_size count),
      )
      (ground (arith, sector_count-all_good_result v.inner.sector_size count))

pub source-IsSource : (v : OffsetView) → IsSource v.inner → IsSource (source v)
unfolding source
source-IsSource v c = record {
  fills = λ offset buf. (read_at-Served v offset buf c).0;
  result = λ offset buf. (read_at-Served v offset buf c).1;
  counts = λ offset buf. (read_at-Served v offset buf c).2;
  unaligned = λ offset buf i h lt. status-outside v offset buf i (inr h) lt;
}
