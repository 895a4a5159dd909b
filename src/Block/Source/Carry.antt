-- ===== src/Block/Source/Carry.antt =====
-- An outcome that is carried over into a fresh one of another size, as offset_view.rs does.
use reclaim.Prelude.{ℕ, zero, suc, ◌+◌, ◌<◌, ◌≡◌, refl, ◌∙◌, Bool, false, arith}
use reclaim.Block.Bitset
use reclaim.Block.Bitset.{Bitset, new, get}
use reclaim.Block.Bitset.Laws.{
  new-IsValid, bits-new, get-new, set_where, get-set_where, iter_set_lem,
}
use reclaim.Block.Source.{
  ReadResult, all_good_result, status, mark_bad_each, mark_unread_each, bad_sectors, unread_sectors,
}
use reclaim.Block.Source.Laws.{
  IsResult, all_good_result-IsResult, sector_count-all_good_result, mark_bad_where,
  mark_bad_where-IsResult, sector_count-mark_bad_where, mark_bad_where-suc,
  mark_bad_each-filter_range, mark_unread_where, mark_unread_where-IsResult,
  mark_unread_each-filter_range,
}

-- Copying the bad sectors of one outcome into another, and the unread ones.
pub copy_bad :
    (r x : ReadResult)
    → mark_bad_each (bad_sectors r) x ≡ mark_bad_where r.bad.bits 0 (Bitset.get r.bad) x
unfolding bad_sectors
copy_bad r x =
    rw (iter_set_lem r.bad) (mark_bad_each-filter_range r.bad.bits 0 (Bitset.get r.bad) x)

pub copy_unread :
    (r x : ReadResult)
    → mark_unread_each (unread_sectors r) x
      ≡ mark_unread_where r.unread.bits 0 (Bitset.get r.unread) x
unfolding unread_sectors
copy_unread r x =
    rw (iter_set_lem r.unread)
      (mark_unread_each-filter_range r.unread.bits 0 (Bitset.get r.unread) x)

pub sector_count-mark_unread_where :
    (n start : ℕ) (p : ℕ → Bool) (r : ReadResult)
    → (mark_unread_where n start p r).sector_count ≡ r.sector_count
unfolding mark_unread_where
sector_count-mark_unread_where n start p r = refl

-- The outcome of one read carried over, sector by sector, into a fresh one of `n` sectors.
pub carry_over : ReadResult → ℕ → ℕ → ReadResult
carry_over r ss n =
    mark_unread_each (unread_sectors r) (mark_bad_each (bad_sectors r) (all_good_result ss n))

pub carry_over_lem :
    (r : ReadResult) (ss n : ℕ)
    → mark_unread_each (unread_sectors r) (mark_bad_each (bad_sectors r) (all_good_result ss n))
      ≡ carry_over r ss n
unfolding carry_over
carry_over_lem r ss n = refl

pub carry_over-IsResult : (r : ReadResult) (ss n : ℕ) → IsResult (carry_over r ss n)
unfolding carry_over
carry_over-IsResult r ss n =
    rw (copy_unread, copy_bad)
      (mark_unread_where-IsResult _ 0 _ _
        (mark_bad_where-IsResult _ 0 _ _ (all_good_result-IsResult ss n)))

pub sector_count-carry_over : (r : ReadResult) (ss n : ℕ) → (carry_over r ss n).sector_count ≡ n
unfolding carry_over
sector_count-carry_over r ss n =
    rw (copy_unread, copy_bad, sector_count-mark_unread_where, sector_count-mark_bad_where)
      (sector_count-all_good_result ss n)

pub status-carry_over :
    (r : ReadResult) (ss n i : ℕ)
    → IsResult r
    → i < r.sector_count
    → i < n
    → status (carry_over r ss n) i ≡ status r i
unfolding carry_over
status-carry_over r ss n i v h k =
    rw (copy_unread, copy_bad)
      (unfold status mark_unread_where mark_bad_where all_good_result in
        rw
          (
            get-set_where r.bad.bits 0 (Bitset.get r.bad) (Bitset.new n) i (new-IsValid n),
            get-set_where r.unread.bits 0 (Bitset.get r.unread) (Bitset.new n) i (new-IsValid n),
            get-new n i,
            bits-new n,
            v.bad_size,
            v.unread_size,
          )
          (ground arith))

pub mark_bad_where_none : (n start : ℕ) (r : ReadResult) → mark_bad_where n start (λ i. false) r ≡ r
mark_bad_where_none zero start r = unfold mark_bad_where set_where in refl
mark_bad_where_none (suc n) start r =
    mark_bad_where-suc n start (λ i. false) r ∙ mark_bad_where_none n (start + 1) r
