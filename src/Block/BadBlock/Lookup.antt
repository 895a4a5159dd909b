-- ===== src/Block/BadBlock/Lookup.antt =====
-- The lookups over coalesced runs: the binary search of imaging/mapped.rs and the queries of
-- `BadBlockMap` after its updates.
use reclaim.Prelude.{
  ℕ, suc, ◌-◌, ◌≤◌, ◌<◌, ◌≡◌, refl, ap, ◌∙◌, inl, inr, true, false, ◌&&◌, ◌||◌, List, [], ◌∷◌, ◌++◌,
  arith, ltb, leb, ◌==◌, leb→le, Bool-cases, u64_max, IsU64, sat_add,
}
use reclaim.Block.BadBlock.{
  LbaRange, end_of, contains, BadBlockMap, coalesce, insert_lba, add_bad, add_bad_range,
  any_contains, is_bad, partition_point, in_ranges,
}
use reclaim.Block.BadBlock.Coalesce.{
  Apart, Starts, ApartFrom, any-cons, any_contains-coalesce, coalesce-Apart, coalesce-Starts,
}

none_past :
    (lo lba : ℕ) (rs : List LbaRange)
    → Starts rs
    → ApartFrom lo rs
    → lba ≤ lo
    → any_contains rs lba ≡ false
unfolding any_contains
none_past lo lba [] s a h = refl
none_past lo lba (r ∷ rs) (u, s) (lt, a) h =
    unfold end_of in ground (arith, none_past (end_of r) lba rs s a (unfold end_of in omega arith))

in_ranges-cons :
    (r x : LbaRange) (rs : List LbaRange) (lba : ℕ)
    → x.start ≤ lba
    → r.start ≤ lba
    → in_ranges (r ∷ x ∷ rs) lba ≡ in_ranges (x ∷ rs) lba
unfolding in_ranges
in_ranges-cons r x rs lba h k =
    let first : leb r.start lba ≡ true = ground arith in
    let second : leb x.start lba ≡ true = ground arith in
    let outer : suc (suc (partition_point rs lba)) - 1 ≡ suc (partition_point rs lba) =
      omega arith in
    let inner : suc (partition_point rs lba) - 1 ≡ partition_point rs lba = omega arith in
    rw (first, second, outer, inner) (ground arith)

in_ranges-first :
    (r x : LbaRange) (rs : List LbaRange) (lba : ℕ)
    → lba < x.start
    → in_ranges (r ∷ x ∷ rs) lba ≡ contains r lba
unfolding in_ranges
in_ranges-first r x rs lba h = ground arith

in_ranges-one : (r : LbaRange) (lba : ℕ) → in_ranges (r ∷ []) lba ≡ contains r lba
unfolding in_ranges
in_ranges-one r lba = ground arith

not_in_earlier :
    (r x : LbaRange) (lba : ℕ)
    → IsU64 r.start
    → end_of r < x.start
    → x.start ≤ lba
    → (contains r lba ≡ false) × (r.start ≤ lba)
unfolding contains
not_in_earlier r x lba u h k = ground arith

none_later :
    (r x : LbaRange) (rs : List LbaRange) (lba : ℕ)
    → Starts (x ∷ rs)
    → ApartFrom (end_of r) (x ∷ rs)
    → lba < x.start
    → any_contains (x ∷ rs) lba ≡ false
unfolding any_contains
none_later r x rs lba (u, s) (lt, a) h =
    ground (arith, none_past (end_of x) lba rs s a (omega arith))

-- Over runs that are in order and apart, the binary search finds exactly the blocks that a run
-- holds.
pub in_ranges-any_contains :
    (rs : List LbaRange) (lba : ℕ) → Starts rs → Apart rs → in_ranges rs lba ≡ any_contains rs lba
in_ranges-any_contains [] lba s a = unfold in_ranges any_contains in refl
in_ranges-any_contains (r ∷ []) lba s a = in_ranges-one r lba ∙ unfold any_contains in ground arith
in_ranges-any_contains (r ∷ x ∷ rs) lba (u, s) (lt, a) = elim (Bool-cases (leb x.start lba)) [
  | inl later ↦
      let (out, le) = not_in_earlier r x lba u lt (leb→le _ _ later) in
      in_ranges-cons r x rs lba (leb→le _ _ later) le
      ∙ in_ranges-any_contains (x ∷ rs) lba s a
      ∙ rw (any-cons r (x ∷ rs) lba, out)
  | inr sooner ↦
      let h : lba < x.start = ground arith in
      in_ranges-first r x rs lba h
      ∙ rw (any-cons r (x ∷ rs) lba, none_later r x rs lba s (lt, a) h) (ground arith)
]

-- On the coalesced runs, the binary search of the imaging layer answers as the scan of all the
-- original runs does, for runs that start at 64-bit numbers.
pub in_ranges-coalesce :
    (runs : List LbaRange) (lba : ℕ)
    → Starts runs
    → in_ranges (coalesce runs) lba ≡ any_contains runs lba
in_ranges-coalesce runs lba s =
    in_ranges-any_contains (coalesce runs) lba (coalesce-Starts runs s) (coalesce-Apart runs s)
    ∙ any_contains-coalesce runs lba s

any-append :
    (rs : List LbaRange) (r : LbaRange) (lba : ℕ)
    → any_contains (rs ++ (r ∷ [])) lba ≡ (any_contains rs lba || contains r lba)
unfolding any_contains
any-append [] r lba = ground arith
any-append (x ∷ xs) r lba = ground (arith, any-append xs r lba)

append-Starts :
    (rs : List LbaRange) (r : LbaRange) → Starts rs → IsU64 r.start → Starts (rs ++ (r ∷ []))
append-Starts [] r s u = (u, tt)
append-Starts (x ∷ xs) r (ux, s) u = (ux, append-Starts xs r s u)

-- Recording a block as bad adds that block to the bad ones and changes no other, as long as the
-- block number is below the largest `u64`, at which the end of its run saturates.
pub is_bad-add_bad :
    (m : BadBlockMap) (lba x : ℕ)
    → Starts m.bad
    → lba < u64_max
    → is_bad (add_bad m lba) x ≡ (is_bad m x || x == lba)
unfolding is_bad add_bad insert_lba
is_bad-add_bad m lba x s h =
    any_contains-coalesce (m.bad ++ (record { start = lba; count = 1 } ∷ [])) x
      (append-Starts m.bad (record { start = lba; count = 1 }) s (omega arith))
    ∙ any-append m.bad (record { start = lba; count = 1 }) x
    ∙ ap (λ b. any_contains m.bad x || b) (unfold contains in ground arith)

-- After a range is added to a map whose runs start at 64-bit numbers, a block is bad if it was bad
-- before or lies in the range, whose end saturates at the largest 64-bit number, and else it is
-- not.
pub is_bad-add_bad_range :
    (m : BadBlockMap) (start count x : ℕ)
    → Starts m.bad
    → IsU64 start
    → is_bad (add_bad_range m start count) x
      ≡ (is_bad m x || leb start x && ltb x (sat_add start count))
unfolding is_bad add_bad_range
is_bad-add_bad_range m start count x s h = elim (Bool-cases (count == 0)) [
  | inl none_given ↦ rw none_given (ground arith)
  | inr given ↦ rw given (
      any_contains-coalesce (m.bad ++ (record { start = start; count = count } ∷ [])) x
        (append-Starts m.bad (record { start = start; count = count }) s h)
      ∙ any-append m.bad (record { start = start; count = count }) x
      ∙ ap (λ b. any_contains m.bad x || b) (unfold contains in ground arith))
]
