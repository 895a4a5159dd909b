-- ===== src/Block/BadBlock/Coalesce.antt =====
-- `coalesce` of bad_block.rs keeps the set of blocks and leaves the runs sorted and apart.
use reclaim.Prelude.{
  ℕ, ◌≤◌, ◌<◌, max, ◌≡◌, refl, sym, ap, ◌∙◌, inl, inr, Bool, true, false, ◌||◌, List, [], ◌∷◌,
  arith, ltb, leb, ltb→lt, leb→le, Bool-cases, length, IsU64,
}
use reclaim.Block.BadBlock.{
  LbaRange, end_of, contains, insert_run, sort_runs, extend_run, merge_from, merge_runs, coalesce,
  any_contains,
}

-- The start of each run is a `u64`.
abbrev pub Starts : List LbaRange → Type 0
Starts [] = Unit {0}
Starts (r ∷ rs) = IsU64 r.start × Starts rs

-- Each run starts at or after `lo`.
abbrev pub SortedFrom : ℕ → List LbaRange → Type 0
SortedFrom lo [] = Unit {0}
SortedFrom lo (r ∷ rs) = (lo ≤ r.start) × SortedFrom r.start rs

-- Each run starts past the end of the one before it.
abbrev pub ApartFrom : ℕ → List LbaRange → Type 0
ApartFrom lo [] = Unit {0}
ApartFrom lo (r ∷ rs) = (lo < r.start) × ApartFrom (end_of r) rs

abbrev pub Apart : List LbaRange → Type 0
Apart [] = Unit {0}
Apart (r ∷ rs) = ApartFrom (end_of r) rs

any-insert_run :
    (r : LbaRange) (rs : List LbaRange) (lba : ℕ)
    → any_contains (insert_run r rs) lba ≡ (contains r lba || any_contains rs lba)
unfolding insert_run any_contains
any-insert_run r [] lba = refl
any-insert_run r (x ∷ xs) lba = ground (arith, any-insert_run r xs lba)

any-sort_runs :
    (rs : List LbaRange) (lba : ℕ) → any_contains (sort_runs rs) lba ≡ any_contains rs lba
unfolding sort_runs any_contains
any-sort_runs [] lba = refl
any-sort_runs (r ∷ rs) lba =
    any-insert_run r (sort_runs rs) lba ∙ ap (λ b. contains r lba || b) (any-sort_runs rs lba)

insert_run-Starts :
    (r : LbaRange) (rs : List LbaRange) → IsU64 r.start → Starts rs → Starts (insert_run r rs)
unfolding insert_run
insert_run-Starts r [] h s = (h, tt)
insert_run-Starts r (x ∷ xs) h (hx, s) = elim (Bool-cases (leb r.start x.start)) [
  | inl e ↦ rw e (h, (hx, s))
  | inr e ↦ rw e (hx, insert_run-Starts r xs h s)
]

sort_runs-Starts : (rs : List LbaRange) → Starts rs → Starts (sort_runs rs)
unfolding sort_runs
sort_runs-Starts [] s = tt
sort_runs-Starts (r ∷ rs) (h, s) = insert_run-Starts r (sort_runs rs) h (sort_runs-Starts rs s)

insert_run-SortedFrom :
    (lo : ℕ) (r : LbaRange) (rs : List LbaRange)
    → lo ≤ r.start
    → SortedFrom lo rs
    → SortedFrom lo (insert_run r rs)
unfolding insert_run
insert_run-SortedFrom lo r [] h s = (h, tt)
insert_run-SortedFrom lo r (x ∷ xs) h (hx, s) = elim (Bool-cases (leb r.start x.start)) [
  | inl e ↦ rw e (h, (leb→le _ _ e, s))
  | inr e ↦ rw e (hx, insert_run-SortedFrom x.start r xs (ground arith) s)
]

sort_runs-SortedFrom : (rs : List LbaRange) → SortedFrom 0 (sort_runs rs)
unfolding sort_runs
sort_runs-SortedFrom [] = tt
sort_runs-SortedFrom (r ∷ rs) =
    insert_run-SortedFrom 0 r (sort_runs rs) (omega arith) (sort_runs-SortedFrom rs)

-- The merged run holds the blocks of both.
contains-extend_run :
    (last r : LbaRange) (lba : ℕ)
    → IsU64 last.start
    → last.start ≤ r.start
    → leb r.start (end_of last) ≡ true
    → contains (extend_run last r) lba ≡ (contains last lba || contains r lba)
unfolding contains extend_run
contains-extend_run last r lba u le touch = ground arith

merge_touch :
    (last r : LbaRange) (rs : List LbaRange)
    → leb r.start (end_of last) ≡ true
    → merge_from last (r ∷ rs) ≡ merge_from (extend_run last r) rs
unfolding merge_from
merge_touch last r rs e = rw (e, merge_from)

merge_apart :
    (last r : LbaRange) (rs : List LbaRange)
    → leb r.start (end_of last) ≡ false
    → merge_from last (r ∷ rs) ≡ last ∷ merge_from r rs
unfolding merge_from
merge_apart last r rs e = rw (e, merge_from)

start-extend_run : (last r : LbaRange) → (extend_run last r).start ≡ last.start
unfolding extend_run
start-extend_run last r = refl

SortedFrom-weaken : (lo hi : ℕ) (rs : List LbaRange) → lo ≤ hi → SortedFrom hi rs → SortedFrom lo rs
SortedFrom-weaken lo hi [] h s = tt
SortedFrom-weaken lo hi (r ∷ rs) h (le, s) = (omega arith, s)

pub any-cons :
    (r : LbaRange) (rs : List LbaRange) (lba : ℕ)
    → any_contains (r ∷ rs) lba ≡ (contains r lba || any_contains rs lba)
unfolding any_contains
any-cons r rs lba = refl

or_regroup : (a b c d : Bool) → a ≡ (b || c) → (a || d) ≡ (b || (c || d))
or_regroup a b c d e = ground arith

any-merge_from :
    (last : LbaRange) (rs : List LbaRange) (lba : ℕ)
    → IsU64 last.start
    → Starts rs
    → SortedFrom last.start rs
    → any_contains (merge_from last rs) lba ≡ (contains last lba || any_contains rs lba)
any-merge_from last [] lba u s o = unfold merge_from any_contains in refl
any-merge_from last (r ∷ rs) lba u (ur, s) (le, o) = elim (Bool-cases (leb r.start (end_of last))) [
  | inl touch ↦ rw (merge_touch last r rs touch) (
      any-merge_from (extend_run last r) rs lba (rw start-extend_run u) s
        (rw start-extend_run (SortedFrom-weaken last.start r.start rs le o))
      ∙ unfold any_contains in
        or_regroup _ (contains last lba) (contains r lba) (any_contains rs lba)
          (contains-extend_run last r lba u le touch))
  | inr apart ↦ rw (merge_apart last r rs apart) (
      any-cons last (merge_from r rs) lba
      ∙ ap (λ b. contains last lba || b) (any-merge_from r rs lba ur s o ∙ sym (any-cons r rs lba)))
]

any-merge_runs :
    (rs : List LbaRange) (lba : ℕ)
    → Starts rs
    → SortedFrom 0 rs
    → any_contains (merge_runs rs) lba ≡ any_contains rs lba
any-merge_runs [] lba s o = unfold merge_runs in refl
any-merge_runs (r ∷ rs) lba (u, s) (le, o) =
    unfold merge_runs in (any-merge_from r rs lba u s o ∙ unfold any_contains in refl)

-- Coalescing keeps the set of blocks, for runs that start at 64-bit numbers.
pub any_contains-coalesce :
    (runs : List LbaRange) (lba : ℕ)
    → Starts runs
    → any_contains (coalesce runs) lba ≡ any_contains runs lba
unfolding coalesce
any_contains-coalesce runs lba s = elim (Bool-cases (ltb (length runs) 2)) [
  | inl few ↦ rw few
  | inr many ↦ rw many (
      any-merge_runs (sort_runs runs) lba (sort_runs-Starts runs s) (sort_runs-SortedFrom runs)
      ∙ any-sort_runs runs lba)
]

-- The end of a run that was extended is the larger of both ends.
end-extend_run :
    (last r : LbaRange)
    → IsU64 last.start
    → last.start ≤ r.start
    → end_of (extend_run last r) ≡ max (end_of last) (end_of r)
unfolding extend_run
end-extend_run last r u le = omega arith

merge_from-ApartFrom :
    (lo : ℕ) (last : LbaRange) (rs : List LbaRange)
    → lo < last.start
    → Starts rs
    → IsU64 last.start
    → SortedFrom last.start rs
    → ApartFrom lo (merge_from last rs)
merge_from-ApartFrom lo last [] lt s u o = unfold merge_from in (lt, tt)
merge_from-ApartFrom lo last (r ∷ rs) lt (ur, s) u (le, o) =
    elim (Bool-cases (leb r.start (end_of last))) [
      | inl touch ↦ rw (merge_touch last r rs touch) (
          merge_from-ApartFrom lo (extend_run last r) rs (rw start-extend_run lt) s
            (rw start-extend_run u)
            (rw start-extend_run (SortedFrom-weaken last.start r.start rs le o)))
      | inr apart ↦
          rw (merge_apart last r rs apart)
            (lt, merge_from-ApartFrom (end_of last) r rs (unfold end_of in ground arith) s ur o)
    ]

merge_from-Apart :
    (last : LbaRange) (rs : List LbaRange)
    → Starts rs
    → IsU64 last.start
    → SortedFrom last.start rs
    → Apart (merge_from last rs)
merge_from-Apart last [] s u o = unfold merge_from in tt
merge_from-Apart last (r ∷ rs) (ur, s) u (le, o) = elim (Bool-cases (leb r.start (end_of last))) [
  | inl touch ↦ rw (merge_touch last r rs touch) (
      merge_from-Apart (extend_run last r) rs s (rw start-extend_run u)
        (rw start-extend_run (SortedFrom-weaken last.start r.start rs le o)))
  | inr apart ↦
      rw (merge_apart last r rs apart)
        (merge_from-ApartFrom (end_of last) r rs (unfold end_of in ground arith) s ur o)
]

merge_runs-Apart : (rs : List LbaRange) → Starts rs → SortedFrom 0 rs → Apart (merge_runs rs)
unfolding merge_runs
merge_runs-Apart [] s o = tt
merge_runs-Apart (r ∷ rs) (u, s) (le, o) = merge_from-Apart r rs s u o

Apart-of_few : (rs : List LbaRange) → ltb (length rs) 2 ≡ true → Apart rs
Apart-of_few [] h = tt
Apart-of_few (r ∷ []) h = tt
Apart-of_few (r ∷ x ∷ xs) h = absurd (omega (arith, ltb→lt _ _ h))

-- Coalescing leaves the runs in order, with a gap before each but the first, for runs that start at
-- 64-bit numbers.
pub coalesce-Apart : (runs : List LbaRange) → Starts runs → Apart (coalesce runs)
unfolding coalesce
coalesce-Apart runs s = elim (Bool-cases (ltb (length runs) 2)) [
  | inl few ↦ rw few (Apart-of_few runs few)
  | inr many ↦
      rw many
        (merge_runs-Apart (sort_runs runs) (sort_runs-Starts runs s) (sort_runs-SortedFrom runs))
]

merge_from-Starts :
    (last : LbaRange) (rs : List LbaRange)
    → IsU64 last.start
    → Starts rs
    → Starts (merge_from last rs)
merge_from-Starts last [] u s = unfold merge_from in (u, tt)
merge_from-Starts last (r ∷ rs) u (ur, s) = elim (Bool-cases (leb r.start (end_of last))) [
  | inl touch ↦
      rw (merge_touch last r rs touch)
        (merge_from-Starts (extend_run last r) rs (rw start-extend_run u) s)
  | inr apart ↦ rw (merge_apart last r rs apart) (u, merge_from-Starts r rs ur s)
]

merge_runs-Starts : (rs : List LbaRange) → Starts rs → Starts (merge_runs rs)
unfolding merge_runs
merge_runs-Starts [] s = tt
merge_runs-Starts (r ∷ rs) (u, s) = merge_from-Starts r rs u s

pub coalesce-Starts : (runs : List LbaRange) → Starts runs → Starts (coalesce runs)
unfolding coalesce
coalesce-Starts runs s = elim (Bool-cases (ltb (length runs) 2)) [
  | inl few ↦ rw few s
  | inr many ↦ rw many (merge_runs-Starts (sort_runs runs) (sort_runs-Starts runs s))
]
