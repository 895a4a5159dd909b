-- ===== src/Block/Source/Laws.antt =====
-- What a caller sees of a read's outcome after marks, singly and in loops.
use reclaim.Prelude.{
  ℕ, zero, suc, ◌+◌, ◌≡◌, refl, sym, ◌∙◌, ◌≢◌, ◌↔◌, inl, inr, Bool, true, false, ◌&&◌, arith, ltb,
  leb, if◌then◌else◌, Bool-cases, for_range, filter_range,
}
use reclaim.Block.Bitset
use reclaim.Block.Bitset.{Bitset, get, any}
use reclaim.Block.Bitset.Laws.{
  IsValid, set-IsValid, new-IsValid, bits-new, get-new, set_where, set_where-IsValid, get-set_where,
  bits-set, bits-set_where,
}
use reclaim.Block.Bitset.Count.{any-find, get-any}
use reclaim.Block.Source.{
  SectorStatus, ReadResult, all_good_result, mark_bad, mark_unread, status, all_good, mark_bad_each,
  mark_unread_each,
}

-- Both bitmaps are valid and have a bit for each sector.
pub record IsResult (r : ReadResult) : Type 0 where
  pub bad_valid : IsValid r.bad
  pub unread_valid : IsValid r.unread
  pub bad_size : r.bad.bits ≡ r.sector_count
  pub unread_size : r.unread.bits ≡ r.sector_count

pub all_good_result-IsResult : (ss n : ℕ) → IsResult (all_good_result ss n)
unfolding all_good_result
all_good_result-IsResult ss n = record {
  bad_valid = new-IsValid n;
  unread_valid = new-IsValid n;
  bad_size = bits-new n;
  unread_size = bits-new n;
}

pub status-all_good_result : (ss n i : ℕ) → status (all_good_result ss n) i ≡ SectorStatus.good
unfolding status all_good_result
status-all_good_result ss n i = rw (get-new n i)

pub sector_count-all_good_result : (ss n : ℕ) → (all_good_result ss n).sector_count ≡ n
unfolding all_good_result
sector_count-all_good_result ss n = refl

pub mark_bad-IsResult : (r : ReadResult) (i : ℕ) → IsResult r → IsResult (mark_bad r i)
unfolding mark_bad
mark_bad-IsResult r i v = record {
  bad_valid = set-IsValid r.bad i v.bad_valid;
  unread_valid = v.unread_valid;
  bad_size = bits-set r.bad i ∙ v.bad_size;
  unread_size = v.unread_size;
}

-- The sectors of a range that pass a test, marked bad.
unfoldable pub mark_bad_where : ℕ → ℕ → (ℕ → Bool) → ReadResult → ReadResult
mark_bad_where n start p r = record r { bad = set_where n start p r.bad }

pub mark_bad_where-IsResult :
    (n start : ℕ) (p : ℕ → Bool) (r : ReadResult)
    → IsResult r
    → IsResult (mark_bad_where n start p r)
unfolding mark_bad_where
mark_bad_where-IsResult n start p r v = record {
  bad_valid = set_where-IsValid n start p r.bad v.bad_valid;
  unread_valid = v.unread_valid;
  bad_size = bits-set_where n start p r.bad ∙ v.bad_size;
  unread_size = v.unread_size;
}

pub sector_count-mark_bad_where :
    (n start : ℕ) (p : ℕ → Bool) (r : ReadResult)
    → (mark_bad_where n start p r).sector_count ≡ r.sector_count
unfolding mark_bad_where
sector_count-mark_bad_where n start p r = refl

pub mark_bad_where-suc :
    (n start : ℕ) (p : ℕ → Bool) (r : ReadResult)
    → mark_bad_where (suc n) start p r
      ≡ mark_bad_where n (start + 1) p (if p start then mark_bad r start else r)
unfolding mark_bad_where mark_bad set_where
mark_bad_where-suc n start p r = elim (Bool-cases (p start)) [
  | inl hit ↦ rw hit
  | inr miss ↦ rw miss
]

pub status-mark_bad_where :
    (n start : ℕ) (p : ℕ → Bool) (r : ReadResult) (j : ℕ)
    → IsResult r
    → status (mark_bad_where n start p r) j ≡ (
        if leb start j && (ltb j (start + n) && (p j && ltb j r.sector_count))
        then SectorStatus.bad
        else status r j)
unfolding status mark_bad_where
status-mark_bad_where n start p r j v =
    rw (get-set_where n start p r.bad j v.bad_valid, v.bad_size) (ground arith)

-- A loop that marks the sectors passing a test is `mark_bad_where`.
pub for_range-mark_bad :
    (n start : ℕ) (p : ℕ → Bool) (r : ReadResult)
    → for_range n start (λ i r'. if p i then mark_bad r' i else r') r ≡ mark_bad_where n start p r
unfolding mark_bad_where set_where mark_bad
for_range-mark_bad zero start p r = refl
for_range-mark_bad (suc n) start p r = elim (Bool-cases (p start)) [
  | inl hit ↦ rw hit (for_range-mark_bad n (start + 1) p (mark_bad r start))
  | inr miss ↦ rw miss (for_range-mark_bad n (start + 1) p r)
]

pub for_range-mark_all :
    (n start : ℕ) (r : ReadResult)
    → for_range n start (λ i r'. mark_bad r' i) r ≡ mark_bad_where n start (λ i. true) r
for_range-mark_all n start r = for_range-mark_bad n start (λ i. true) r

pub mark_bad_each-filter_range :
    (n start : ℕ) (p : ℕ → Bool) (r : ReadResult)
    → mark_bad_each (filter_range n start p) r ≡ mark_bad_where n start p r
unfolding mark_bad_where set_where mark_bad_each mark_bad
mark_bad_each-filter_range zero start p r = refl
mark_bad_each-filter_range (suc n) start p r = elim (Bool-cases (p start)) [
  | inl hit ↦ rw hit (mark_bad_each-filter_range n (start + 1) p (mark_bad r start))
  | inr miss ↦ rw miss (mark_bad_each-filter_range n (start + 1) p r)
]

unfoldable pub mark_unread_where : ℕ → ℕ → (ℕ → Bool) → ReadResult → ReadResult
mark_unread_where n start p r = record r { unread = set_where n start p r.unread }

pub mark_unread_where-IsResult :
    (n start : ℕ) (p : ℕ → Bool) (r : ReadResult)
    → IsResult r
    → IsResult (mark_unread_where n start p r)
unfolding mark_unread_where
mark_unread_where-IsResult n start p r v = record {
  bad_valid = v.bad_valid;
  unread_valid = set_where-IsValid n start p r.unread v.unread_valid;
  bad_size = v.bad_size;
  unread_size = bits-set_where n start p r.unread ∙ v.unread_size;
}

-- A sector that is bad already stays bad.
pub status-mark_unread_where :
    (n start : ℕ) (p : ℕ → Bool) (r : ReadResult) (j : ℕ)
    → IsResult r
    → status (mark_unread_where n start p r) j ≡ (
        if Bitset.get r.bad j
        then SectorStatus.bad
        else if leb start j && (ltb j (start + n) && (p j && ltb j r.sector_count))
        then SectorStatus.unread
        else status r j)
unfolding status mark_unread_where
status-mark_unread_where n start p r j v =
    rw (get-set_where n start p r.unread j v.unread_valid, v.unread_size) (ground arith)

pub mark_unread_each-filter_range :
    (n start : ℕ) (p : ℕ → Bool) (r : ReadResult)
    → mark_unread_each (filter_range n start p) r ≡ mark_unread_where n start p r
unfolding mark_unread_where set_where mark_unread_each mark_unread
mark_unread_each-filter_range zero start p r = refl
mark_unread_each-filter_range (suc n) start p r = elim (Bool-cases (p start)) [
  | inl hit ↦ rw hit (mark_unread_each-filter_range n (start + 1) p (mark_unread r start))
  | inr miss ↦ rw miss (mark_unread_each-filter_range n (start + 1) p r)
]

is_bad : (r : ReadResult) (i : ℕ) → Bitset.get r.bad i ≡ true → status r i ≢ SectorStatus.good
unfolding status
is_bad r i hit h = ground arith

is_unread : (r : ReadResult) (i : ℕ) → Bitset.get r.unread i ≡ true → status r i ≢ SectorStatus.good
unfolding status
is_unread r i hit h = ground arith

-- `all_good` says that each sector is good.
pub all_good_iff :
    (r : ReadResult) → IsResult r → (all_good r ≡ true) ↔ ((i : ℕ) → status r i ≡ SectorStatus.good)
unfolding all_good
all_good_iff r v = (sound, complete)
  where
    sound : all_good r ≡ true → (i : ℕ) → status r i ≡ SectorStatus.good
    sound h i =
        unfold status in
        rw (
          get-any r.bad i v.bad_valid (ground arith),
          get-any r.unread i v.unread_valid (ground arith),
        )

    no_bad : ((i : ℕ) → status r i ≡ SectorStatus.good) → Bitset.any r.bad ≡ false
    no_bad h = elim (Bool-cases (Bitset.any r.bad)) [
      | inr e ↦ e
      | inl e ↦ let (i, hit) = any-find r.bad v.bad_valid e in absurd (is_bad r i hit (h i))
    ]

    no_unread : ((i : ℕ) → status r i ≡ SectorStatus.good) → Bitset.any r.unread ≡ false
    no_unread h = elim (Bool-cases (Bitset.any r.unread)) [
      | inr e ↦ e
      | inl e ↦
          let (i, hit) = any-find r.unread v.unread_valid e in absurd (is_unread r i hit (h i))
    ]

    complete : ((i : ℕ) → status r i ≡ SectorStatus.good) → all_good r ≡ true
    complete h = rw (no_bad h, no_unread h)

-- The sectors that are listed as bad are those whose status is bad.
pub get-bad_status :
    (r : ReadResult) (i : ℕ) → (Bitset.get r.bad i ≡ true) ↔ (status r i ≡ SectorStatus.bad)
unfolding status
get-bad_status r i = ground arith

-- A loop over a larger state whose rounds mark the sectors that pass a test.
pub for_range-marks :
    {S : Type 0} (outcome : S → ReadResult) (body : ℕ → S → S) (p : ℕ → Bool)
    → ((i : ℕ) (s : S) → outcome (body i s) ≡ (if p i then mark_bad (outcome s) i else outcome s))
    → (n start : ℕ) (s : S)
    → outcome (for_range n start body s) ≡ mark_bad_where n start p (outcome s)
for_range-marks outcome body p h zero start s = unfold mark_bad_where set_where in refl
for_range-marks outcome body p h (suc n) start s =
    for_range-marks outcome body p h n (start + 1) (body start s)
    ∙ rw (h start s) (sym (mark_bad_where-suc n start p (outcome s)))
