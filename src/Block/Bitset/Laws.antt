-- ===== src/Block/Bitset/Laws.antt =====
-- `get` after `new` and `set` of bitset.rs, and the representation invariant.
use reclaim.Prelude.{
  ℕ, zero, suc, ◌+◌, ◌/◌, ◌%◌, ◌≤◌, ◌<◌, ◌≡◌, refl, ap, ◌∙◌, inl, inr, Bool, true, false, not, ◌&&◌,
  some, List, [], ◌∷◌, arith, ltb, leb, ◌==◌, if◌then◌else◌, Bool-cases, length, get_elem?, get_or,
  length-replicate, div_ceil, for_range, get_or-replicate, filter_range,
}
use reclaim.Prelude.Bits.{bit, bit-zero, bit-or_pow, test_bit}
use reclaim.Block.Bitset.{Bitset, new, set, get, or_word, iter_set}

-- The bit at `i` wherever it stands, also past `bits`.
abbrev pub raw : Bitset → ℕ → ℕ
raw b i = bit (get_or b.words (i / 64) 0) (i % 64)

-- There are words for all bits, each word has 64 bits, and no bit is set past the end.
pub record IsValid (b : Bitset) : Type 0 where
  pub room : length b.words ≡ div_ceil b.bits 64
  pub wide : (j k : ℕ) → 64 ≤ k → bit (get_or b.words j 0) k ≡ 0
  pub clear : (i : ℕ) → b.bits ≤ i → raw b i ≡ 0

get_elem?-get_or : (ws : List ℕ) (i : ℕ) → i < length ws → get_elem? ws i ≡ some (get_or ws i 0)
get_elem?-get_or [] i h = absurd (omega arith)
get_elem?-get_or (w ∷ ws) zero h = refl
get_elem?-get_or (w ∷ ws) (suc i) h = get_elem?-get_or ws i (omega arith)

pub length-or_word : (ws : List ℕ) (i k : ℕ) → length (or_word ws i k) ≡ length ws
unfolding or_word
length-or_word [] i k = refl
length-or_word (w ∷ ws) zero k = refl
length-or_word (w ∷ ws) (suc i) k = ap suc (length-or_word ws i k)

bit-or_word :
    (ws : List ℕ) (i k j m : ℕ)
    → i < length ws
    → bit (get_or (or_word ws i k) j 0) m
      ≡ (if j == i then (if m == k then 1 else bit (get_or ws j 0) m) else bit (get_or ws j 0) m)
unfolding or_word
bit-or_word [] i k j m h = absurd (omega arith)
bit-or_word (w ∷ ws) zero k zero m h = bit-or_pow k m w
bit-or_word (w ∷ ws) zero k (suc j) m h = ground arith
bit-or_word (w ∷ ws) (suc i) k zero m h = ground arith
bit-or_word (w ∷ ws) (suc i) k (suc j) m h = ground (arith, bit-or_word ws i k j m)

word_in_range :
    (b : Bitset) (i : ℕ)
    → length b.words ≡ div_ceil b.bits 64
    → i < b.bits
    → i / 64 < length b.words
word_in_range b i e h = ground arith

pub get-raw : (b : Bitset) (i : ℕ) → IsValid b → get b i ≡ not (raw b i == 0)
unfolding get
get-raw b i v = elim (Bool-cases (leb b.bits i)) [
  | inl out ↦ rw (out, v.clear i (ground arith))
  | inr within ↦ rw (
    within,
    get_elem?-get_or b.words (i / 64) (word_in_range b i v.room (ground arith)),
    test_bit,
  )
]

pub bits-set : (b : Bitset) (i : ℕ) → (set b i).bits ≡ b.bits
unfolding set
bits-set b i = ground arith

raw-set :
    (b : Bitset) (i j : ℕ)
    → IsValid b
    → raw (set b i) j ≡ (if j == i && ltb i b.bits then 1 else raw b j)
unfolding set
raw-set b i j v = elim (Bool-cases (leb b.bits i)) [
  | inl out ↦ rw out (ground arith)
  | inr within ↦
      rw
        (
          within,
          bit-or_word b.words (i / 64) (i % 64) (j / 64) (j % 64)
              (word_in_range b i v.room (ground arith)),
        )
        (same_bit i j b.bits (raw b j) (ground arith))
]
  where
    same_bit :
        (i j n x : ℕ)
        → i < n
        → (if j / 64 == i / 64 then (if j % 64 == i % 64 then 1 else x) else x)
          ≡ (if j == i && ltb i n then 1 else x)
    same_bit i j n x h = ground arith

pub set-IsValid : (b : Bitset) (i : ℕ) → IsValid b → IsValid (set b i)
set-IsValid b i v = record {
  room =
      unfold set in
      elim (Bool-cases (leb b.bits i)) [
        | inl out ↦ rw out v.room
        | inr within ↦ rw within (length-or_word b.words (i / 64) (i % 64) ∙ v.room)
      ];
  wide = λ j k h.
      unfold set in
      elim (Bool-cases (leb b.bits i)) [
        | inl out ↦ rw out (v.wide j k h)
        | inr within ↦
            rw
              (
                within,
                bit-or_word b.words (i / 64) (i % 64) j k (word_in_range b i v.room (ground arith)),
              )
              (ground (arith, v.wide j k h))
      ];
  clear = λ j h. rw (raw-set b i j v) (ground (arith, v.clear j, bits-set b i));
}

-- After a bit is set in a valid bitset, it reads as set if it is in range, and every other bit
-- reads as before.
pub get-set :
    (b : Bitset) (i j : ℕ)
    → IsValid b
    → get (set b i) j ≡ (if j == i && ltb i b.bits then true else get b j)
get-set b i j v =
    rw (get-raw (set b i) j (set-IsValid b i v), raw-set b i j v, get-raw b j v) (ground arith)

pub new-IsValid : (n : ℕ) → IsValid (new n)
unfolding new
new-IsValid n = record {
  room = length-replicate (div_ceil n 64) 0;
  wide = λ j k h. rw (get_or-replicate {A = ℕ} (div_ceil n 64) j 0) (bit-zero k);
  clear = λ i h. rw (get_or-replicate {A = ℕ} (div_ceil n 64) (i / 64) 0) (bit-zero (i % 64));
}

pub get-new : (n i : ℕ) → get (new n) i ≡ false
get-new n i =
    rw (get-raw (new n) i (new-IsValid n))
      (unfold new in rw (get_or-replicate {A = ℕ} (div_ceil n 64) (i / 64) 0, bit-zero))

-- No index past the end is a member.
pub get-lt : (b : Bitset) (i : ℕ) → get b i ≡ true → i < b.bits
unfolding get
get-lt b i h = ground arith

-- The loop `for i in start..start + n { if p(i) { b.set(i) } }`.
unfoldable pub set_where : ℕ → ℕ → (ℕ → Bool) → Bitset → Bitset
set_where n start p b = for_range n start (λ i b'. if p i then set b' i else b') b

set_if-IsValid : (t : Bool) (b : Bitset) (i : ℕ) → IsValid b → IsValid (if t then set b i else b)
set_if-IsValid true b i v = set-IsValid b i v
set_if-IsValid false b i v = v

pub set_where-IsValid :
    (n start : ℕ) (p : ℕ → Bool) (b : Bitset) → IsValid b → IsValid (set_where n start p b)
unfolding set_where
set_where-IsValid zero start p b v = v
set_where-IsValid (suc n) start p b v =
    set_where-IsValid n (start + 1) p (if p start then set b start else b)
      (set_if-IsValid (p start) b start v)

pub bits-set_where :
    (n start : ℕ) (p : ℕ → Bool) (b : Bitset) → (set_where n start p b).bits ≡ b.bits
unfolding set_where
bits-set_where zero start p b = refl
bits-set_where (suc n) start p b =
    bits-set_where n (start + 1) p (if p start then set b start else b)
    ∙ ground (arith, bits-set b start)

-- After the loop exactly the indices of the range that pass the test are added.
pub get-set_where :
    (n start : ℕ) (p : ℕ → Bool) (b : Bitset) (j : ℕ)
    → IsValid b
    → get (set_where n start p b) j
      ≡ (if leb start j && (ltb j (start + n) && (p j && ltb j b.bits)) then true else get b j)
unfolding set_where
get-set_where zero start p b j v = ground arith
get-set_where (suc n) start p b j v =
    rw
      (get-set_where n (start + 1) p (if p start then set b start else b) j
        (set_if-IsValid (p start) b start v))
      (ground (arith, get-set b start j v, bits-set b start))

pub bits-new : (n : ℕ) → (new n).bits ≡ n
unfolding new
bits-new n = refl

pub iter_set_lem : (b : Bitset) → iter_set b ≡ filter_range b.bits 0 (get b)
unfolding iter_set
iter_set_lem b = refl
