-- ===== src/Block/Bitset/Count.antt =====
-- `any`, `count_ones` and `iter_set` of bitset.rs against the members that `get` tells.
use reclaim.Prelude.{
  ℕ, zero, suc, ◌+◌, ◌-◌, ◌*◌, ◌/◌, ◌%◌, ◌≤◌, ◌<◌, ◌≡◌, refl, sym, ap, ◌≢◌, inl, inr, Bool, true,
  false, List, [], ◌∷◌, arith, ◌==◌, if◌then◌else◌, Bool-cases, length, get_or, filter_range,
}
use reclaim.Prelude.Bits.{bit-zero, bit, bit-le-one}
use reclaim.Block.Bitset.{Bitset, get, any, any_word, popcount, count_words, count_ones, iter_set}
use reclaim.Block.Bitset.Laws.{IsValid, raw, get-raw}

-- The sum of `f 0`, …, `f (n - 1)`.
tally : (ℕ → ℕ) → ℕ → ℕ
tally f zero = 0
tally f (suc n) = f 0 + tally (λ i. f (suc i)) n

tally-ext : (f g : ℕ → ℕ) (n : ℕ) → ((i : ℕ) → i < n → f i ≡ g i) → tally f n ≡ tally g n
unfolding tally
tally-ext f g zero h = refl
tally-ext f g (suc n) h = omega (
  arith,
  h 0 (omega arith),
  tally-ext (λ i. f (suc i)) (λ i. g (suc i)) n (λ i a. h (suc i) (omega arith)),
)

tally-zero : (f : ℕ → ℕ) (n : ℕ) → ((i : ℕ) → f i ≡ 0) → tally f n ≡ 0
unfolding tally
tally-zero f zero h = refl
tally-zero f (suc n) h = omega (arith, h 0, tally-zero (λ i. f (suc i)) n (λ i. h (suc i)))

tally-add : (f : ℕ → ℕ) (n m : ℕ) → tally f (n + m) ≡ tally f n + tally (λ i. f (n + i)) m
unfolding tally
tally-add f zero m =
    let e : 0 + m ≡ m = omega arith in
    rw e (omega (arith, tally-ext f (λ i. f (0 + i)) m (λ i h. ap f (omega arith))))
tally-add f (suc n) m =
    let e : suc n + m ≡ suc (n + m) = omega arith in
    rw e (
      omega (
        arith,
        tally-add (λ i. f (suc i)) n m,
        tally-ext (λ i. f (suc (n + i))) (λ i. f (suc n + i)) m (λ i h. ap f (omega arith)),
      ))

length-filter_range :
    (n start : ℕ) (p : ℕ → Bool)
    → length (filter_range n start p) ≡ tally (λ i. if p (start + i) then 1 else 0) n
unfolding tally
length-filter_range zero start p = refl
length-filter_range (suc n) start p =
    let here : start + 0 ≡ start = omega arith in
    rw here (
      ground (
        arith,
        length-filter_range n (start + 1) p,
        tally-ext (λ i. if p (start + 1 + i) then 1 else 0)
            (λ i. if p (start + suc i) then 1 else 0) n
            (λ i h. ap (λ (t : ℕ). if p t then 1 else 0) (omega arith)),
      ))

popcount-tally : (n w : ℕ) → popcount n w ≡ tally (bit w) n
unfolding popcount tally
popcount-tally zero w = refl
popcount-tally (suc n) w = omega (arith, popcount-tally n (w / 2))

abbrev raw_word : List ℕ → ℕ → ℕ
raw_word ws i = bit (get_or ws (i / 64) 0) (i % 64)

raw_word_head : (w : ℕ) (ws : List ℕ) (i : ℕ) → i < 64 → raw_word (w ∷ ws) i ≡ bit w i
raw_word_head w ws i h =
    let q : i / 64 ≡ 0 = omega arith in let r : i % 64 ≡ i = omega arith in rw (q, r)

raw_word_tail : (w : ℕ) (ws : List ℕ) (i : ℕ) → raw_word (w ∷ ws) (64 + i) ≡ raw_word ws i
raw_word_tail w ws i =
    let q : (64 + i) / 64 ≡ suc (i / 64) = omega arith in
    let r : (64 + i) % 64 ≡ i % 64 = omega arith in rw (q, r)

tally-split :
    (f g h : ℕ → ℕ) (n m : ℕ)
    → ((i : ℕ) → i < n → f i ≡ g i)
    → ((i : ℕ) → f (n + i) ≡ h i)
    → tally f (n + m) ≡ tally g n + tally h m
tally-split f g h n m low high =
    omega
      (arith, tally-add f n m, tally-ext f g n low, tally-ext (λ i. f (n + i)) h m (λ i a. high i))

count_words-tally : (ws : List ℕ) → count_words ws ≡ tally (raw_word ws) (64 * length ws)
unfolding count_words
count_words-tally [] = unfold tally in refl
count_words-tally (w ∷ ws) =
    let e : 64 * length (w ∷ ws) ≡ 64 + 64 * length ws = omega arith in
    rw (e, popcount-tally 64 w, count_words-tally ws)
      (sym (
        tally-split (raw_word (w ∷ ws)) (bit w) (raw_word ws) 64 (64 * length ws)
          (raw_word_head w ws) (raw_word_tail w ws)))

-- The count of set bits, word by word, is the number of bits that the iterator yields, for a bitset
-- without stray bits.
pub count_ones-length-iter_set : (b : Bitset) → IsValid b → count_ones b ≡ length (iter_set b)
unfolding count_ones iter_set
count_ones-length-iter_set b v = omega (
  arith,
  count_words-tally b.words,
  ap (λ (t : ℕ). tally (raw_word b.words) t) whole,
  tally-add (raw b) b.bits spare,
  tally-zero (λ i. raw b (b.bits + i)) spare (λ i. v.clear (b.bits + i) (omega arith)),
  length-filter_range b.bits 0 (get b),
  tally-ext (raw b) (λ i. if get b (0 + i) then 1 else 0) b.bits member,
)
  where
    spare : ℕ
    spare = 64 * length b.words - b.bits

    whole : 64 * length b.words ≡ b.bits + spare
    whole = rw v.room (ground arith)

    member : (i : ℕ) → i < b.bits → raw b i ≡ (if get b (0 + i) then 1 else 0)
    member i h =
        let e : 0 + i ≡ i = omega arith in
        rw (e, get-raw b i v) (ground (arith, bit-le-one (get_or b.words (i / 64) 0) (i % 64)))

find_bit : (n w : ℕ) → w ≤ n → w ≢ 0 → (k : ℕ) × (bit w k ≡ 1)
find_bit zero w h ne = absurd (omega arith)
find_bit (suc n) w h ne = elim (Bool-cases (w % 2 == 1)) [
  | inl odd ↦ (0, ground arith)
  | inr even ↦ let (k, e) = find_bit n (w / 2) (ground arith) (ground arith) in (suc k, e)
]

any_word-find : (ws : List ℕ) → any_word ws ≡ true → (j : ℕ) × (j < length ws) × (get_or ws j 0 ≢ 0)
unfolding any_word
any_word-find [] h = cc
any_word-find (w ∷ ws) h = elim (Bool-cases (w == 0)) [
  | inl z ↦ let (j, lt, ne) = any_word-find ws (ground arith) in (suc j, omega arith, ne)
  | inr nz ↦ (0, omega arith, ground arith)
]

any_word-zero : (ws : List ℕ) (j : ℕ) → any_word ws ≡ false → get_or ws j 0 ≡ 0
unfolding any_word
any_word-zero [] j h = refl
any_word-zero (w ∷ ws) zero h = ground arith
any_word-zero (w ∷ ws) (suc j) h = any_word-zero ws j (ground arith)

-- `any` finds a member if there is one.
pub any-find : (b : Bitset) → IsValid b → any b ≡ true → (i : ℕ) × (get b i ≡ true)
unfolding any
any-find b v h =
    let (j, lt, ne) = any_word-find b.words h in
    let (k, e) = find_bit (get_or b.words j 0) (get_or b.words j 0) (omega arith) ne in
    let small : k < 64 = ground (arith, v.wide j k) in
    let q : (64 * j + k) / 64 ≡ j = omega arith in
    let r : (64 * j + k) % 64 ≡ k = omega arith in
    (64 * j + k, rw (get-raw b (64 * j + k) v, q, r, e))

pub get-any : (b : Bitset) (i : ℕ) → IsValid b → any b ≡ false → get b i ≡ false
unfolding any
get-any b i v h = rw (get-raw b i v, any_word-zero b.words (i / 64) h, bit-zero)
