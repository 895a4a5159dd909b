-- ===== src/Ntfs/Record/Numbers.antt =====
-- The numbers of a data run: little-endian, of any width up to eight bytes, with or without a
-- sign.
use Prim.Native.Nat.{bit_and, bit_or}
use native.Mathlib.Nat.{
  div-add-mod', mod-lt, pow-suc, one-le-pow, div-div-eq-div-mul, mod-eq-sub-div-mul,
  div-lt_iff_lt-mul, add-mul-mod_self_right, mod-eq_of_lt,
}
use reclaim.Prelude.{
  ℕ, zero, suc, ◌+◌, ◌-◌, ◌*◌, ◌/◌, ◌%◌, ◌^◌, ◌≤◌, ◌<◌, min, ◌≡◌, refl, sym, ap, ◌∙◌, ◌⊎◌, inl, inr,
  true, false, List, arith, ltb, ◌==◌, ltb→lt, lt→ltb, Bool-cases, get_or, for_range,
}
use reclaim.Prelude.Bits.{or_shifted, and_pow, bit, bit_div}
use reclaim.Ntfs.Record.{or_byte, read_le_unsigned, read_le_signed}

-- The `size` bytes from `off` on are the low bytes of `n`, least significant first.
abbrev pub Stored : List ℕ → ℕ → ℕ → ℕ → Type 0
Stored b off size n = (i : ℕ) → i < size → get_or b (off + i) 0 ≡ n / 2 ^ (8 * i) % 256

eight_more : (i : ℕ) → 2 ^ (8 * (i + 1)) ≡ 2 ^ (8 * i) * 256
eight_more i =
    ap (λ (t : ℕ). 2 ^ t) shift
    ∙ omega (
      arith,
      pow-suc 2 k,
      pow-suc 2 (suc k),
      pow-suc 2 (suc (suc k)),
      pow-suc 2 (suc (suc (suc k))),
      pow-suc 2 (suc (suc (suc (suc k)))),
      pow-suc 2 (suc (suc (suc (suc (suc k))))),
      pow-suc 2 (suc (suc (suc (suc (suc (suc k)))))),
      pow-suc 2 (suc (suc (suc (suc (suc (suc (suc k))))))),
    )
  where
    k : ℕ
    k = 8 * i

    shift : 8 * (i + 1) ≡ suc (suc (suc (suc (suc (suc (suc (suc k)))))))
    shift = omega arith

-- The remainder by `p * 256`, from the one by `p` and one byte more.
mod_split : (n p : ℕ) → n % (p * 256) ≡ n % p + n / p % 256 * p
mod_split n p =
    let high : n / p * p ≡ (n / p / 256 * 256 + n / p % 256) * p =
      ap (λ (t : ℕ). t * p) (omega arith) in
    let top : n / (p * 256) * (p * 256) ≡ n / p / 256 * 256 * p =
      rw (sym (div-div-eq-div-mul n p 256)) (grind arith) in
    grind (arith, mod-eq-sub-div-mul n (p * 256), div-add-mod' n p, high, top)

low_bytes :
    (n i : ℕ) → n % 2 ^ (8 * (i + 1)) ≡ n % 2 ^ (8 * i) + n / 2 ^ (8 * i) % 256 * 2 ^ (8 * i)
low_bytes n i = ap (λ (t : ℕ). n % t) (eight_more i) ∙ mod_split n (2 ^ (8 * i))

module _ (b : List ℕ) (off size n : ℕ) (stored : Stored b off size n) where
  or_byte_lem : (i : ℕ) → i < size → or_byte b off i (n % 2 ^ (8 * i)) ≡ n % 2 ^ (8 * (i + 1))
  unfolding or_byte
  or_byte_lem i h = rw (stored i h) (
      or_shifted (8 * i) (n % 2 ^ (8 * i)) (n / 2 ^ (8 * i) % 256)
        (mod-lt n (one-le-pow (8 * i) 2 (omega arith)))
      ∙ sym (low_bytes n i))

  or_bytes_lem :
      (left i : ℕ)
      → i + left ≤ size
      → for_range left i (or_byte b off) (n % 2 ^ (8 * i)) ≡ n % 2 ^ (8 * (i + left))
  or_bytes_lem zero i h = ap (λ (t : ℕ). n % 2 ^ (8 * t)) (omega arith)
  or_bytes_lem (suc left) i h =
      rw (or_byte_lem i (omega arith))
        (or_bytes_lem left (i + 1) (omega arith) ∙ ap (λ (t : ℕ). n % 2 ^ (8 * t)) (omega arith))

  -- A read of up to eight bytes yields the number that they store, modulo its width.
  pub read_le_unsigned_lem : size ≤ 8 → read_le_unsigned b off size ≡ n % 2 ^ (8 * size)
  unfolding read_le_unsigned
  read_le_unsigned_lem h =
      let all : min size 8 ≡ size = omega arith in
      let none_yet : 0 ≡ n % 2 ^ (8 * 0) = omega arith in
      rw all (
        ap (for_range size 0 (or_byte b off)) none_yet
        ∙ or_bytes_lem size 0 (omega arith)
        ∙ ap (λ (t : ℕ). n % 2 ^ (8 * t)) {x = 0 + size} {y = size} (omega arith))

pow_add : (a b : ℕ) → 2 ^ (a + b) ≡ 2 ^ a * 2 ^ b
pow_add a zero = ap (λ (t : ℕ). 2 ^ t) {x = a + 0} {y = a} (omega arith) ∙ omega arith
pow_add a (suc b) =
    let shift : a + suc b ≡ suc (a + b) = omega arith in
    let step : 2 ^ a * 2 ^ suc b ≡ 2 ^ a * 2 ^ b * 2 =
      omega (arith, ap (λ (t : ℕ). 2 ^ a * t) (pow-suc 2 b)) in
    ap (λ (t : ℕ). 2 ^ t) shift ∙ omega (arith, pow-suc 2 (a + b), pow_add a b, step)

-- The top bit of a number below `2 * h`, where `h` is a power of two.
top_bit : (v k : ℕ) → v < 2 ^ k * 2 → (bit_and v (2 ^ k) == 0) ≡ ltb v (2 ^ k)
top_bit v k lt =
    let pos = one-le-pow k 2 (omega arith) in
    let two = (div-lt_iff_lt-mul {k = 2 ^ k} {x = v} {y = 2} pos).1 (omega arith) in
    let one = div-lt_iff_lt-mul {k = 2 ^ k} {x = v} {y = 1} pos in
    elim (Bool-cases (ltb v (2 ^ k))) [
      | inl low ↦
          let zero_bit : bit v k ≡ 0 =
            omega (arith, bit_div v k, one.1 (omega (arith, ltb→lt _ _ low))) in
          let none_set : bit_and v (2 ^ k) ≡ 0 =
            and_pow k v ∙ ap (λ (t : ℕ). t * 2 ^ k) zero_bit ∙ omega arith in
          rw (low, none_set) refl
      | inr high ↦
          let le : 2 ^ k ≤ v = ground arith in
          let above : 0 < v / 2 ^ k = omega (arith, le, div-le pos le) in
          let one_bit : bit v k ≡ 1 = omega (arith, bit_div v k, two, above) in
          let all_set : bit_and v (2 ^ k) ≡ 2 ^ k =
            and_pow k v ∙ ap (λ (t : ℕ). t * 2 ^ k) one_bit ∙ omega arith in
          rw (high, all_set) (ground (arith, pos))
    ]
  where
    div-le : 1 ≤ 2 ^ k → 2 ^ k ≤ v → 0 < v / 2 ^ k
    div-le p le = elim (Bool-cases (ltb 0 (v / 2 ^ k))) [
      | inl ok ↦ ltb→lt _ _ ok
      | inr no_room ↦
          let bound = (div-lt_iff_lt-mul {k = 2 ^ k} {x = v} {y = 1} p).0 (ground arith) in
          absurd (omega (arith, bound))
    ]

-- A signed number fits `size` bytes when its pattern is small, or is that of a small negative one.
abbrev pub FitsSigned : ℕ → ℕ → Type 0
FitsSigned size w = (w < 2 ^ (size * 8 - 1)) ⊎ ((2 ^ 64 ≤ w + 2 ^ (size * 8 - 1)) × (w < 2 ^ 64))

module _ (size w : ℕ) (some_bytes : 0 < size) (short : size < 8) where
  full-half : 2 ^ (8 * size) ≡ 2 ^ (size * 8 - 1) * 2
  full-half =
      let shift : 8 * size ≡ suc (size * 8 - 1) = omega arith in
      ap (λ (t : ℕ). 2 ^ t) shift ∙ pow-suc 2 (size * 8 - 1)

  word-full : 2 ^ 64 ≡ (2 ^ (64 - 8 * size) - 1) * 2 ^ (8 * size) + 2 ^ (8 * size)
  word-full =
      let sum : 64 ≡ 64 - 8 * size + 8 * size = omega arith in
      let split : 2 ^ 64 ≡ 2 ^ (64 - 8 * size) * 2 ^ (8 * size) =
        ap (λ (t : ℕ). 2 ^ t) sum ∙ pow_add (64 - 8 * size) (8 * size) in
      let pos = one-le-pow (64 - 8 * size) 2 (omega arith) in
      let more : 2 ^ (64 - 8 * size) ≡ 2 ^ (64 - 8 * size) - 1 + 1 = omega (arith, pos) in
      split ∙ ap (λ (t : ℕ). t * 2 ^ (8 * size)) more ∙ omega arith

  -- The low bytes of a negative number.
  low_negative :
      2 ^ 64 ≤ w + 2 ^ (size * 8 - 1)
      → w < 2 ^ 64
      → w % 2 ^ (8 * size) ≡ w - (2 ^ (64 - 8 * size) - 1) * 2 ^ (8 * size)
  low_negative a b =
      let high = (2 ^ (64 - 8 * size) - 1) * 2 ^ (8 * size) in
      let parts : w ≡ w - high + (2 ^ (64 - 8 * size) - 1) * 2 ^ (8 * size) =
        omega (arith, word-full, full-half) in
      ap (λ (t : ℕ). t % 2 ^ (8 * size)) parts
      ∙ add-mul-mod_self_right (w - high) (2 ^ (64 - 8 * size) - 1) (2 ^ (8 * size))
      ∙ mod-eq_of_lt (omega (arith, word-full, full-half))

in_word : (size w : ℕ) → size ≡ 8 → FitsSigned size w → w < 2 ^ (8 * 8)
in_word size w e fits =
    let half : 2 ^ (size * 8 - 1) ≡ 2 ^ (8 * 8 - 1) = ap (λ (t : ℕ). 2 ^ (t * 8 - 1)) e in
    elim fits [ inl small ↦ omega (arith, half) | inr (a, c) ↦ c ]

-- A signed number that fits one to eight bytes is read back from the bytes that store it, sign-
-- extended to 64 bits.
pub read_le_signed_lem :
    (b : List ℕ) (off size w : ℕ)
    → 0 < size
    → size ≤ 8
    → Stored b off size w
    → FitsSigned size w
    → read_le_signed b off size ≡ w
unfolding read_le_signed
read_le_signed_lem b off size w some_bytes le stored fits =
    let unsigned = read_le_unsigned_lem b off size w stored le in
    elim (Bool-cases (ltb size 8)) [
      | inr wide ↦
          let eight : size ≡ 8 = ground arith in
          let whole : w % 2 ^ (8 * size) ≡ w =
            ap (λ (t : ℕ). w % 2 ^ (8 * t)) eight ∙ mod-eq_of_lt (in_word size w eight fits) in
          ground (arith, unsigned, whole)
      | inl short ↦
          let lt : size < 8 = ltb→lt size 8 short in
          let half = full-half size w some_bytes lt in
          let pos = one-le-pow (size * 8 - 1) 2 (omega arith) in
          elim fits [
            | inl small ↦
                let same : w % 2 ^ (8 * size) ≡ w = mod-eq_of_lt (omega (arith, half)) in
                let clear : (bit_and w (2 ^ (size * 8 - 1)) == 0) ≡ true =
                  top_bit w (size * 8 - 1) (omega arith) ∙ lt→ltb _ _ small in
                rw (unsigned, same, clear) (ground arith)
            | inr (a, c) ↦
                let high = (2 ^ (64 - 8 * size) - 1) * 2 ^ (8 * size) in
                let low : w % 2 ^ (8 * size) ≡ w - high = low_negative size w some_bytes lt a c in
                let word = word-full size w some_bytes lt in
                let set : (bit_and (w - high) (2 ^ (size * 8 - 1)) == 0) ≡ false =
                  top_bit (w - high) (size * 8 - 1) (omega (arith, word, half))
                  ∙ ground (arith, word, half) in
                let comm : 2 ^ (size * 8) ≡ 2 ^ (8 * size) =
                  ap (λ (t : ℕ). 2 ^ t) {x = size * 8} {y = 8 * size} (omega arith) in
                let ones : 2 ^ 64 - 2 ^ (size * 8) ≡ high = omega (arith, word, comm) in
                let joined : bit_or (w - high) high ≡ w =
                  or_shifted (8 * size) (w - high) (2 ^ (64 - 8 * size) - 1)
                    (omega (arith, word, half))
                  ∙ omega (arith, word, half) in
                rw (unsigned, low, set, ones, joined) (ground arith)
          ]
    ]
