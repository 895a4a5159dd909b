-- ===== src/Prelude/Bits.antt =====
-- Single bits of a machine word under `&` and `|`, as arithmetic.
use Prim.Native.Nat.{bit_and, bit_or, digits, bitwise, bit_and-bitwise, bit_or-bitwise}
use Prim.Native.Nat.{ℕ, zero, suc, ◌+◌, ◌*◌, ◌/◌, ◌%◌, ◌^◌, ◌≤◌, ◌<◌, min, max}
use native.Mathlib.Nat.{pow-suc, le_refl, one-le-pow, div-div-eq-div-mul}
use native.Mathlib.Omega.{arith}
use mathlib.Core.Path.{◌≡◌, refl, ap, ◌∙◌}
use reclaim.Prelude.Tests.{◌==◌, if◌then◌else◌}

-- Two counts of digits that both reach the end of the first number give one result.
module _ (rest : ℕ → ℕ) (op : ℕ → ℕ → ℕ) where
  digits-enough :
      (fuel more x y : ℕ) → x ≤ fuel → x ≤ more → digits rest op fuel x y ≡ digits rest op more x y
  digits-enough zero zero x y h k = refl
  digits-enough (suc fuel) zero zero y h k = refl
  digits-enough zero (suc more) zero y h k = refl
  digits-enough (suc fuel) (suc more) zero y h k = refl
  digits-enough zero (suc more) (suc x) y h k = absurd (omega arith)
  digits-enough (suc fuel) zero (suc x) y h k = absurd (omega arith)
  digits-enough (suc fuel) (suc more) (suc x) y h k =
      ap (λ (t : ℕ). t * 2 + op (suc x % 2) (y % 2))
        (digits-enough fuel more (suc x / 2) (y / 2) (omega arith) (omega arith))

  bitwise_step :
      (x y : ℕ)
      → bitwise rest op (suc x) y ≡ bitwise rest op (suc x / 2) (y / 2) * 2 + op (suc x % 2) (y % 2)
  bitwise_step x y =
      omega (arith, digits-enough x (suc x / 2) (suc x / 2) (y / 2) (omega arith) (le_refl _))

-- The lowest digit of `&` and of `|`.
and_low : (x y : ℕ) → bit_and x y ≡ bit_and (x / 2) (y / 2) * 2 + min (x % 2) (y % 2)
and_low zero y = simp bit_and-bitwise (omega arith)
and_low (suc x) y = simp bit_and-bitwise (bitwise_step (λ t. 0) min x y)

or_low : (x y : ℕ) → bit_or x y ≡ bit_or (x / 2) (y / 2) * 2 + max (x % 2) (y % 2)
or_low zero y = simp bit_or-bitwise (omega arith)
or_low (suc x) y = simp bit_or-bitwise (bitwise_step (λ t. t) max x y)

-- The bit at position `k`, 0 or 1.
abbrev pub bit : ℕ → ℕ → ℕ
bit w zero = w % 2
bit w (suc k) = bit (w / 2) k

pub bit-le-one : (w k : ℕ) → bit w k ≤ 1
bit-le-one w zero = omega arith
bit-le-one w (suc k) = bit-le-one (w / 2) k

pub bit-zero : (k : ℕ) → bit 0 k ≡ 0
bit-zero zero = refl
bit-zero (suc k) = bit-zero k

and-zero_fuel : (n x : ℕ) → x ≤ n → bit_and x 0 ≡ 0
and-zero_fuel n zero h = refl
and-zero_fuel zero (suc x) h = absurd (omega arith)
and-zero_fuel (suc n) (suc x) h =
    omega (arith, and_low (suc x) 0, and-zero_fuel n (suc x / 2) (omega arith))

or-zero_fuel : (n x : ℕ) → x ≤ n → bit_or x 0 ≡ x
or-zero_fuel n zero h = refl
or-zero_fuel zero (suc x) h = absurd (omega arith)
or-zero_fuel (suc n) (suc x) h =
    omega (arith, or_low (suc x) 0, or-zero_fuel n (suc x / 2) (omega arith))

half_pow : (k : ℕ) → 2 ^ suc k / 2 ≡ 2 ^ k
half_pow k = omega (arith, pow-suc 2 k)

and_low_pow : (k w : ℕ) → bit_and w (2 ^ suc k) ≡ bit_and (w / 2) (2 ^ k) * 2
and_low_pow k w =
    omega
      (arith, and_low w (2 ^ suc k), pow-suc 2 k, ap (λ (t : ℕ). bit_and (w / 2) t) (half_pow k))

or_half_pow : (k w : ℕ) → bit_or w (2 ^ suc k) / 2 ≡ bit_or (w / 2) (2 ^ k)
or_half_pow k w =
    omega (arith, or_low w (2 ^ suc k), pow-suc 2 k, ap (λ (t : ℕ). bit_or (w / 2) t) (half_pow k))

or_half_one : (w : ℕ) → bit_or w 1 / 2 ≡ w / 2
or_half_one w = omega (arith, or_low w 1, or-zero_fuel (w / 2) (w / 2) (le_refl _))

-- `word & (1 << k)` is the bit at `k`, in its place.
pub and_pow : (k w : ℕ) → bit_and w (2 ^ k) ≡ bit w k * 2 ^ k
and_pow zero w = omega (arith, and_low w 1, and-zero_fuel (w / 2) (w / 2) (le_refl _))
and_pow (suc k) w =
    omega
      (arith, and_low_pow k w, and_pow k (w / 2), ap (λ (t : ℕ). bit (w / 2) k * t) (pow-suc 2 k))

-- `word | (1 << k)` has that bit set and the others as before.
pub bit-or_pow : (k j w : ℕ) → bit (bit_or w (2 ^ k)) j ≡ (if j == k then 1 else bit w j)
bit-or_pow zero zero w = omega (arith, or_low w 1)
bit-or_pow zero (suc j) w = rw or_half_one (ground arith)
bit-or_pow (suc k) zero w = ground (arith, or_low w (2 ^ suc k), pow-suc 2 k)
bit-or_pow (suc k) (suc j) w = rw or_half_pow (ground (arith, bit-or_pow k j (w / 2)))

pub test_bit : (k w : ℕ) → (bit_and w (2 ^ k) == 0) ≡ (bit w k == 0)
test_bit k w = ground (arith, and_pow k w, one-le-pow k 2, bit-le-one w k)

or_zero_left : (x : ℕ) → bit_or 0 x ≡ x
or_zero_left x = simp bit_or-bitwise refl

-- `|` of a number below `2 ^ k` and one whose low `k` bits are clear is their sum.
pub or_shifted : (k v b : ℕ) → v < 2 ^ k → bit_or v (b * 2 ^ k) ≡ v + b * 2 ^ k
or_shifted zero v b h =
    let none_low : v ≡ 0 = omega arith in
    omega (arith, or_zero_left (b * 1), ap (λ (t : ℕ). bit_or t (b * 1)) none_low)
or_shifted (suc k) v b h =
    let double : b * 2 ^ suc k ≡ b * 2 ^ k * 2 =
      omega (arith, ap (λ (t : ℕ). b * t) (pow-suc 2 k)) in
    let half : b * 2 ^ suc k / 2 ≡ b * 2 ^ k = omega (arith, double) in
    omega (
      arith,
      double,
      or_low v (b * 2 ^ suc k),
      or_shifted k (v / 2) b (omega (arith, pow-suc 2 k)),
      ap (λ (t : ℕ). bit_or (v / 2) t) half,
    )

-- The bit at position `k`, by division.
pub bit_div : (w k : ℕ) → bit w k ≡ w / 2 ^ k % 2
bit_div w zero = omega arith
bit_div w (suc k) =
    let twice : 2 * 2 ^ k ≡ 2 ^ suc k = omega (arith, pow-suc 2 k) in
    omega (arith, bit_div (w / 2) k, div-div-eq-div-mul w 2 (2 ^ k), ap (λ (t : ℕ). w / t) twice)

-- `&`, bit by bit.
pub bit-and : (x y j : ℕ) → bit (bit_and x y) j ≡ min (bit x j) (bit y j)
bit-and x y zero = omega (arith, and_low x y)
bit-and x y (suc j) =
    let half : bit_and x y / 2 ≡ bit_and (x / 2) (y / 2) = omega (arith, and_low x y) in
    ap (λ (t : ℕ). bit t j) half ∙ bit-and (x / 2) (y / 2) j

pub shifted_bit : (b k : ℕ) → bit_and (b / 2 ^ k) 1 ≡ bit b k
shifted_bit b k = omega (arith, and_pow 0 (b / 2 ^ k), bit_div b k)
