-- ===== src/Prelude/Words.antt =====
-- Unsigned machine words as natural numbers with their range, and the standard operations on them
-- that the code calls.
use Prim.Native.Nat.{ℕ, suc, ◌+◌, ◌-◌, ◌*◌, ◌/◌, ◌%◌, ◌^◌, ◌≤◌, ◌<◌, min}
use native.Mathlib.Omega.{arith}
use native.Mathlib.Decide.{dec_lt}
use native.Mathlib.Nat.{div-add-mod', mod-lt, div-lt_iff_lt-mul}
use mathlib.Core.Logic.{◌≢◌, ◌⊎◌, inl, inr}
use mathlib.Core.Bool.{Bool}
use reclaim.Prelude.Tests.{Bool-cases, ltb→lt, ltb, ◌==◌, if◌then◌else◌}

abbrev pub u64_max : ℕ
u64_max = 2 ^ 64 - 1

abbrev pub u32_max : ℕ
u32_max = 2 ^ 32 - 1

abbrev pub IsByte : ℕ → Type 0
IsByte b = b < 256

-- A `u64`, and a `usize` of a 64-bit target.
abbrev pub IsU64 : ℕ → Type 0
IsU64 n = n ≤ u64_max

abbrev pub IsU32 : ℕ → Type 0
IsU32 n = n ≤ u32_max

-- `saturating_add`, `saturating_mul`; `saturating_sub` is the subtraction of ℕ.
abbrev pub sat_add : ℕ → ℕ → ℕ
sat_add a b = min (a + b) u64_max

abbrev pub sat_mul : ℕ → ℕ → ℕ
sat_mul a b = min (a * b) u64_max

-- `div_ceil` of a positive divisor.
abbrev pub div_ceil : ℕ → ℕ → ℕ
div_ceil a b = if ltb 0 (a % b) then a / b + 1 else a / b

-- `is_multiple_of`: only zero is a multiple of zero, where `%` of ℕ gives back the number.
abbrev pub is_multiple_of : ℕ → ℕ → Bool
is_multiple_of a b = a % b == 0

-- Byte `q * ss + k` lies in block `q` of `ss` bytes and in no other.
pub block_apart :
    (i q k ss : ℕ) → k < ss → i ≢ q → (q * ss + k < i * ss) ⊎ (i * ss + ss ≤ q * ss + k)
block_apart i q k ss h ne = elim (dec_lt i q) [
  | yes below ↦ let le : suc i ≤ q = below in inr (grind arith)
  | no above ↦ let le : suc q ≤ i = omega arith in inl (grind arith)
]

-- The blocks of `n` bytes cover them, and the last one is not empty.
pub div_ceil_bounds : (n ss : ℕ) → 0 < ss → (n ≤ div_ceil n ss * ss) × (div_ceil n ss * ss < n + ss)
div_ceil_bounds n ss h = elim (Bool-cases (ltb 0 (n % ss))) [
  | inl some_left ↦
      rw some_left (omega (arith, div-add-mod' n ss, mod-lt n h, ltb→lt 0 (n % ss) some_left))
  | inr exact ↦ rw exact (ground (arith, div-add-mod' n ss, mod-lt n h))
]

-- The block of a byte below `n` is one of the blocks that `n` bytes take.
pub div_lt_div_ceil : (i n ss : ℕ) → 0 < ss → i < n → i / ss < 0 + div_ceil n ss
div_lt_div_ceil i n ss h lt =
    let below : i / ss < div_ceil n ss =
      (div-lt_iff_lt-mul h).1 (omega (arith, div_ceil_bounds n ss h)) in
    omega arith
