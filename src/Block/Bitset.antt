-- ===== src/Block/Bitset.antt =====
-- crates/reclaim-block/src/bitset.rs: a fixed-length set of bits over 64-bit words.
pub mod Laws
pub mod Count
use Prim.Native.Nat.{bit_and, bit_or}
use reclaim.Prelude.{
  ℕ, zero, suc, ◌+◌, ◌/◌, ◌%◌, ◌^◌, Bool, false, not, ◌||◌, List, [], ◌∷◌, none, some, leb, ◌==◌,
  if◌then◌else◌, get_elem?, replicate, div_ceil, filter_range,
}

pub record Bitset : Type 0 where
  pub bits : ℕ
  pub words : List ℕ

pub new : ℕ → Bitset
new n = record { bits = n; words = replicate (div_ceil n 64) 0 }

pub len : Bitset → ℕ
len b = b.bits

pub is_empty : Bitset → Bool
is_empty b = b.bits == 0

-- `*word |= 1u64 << k` on the word at index `i`, if there is one.
pub or_word : List ℕ → ℕ → ℕ → List ℕ
or_word [] i k = []
or_word (w ∷ ws) zero k = bit_or w (2 ^ k) ∷ ws
or_word (w ∷ ws) (suc i) k = w ∷ or_word ws i k

pub set : Bitset → ℕ → Bitset
set b i = if leb b.bits i then b else record b { words = or_word b.words (i / 64) (i % 64) }

pub get : Bitset → ℕ → Bool
get b i = if leb b.bits i then false else elim (get_elem? b.words (i / 64)) [
  | none ↦ false
  | some w ↦ not (bit_and w (2 ^ (i % 64)) == 0)
]

pub any_word : List ℕ → Bool
any_word [] = false
any_word (w ∷ ws) = not (w == 0) || any_word ws

pub any : Bitset → Bool
any b = any_word b.words

-- `u64::count_ones`: the bits set among the lowest `n`.
pub popcount : ℕ → ℕ → ℕ
popcount zero w = 0
popcount (suc n) w = w % 2 + popcount n (w / 2)

pub count_words : List ℕ → ℕ
count_words [] = 0
count_words (w ∷ ws) = popcount 64 w + count_words ws

pub count_ones : Bitset → ℕ
count_ones b = count_words b.words

pub iter_set : Bitset → List ℕ
iter_set b = filter_range b.bits 0 (get b)
