-- ===== src/Part/Crc.antt =====
-- crates/reclaim-part/src/crc.rs: CRC-32, bit by bit.
use Prim.Native.Nat.{bit_and, bit_xor}
use reclaim.Prelude.{ℕ, zero, suc, ◌-◌, ◌/◌, ◌≡◌, refl, List, [], ◌∷◌, ◌==◌, if◌then◌else◌, u32_max}

-- `(crc & 1).wrapping_neg()` is all ones or zero.
pub crc_mask : ℕ → ℕ
crc_mask crc = if bit_and crc 1 == 0 then 0 else u32_max

pub crc_bit : ℕ → ℕ
unfolding crc_mask
crc_bit crc = bit_xor (crc / 2) (bit_and 0xEDB8_8320 (crc_mask crc))

pub crc_rounds : ℕ → ℕ → ℕ
unfolding crc_bit
crc_rounds zero crc = crc
crc_rounds (suc n) crc = crc_rounds n (crc_bit crc)

pub crc_bytes : ℕ → List ℕ → ℕ
unfolding crc_rounds
crc_bytes crc [] = crc
crc_bytes crc (b ∷ bs) = crc_bytes (crc_rounds 8 (bit_xor crc b)) bs

-- `!crc` of a `u32`
pub crc32 : List ℕ → ℕ
unfolding crc_bytes
crc32 bytes = u32_max - crc_bytes u32_max bytes

-- The check value of this CRC: that of the ASCII digits 1 to 9.
crc32_check :
    crc32 (0x31 ∷ 0x32 ∷ 0x33 ∷ 0x34 ∷ 0x35 ∷ 0x36 ∷ 0x37 ∷ 0x38 ∷ 0x39 ∷ []) ≡ 0xCBF4_3926
unfolding crc32
crc32_check = refl
