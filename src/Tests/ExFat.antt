-- ===== src/Tests/ExFat.antt =====
-- The theorems on exFAT volumes at concrete inputs.
use Prim.Native.Nat.{bit_and}
use reclaim.Prelude.{
  ℕ, zero, suc, ◌+◌, ◌*◌, ◌<◌, ◌≡◌, refl, ◌≢◌, List, [], ◌∷◌, arith, get_or, replicate,
}
use reclaim.FsCore.Reader.{le_u16}
use reclaim.FsCore.Text.{from_utf16_lossy}
use reclaim.Part.Reader.{le_at, le_value}
use reclaim.ExFat.Names.{read_name}
use reclaim.ExFat.Names.Written.{read_name-HoldsName}

-- One name entry, with two units.
abbrev name_entry : List ℕ
name_entry = 0xC1 ∷ 0 ∷ b'a' ∷ 0 ∷ b'b' ∷ 0 ∷ replicate 26 0

abbrev two_units : List ℕ
two_units = b'a' ∷ b'b' ∷ []

entry_typed : (k : ℕ) → k * 15 < 2 → bit_and (get_or name_entry (0 + k * 32) 0) 0x7F ≡ 0x41
entry_typed zero h = refl
entry_typed (suc k) h = absurd (omega arith)

entry_written :
    (k j : ℕ)
    → j < 15
    → k * 15 + j < 2
    → le_u16 name_entry (0 + k * 32 + 2 + j * 2) ≡ get_or two_units (k * 15 + j) 0
unfolding le_u16 le_at le_value
entry_written zero zero h lt = refl
entry_written zero (suc zero) h lt = refl
entry_written zero (suc (suc j)) h lt = absurd (omega arith)
entry_written (suc k) j h lt = absurd (omega arith)

no_zero_end : (i : ℕ) → i + 1 ≡ 2 → get_or two_units i 0 ≢ 0
no_zero_end zero h = absurd (omega arith)
no_zero_end (suc zero) h = omega arith
no_zero_end (suc (suc i)) h = absurd (omega arith)

read_name-HoldsName_example : read_name name_entry 0 1 2 ≡ from_utf16_lossy two_units
read_name-HoldsName_example =
    read_name-HoldsName name_entry 0 two_units 1
      (record { inside = λ k h. omega (arith); typed = entry_typed; written = entry_written })
      no_zero_end (omega arith)
