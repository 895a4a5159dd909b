-- ===== src/Tests/Ntfs.antt =====
-- The theorems on MFT records at concrete inputs.
use reclaim.Prelude.{
  ℕ, zero, suc, ◌+◌, ◌-◌, ◌/◌, ◌%◌, ◌^◌, ◌≡◌, refl, inl, inr, true, false, List, [], ◌∷◌, arith,
  length, get_or, replicate, overwrite,
}
use reclaim.Part.Reader.{le_at, le_value}
use reclaim.FsCore.Reader.{le_u16}
use reclaim.Ntfs.Record.{apply_fixup, decode_runs, read_le_signed}
use reclaim.Ntfs.Record.Fixup.{fixed_byte, apply_fixup-byte}
use reclaim.Ntfs.Record.Numbers.{Stored, read_le_signed_lem}
use reclaim.Ntfs.Record.Runs.{Lists, hole, extent, terminated, decode_runs-Lists}

-- Four clusters at cluster 0x20, a hole of five, and four clusters 0x10 further down.
run_list : List ℕ
run_list = 0x11 ∷ 4 ∷ 0x20 ∷ 0x01 ∷ 5 ∷ 0x11 ∷ 4 ∷ 0xF0 ∷ 0 ∷ []

one_byte : (b : List ℕ) (off n : ℕ) → get_or b (off + 0) 0 ≡ n / 1 % 256 → Stored b off 1 n
one_byte b off n e zero h = e
one_byte b off n e (suc i) h = absurd (omega arith)

run_list-Lists : Lists run_list 0 0 (
    record { lcn = 0x20; length = 4; sparse = false }
    ∷ record { lcn = 0; length = 5; sparse = true }
    ∷ record { lcn = 0x10; length = 4; sparse = false }
    ∷ [])
unfolding run_list
run_list-Lists =
    extent 0 0 1 1 4 0x20 0x20 _
      (record {
        header = refl;
        has_length = omega arith;
        len_fits = omega arith;
        off_fits = omega arith;
        inside = omega arith;
        stored = one_byte run_list 1 4 refl;
        bounded = omega arith;
      })
      (omega arith) (one_byte run_list 2 0x20 refl) (inl (omega arith)) refl (omega arith)
      (hole 3 0x20 1 5 _
        (record {
          header = refl;
          has_length = omega arith;
          len_fits = omega arith;
          off_fits = omega arith;
          inside = omega arith;
          stored = one_byte run_list 4 5 refl;
          bounded = omega arith;
        })
        (extent 5 0x20 1 1 4 (2 ^ 64 - 0x10) 0x10 _
          (record {
            header = refl;
            has_length = omega arith;
            len_fits = omega arith;
            off_fits = omega arith;
            inside = omega arith;
            stored = one_byte run_list 6 4 refl;
            bounded = omega arith;
          })
          (omega arith) (one_byte run_list 7 (2 ^ 64 - 0x10) refl) (inr (omega arith, omega arith))
          refl (omega arith) (terminated 8 0x10 refl)))

decode_runs-Lists_example :
    decode_runs run_list
    ≡ record { lcn = 0x20; length = 4; sparse = false }
      ∷ record { lcn = 0; length = 5; sparse = true }
      ∷ record { lcn = 0x10; length = 4; sparse = false }
      ∷ []
decode_runs-Lists_example = decode_runs-Lists run_list _ run_list-Lists (omega arith)

read_le_signed_lem_example : read_le_signed (0xF0 ∷ []) 0 1 ≡ 2 ^ 64 - 0x10
read_le_signed_lem_example =
    read_le_signed_lem (0xF0 ∷ []) 0 1 (2 ^ 64 - 0x10) (omega arith) (omega arith)
      (one_byte (0xF0 ∷ []) 0 (2 ^ 64 - 0x10) refl) (inr (omega arith, omega arith))

-- A record of one stride with its update sequence array at 48, of one saved pair.
record_bytes : List ℕ
record_bytes =
    overwrite (overwrite (replicate 512 0) 4 (48 ∷ 0 ∷ 2 ∷ 0 ∷ [])) 48 (1 ∷ 0 ∷ 0xAB ∷ 0xCD ∷ [])

saved_pairs :
    (le_u16 record_bytes 4 ≡ 48) × (le_u16 record_bytes 6 ≡ 2) × (length record_bytes ≡ 512)
unfolding record_bytes le_u16 le_at le_value overwrite
saved_pairs = (refl, refl, refl)

apply_fixup-byte_example :
    get_or (apply_fixup record_bytes) 511 0
    ≡ fixed_byte record_bytes (le_u16 record_bytes 4) 0 (le_u16 record_bytes 6 - 1) 511
apply_fixup-byte_example =
    apply_fixup-byte record_bytes 511 (omega (arith, saved_pairs.0, saved_pairs.1))
      (omega (arith, saved_pairs.1)) (omega (arith, saved_pairs.2)) (omega (arith, saved_pairs.2))
