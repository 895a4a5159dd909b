-- ===== src/Ntfs/Record.antt =====
-- crates/fs-ntfs/src/record.rs: the fix-ups of a record and the data runs of an attribute. An
-- `i64` is its two's-complement pattern, a number below 2 ^ 64 that is negative from 2 ^ 63 on.
pub mod Fixup
pub mod Numbers
pub mod Runs
use Prim.Native.Nat.{bit_and, bit_or}
use reclaim.Prelude.{
  ℕ, zero, suc, ◌+◌, ◌-◌, ◌*◌, ◌/◌, ◌%◌, ◌^◌, min, Bool, true, false, not, ◌&&◌, ◌||◌, List, [],
  ◌∷◌, ◌++◌, ltb, leb, ◌==◌, if◌then◌else◌, length, get_or, overwrite, for_range,
}
use reclaim.FsCore.Reader.{le_u16}

abbrev pub stride : ℕ
stride = 512

-- The `for k in 0..usa_count - 1` loop with its `break`, on the rounds that are left.
pub fix_strides : ℕ → ℕ → ℕ → List ℕ → List ℕ
fix_strides usa_off zero k rec = rec
fix_strides usa_off (suc left) k rec =
    let pos = k * stride + stride - 2 in
    let src = usa_off + 2 + k * 2 in
    let rest =
      fix_strides usa_off left (k + 1)
        (overwrite rec pos (get_or rec src 0 ∷ get_or rec (src + 1) 0 ∷ [])) in
    if ltb (length rec) (pos + 2) || ltb (length rec) (src + 2) then rec else rest

pub apply_fixup : List ℕ → List ℕ
apply_fixup rec =
    let usa_off = le_u16 rec 4 in
    let usa_count = le_u16 rec 6 in
    if ltb usa_count 2 || ltb (length rec) (usa_off + usa_count * 2)
    then rec
    else fix_strides usa_off (usa_count - 1) 0 rec

pub record Run : Type 0 where
  pub lcn : ℕ
  pub length : ℕ
  pub sparse : Bool

-- `v |= u64::from(b[off + i]) << (8 * i)`
pub or_byte : List ℕ → ℕ → ℕ → ℕ → ℕ
or_byte b off i v = bit_or v (get_or b (off + i) 0 * 2 ^ (8 * i))

pub read_le_unsigned : List ℕ → ℕ → ℕ → ℕ
read_le_unsigned b off size = for_range (min size 8) 0 (or_byte b off) 0

-- `!((1 << (size * 8)) - 1)` sets the bits above the number.
pub read_le_signed : List ℕ → ℕ → ℕ → ℕ
read_le_signed b off size =
    let v = read_le_unsigned b off size in
    let sign_bit = 2 ^ (size * 8 - 1) in
    if ltb 0 size && ltb size 8 && not (bit_and v sign_bit == 0)
    then bit_or v (2 ^ 64 - 2 ^ (size * 8))
    else v

-- What one round of `decode_runs` does: it ends the loop, or yields a run at a new position; the
-- last run ends the loop too when there are too many.
pub data Decoded : Type 0 where
  ends : Decoded
  yields : Run → ℕ → ℕ → Decoded

pub decode_run : List ℕ → ℕ → ℕ → Decoded
decode_run runs pos lcn =
    let header = get_or runs pos 0 in
    let len_size = header % 16 in
    let off_size = header / 16 % 16 in
    let run_length = read_le_unsigned runs (pos + 1) len_size in
    let after = pos + 1 + len_size in
    let lcn' = (lcn + read_le_signed runs after off_size) % 2 ^ 64 in
    if header == 0
    then Decoded.ends
    else if len_size == 0 || ltb (length runs) (pos + 1 + len_size + off_size)
    then Decoded.ends
    else if off_size == 0
    then Decoded.yields (record { lcn = 0; length = run_length; sparse = true }) after lcn
    else if leb (2 ^ 63) lcn'
    then Decoded.ends
    else Decoded.yields (record { lcn = lcn'; length = run_length; sparse = false })
        (after + off_size) lcn'

-- `out.len() > 65_536` is only looked at after a run that is not sparse.
pub too_many : Run → List Run → Bool
too_many r out = not r.sparse && ltb 65_536 (length out)

-- The `while pos < runs.len() && guard < 100_000` loop, on the rounds that are left.
pub decode_loop : List ℕ → ℕ → ℕ → ℕ → List Run → List Run
decode_loop runs zero pos lcn out = out
decode_loop runs (suc left) pos lcn out =
    if leb (length runs) pos then out else elim (decode_run runs pos lcn) [
      | Decoded.ends ↦ out
      | Decoded.yields r pos' lcn' ↦
          if too_many r (out ++ (r ∷ []))
          then out ++ (r ∷ [])
          else decode_loop runs left pos' lcn' (out ++ (r ∷ []))
    ]

pub decode_runs : List ℕ → List Run
decode_runs runs = decode_loop runs 100_000 0 0 []
