-- ===== src/Ntfs/Record/Fixup.antt =====
-- The fix-ups of a record: which bytes change, and into what.
use native.Mathlib.Nat.{div-add-mod'}
use reclaim.Prelude.{
  ℕ, zero, suc, ◌+◌, ◌-◌, ◌*◌, ◌/◌, ◌%◌, ◌≤◌, ◌<◌, ◌≡◌, refl, ◌∙◌, ◌≢◌, inl, inr, Bool, false, ◌&&◌,
  ◌||◌, List, [], ◌∷◌, arith, ltb, leb, ◌==◌, if◌then◌else◌, Bool-cases, length, get_or, overwrite,
  length-overwrite, get_or-overwrite,
}
use reclaim.FsCore.Reader.{le_u16}
use reclaim.Ntfs.Record.{fix_strides, apply_fixup}

-- Byte `i` is one of the last two of a whole stride that the rounds `k`, …, `k + left - 1` fix.
abbrev pub ends_stride : ℕ → ℕ → ℕ → ℕ → Bool
ends_stride len k left i =
    leb 510 (i % 512)
    && (leb k (i / 512) && ltb (i / 512) (k + left))
    && leb (i / 512 * 512 + 512) len

-- Its place in the update sequence array.
abbrev pub saved_at : ℕ → ℕ → ℕ
saved_at usa_off i = usa_off + 2 + i / 512 * 2 + (i % 512 - 510)

abbrev pub fixed_byte : List ℕ → ℕ → ℕ → ℕ → ℕ → ℕ
fixed_byte rec usa_off k left i =
    if ends_stride (length rec) k left i then get_or rec (saved_at usa_off i) 0 else get_or rec i 0

abbrev saved_pair : List ℕ → ℕ → ℕ → List ℕ
saved_pair rec usa_off k =
    get_or rec (usa_off + 2 + k * 2) 0 ∷ get_or rec (usa_off + 2 + k * 2 + 1) 0 ∷ []

-- The record after the round of stride `k`.
abbrev fixed_once : List ℕ → ℕ → ℕ → List ℕ
fixed_once rec usa_off k = overwrite rec (k * 512 + 512 - 2) (saved_pair rec usa_off k)

-- One round moves the two saved bytes of stride `k`, and the saved bytes of later strides stay.
module _ (rec : List ℕ) (usa_off k left i : ℕ) (apart : usa_off + 2 + (k + suc left) * 2 ≤ 510)
    (long : 510 < length rec) (lt : i < length rec) where
  saved_stays : (j : ℕ) → j < 510 → get_or (fixed_once rec usa_off k) j 0 ≡ get_or rec j 0
  saved_stays j h =
      ground (arith, get_or-overwrite rec (k * 512 + 512 - 2) (saved_pair rec usa_off k) j 0)

  other_stride : i / 512 ≢ k → get_or (fixed_once rec usa_off k) i 0 ≡ get_or rec i 0
  other_stride ne = ground (
    arith,
    get_or-overwrite rec (k * 512 + 512 - 2) (saved_pair rec usa_off k) i 0 lt,
    div-add-mod' i 512,
  )

  own_stride :
      i / 512 ≡ k
      → get_or (fixed_once rec usa_off k) i 0
        ≡ (if leb 510 (i % 512) then get_or rec (saved_at usa_off i) 0 else get_or rec i 0)
  own_stride e = elim (Bool-cases (leb 510 (i % 512))) [
    | inr before ↦ ground (
      arith,
      get_or-overwrite rec (k * 512 + 512 - 2) (saved_pair rec usa_off k) i 0 lt,
      div-add-mod' i 512,
    )
    | inl within ↦ elim (Bool-cases (i % 512 == 510)) [
      | inl low ↦
          let at : i - (k * 512 + 512 - 2) ≡ 0 = ground (arith, div-add-mod' i 512) in
          let from : saved_at usa_off i ≡ usa_off + 2 + k * 2 = ground arith in
          rw
            (
              within,
              from,
              get_or-overwrite rec (k * 512 + 512 - 2) (saved_pair rec usa_off k) i 0 lt,
              at,
            )
            (ground (arith, div-add-mod' i 512))
      | inr high ↦
          let at : i - (k * 512 + 512 - 2) ≡ 1 = ground (arith, div-add-mod' i 512) in
          let from : saved_at usa_off i ≡ usa_off + 2 + k * 2 + 1 = ground arith in
          rw
            (
              within,
              from,
              get_or-overwrite rec (k * 512 + 512 - 2) (saved_pair rec usa_off k) i 0 lt,
              at,
            )
            (ground (arith, div-add-mod' i 512))
    ]
  ]

  one_stride :
      ltb (length rec) (k * 512 + 512 - 2 + 2) ≡ false
      → fixed_byte (fixed_once rec usa_off k) usa_off (k + 1) left i
        ≡ fixed_byte rec usa_off k (suc left) i
  one_stride whole = elim (Bool-cases (i / 512 == k)) [
    | inl own ↦
        ground
          (arith, own_stride, length-overwrite rec (k * 512 + 512 - 2) (saved_pair rec usa_off k))
    | inr other ↦ ground (
      arith,
      other_stride,
      saved_stays (saved_at usa_off i),
      length-overwrite rec (k * 512 + 512 - 2) (saved_pair rec usa_off k),
    )
  ]

fix_strides-byte :
    (usa_off left k : ℕ) (rec : List ℕ) (i : ℕ)
    → usa_off + 2 + (k + left) * 2 ≤ 510
    → 510 < length rec
    → i < length rec
    → get_or (fix_strides usa_off left k rec) i 0 ≡ fixed_byte rec usa_off k left i
unfolding fix_strides
fix_strides-byte usa_off zero k rec i apart long lt = ground arith
fix_strides-byte usa_off (suc left) k rec i apart long lt =
    let pos = k * 512 + 512 - 2 in
    let src = usa_off + 2 + k * 2 in
    elim (Bool-cases (ltb (length rec) (pos + 2))) [
      | inl past ↦ rw past (ground (arith, div-add-mod' i 512))
      | inr whole ↦
          let rec' = overwrite rec pos (get_or rec src 0 ∷ get_or rec (src + 1) 0 ∷ []) in
          let inside : ltb (length rec) (src + 2) ≡ false = ground arith in
          let ih =
            fix_strides-byte usa_off left (k + 1) rec' i (omega arith)
              (omega
                (arith, length-overwrite rec pos (get_or rec src 0 ∷ get_or rec (src + 1) 0 ∷ [])))
              (omega (
                arith,
                length-overwrite rec pos (get_or rec src 0 ∷ get_or rec (src + 1) 0 ∷ []),
              )) in
          rw (whole, inside) (ih ∙ one_stride rec usa_off k left i apart long lt whole)
    ]

length-fix_strides :
    (usa_off left k : ℕ) (rec : List ℕ) → length (fix_strides usa_off left k rec) ≡ length rec
unfolding fix_strides
length-fix_strides usa_off zero k rec = refl
length-fix_strides usa_off (suc left) k rec = ground (
  arith,
  length-fix_strides usa_off left (k + 1) (
      overwrite rec (k * 512 + 512 - 2)
        (get_or rec (usa_off + 2 + k * 2) 0 ∷ get_or rec (usa_off + 2 + k * 2 + 1) 0 ∷ [])),
  length-overwrite rec (k * 512 + 512 - 2)
      (get_or rec (usa_off + 2 + k * 2) 0 ∷ get_or rec (usa_off + 2 + k * 2 + 1) 0 ∷ []),
)

-- When the update sequence array lies before the end of the first stride and has two entries or
-- more, in a record longer than 510 bytes, the fix-ups put the saved bytes at the end of every
-- whole stride that the array speaks for, and change nothing else.
pub apply_fixup-byte :
    (rec : List ℕ) (i : ℕ)
    → le_u16 rec 4 + le_u16 rec 6 * 2 ≤ 510
    → 2 ≤ le_u16 rec 6
    → 510 < length rec
    → i < length rec
    → get_or (apply_fixup rec) i 0 ≡ fixed_byte rec (le_u16 rec 4) 0 (le_u16 rec 6 - 1) i
unfolding apply_fixup
apply_fixup-byte rec i apart filled long lt =
    let used : (ltb (le_u16 rec 6) 2 || ltb (length rec) (le_u16 rec 4 + le_u16 rec 6 * 2))
        ≡ false =
      ground arith in
    rw used (fix_strides-byte (le_u16 rec 4) (le_u16 rec 6 - 1) 0 rec i (omega arith) long lt)

-- The fix-ups keep the length of a record.
pub length-apply_fixup : (rec : List ℕ) → length (apply_fixup rec) ≡ length rec
unfolding apply_fixup
length-apply_fixup rec = ground (arith, length-fix_strides (le_u16 rec 4) (le_u16 rec 6 - 1) 0 rec)
