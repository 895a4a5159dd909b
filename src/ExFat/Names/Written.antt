-- ===== src/ExFat/Names/Written.antt =====
-- Names: the units that the name entries of a directory hold are read back.
use reclaim.Prelude.{
  ℕ, zero, suc, ◌+◌, ◌-◌, ◌*◌, ◌≤◌, ◌<◌, min, ◌≡◌, refl, sym, ap, ◌∙◌, ◌≢◌, inl, inr, true, false,
  ◌||◌, List, [], ◌∷◌, ◌++◌, arith, ltb, leb, ◌==◌, Bool-cases, length, get_or, take, length-take,
}
use Prim.Native.Nat.{bit_and}
use mathlib.Core.Path.{ap₂}
use reclaim.FsCore.Reader.{le_u16}
use reclaim.FsCore.Text.{from_utf16_lossy}
use reclaim.ExFat.Names.{take_units, name_loop, strip_zeros, read_name}

-- From `off` on, the directory has name entries for these units, 15 in each.
pub record HoldsName (dir : List ℕ) (off : ℕ) (us : List ℕ) : Type 0 where
  pub inside : (k : ℕ) → k * 15 < length us → off + k * 32 + 32 ≤ length dir
  pub typed : (k : ℕ) → k * 15 < length us → bit_and (get_or dir (off + k * 32) 0) 0x7F ≡ 0x41
  pub written :
      (k j : ℕ)
      → j < 15
      → k * 15 + j < length us
      → le_u16 dir (off + k * 32 + 2 + j * 2) ≡ get_or us (k * 15 + j) 0

take-suc :
    (us : List ℕ) (m : ℕ) → m < length us → take (suc m) us ≡ take m us ++ (get_or us m 0 ∷ [])
take-suc [] m h = absurd (omega arith)
take-suc (u ∷ us) zero h = refl
take-suc (u ∷ us) (suc m) h = ap (λ t. u ∷ t) (take-suc us m (omega arith))

take_all : (us : List ℕ) (n : ℕ) → length us ≤ n → take n us ≡ us
take_all [] zero h = refl
take_all [] (suc n) h = refl
take_all (u ∷ us) zero h = absurd (omega arith)
take_all (u ∷ us) (suc n) h = ap (λ t. u ∷ t) (take_all us n (omega arith))

module _ (dir : List ℕ) (off : ℕ) (us : List ℕ) (holds : HoldsName dir off us) where
  abbrev count : ℕ
  count = length us

  take_units_lem :
      (k left m : ℕ)
      → left ≤ 15
      → m + left ≡ k * 15 + 15
      → m ≤ count
      → take_units dir (off + k * 32) count left (take m us) ≡ take (min (m + left) count) us
  unfolding take_units
  take_units_lem k zero m few at le = ap (λ t. take t us) (omega arith)
  take_units_lem k (suc left) m few at le = elim (Bool-cases (leb count (length (take m us)))) [
    | inl full ↦ rw full (ap (λ t. take t us) (ground (arith, length-take m us)))
    | inr room ↦
        let below : m < count = ground (arith, length-take m us) in
        let place : k * 15 + (15 - suc left) ≡ m = omega arith in
        let unit : le_u16 dir (off + k * 32 + 2 + (15 - suc left) * 2) ≡ get_or us m 0 =
          holds.written k (15 - suc left) (omega arith) (omega arith)
          ∙ ap (λ t. get_or us t 0) place in
        rw room (
          ap (λ u. take_units dir (off + k * 32) count left (take m us ++ (u ∷ []))) unit
          ∙ ap (λ t. take_units dir (off + k * 32) count left t) (sym (take-suc us m below))
          ∙ take_units_lem k left (suc m) (omega arith) (omega arith) (omega arith)
          ∙ ap (λ t. take t us) (omega arith))
  ]

  name_loop_lem :
      (left k : ℕ)
      → count ≤ k * 15 + left * 15
      → name_loop dir count left (off + k * 32) (take (min (k * 15) count) us) ≡ us
  unfolding name_loop
  name_loop_lem zero k enough = take_all us (min (k * 15) count) (omega arith)
  name_loop_lem (suc left) k enough =
      elim (Bool-cases (leb count (length (take (min (k * 15) count) us)))) [
        | inl full ↦
            let done : (ltb (length dir) (off + k * 32 + 32)
                  || leb count (length (take (min (k * 15) count) us)))
                ≡ true =
              ground arith in
            rw done (
              take_all us (min (k * 15) count)
                (ground (arith, length-take (min (k * 15) count) us)))
        | inr more ↦
            let below : k * 15 < count = ground (arith, length-take (min (k * 15) count) us) in
            let open_ : (ltb (length dir) (off + k * 32 + 32)
                  || leb count (length (take (min (k * 15) count) us)))
                ≡ false =
              ground (arith, holds.inside k below) in
            let named : (bit_and (get_or dir (off + k * 32) 0) 0x7F == 0x41) ≡ true =
              ground (arith, holds.typed k below) in
            rw (open_, named)
              (ap₂ (λ o t. name_loop dir count left o t) (omega arith)
                  (ap (λ t. take_units dir (off + k * 32) count 15 (take t us)) (omega arith)
                    ∙ take_units_lem k 15 (k * 15) (omega arith) (omega arith) (omega arith)
                    ∙ ap (λ t. take t us) (omega arith))
                ∙ name_loop_lem left (k + 1) (omega arith))
      ]

strip_zeros_lem :
    (us : List ℕ) → ((i : ℕ) → i + 1 ≡ length us → get_or us i 0 ≢ 0) → strip_zeros us ≡ us
unfolding strip_zeros
strip_zeros_lem [] ends = refl
strip_zeros_lem (u ∷ []) ends = ground (arith, ends 0 refl)
strip_zeros_lem (u ∷ v ∷ us) ends =
    rw (strip_zeros_lem (v ∷ us) (λ i e. ends (suc i) (omega arith))) refl

-- A name that does not end in a zero unit, written into name entries of 15 units that the directory
-- holds whole, is read back as the text of its units, if enough entries are announced.
pub read_name-HoldsName :
    (dir : List ℕ) (off : ℕ) (us : List ℕ) (entries : ℕ)
    → HoldsName dir off us
    → ((i : ℕ) → i + 1 ≡ length us → get_or us i 0 ≢ 0)
    → length us ≤ entries * 15
    → read_name dir off entries (length us) ≡ from_utf16_lossy us
unfolding read_name
read_name-HoldsName dir off us entries holds ends enough =
    let start : off ≡ off + 0 * 32 = omega arith in
    let none_yet : 0 ≡ min (0 * 15) (length us) = omega arith in
    let read_back : name_loop dir (length us) entries off [] ≡ us =
      ap (λ o. name_loop dir (length us) entries o []) start
      ∙ ap (λ t. name_loop dir (length us) entries (off + 0 * 32) (take t us)) none_yet
      ∙ name_loop_lem dir off us holds entries 0 (omega arith) in
    ap from_utf16_lossy (ap strip_zeros read_back ∙ strip_zeros_lem us ends)
