-- ===== src/Block/Source/Align.antt =====
-- `align_down` and `align_up` of source.rs.
use reclaim.Prelude.{
  ℕ, ◌+◌, ◌*◌, ◌/◌, ◌%◌, ◌≤◌, ◌<◌, ◌≡◌, inl, inr, true, arith, ltb, ◌==◌, ltb→lt, Bool-cases,
  u64_max, div_ceil, is_multiple_of,
}
use native.Mathlib.Nat.{div-add-mod', mod-lt}
use reclaim.Block.Source.{align_down, align_up}

-- `align_down` and `align_up` return the nearest multiple on their side.
pub align_down_lem :
    (value align : ℕ)
    → 0 < align
    → (align_down value align ≤ value)
      × (value < align_down value align + align)
      × (align_down value align ≡ value / align * align)
unfolding align_down
align_down_lem value align h = omega (arith, div-add-mod' value align, mod-lt value h)

pub align_down-aligned :
    (value align : ℕ) → is_multiple_of value align ≡ true → align_down value align ≡ value
unfolding align_down
align_down-aligned value align h = ground arith

pub align_up_lem :
    (value align : ℕ)
    → 0 < align
    → value + align ≤ u64_max
    → (value ≤ align_up value align)
      × (align_up value align < value + align)
      × (align_up value align ≡ div_ceil value align * align)
unfolding align_up
align_up_lem value align h fits = elim (Bool-cases (value % align == 0)) [
  | inl exact ↦ rw exact (ground (arith, div-add-mod' value align, mod-lt value h))
  | inr left ↦
      let part : ltb 0 (value % align) ≡ true = ground arith in
      rw (left, part)
        (omega (arith, div-add-mod' value align, mod-lt value h, ltb→lt 0 (value % align) part))
]
