-- ===== src/Part/Reader/Numbers.antt =====
-- Little-endian numbers: their range, and that every number of the width is read back from its
-- bytes.
use native.Mathlib.Nat.{div-add-mod', pow-suc}
use reclaim.Prelude.{
  ℕ, zero, suc, ◌/◌, ◌%◌, ◌^◌, ◌<◌, ◌≡◌, refl, ap, some, List, [], ◌∷◌, ◌++◌, arith, length,
  length-append, take, drop, IsByte, slice, All,
}
use reclaim.Part.Reader.{le_value, le_at}

-- The bytes of a number, least significant first (`to_le_bytes`).
pub le_bytes : ℕ → ℕ → List ℕ
le_bytes zero n = []
le_bytes (suc width) n = n % 256 ∷ le_bytes width (n / 256)

length-le_bytes : (width n : ℕ) → length (le_bytes width n) ≡ width
unfolding le_bytes
length-le_bytes zero n = refl
length-le_bytes (suc width) n = ap suc (length-le_bytes width (n / 256))

-- `width` bytes read back the number modulo `256 ^ width`.
le_value-le_bytes : (width n : ℕ) → n < 256 ^ width → le_value (le_bytes width n) ≡ n
unfolding le_value le_bytes
le_value-le_bytes zero n h = omega arith
le_value-le_bytes (suc width) n h = omega (
  arith,
  le_value-le_bytes width (n / 256) (omega (arith, pow-suc 256 width)),
  div-add-mod' n 256,
)

-- A number of some bytes is below the power of 256.
pub le_value_bound : (bs : List ℕ) → All IsByte bs → le_value bs < 256 ^ length bs
unfolding le_value
le_value_bound [] a = omega arith
le_value_bound (b ∷ bs) (h, a) =
    let rest = le_value_bound bs a in omega (arith, pow-suc 256 (length bs))

drop-append : (xs ys : List ℕ) → drop (length xs) (xs ++ ys) ≡ ys
drop-append [] ys = refl
drop-append (x ∷ xs) ys = drop-append xs ys

take-append : (xs ys : List ℕ) → take (length xs) (xs ++ ys) ≡ xs
take-append [] ys = refl
take-append (x ∷ xs) ys = ap (λ zs. x ∷ zs) (take-append xs ys)

slice_middle :
    (pre xs post : List ℕ) → slice (length pre) (length xs) (pre ++ (xs ++ post)) ≡ some xs
slice_middle pre xs post = ground (
  arith,
  length-append pre (xs ++ post),
  length-append xs post,
  ap (take (length xs)) (drop-append pre (xs ++ post)),
  take-append xs post,
)

-- A number of the width, written little-endian anywhere in a buffer, is read back from there.
pub le_at-le_bytes :
    (width n : ℕ) (pre post : List ℕ)
    → n < 256 ^ width
    → le_at width (pre ++ (le_bytes width n ++ post)) (length pre) ≡ n
unfolding le_at
le_at-le_bytes width n pre post h =
    let e : slice (length pre) width (pre ++ (le_bytes width n ++ post)) ≡ some (le_bytes width n) =
      rw (length-le_bytes width n) at (slice_middle pre (le_bytes width n) post) in
    rw (e, le_at) (le_value-le_bytes width n h)
