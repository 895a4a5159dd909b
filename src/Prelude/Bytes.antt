-- ===== src/Prelude/Bytes.antt =====
-- Byte buffers: slices that may be out of range, writes of a slice, and counted loops.
use Prim.Native.Nat.{ℕ, zero, suc, ◌+◌, ◌-◌, ◌≤◌, ◌<◌}
use native.Mathlib.Omega.{arith}
use mathlib.Core.Path.{◌≡◌, refl, ap, ap₂, ◌∙◌}
use mathlib.Core.Logic.{inl, inr}
use mathlib.Core.Bool.{Bool, ◌&&◌}
use mathlib.Core.Option.{Option, none, some}
use mathlib.Core.List.{List, [], ◌∷◌}
use reclaim.Prelude.Tests.{◌==◌, Bool-cases, ltb, leb, if◌then◌else◌}
use reclaim.Prelude.Lists.{
  get_elem?, set, length, get_or, take, drop, replicate, length-take, length-drop,
}

module _ {ℓ} {A : Type ℓ} where
  pub eq_of_get_or :
      (xs ys : List A) (d : A)
      → length xs ≡ length ys
      → ((i : ℕ) → i < length xs → get_or xs i d ≡ get_or ys i d)
      → xs ≡ ys
  eq_of_get_or [] [] d e h = refl
  eq_of_get_or [] (y ∷ ys) d e h = absurd (omega arith)
  eq_of_get_or (x ∷ xs) [] d e h = absurd (omega arith)
  eq_of_get_or (x ∷ xs) (y ∷ ys) d e h =
      ap₂ ◌∷◌ (h 0 (omega arith))
        (eq_of_get_or xs ys d (omega arith) (λ i lt. h (suc i) (omega arith)))

  -- `xs.get(start..start + n)`
  abbrev pub slice : ℕ → ℕ → List A → Option (List A)
  slice start n xs = if leb (start + n) (length xs) then some (take n (drop start xs)) else none

  -- `xs.get_mut(start..start + ys.len())` with `copy_from_slice(ys)`, in range; a write at or past
  -- the end changes nothing.
  unfoldable pub overwrite : List A → ℕ → List A → List A
  overwrite [] start ys = []
  overwrite (x ∷ xs) (suc start) ys = x ∷ overwrite xs start ys
  overwrite (x ∷ xs) zero [] = x ∷ xs
  overwrite (x ∷ xs) zero (y ∷ ys) = y ∷ overwrite xs zero ys

  pub length-overwrite :
      (xs : List A) (start : ℕ) (ys : List A) → length (overwrite xs start ys) ≡ length xs
  unfolding overwrite
  length-overwrite [] start ys = refl
  length-overwrite (x ∷ xs) (suc start) ys = ap suc (length-overwrite xs start ys)
  length-overwrite (x ∷ xs) zero [] = refl
  length-overwrite (x ∷ xs) zero (y ∷ ys) = ap suc (length-overwrite xs zero ys)

  -- An element after a write: the written one where the write reached, the old one elsewhere.
  pub get_or-overwrite :
      (xs : List A) (start : ℕ) (ys : List A) (i : ℕ) (d : A)
      → i < length xs
      → get_or (overwrite xs start ys) i d ≡ (
          if leb start i && ltb (i - start) (length ys)
          then get_or ys (i - start) d
          else get_or xs i d)
  unfolding overwrite
  get_or-overwrite [] start ys i d h = absurd (omega arith)
  get_or-overwrite (x ∷ xs) (suc start) ys zero d h = ground arith
  get_or-overwrite (x ∷ xs) (suc start) ys (suc i) d h =
      ground
        (arith, get_or-overwrite xs start ys i d, ap (λ (t : ℕ). get_or ys t d) (shift i start))
    where
      shift : (a b : ℕ) → suc a - suc b ≡ a - b
      shift a b = omega arith
  get_or-overwrite (x ∷ xs) zero [] i d h = ground arith
  get_or-overwrite (x ∷ xs) zero (y ∷ ys) zero d h = ground arith
  get_or-overwrite (x ∷ xs) zero (y ∷ ys) (suc i) d h =
      ground (arith, get_or-overwrite xs zero ys i d)

-- `for k in start..start + n`, over a state.
abbrev pub for_range {ℓ} : {S : Type ℓ} → ℕ → ℕ → (ℕ → S → S) → S → S
for_range zero start body s = s
for_range (suc n) start body s = for_range n (start + 1) body (body start s)

pub get_or-replicate {ℓ} : {A : Type ℓ} (n i : ℕ) (a : A) → get_or (replicate n a) i a ≡ a
get_or-replicate zero i a = refl
get_or-replicate (suc n) zero a = refl
get_or-replicate (suc n) (suc i) a = get_or-replicate n i a

pub get_or-take {ℓ} :
    {A : Type ℓ} (n : ℕ) (xs : List A) (i : ℕ) (d : A)
    → get_or (take n xs) i d ≡ (if ltb i n then get_or xs i d else d)
get_or-take zero xs i d = ground arith
get_or-take (suc n) [] i d = ground arith
get_or-take (suc n) (x ∷ xs) zero d = ground arith
get_or-take (suc n) (x ∷ xs) (suc i) d = ground (arith, get_or-take n xs i d)

pub get_or-drop {ℓ} :
    {A : Type ℓ} (n : ℕ) (xs : List A) (i : ℕ) (d : A)
    → get_or (drop n xs) i d ≡ get_or xs (n + i) d
get_or-drop zero xs i d = ap (λ (t : ℕ). get_or xs t d) (omega arith)
get_or-drop (suc n) [] i d = refl
get_or-drop (suc n) (x ∷ xs) i d = get_or-drop n xs i d ∙ ap (λ (t : ℕ). get_or (x ∷ xs) t d) shift
  where
    shift : suc (n + i) ≡ suc n + i
    shift = omega arith

-- `(start..start + n).filter(p)`
abbrev pub filter_range : ℕ → ℕ → (ℕ → Bool) → List ℕ
filter_range zero start p = []
filter_range (suc n) start p =
    if p start then start ∷ filter_range n (start + 1) p else filter_range n (start + 1) p

pub get_or_past {ℓ} : {A : Type ℓ} (xs : List A) (i : ℕ) (d : A) → length xs ≤ i → get_or xs i d ≡ d
get_or_past [] i d h = refl
get_or_past (x ∷ xs) zero d h = absurd (omega arith)
get_or_past (x ∷ xs) (suc i) d h = get_or_past xs i d (omega arith)

-- `if let (Some(dst), Some(src)) = (buf.get_mut(start..start + n), src) { dst.copy_from_slice(src) }`
pub copy_slice {ℓ} : {A : Type ℓ} → List A → ℕ → ℕ → Option (List A) → List A
copy_slice buf start n none = buf
copy_slice buf start n (some src) =
    if leb (start + n) (length buf) then overwrite buf start src else buf

pub length-copy_slice {ℓ} :
    {A : Type ℓ} (buf : List A) (start n : ℕ) (src : Option (List A))
    → length (copy_slice buf start n src) ≡ length buf
unfolding copy_slice
length-copy_slice buf start n none = refl
length-copy_slice buf start n (some src) = ground (arith, length-overwrite buf start src)

pub length_slice {ℓ} :
    {A : Type ℓ} (start n : ℕ) (xs : List A)
    → start + n ≤ length xs
    → length (take n (drop start xs)) ≡ n
length_slice start n xs h = omega (arith, length-take n (drop start xs), length-drop start xs)

-- A byte after a slice was copied from one buffer into another.
pub get_or-copy_slice :
    {A : Type 0} (buf : List A) (start from n : ℕ) (xs : List A) (i : ℕ) (d : A)
    → start + n ≤ length buf
    → from + n ≤ length xs
    → get_or (copy_slice buf start n (slice from n xs)) i d ≡ (
        if leb start i && ltb i (start + n)
        then get_or xs (from + (i - start)) d
        else get_or buf i d)
unfolding copy_slice
get_or-copy_slice buf start from n xs i d hb hx = elim (Bool-cases (ltb i (length buf))) [
  | inl within ↦ ground (
    arith,
    get_or-overwrite buf start (take n (drop from xs)) i d,
    length_slice from n xs hx,
    get_or-take n (drop from xs) (i - start) d,
    get_or-drop from xs (i - start) d,
  )
  | inr out ↦ ground (
    arith,
    get_or_past buf i d,
    get_or_past (overwrite buf start (take n (drop from xs))) i d,
    length-overwrite buf start (take n (drop from xs)),
  )
]

pub copy_slice_out {ℓ} :
    {A : Type ℓ} (buf : List A) (start n : ℕ) (src : Option (List A))
    → length buf < start
    → copy_slice buf start n src ≡ buf
unfolding copy_slice
copy_slice_out buf start n none h = refl
copy_slice_out buf start n (some src) h = ground arith

pub get_elem?-get_or {ℓ} :
    {A : Type ℓ} (xs : List A) (i : ℕ) (d : A)
    → i < length xs
    → get_elem? xs i ≡ some (get_or xs i d)
get_elem?-get_or [] i d h = absurd (omega arith)
get_elem?-get_or (x ∷ xs) zero d h = refl
get_elem?-get_or (x ∷ xs) (suc i) d h = get_elem?-get_or xs i d (omega arith)

pub get_elem?_past {ℓ} : {A : Type ℓ} (xs : List A) (i : ℕ) → length xs ≤ i → get_elem? xs i ≡ none
get_elem?_past [] i h = refl
get_elem?_past (x ∷ xs) zero h = absurd (omega arith)
get_elem?_past (x ∷ xs) (suc i) h = get_elem?_past xs i (omega arith)

pub set_past {ℓ} : {A : Type ℓ} (xs : List A) (i : ℕ) (v : A) → length xs ≤ i → set xs i v ≡ xs
set_past [] i v h = refl
set_past (x ∷ xs) zero v h = absurd (omega arith)
set_past (x ∷ xs) (suc i) v h = ap (λ t. x ∷ t) (set_past xs i v (omega arith))

pub get_or-set {ℓ} :
    {A : Type ℓ} (xs : List A) (i : ℕ) (v : A) (j : ℕ) (d : A)
    → j < length xs
    → get_or (set xs i v) j d ≡ (if j == i then v else get_or xs j d)
get_or-set [] i v j d h = absurd (omega arith)
get_or-set (x ∷ xs) zero v zero d h = refl
get_or-set (x ∷ xs) zero v (suc j) d h = ground arith
get_or-set (x ∷ xs) (suc i) v zero d h = ground arith
get_or-set (x ∷ xs) (suc i) v (suc j) d h = ground (arith, get_or-set xs i v j d (omega arith))
