-- ===== src/FsCore/Extents.antt =====
-- Lists of extents as the bytes of a file: where each byte of the file lies on the volume.
use reclaim.Prelude.{
  ℕ, ◌+◌, ◌-◌, ◌≤◌, ◌<◌, ◌≡◌, refl, ap, ◌∙◌, inl, inr, false, Option, none, some, List, [], ◌∷◌,
  ◌++◌, arith, ltb, if◌then◌else◌, Bool-cases, All, All-append,
}
use reclaim.FsCore.Types.{Extent}

abbrev pub total_len : List Extent → ℕ
total_len [] = 0
total_len (e ∷ es) = e.len + total_len es

-- Where byte `i` of the file lies.
abbrev pub locate : List Extent → ℕ → Option ℕ
locate [] i = none
locate (e ∷ es) i = if ltb i e.len then some (e.offset + i) else locate es (i - e.len)

-- The extents hold `n` bytes, byte `i` at `at i`.
pub record Covers (es : List Extent) (n : ℕ) (at : ℕ → ℕ) : Type 0 where
  pub total : total_len es ≡ n
  pub placed : (i : ℕ) → i < n → locate es i ≡ some (at i)

pub total_len-append : (xs ys : List Extent) → total_len (xs ++ ys) ≡ total_len xs + total_len ys
total_len-append [] ys = omega arith
total_len-append (x ∷ xs) ys = omega (arith, total_len-append xs ys)

pub locate-append :
    (xs ys : List Extent) (i : ℕ)
    → locate (xs ++ ys) i
      ≡ (if ltb i (total_len xs) then locate xs i else locate ys (i - total_len xs))
locate-append [] ys i = ground arith
locate-append (x ∷ xs) ys i =
    let shift : i - x.len - total_len xs ≡ i - (x.len + total_len xs) = omega arith in
    ground (arith, locate-append xs ys (i - x.len), ap (λ (t : ℕ). locate ys t) shift)

-- A list with one extent more, byte by byte.
locate-last :
    (es : List Extent) (s l i : ℕ)
    → i < total_len es + l
    → locate (es ++ (record { offset = s; len = l } ∷ [])) i
      ≡ (if ltb i (total_len es) then locate es i else some (s + (i - total_len es)))
locate-last es s l i lt = ground (arith, locate-append es (record { offset = s; len = l } ∷ []) i)

module _ (es : List Extent) (s l n : ℕ) (at : ℕ → ℕ)
    (c : Covers (es ++ (record { offset = s; len = l } ∷ [])) n at) where
  -- Before its last extent, the list holds the rest of the bytes.
  last_total : total_len es + l ≡ n
  last_total = omega (arith, total_len-append es (record { offset = s; len = l } ∷ []), c.total)

  -- The last extent can be lengthened by bytes that follow on,
  pub Covers-extend :
      (k : ℕ)
      → ((j : ℕ) → j < k → at (n + j) ≡ s + l + j)
      → Covers (es ++ (record { offset = s; len = l + k } ∷ [])) (n + k) at
  Covers-extend k next = record {
    total =
        omega (arith, total_len-append es (record { offset = s; len = l + k } ∷ []), last_total);
    placed = λ i lt. elim (Bool-cases (ltb i n)) [
      | inl old ↦
          ground (arith, locate-last es s (l + k) i, locate-last es s l i, c.placed i, last_total)
      | inr new ↦
          let place : n + (i - n) ≡ i = omega (arith, ltb_false i n new) in
          ground (arith, locate-last es s (l + k) i, next (i - n), last_total, ap at place)
    ];
  }
    where
      ltb_false : (a b : ℕ) → ltb a b ≡ false → b ≤ a
      ltb_false a b e = ground arith

  -- or be cut.
  pub Covers-cut :
      (d : ℕ) → d ≤ l → Covers (es ++ (record { offset = s; len = l - d } ∷ [])) (n - d) at
  Covers-cut d le = record {
    total =
        omega (arith, total_len-append es (record { offset = s; len = l - d } ∷ []), last_total);
    placed = λ i lt.
        ground (arith, locate-last es s (l - d) i, locate-last es s l i, c.placed i, last_total);
  }

-- A new extent holds the bytes after those so far.
pub Covers-push :
    (es : List Extent) (n : ℕ) (at : ℕ → ℕ) (s k : ℕ)
    → Covers es n at
    → ((j : ℕ) → j < k → at (n + j) ≡ s + j)
    → Covers (es ++ (record { offset = s; len = k } ∷ [])) (n + k) at
Covers-push es n at s k c next = record {
  total = omega (arith, total_len-append es (record { offset = s; len = k } ∷ []), c.total);
  placed = λ i lt. elim (Bool-cases (ltb i n)) [
    | inl old ↦ ground (arith, locate-last es s k i, c.placed i, c.total)
    | inr new ↦
        let place : n + (i - n) ≡ i = ground arith in
        ground (arith, locate-last es s k i, next (i - n), c.total, ap at place)
  ];
}

-- Only extents of no length are left out by `retain(|e| e.len > 0)`.
abbrev pub retain : List Extent → List Extent
retain [] = []
retain (e ∷ es) = if ltb 0 e.len then e ∷ retain es else retain es

total_len-retain : (es : List Extent) → total_len (retain es) ≡ total_len es
total_len-retain [] = refl
total_len-retain (e ∷ es) = ground (arith, total_len-retain es)

locate-retain : (es : List Extent) (i : ℕ) → locate (retain es) i ≡ locate es i
locate-retain [] i = refl
locate-retain (e ∷ es) i = ground (arith, locate-retain es i, locate-retain es (i - e.len))

pub Covers-retain :
    (es : List Extent) (n : ℕ) (at : ℕ → ℕ) → Covers es n at → Covers (retain es) n at
Covers-retain es n at c = record {
  total = total_len-retain es ∙ c.total;
  placed = λ i lt. locate-retain es i ∙ c.placed i lt;
}

-- The extents lie in the first `total` bytes of the volume.
abbrev pub IsWithin : ℕ → List Extent → Type 0
IsWithin total = All (λ (e : Extent). e.offset + e.len ≤ total)

pub IsWithin-retain :
    (total : ℕ) (es : List Extent) → IsWithin total es → IsWithin total (retain es)
IsWithin-retain total [] w = tt
IsWithin-retain total (e ∷ es) (h, w) = elim (Bool-cases (ltb 0 e.len)) [
  | inl some_len ↦ rw some_len (h, IsWithin-retain total es w)
  | inr none_left ↦ rw none_left (IsWithin-retain total es w)
]

pub IsWithin-push :
    (total : ℕ) (es : List Extent) (s l : ℕ)
    → IsWithin total es
    → s + l ≤ total
    → IsWithin total (es ++ (record { offset = s; len = l } ∷ []))
IsWithin-push total es s l w h = All-append _ es (record { offset = s; len = l } ∷ []) w (h, tt)
