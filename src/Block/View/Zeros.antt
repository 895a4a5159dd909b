-- ===== src/Block/View/Zeros.antt =====
-- The contract of a block source for a window of offset_view.rs, with the zero-filling of its parent
-- and the sector that the end of the window cuts.
use native.Mathlib.Nat.{mul-le-mul, div-le_self}
use reclaim.Prelude.{
  u64_max, is_multiple_of, ℕ, zero, suc, ◌+◌, ◌-◌, ◌*◌, ◌/◌, ◌≤◌, ◌<◌, min, max, ◌≡◌, refl, ◌∙◌,
  ◌≢◌, ◌⊎◌, inl, inr, true, false, not, ◌||◌, List, [], ◌∷◌, ◌++◌, arith, ltb, leb, ◌==◌,
  Bool-cases, length, get_or, take, replicate, length-take, u64_max, sat_add, div_ceil,
  is_multiple_of, get_or-replicate, div_lt_div_ceil,
}
use reclaim.Block.Source.{SectorStatus, status, align_down}
use reclaim.Block.Source.Contract.{IsSource, ZeroFills, KeepsContract}
use reclaim.Block.View.{OffsetView, reaches_byte, read_clipped, read_at, source}
use reclaim.Block.View.Contract.{status-read_clipped, source-IsSource}

-- The sector size that a view reckons with.
abbrev pub unit : OffsetView → ℕ
unit v = max v.inner.sector_size 1

-- The place in the parent of the byte `offset` of the view.
abbrev pub parent_offset : OffsetView → ℕ → ℕ
parent_offset v offset = align_down v.start (unit v) + offset

get_or-front : (xs ys : List ℕ) (i : ℕ) → i < length xs → get_or (xs ++ ys) i 0 ≡ get_or xs i 0
get_or-front [] ys i h = absurd (omega arith)
get_or-front (x ∷ xs) ys zero h = refl
get_or-front (x ∷ xs) ys (suc i) h = get_or-front xs ys i (omega arith)

get_or-zeros : (xs : List ℕ) (n i : ℕ) → length xs ≤ i → get_or (xs ++ replicate n 0) i 0 ≡ 0
get_or-zeros [] n i h = get_or-replicate {A = ℕ} n i 0
get_or-zeros (x ∷ xs) n zero h = absurd (omega arith)
get_or-zeros (x ∷ xs) n (suc i) h = get_or-zeros xs n i (omega arith)

-- A sector that ends inside the window is not marked.
reaches_byte-inside :
    (ss n avail q : ℕ) → min ((q + 1) * max ss 1) n ≤ avail → reaches_byte ss n avail q ≡ false
unfolding reaches_byte
reaches_byte-inside ss n avail q h =
    let le : sat_add q 1 * ss ≤ (q + 1) * max ss 1 =
      mul-le-mul {n₁ = sat_add q 1} {m₁ = ss} {n₂ = q + 1} {m₂ = max ss 1} (omega arith)
        (omega arith) in
    ground (arith, le, h)

module _ (v : OffsetView) (c : IsSource v.inner) (off : ℕ) (buf : List ℕ) (avail : ℕ)
    (short : avail < length buf) where
  byte-read_clipped :
      (i : ℕ)
      → i < avail
      → get_or (read_clipped v off buf avail).1 i 0
        ≡ get_or (v.inner.read_at off (take avail buf)).1 i 0
  unfolding read_clipped
  byte-read_clipped i h =
      get_or-front (v.inner.read_at off (take avail buf)).1 _ i
        (omega (arith, c.fills off (take avail buf), length-take avail buf))

  zeros-read_clipped : (i : ℕ) → avail ≤ i → get_or (read_clipped v off buf avail).1 i 0 ≡ 0
  unfolding read_clipped
  zeros-read_clipped i h =
      get_or-zeros (v.inner.read_at off (take avail buf)).1 _ i
        (omega (arith, c.fills off (take avail buf), length-take avail buf))

  -- The sector of a byte inside the window is one of the request, and of the parent's part of it.
  in_both :
      (i : ℕ)
      → i < avail
      → (i / unit v < div_ceil (length buf) (unit v))
        × (i / unit v < (v.inner.read_at off (take avail buf)).0.sector_count)
  in_both i h = (
    omega (arith, div_lt_div_ceil i (length buf) (unit v) (omega arith) (omega arith)),
    omega (
      arith,
      c.counts off (take avail buf),
      div_lt_div_ceil i (length (take avail buf)) (unit v) (omega arith)
          (omega (arith, length-take avail buf)),
    ),
  )

  clipped_zero :
      (i : ℕ)
      → ZeroFills v.inner
      → status (read_clipped v off buf avail).0 (i / unit v) ≢ SectorStatus.good
      → min ((i / unit v + 1) * unit v) (length buf) ≤ avail
      → i < avail
      → get_or (read_clipped v off buf avail).1 i 0 ≡ 0
  clipped_zero i z h whole lt =
      let (k, k') = in_both i lt in
      let same = status-read_clipped v off buf avail (i / unit v) c short k k' in
      let kept : status (read_clipped v off buf avail).0 (i / unit v)
          ≡ status (v.inner.read_at off (take avail buf)).0 (i / unit v) =
        rw (reaches_byte-inside v.inner.sector_size (length buf) avail (i / unit v) whole) at
          same in
      byte-read_clipped i lt ∙ z off (take avail buf) i (rw kept at h)

-- The part of the sector of byte `i` that a request of `n` bytes at `offset` covers ends inside the
-- window, or the byte itself lies past its end.
abbrev pub IsUncut : OffsetView → ℕ → ℕ → ℕ → Type 0
IsUncut v offset n i = (min ((i / unit v + 1) * unit v) n ≤ v.len - offset) ⊎ (v.len - offset ≤ i)

view-ZeroFills :
    (v : OffsetView) (offset : ℕ) (buf : List ℕ) (i : ℕ)
    → KeepsContract v.inner
    → status (read_at v offset buf).0 (i / unit v) ≢ SectorStatus.good
    → IsUncut v offset (length buf) i
    → get_or (read_at v offset buf).1 i 0 ≡ 0
unfolding read_at
view-ZeroFills v offset buf i c h uncut =
    elim (Bool-cases (leb v.len offset || not (is_multiple_of offset (unit v)))) [
      | inl outside ↦ rw outside (get_or-replicate {A = ℕ} (length buf) i 0)
      | inr inside ↦ elim (Bool-cases (min (v.len - offset) (length buf) == length buf)) [
        | inl whole ↦
            rw (inside, whole)
              (c.zero_fills (parent_offset v offset) buf i (rw (inside, whole) at h))
        | inr cut ↦
            let avail = min (v.len - offset) (length buf) in
            let short : avail < length buf = ground arith in
            rw (inside, cut)
              (elim uncut [
                | inl ends_inside ↦ elim (Bool-cases (ltb i avail)) [
                  | inl lt ↦
                      clipped_zero v c.shape (parent_offset v offset) buf avail short i c.zero_fills
                        (rw (inside, cut) at h) (omega (arith, ends_inside, short)) (ground arith)
                  | inr past ↦
                      zeros-read_clipped v c.shape (parent_offset v offset) buf avail short i
                        (ground arith)
                ]
                | inr past ↦
                    zeros-read_clipped v c.shape (parent_offset v offset) buf avail short i
                      (omega (arith, past))
              ])
      ]
    ]

-- The window ends inside the request, and inside the sector of its byte `i`, which lies before.
pub record IsCut (v : OffsetView) (offset n i : ℕ) : Type 0 where
  pub aligned : is_multiple_of offset (unit v) ≡ true
  pub before : i < v.len - offset
  pub short : v.len - offset < n
  pub inside : v.len - offset < (i / unit v + 1) * unit v

reaches_byte-cut :
    (ss n avail q : ℕ)
    → 0 < ss
    → n ≤ u64_max
    → avail < n
    → avail < (q + 1) * max ss 1
    → q < n
    → reaches_byte ss n avail q ≡ true
unfolding reaches_byte
reaches_byte-cut ss n avail q pos fits short cut small =
    let one : max ss 1 ≡ ss = omega arith in
    let next : sat_add q 1 ≡ q + 1 = omega (arith, fits, small) in
    let reach : avail < (q + 1) * ss = rw one at cut in rw next (ground (arith, reach, fits, short))

view-cut :
    (v : OffsetView) (offset : ℕ) (buf : List ℕ) (i : ℕ)
    → IsSource v.inner
    → 0 < v.inner.sector_size
    → length buf ≤ u64_max
    → IsCut v offset (length buf) i
    → (status (read_at v offset buf).0 (i / unit v) ≡ SectorStatus.bad)
      × (get_or (read_at v offset buf).1 i 0
          ≡ get_or (v.inner.read_at (parent_offset v offset) (take (v.len - offset) buf)).1 i 0)
unfolding read_at
view-cut v offset buf i c pos fits k =
    let avail = v.len - offset in
    let inside : (leb v.len offset || not (is_multiple_of offset (unit v))) ≡ false =
      ground (arith, k.aligned, k.before) in
    let upto : min (v.len - offset) (length buf) ≡ v.len - offset = omega (arith, k.short) in
    let some_out : (v.len - offset == length buf) ≡ false = ground (arith, k.short) in
    let (h, h') = in_both v c (parent_offset v offset) buf avail k.short i k.before in
    let small : i / unit v < length buf =
      omega (arith, div-le_self i (unit v), k.before, k.short) in
    rw (inside, upto, some_out)
      (
        status-read_clipped v (parent_offset v offset) buf avail (i / unit v) c k.short h h'
            ∙ rw
                (reaches_byte-cut v.inner.sector_size (length buf) avail (i / unit v) pos fits
                  k.short k.inside small)
                refl,
        byte-read_clipped v c (parent_offset v offset) buf avail k.short i k.before,
      )

-- What a view keeps of the contract: the shape of a read, and the zero-filling but for a sector that
-- the end of the window cuts, which is bad and holds the bytes that the parent read.
pub record KeepsUncut (v : OffsetView) : Type 0 where
  pub shape : IsSource (source v)
  pub zeros :
      (offset : ℕ) (buf : List ℕ) (i : ℕ)
      → status (read_at v offset buf).0 (i / unit v) ≢ SectorStatus.good
      → IsUncut v offset (length buf) i
      → get_or (read_at v offset buf).1 i 0 ≡ 0
  pub cut :
      (offset : ℕ) (buf : List ℕ) (i : ℕ)
      → length buf ≤ u64_max
      → IsCut v offset (length buf) i
      → (status (read_at v offset buf).0 (i / unit v) ≡ SectorStatus.bad)
        × (get_or (read_at v offset buf).1 i 0
            ≡ get_or (v.inner.read_at (parent_offset v offset) (take (v.len - offset) buf)).1 i 0)

-- A view of a source with a positive sector size that keeps the contract of a block source fills
-- the whole buffer, reports every sector, and is all bad at an unaligned offset; it holds zeros for
-- a sector that is not good unless the end of the window cuts the sector; a sector that it cuts is
-- bad, and before the end it holds the bytes that the parent read there, in a request that fits 64
-- bits.
pub view-KeepsUncut :
    (v : OffsetView) → KeepsContract v.inner → 0 < v.inner.sector_size → KeepsUncut v
view-KeepsUncut v c pos = record {
  shape = source-IsSource v c.shape;
  zeros = λ offset buf i h uncut. view-ZeroFills v offset buf i c h uncut;
  cut = λ offset buf i fits k. view-cut v offset buf i c.shape pos fits k;
}
