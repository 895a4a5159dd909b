-- ===== src/Block/Segments/Search.antt =====
-- The binary search of the segment list finds the segment of an offset.
use reclaim.Prelude.{
  ℕ, zero, suc, ◌+◌, ◌-◌, ◌/◌, ◌≤◌, ◌<◌, ◌≡◌, refl, sym, ap, ◌∙◌, ◌⊎◌, inl, inr, true, false, none,
  some, List, [], ◌∷◌, arith, ltb, ltb→lt, lt→ltb, Bool-cases, length, get_elem?, u64_max,
}
use reclaim.Block.Segments.{Segment, Probe, probe, search, seg_for}
use reclaim.Block.Segments.Build.{Tiles, Tiles-le}

-- Segment `i` of the list is `s`, and the offset lies in it.
pub record Holds (segs : List Segment) (off i : ℕ) : Type 0 where
  pub at : Segment
  pub there : get_elem? segs i ≡ some at
  pub starts : at.out_start ≤ off
  pub ends : off < at.out_start + at.out_len

-- A segment lies behind the start of the tiling, and before any later segment.
start_le :
    (k : ℕ) (segs : List Segment) (n i : ℕ) (s : Segment)
    → Tiles k segs n
    → get_elem? segs i ≡ some s
    → (k ≤ s.out_start) × (0 < s.out_len) × (s.out_start + s.out_len ≤ n)
start_le k [] n i s t e = absurd (ground arith)
start_le k (u ∷ rest) n zero s (a, b, t) e = ground (arith, a, Tiles-le (k + u.out_len) rest n t)
start_le k (u ∷ rest) n (suc i) s (a, b, t) e =
    ground (arith, a, start_le (k + u.out_len) rest n i s t e)

in_order :
    (k : ℕ) (segs : List Segment) (n i j : ℕ) (s u : Segment)
    → Tiles k segs n
    → get_elem? segs i ≡ some s
    → get_elem? segs j ≡ some u
    → i < j
    → s.out_start + s.out_len ≤ u.out_start
in_order k [] n i j s u t e f h = absurd (ground arith)
in_order k (v ∷ rest) n i zero s u t e f h = absurd (omega arith)
in_order k (v ∷ rest) n zero (suc j) s u (a, b, t) e f h =
    ground (arith, a, start_le (k + v.out_len) rest n j u t f)
in_order k (v ∷ rest) n (suc i) (suc j) s u (a, b, t) e f h =
    in_order (k + v.out_len) rest n i j s u t e f (omega arith)

get_elem?-lt :
    (segs : List Segment) (i : ℕ) → i < length segs → (s : Segment) × (get_elem? segs i ≡ some s)
get_elem?-lt [] i h = absurd (omega arith)
get_elem?-lt (s ∷ rest) zero h = (s, refl)
get_elem?-lt (s ∷ rest) (suc i) h = get_elem?-lt rest i (omega arith)

module _ (segs : List Segment) (off left lo hi : ℕ) where
  search_ends : ltb lo hi ≡ false → search segs off (suc left) lo hi ≡ none
  unfolding search
  search_ends e = rw (e, search)

  search_probes :
      (s : Segment)
      → ltb lo hi ≡ true
      → get_elem? segs (lo + (hi - lo) / 2) ≡ some s
      → search segs off (suc left) lo hi ≡ elim (probe s off lo (lo + (hi - lo) / 2) hi) [
        | Probe.go lo' hi' ↦ search segs off left lo' hi'
        | Probe.found mid ↦ some mid
      ]
  unfolding search
  search_probes s e g = rw (e, g, search)

compare_lem : (i j : ℕ) → (i < j) ⊎ (j < i) ⊎ (i ≡ j)
compare_lem i j = elim (Bool-cases (ltb i j)) [
  | inl below ↦ inl (ltb→lt i j below)
  | inr not_below ↦ elim (Bool-cases (ltb j i)) [
    | inl above ↦ inr (inl (ltb→lt j i above))
    | inr not_above ↦ inr (inr (ground arith))
  ]
]

module _ (s : Segment) (off lo mid hi : ℕ) where
  probe_left : off < s.out_start → probe s off lo mid hi ≡ Probe.go lo mid
  unfolding probe
  probe_left h = rw (lt→ltb off s.out_start h) refl

  probe_right :
      s.out_start + s.out_len ≤ off
      → s.out_start + s.out_len ≤ u64_max
      → probe s off lo mid hi ≡ Probe.go (mid + 1) hi
  unfolding probe
  probe_right h small = ground arith

  probe_hit :
      s.out_start ≤ off
      → off < s.out_start + s.out_len
      → s.out_start + s.out_len ≤ u64_max
      → probe s off lo mid hi ≡ Probe.found mid
  unfolding probe
  probe_hit a b small = ground arith

-- The search finds segment `i` from any window that it lies in.
search_found :
    (segs : List Segment) (n off i left lo hi : ℕ)
    → Tiles 0 segs n
    → n ≤ u64_max
    → Holds segs off i
    → lo ≤ i
    → i < hi
    → hi ≤ length segs
    → hi - lo < left
    → search segs off left lo hi ≡ some i
search_found segs n off i zero lo hi t small h a b c d = absurd (omega arith)
search_found segs n off i (suc left) lo hi t small h a b c d =
    let mid = lo + (hi - lo) / 2 in
    let inside : mid < length segs = omega arith in
    let (s, e) = get_elem?-lt segs mid inside in
    let (s0, s1, s2) = start_le 0 segs n mid s t e in
    rw (search_probes segs off left lo hi s (lt→ltb lo hi (omega arith)) e)
      (elim (compare_lem i mid) [
        | inl below ↦
            rw
              (probe_left s off lo mid hi
                (omega (arith, in_order 0 segs n i mid h.at s t h.there e below, h.starts, h.ends)))
              (search_found segs n off i left lo mid t small h a below (omega arith) (omega arith))
        | inr (inl above) ↦
            rw
              (probe_right s off lo mid hi
                (omega (arith, in_order 0 segs n mid i s h.at t e h.there above, h.starts))
                (omega arith))
              (search_found segs n off i left (mid + 1) hi t small h (omega arith) b c
                (omega arith))
        | inr (inr same) ↦
            let here : some s ≡ some h.at = sym e ∙ ap (get_elem? segs) (sym same) ∙ h.there in
            rw
              (probe_hit s off lo mid hi (ground (arith, here, h.starts))
                (ground (arith, here, h.ends)) (omega arith))
              (ap some (sym same))
      ])

-- Every offset of the image lies in a segment.
Tiles-hold :
    (k : ℕ) (segs : List Segment) (n off : ℕ)
    → Tiles k segs n
    → k ≤ off
    → off < n
    → (i : ℕ) × (i < length segs) × Holds segs off i
Tiles-hold k [] n off t a b = absurd (omega (arith, t))
Tiles-hold k (s ∷ rest) n off (x, y, t) a b = elim (Bool-cases (ltb off (k + s.out_len))) [
  | inl here ↦ (
    0,
    omega arith,
    record {
      at = s;
      there = refl;
      starts = omega (arith, x);
      ends = omega (arith, x, ltb→lt _ _ here);
    },
  )
  | inr later ↦
      let (i, lt, h) = Tiles-hold (k + s.out_len) rest n off t (ground arith) b in
      (suc i, omega arith, record { at = h.at; there = h.there; starts = h.starts; ends = h.ends })
]

-- In segments that tile an image of a 64-bit size, the binary search finds, within a round per
-- segment, the segment that holds any given offset of the image.
pub seg_for_lem :
    (segs : List Segment) (n off : ℕ)
    → Tiles 0 segs n
    → n ≤ u64_max
    → off < n
    → (i : ℕ) × (seg_for segs off ≡ some i) × Holds segs off i
unfolding seg_for
seg_for_lem segs n off t small lt =
    let (i, inside, h) = Tiles-hold 0 segs n off t (omega arith) lt in
    (
      i,
      search_found segs n off i (length segs + 1) 0 (length segs) t small h (omega arith) inside
          (omega arith) (omega arith),
      h,
    )
