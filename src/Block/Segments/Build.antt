-- ===== src/Block/Segments/Build.antt =====
-- What a segment list built by `push` describes: it tiles the image, and every byte of the image
-- keeps the origin that it was pushed with.
use reclaim.Prelude.{
  ℕ, ◌+◌, ◌-◌, ◌≤◌, ◌<◌, ◌≡◌, refl, sym, ap, inl, inr, Bool, true, ◌&&◌, Option, none, some, List,
  [], ◌∷◌, arith, ltb, leb, ◌==◌, if◌then◌else◌, Bool-cases, u64_max, sat_add,
}
use reclaim.Block.Segments.{Codec, Piece, Segment, SegmentMap, joins, add_piece, push, new}

-- The segments follow one another without a gap from `k` to `n`, and none is empty.
abbrev pub Tiles : ℕ → List Segment → ℕ → Type 0
Tiles k [] n = k ≡ n
Tiles k (s ∷ rest) n = (s.out_start ≡ k) × (0 < s.out_len) × Tiles (k + s.out_len) rest n

-- Where a byte of the image comes from: nowhere, the backing store, or a place in a decoded block.
pub data Origin : Type 0 where
  hole : Origin
  backing : ℕ → Origin
  decoded : Codec → ℕ → ℕ → ℕ → Origin

abbrev pub origin : Piece → ℕ → Origin
origin Piece.zero_fill within = Origin.hole
origin (Piece.raw pos) within = Origin.backing (pos + within)
origin (Piece.compressed codec pos clen) within = Origin.decoded codec pos clen within

abbrev pub covers : Segment → ℕ → Bool
covers s off = leb s.out_start off && ltb off (s.out_start + s.out_len)

abbrev pub origin_at : List Segment → ℕ → Option Origin
origin_at [] off = none
origin_at (s ∷ rest) off =
    if covers s off then some (origin s.piece (off - s.out_start)) else origin_at rest off

-- The position of raw bytes is one that a backing store can have.
abbrev pub IsPlaced : Piece → Type 0
IsPlaced (Piece.raw pos) = pos < u64_max
IsPlaced _ = Unit {0}

add_piece-Tiles :
    (k : ℕ) (segs : List Segment) (n len : ℕ) (piece : Piece)
    → Tiles k segs n
    → 0 < len
    → n + len ≤ u64_max
    → Tiles k (add_piece segs n len piece) (n + len)
unfolding add_piece
add_piece-Tiles k [] n len piece t pos fits = (sym t, pos, omega (arith, t))
add_piece-Tiles k (s ∷ []) n len piece (a, b, t) pos fits =
    elim (Bool-cases (joins s.piece s.out_len piece)) [
      | inl joined ↦ rw joined (a, omega arith, omega (arith, t))
      | inr apart ↦ rw apart (a, b, (sym t, pos, omega (arith, t)))
    ]
add_piece-Tiles k (s ∷ u ∷ rest) n len piece (a, b, t) pos fits =
    (a, b, add_piece-Tiles (k + s.out_len) (u ∷ rest) n len piece t pos fits)

-- A byte of a joined segment has the origin that its own piece gives it.
origin-joins :
    (last : Piece) (last_len : ℕ) (piece : Piece) (within : ℕ)
    → joins last last_len piece ≡ true
    → IsPlaced piece
    → origin last (last_len + within) ≡ origin piece within
unfolding joins
origin-joins Piece.zero_fill last_len Piece.zero_fill within e p = refl
origin-joins Piece.zero_fill last_len (Piece.raw p1) within e p = absurd (ground arith)
origin-joins Piece.zero_fill last_len (Piece.compressed c q l) within e p = absurd (ground arith)
origin-joins (Piece.raw p0) last_len Piece.zero_fill within e p = absurd (ground arith)
origin-joins (Piece.raw p0) last_len (Piece.raw p1) within e p = ap Origin.backing (ground arith)
origin-joins (Piece.raw p0) last_len (Piece.compressed c q l) within e p = absurd (ground arith)
origin-joins (Piece.compressed c q l) last_len piece within e p = absurd (ground arith)

-- What the image holds after a push.
abbrev pub extended : List Segment → ℕ → ℕ → Piece → ℕ → Option Origin
extended segs n len piece off =
    if ltb off n
    then origin_at segs off
    else if ltb off (n + len)
    then some (origin piece (off - n))
    else none

pub Tiles-le : (k : ℕ) (segs : List Segment) (n : ℕ) → Tiles k segs n → k ≤ n
Tiles-le k [] n t = omega (arith, t)
Tiles-le k (s ∷ rest) n (a, b, t) = omega (arith, Tiles-le (k + s.out_len) rest n t)

origin_at-past :
    (k : ℕ) (segs : List Segment) (n off : ℕ) → Tiles k segs n → n ≤ off → origin_at segs off ≡ none
origin_at-past k [] n off t h = refl
origin_at-past k (s ∷ rest) n off (a, b, t) h =
    ground
      (arith, a, Tiles-le (k + s.out_len) rest n t, origin_at-past (k + s.out_len) rest n off t h)

origin_at-add_piece :
    (k : ℕ) (segs : List Segment) (n len : ℕ) (piece : Piece) (off : ℕ)
    → Tiles k segs n
    → 0 < len
    → n + len ≤ u64_max
    → IsPlaced piece
    → k ≤ off
    → origin_at (add_piece segs n len piece) off ≡ extended segs n len piece off
unfolding add_piece
origin_at-add_piece k [] n len piece off t pos fits p h = ground (arith, t)
origin_at-add_piece k (s ∷ []) n len piece off (a, b, t) pos fits p h =
    elim (Bool-cases (joins s.piece s.out_len piece)) [
      | inl joined ↦ rw joined (elim (Bool-cases (ltb off n)) [
        | inl old ↦ ground (arith, a, t)
        | inr new ↦
            let within : off - s.out_start ≡ s.out_len + (off - n) = ground (arith, a, t) in
            ground (
              arith,
              a,
              t,
              ap (origin s.piece) within,
              origin-joins s.piece s.out_len piece (off - n) joined p,
            )
      ])
      | inr apart ↦ rw apart (ground (arith, a, t))
    ]
origin_at-add_piece k (s ∷ u ∷ rest) n len piece off (a, b, t) pos fits p h =
    elim (Bool-cases (covers s off)) [
      | inl here ↦ rw here (ground (arith, a, Tiles-le (k + s.out_len) (u ∷ rest) n t))
      | inr later ↦ rw later (
          ground (
            arith,
            a,
            origin_at-add_piece (k + s.out_len) (u ∷ rest) n len piece off t pos fits p
                (ground arith),
          ))
    ]

-- A push keeps the segments a gap-free tiling of the image, which grows by the pushed length, as
-- long as its size fits 64 bits.
pub push-Tiles :
    (m : SegmentMap) (len : ℕ) (piece : Piece)
    → Tiles 0 m.segs m.next_out
    → m.next_out + len ≤ u64_max
    → Tiles 0 (push m len piece).segs (push m len piece).next_out
      × ((push m len piece).next_out ≡ m.next_out + len)
unfolding push
push-Tiles m len piece t fits = elim (Bool-cases (len == 0)) [
  | inl empty ↦ rw empty (t, ground arith)
  | inr full ↦
      let e : sat_add m.next_out len ≡ m.next_out + len = omega arith in
      rw (full, e) (add_piece-Tiles 0 m.segs m.next_out len piece t (ground arith) fits, refl)
]

-- After a push onto segments that tile the image, every earlier byte comes from where it came from,
-- the pushed bytes come from the piece, and no other byte has an origin, whether or not segments
-- were joined; the image stays within 64 bits and raw bytes start below the largest 64-bit number.
pub push-origin_at :
    (m : SegmentMap) (len : ℕ) (piece : Piece) (off : ℕ)
    → Tiles 0 m.segs m.next_out
    → m.next_out + len ≤ u64_max
    → IsPlaced piece
    → origin_at (push m len piece).segs off ≡ extended m.segs m.next_out len piece off
unfolding push
push-origin_at m len piece off t fits p = elim (Bool-cases (len == 0)) [
  | inl empty ↦ rw empty (ground (arith, origin_at-past 0 m.segs m.next_out off t))
  | inr full ↦
      rw full (
        origin_at-add_piece 0 m.segs m.next_out len piece off t (ground arith) fits p (omega arith))
]
