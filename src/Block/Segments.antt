-- ===== src/Block/Segments.antt =====
-- crates/reclaim-block/src/container/map.rs: the segment list of a virtual image and the search
-- in it.
pub mod Build
pub mod Search
pub mod Cache
pub mod Read
use reclaim.Prelude.{
  ℕ, zero, suc, ◌+◌, ◌-◌, ◌/◌, Bool, true, false, not, Option, none, some, List, [], ◌∷◌, ltb, leb,
  ◌==◌, if◌then◌else◌, length, get_elem?, sat_add,
}

pub data Codec : Type 0 where
  raw zeros zlib deflate bzip2 lzma lzfse : Codec

pub data Piece : Type 0 where
  zero_fill : Piece
  raw : ℕ → Piece
  compressed : Codec → ℕ → ℕ → Piece

pub record Segment : Type 0 where
  pub out_start : ℕ
  pub out_len : ℕ
  pub piece : Piece

pub record SegmentMap : Type 0 where
  pub segs : List Segment
  pub next_out : ℕ

pub new : SegmentMap
new = record { segs = []; next_out = 0 }

-- `(last.piece, piece)`: two holes, or raw bytes that go on where the last ones end.
pub joins : Piece → ℕ → Piece → Bool
joins Piece.zero_fill last_len Piece.zero_fill = true
joins (Piece.raw p0) last_len (Piece.raw p1) = sat_add p0 last_len == p1
joins _ last_len _ = false

-- The list with its last segment grown, or with a segment more.
pub add_piece : List Segment → ℕ → ℕ → Piece → List Segment
add_piece [] next len piece = record { out_start = next; out_len = len; piece = piece } ∷ []
add_piece (last ∷ []) next len piece =
    if joins last.piece last.out_len piece
    then record last { out_len = sat_add last.out_len len } ∷ []
    else last ∷ record { out_start = next; out_len = len; piece = piece } ∷ []
add_piece (s ∷ t ∷ rest) next len piece = s ∷ add_piece (t ∷ rest) next len piece

pub push : SegmentMap → ℕ → Piece → SegmentMap
push m len piece =
    if len == 0
    then m
    else record { segs = add_piece m.segs m.next_out len piece; next_out = sat_add m.next_out len }

-- One probe of the search: where it goes on, or the segment.
pub data Probe : Type 0 where
  go : ℕ → ℕ → Probe
  found : ℕ → Probe

pub probe : Segment → ℕ → ℕ → ℕ → ℕ → Probe
probe s off lo mid hi =
    if ltb off s.out_start
    then Probe.go lo mid
    else if leb (sat_add s.out_start s.out_len) off
    then Probe.go (mid + 1) hi
    else Probe.found mid

-- The `while lo < hi` loop, on the rounds that are left.
pub search : List Segment → ℕ → ℕ → ℕ → ℕ → Option ℕ
search segs off zero lo hi = none
search segs off (suc left) lo hi =
    if not (ltb lo hi) then none else elim (get_elem? segs (lo + (hi - lo) / 2)) [
      | none ↦ none
      | some s ↦ elim (probe s off lo (lo + (hi - lo) / 2) hi) [
        | Probe.go lo' hi' ↦ search segs off left lo' hi'
        | Probe.found mid ↦ some mid
      ]
    ]

-- `seg_for`: every round halves the window, so one round per segment and one more are enough.
pub seg_for : List Segment → ℕ → Option ℕ
seg_for segs off = search segs off (length segs + 1) 0 (length segs)
