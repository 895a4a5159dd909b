-- ===== src/Block/Segments/Read.antt =====
-- crates/reclaim-block/src/container/map.rs: MappedSource, the reads of a virtual image, and
-- `decompress` of container/codec.rs. The decoders are third-party code: `stream codec src cap` is
-- what one yields, or nothing on an error or past the cap.
pub mod Backing
use mathlib.Core.Option
use reclaim.Prelude.{
  ℕ, zero, suc, ◌+◌, ◌-◌, ◌*◌, ◌/◌, ◌%◌, ◌^◌, min, max, Bool, true, false, not, ◌||◌, Option, none,
  some, List, [], ltb, leb, ◌==◌, if◌then◌else◌, length, get_elem?, replicate, sat_add, sat_mul,
  div_ceil, is_multiple_of, slice, for_range, copy_slice,
}
use reclaim.Block.Source.{
  ReadResult, SectorStatus, BlockSource, all_good_result, mark_bad, mark_all_bad, status,
}
use reclaim.Block.Segments.{Codec, Piece, Segment, seg_for}
use reclaim.Block.Segments.Cache
use reclaim.Block.Segments.Cache.{DecodeCache}

-- `r.status(i) == Good` for all of `first..=last`, as `n` sectors from `first` on.
pub sectors_good : ReadResult → ℕ → ℕ → Bool
sectors_good r zero first = true
sectors_good r (suc n) first = elim (status r first) [
  | SectorStatus.good ↦ sectors_good r n (first + 1)
  | _ ↦ false
]

-- The bytes read, or nothing where the code returns false and leaves `dst` alone.
pub read_backing_unaligned : BlockSource → ℕ → ℕ → Option (List ℕ)
read_backing_unaligned backing at n =
    let ss = max backing.sector_size 1 in
    let start = at - at % ss in
    let stop = sat_add at n in
    let end_al = min (sat_mul (div_ceil stop ss) ss) backing.len in
    let (r, tmp) = backing.read_at start (replicate (end_al - start) 0) in
    let first = (at - start) / ss in
    let last = (stop - 1 - start) / ss in
    if n == 0
    then some []
    else if ltb end_al stop
    then none
    else if sectors_good r (last + 1 - first) first
    then slice (at - start) n tmp
    else none

abbrev pub max_block_out : ℕ
max_block_out = 64 * 1024 * 1024

pub record Mapped : Type 0 where
  pub backing : BlockSource
  pub segs : List Segment
  pub out_len : ℕ
  pub sector_size : ℕ

-- `mark_bad_range`
pub mark_bad_range : ReadResult → ℕ → ℕ → ℕ → ReadResult
mark_bad_range res ss start len =
    let first = start / ss in
    let last = (sat_add start len - 1) / ss in
    if len == 0
    then res
    else for_range (last + 1 - first) first
        (λ i r. if ltb i r.sector_count then mark_bad r i else r) res

-- What a read leaves behind: its outcome, the buffer and the cache.
pub record Filling : Type 0 where
  pub res : ReadResult
  pub buf : List ℕ
  pub cache : DecodeCache

module _ (stream : Codec → List ℕ → ℕ → Option (List ℕ)) where
  pub decoded_stream : Codec → List ℕ → ℕ → Option (List ℕ)
  decoded_stream Codec.zeros src out_len = some (replicate out_len 0)
  decoded_stream Codec.raw src out_len = slice 0 out_len src
  decoded_stream codec src out_len = stream codec src (sat_add (min out_len max_block_out) 1)

  pub decompress : Codec → List ℕ → ℕ → Option (List ℕ)
  decompress codec src out_len =
      if ltb max_block_out out_len then none else elim (decoded_stream codec src out_len) [
        | none ↦ none
        | some out ↦ if length out == out_len then some out else none
      ]

  -- A block that is not in the cache: read, decoded and put there.
  pub decode_block :
      Mapped → ℕ → Segment → Codec → ℕ → ℕ → DecodeCache → Option (List ℕ) × DecodeCache
  decode_block m idx seg codec pos clen c =
      let avail = m.backing.len - pos in
      let max_clen = sat_add (sat_add seg.out_len (seg.out_len / 8)) (2 ^ 20) in
      elim (read_backing_unaligned m.backing pos (min (min clen avail) max_clen)) [
        | none ↦ (none, c)
        | some comp ↦ elim (decompress codec comp seg.out_len) [
          | none ↦ (none, c)
          | some block ↦ (some block, Cache.put c idx block)
        ]
      ]

  pub decoded_block : Mapped → ℕ → Segment → DecodeCache → Option (List ℕ) × DecodeCache
  decoded_block m idx seg c = elim seg.piece [
    | Piece.zero_fill ↦ (none, c)
    | Piece.raw pos ↦ (none, c)
    | Piece.compressed codec pos clen ↦
        let (cached, c') = Cache.get c idx in
        elim cached [ some hit ↦ (some hit, c') | none ↦ decode_block m idx seg codec pos clen c' ]
  ]

  -- The bytes of a segment from `within` on, or nothing on a failure.
  pub fill_from_segment : Mapped → ℕ → Segment → ℕ → ℕ → DecodeCache → Option (List ℕ) × DecodeCache
  fill_from_segment m idx seg within n c = elim seg.piece [
    | Piece.zero_fill ↦ (some (replicate n 0), c)
    | Piece.raw pos ↦ (read_backing_unaligned m.backing (sat_add pos within) n, c)
    | Piece.compressed codec pos clen ↦
        let (decoded, c') = decoded_block m idx seg c in
        elim decoded [ none ↦ (none, c') | some block ↦ (slice within n block, c') ]
  ]

  -- One piece of the request: its bytes at `done`, or its sectors marked bad.
  pub fill_piece : Mapped → ℕ → Segment → ℕ → ℕ → ℕ → Filling → Filling
  fill_piece m idx seg within want done s =
      let (bytes, c') = fill_from_segment m idx seg within want s.cache in
      elim bytes [
        | some out ↦ record { res = s.res; buf = copy_slice s.buf done want (some out); cache = c' }
        | none ↦ record {
          res = mark_bad_range s.res m.sector_size done want;
          buf = s.buf;
          cache = c';
        }
      ]

  pub mark_rest : Mapped → ℕ → ℕ → Filling → Filling
  mark_rest m total done s = record s {
    res = mark_bad_range s.res m.sector_size done (total - done);
  }

  -- The `while done < total` loop, on the rounds that are left; each takes a byte at least.
  pub fill_loop : Mapped → ℕ → ℕ → ℕ → ℕ → Filling → Filling
  fill_loop m offset total zero done s = s
  fill_loop m offset total (suc left) done s =
      let cur = sat_add offset done in
      if leb total done
      then s
      else if leb m.out_len cur
      then mark_rest m total done s
      else elim (seg_for m.segs cur) [
        | none ↦ mark_rest m total done s
        | some idx ↦ elim (get_elem? m.segs idx) [
          | none ↦ mark_rest m total done s
          | some seg ↦
              let within = cur - seg.out_start in
              let want = min (seg.out_len - within) (total - done) in
              fill_loop m offset total left (done + want) (fill_piece m idx seg within want done s)
        ]
      ]

  pub read_at : Mapped → ℕ → List ℕ → DecodeCache → Filling
  read_at m offset buf c =
      let count = div_ceil (length buf) m.sector_size in
      let good = all_good_result m.sector_size count in
      let fresh : Filling = record { res = good; buf = replicate (length buf) 0; cache = c } in
      if length buf == 0
      then fresh
      else if not (is_multiple_of offset m.sector_size) || leb m.out_len offset
      then record { res = mark_all_bad count good; buf = replicate (length buf) 0; cache = c }
      else fill_loop m offset (length buf) (length buf) 0 fresh
