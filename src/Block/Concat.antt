-- ===== src/Block/Concat.antt =====
-- crates/reclaim-block/src/container/concat.rs: several sources end to end.
pub mod Layout
use reclaim.Prelude.{
  ℕ, zero, suc, ◌+◌, ◌-◌, ◌*◌, ◌%◌, min, max, not, ◌&&◌, ◌||◌, Option, none, some, List, [], ◌∷◌,
  ltb, leb, ◌==◌, if◌then◌else◌, length, take, drop, replicate, sat_add, div_ceil, is_multiple_of,
  overwrite, for_range,
}
use reclaim.Block.Segments.Read.{mark_bad_range}
use reclaim.Block.Source.{
  ReadResult, SectorStatus, all_good_result, mark_all_bad, status, all_good, BlockSource,
}

-- The record `Part` of the file.
pub record ConcatPart : Type 0 where
  pub src : BlockSource
  pub start : ℕ
  pub len : ℕ

pub record ConcatSource : Type 0 where
  pub parts : List ConcatPart
  pub total : ℕ
  pub sector_size : ℕ

-- The loop of `new`: the parts with their place, and where the last one ends.
pub place_parts : ℕ → List BlockSource → ℕ → List ConcatPart × ℕ
place_parts ss [] cursor = ([], cursor)
place_parts ss (p ∷ rest) cursor =
    let plen = p.len - p.len % ss in
    let (list, stop) = place_parts ss rest (if plen == 0 then cursor else sat_add cursor plen) in
    if plen == 0
    then (list, stop)
    else (record { src = p; start = cursor; len = plen } ∷ list, stop)

pub first_sector_size : List BlockSource → ℕ
first_sector_size [] = 512
first_sector_size (p ∷ rest) = max p.sector_size 1

pub new : List BlockSource → ConcatSource
new parts =
    let ss = first_sector_size parts in
    let (list, stop) = place_parts ss parts 0 in
    record { parts = list; total = stop; sector_size = ss }

-- `parts.iter().find(|p| cur >= p.start && cur < p.start + p.len)`
pub find_part : List ConcatPart → ℕ → Option ConcatPart
find_part [] cur = none
find_part (p ∷ rest) cur =
    if leb p.start cur && ltb cur (p.start + p.len) then some p else find_part rest cur

-- One sector of a part's outcome, which begins at byte `done` of the request.
pub carry_status : ReadResult → ℕ → ℕ → ℕ → ReadResult → ReadResult
carry_status r ss done i res = elim (status r i) [
  | SectorStatus.good ↦ res
  | _ ↦ mark_bad_range res ss (done + i * ss) ss
]

-- What a part returned for the bytes from `done` on.
pub take_part : ConcatPart → ℕ → ℕ → ℕ → ℕ → ReadResult × List ℕ → ReadResult × List ℕ
take_part p ss within want done (res, buf) =
    let (r, bytes) = p.src.read_at within (take want (drop done buf)) in
    (
      if all_good r then res else for_range r.sector_count 0 (carry_status r ss done) res,
      overwrite buf done bytes,
    )

-- The `while done < total` loop, on the rounds that are left; each takes a byte at least.
pub read_parts : ConcatSource → ℕ → ℕ → ℕ → ℕ → ReadResult × List ℕ → ReadResult × List ℕ
read_parts c offset total zero done s = s
read_parts c offset total (suc left) done s =
    let cur = sat_add offset done in
    let rest : ReadResult × List ℕ = (mark_bad_range s.0 c.sector_size done (total - done), s.1) in
    if leb total done then s else if leb c.total cur then rest else elim (find_part c.parts cur) [
      | none ↦ rest
      | some p ↦
          let within = cur - p.start in
          let want = min (p.len - within) (total - done) in
          read_parts c offset total left (done + want)
            (take_part p c.sector_size within want done s)
    ]

pub read_at : ConcatSource → ℕ → List ℕ → ReadResult × List ℕ
read_at c offset buf =
    let count = div_ceil (length buf) c.sector_size in
    let good = all_good_result c.sector_size count in
    let zeroed = replicate (length buf) 0 in
    if length buf == 0
    then (good, zeroed)
    else if not (is_multiple_of offset c.sector_size) || leb c.total offset
    then (mark_all_bad count good, zeroed)
    else read_parts c offset (length buf) (length buf) 0 (good, zeroed)

pub source : ConcatSource → BlockSource
source c = record {
  len = c.total;
  sector_size = c.sector_size;
  physical_sector_size = c.sector_size;
  read_at = read_at c;
}
