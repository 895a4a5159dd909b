-- ===== src/Imaging/Imager.antt =====
-- crates/reclaim-block/src/imaging/imager.rs: the retries of bad sectors and the loop over the
-- chunks.
pub mod Chunks
use Prim.Native.String.{String}
use reclaim.Prelude.{
  ℕ, zero, suc, ◌+◌, ◌-◌, ◌*◌, ◌/◌, min, max, Bool, true, false, not, Option, none, some, List, [],
  ◌∷◌, ◌++◌, leb, ◌==◌, if◌then◌else◌, length, set, replicate, u32_max, div_ceil, slice, copy_slice,
}
use reclaim.Block.Source
use reclaim.Block.Source.{BlockSource, SectorStatus, status, any_bad}
use reclaim.Block.BadBlock.{LbaRange, coalesce}
use reclaim.Imaging.Types.{HashAlgo, ImageMap, Compression, is_chunk_done, all_some}
use reclaim.Imaging.Dest.{ImageDest, write_chunk, set_logical_len}

pub record ImageOptions : Type 0 where
  pub chunk_size : ℕ
  pub retries : ℕ
  pub reverse_pass : Bool
  pub sparse : Bool
  pub compression : Compression
  pub hash_algo : HashAlgo
  pub resume : Bool

-- `round_up` on `u32`
pub round_up : ℕ → ℕ → ℕ
round_up v m = min (div_ceil v (max m 1) * max m 1) u32_max

-- The `for _ in 0..retries.max(1)` loop on the buffer of one sector, on the rounds that are left:
-- the sector's bytes once it reads well.
pub try_sector : BlockSource → ℕ → ℕ → List ℕ → Option (List ℕ)
try_sector src sub_off zero sub = none
try_sector src sub_off (suc left) sub =
    let (r, sub') = src.read_at sub_off sub in
    let again = try_sector src sub_off left sub' in
    elim (status r 0) [ SectorStatus.good ↦ some sub' | _ ↦ again ]

-- Whether the sector reads now, and the chunk's buffer with its bytes.
pub retry_sector : BlockSource → ℕ → ℕ → ℕ → ℕ → List ℕ → Bool × List ℕ
retry_sector src chunk_offset sector_idx sector retries buf =
    let start = sector_idx * sector in
    let stop = min (start + sector) (length buf) in
    elim (try_sector src (chunk_offset + start) (max retries 1) (replicate sector 0)) [
      | none ↦ (false, buf)
      | some sub ↦ (
        true,
        if leb start stop
            then copy_slice buf start (stop - start) (slice 0 (stop - start) sub)
            else buf,
      )
    ]

-- `for s in sectors { if !retry_sector(..) { still_bad.push(s) } }`
pub retry_each : BlockSource → ℕ → ℕ → ℕ → List ℕ → List ℕ → List ℕ → List ℕ × List ℕ
retry_each src offset sector retries [] buf still = (still, buf)
retry_each src offset sector retries (s ∷ rest) buf still =
    let (well, buf') = retry_sector src offset s sector retries buf in
    retry_each src offset sector retries rest buf' (if well then still else still ++ (s ∷ []))

pub reversed : List ℕ → List ℕ
reversed [] = []
reversed (s ∷ rest) = reversed rest ++ (s ∷ [])

-- The sectors of a chunk that stay bad, and its bytes.
pub read_chunk : BlockSource → ImageOptions → ℕ → ℕ → ℕ → List ℕ × List ℕ
read_chunk src opts sector offset len =
    let (rr, buf) = src.read_at offset (replicate len 0) in
    let (still, buf') = retry_each src offset sector opts.retries (Source.bad_sectors rr) buf [] in
    if not (any_bad rr)
    then ([], buf)
    else if opts.reverse_pass
    then retry_each src offset sector 1 (reversed still) buf' []
    else (still, buf')

pub record Progress : Type 0 where
  pub map : ImageMap
  pub dest : ImageDest
  pub bad_total : ℕ
  pub since_checkpoint : ℕ

-- `map.bad.push(LbaRange { start: lba, count: 1 })` for each sector.
pub bad_runs : ℕ → List ℕ → List LbaRange
bad_runs first_lba [] = []
bad_runs first_lba (s ∷ rest) =
    record { start = first_lba + s; count = 1 } ∷ bad_runs first_lba rest

-- A checkpoint every 64 chunks; the map is saved there, and a failure to save it is ignored.
pub checkpoint : Progress → Progress
checkpoint p =
    if leb 64 p.since_checkpoint
    then record p {
      map = record p.map { frames = p.dest.frames; bad = coalesce p.map.bad };
      since_checkpoint = 0;
    }
    else p

pub data Outcome : Type 0 where
  io_error : Outcome
  cancelled : Progress → Outcome
  finished : Progress → Outcome

-- What a run of `image` works with: the digest and the compressor, which are third-party code, the
-- writes that the system refuses, the flag as each round sees it, and the arguments.
pub record Job : Type 0 where
  pub hash : HashAlgo → List ℕ → String
  pub compress : List ℕ → Option (List ℕ)
  pub fails : ℕ → List ℕ → Bool
  pub cancel : ℕ → Bool
  pub src : BlockSource
  pub opts : ImageOptions
  pub sector : ℕ
  pub size : ℕ
  pub chunk_size : ℕ
  pub algo : HashAlgo

-- The code subtracts 64-bit numbers: a chunk of a map that starts past the end of the source, which
-- would wrap around there, has no bytes here.
unfoldable pub chunk_len : Job → ℕ → ℕ
chunk_len job i = min (job.size - i * job.chunk_size) job.chunk_size

-- A chunk that was read, in the map and in the destination that was written.
pub record_chunk : Job → ℕ → List ℕ × List ℕ → Progress → ImageDest → Progress
record_chunk job i (still, buf) p dest = record {
  map = record p.map {
    chunk_hashes = set p.map.chunk_hashes i (some (job.hash job.algo buf));
    bad = p.map.bad ++ bad_runs (i * job.chunk_size / job.sector) still;
  };
  dest = dest;
  bad_total = p.bad_total + length still;
  since_checkpoint = p.since_checkpoint + 1;
}

-- A chunk is read, hashed and written.
pub image_chunk : Job → ℕ → Progress → Option Progress
image_chunk job i p =
    let read = read_chunk job.src job.opts job.sector (i * job.chunk_size) (chunk_len job i) in
    elim (write_chunk job.compress job.fails p.dest (i * job.chunk_size) read.1) [
      | none ↦ none
      | some dest ↦ some (checkpoint (record_chunk job i read p dest))
    ]

-- The `for i in 0..num` loop, on the rounds that are left.
pub image_loop : Job → ℕ → ℕ → Progress → Outcome
image_loop job zero i p = Outcome.finished p
image_loop job (suc left) i p =
    if job.cancel i
    then Outcome.cancelled (record p { map = record p.map { frames = p.dest.frames } })
    else if is_chunk_done p.map i
    then image_loop job left (i + 1) p
    else if chunk_len job i == 0
    then Outcome.finished p
    else elim (image_chunk job i p) [
      | none ↦ Outcome.io_error
      | some p' ↦ image_loop job left (i + 1) p'
    ]

-- What is done once the loop is over, but for the hashes of the whole image.
pub finalize : ℕ → Progress → Progress
finalize size p =
    let dest = set_logical_len p.dest size in
    record p {
      dest = dest;
      map = record p.map {
        frames = dest.frames;
        bad = coalesce p.map.bad;
        complete = all_some p.map.chunk_hashes;
      };
    }
