-- ===== src/Tests/Image.antt =====
-- The theorems of virtual images, of the imager and of the allocation bitmap at concrete inputs.
use reclaim.Prelude.{
  ℕ, ◌≤◌, ◌<◌, ◌≡◌, refl, true, false, none, some, List, [], ◌∷◌, arith, length, get_elem?, u64_max,
}
use reclaim.Tests.Data.{medium, medium_source}
use reclaim.Block.Memory
use reclaim.Block.Segments.Cache
use reclaim.Block.Segments.Cache.{DecodeCache, lookup, new, get, put}
use reclaim.Block.Segments.Cache.Laws.{get-put}
use reclaim.Block.Segments.Read.{read_backing_unaligned}
use reclaim.Block.Segments.Read.Backing.{stored_bytes, read_backing_unaligned_lem}
use reclaim.Block.Concat
use reclaim.Block.Concat.{ConcatPart, source}
use reclaim.Block.Concat.Layout.{LaidOut, sum_len, new-LaidOut}
use reclaim.Imaging.Types.{HashAlgo, Compression}
use reclaim.Imaging.Imager.{Job, Progress, Outcome, chunk_len, image_loop}
use reclaim.Imaging.Imager.Chunks.{Writes, final_hash, image_loop_lem}
use reclaim.FsCore.Bitmap.{Bitmap, unallocated_fraction}
use reclaim.FsCore.Bitmap.Count.{free_points, unallocated_fraction_lem}

-- A cache for one block, which holds that of segment 3.
one_block : DecodeCache
one_block = record { cap = 1; order = 3 ∷ []; map = (3, 30 ∷ []) ∷ [] }

get-put_example : (Cache.get (Cache.put one_block 5 (50 ∷ [])) 5).0 ≡ some (50 ∷ [])
get-put_example = get-put one_block 5 (50 ∷ [])

absent : lookup one_block.map 5 ≡ none
unfolding one_block lookup
absent = refl

read_backing_unaligned_lem_example :
    read_backing_unaligned medium_source 3 4 ≡ stored_bytes medium.bytes 3 4
read_backing_unaligned_lem_example =
    read_backing_unaligned_lem medium 3 4 (omega arith) (omega arith)

sizes : sum_len (medium_source ∷ medium_source ∷ []) ≤ u64_max
unfolding Memory.source
sizes = omega arith

new-LaidOut_example :
    let c = Concat.new (medium_source ∷ medium_source ∷ []) in
    LaidOut c.sector_size 0 c.parts c.total
new-LaidOut_example = new-LaidOut (medium_source ∷ medium_source ∷ []) sizes

two_parts : List ConcatPart
two_parts =
    record { src = medium_source; start = 0; len = 8 }
    ∷ record { src = medium_source; start = 8; len = 8 }
    ∷ []

two_parts-LaidOut : LaidOut 4 0 two_parts 16
unfolding two_parts Memory.source
two_parts-LaidOut =
    (refl, omega arith, refl, omega arith, (refl, omega arith, refl, omega arith, refl))

-- Imaging ten bytes in chunks of four, where the second chunk is done already.
job : Job
job = record {
  hash = λ algo bytes. "hash";
  compress = λ bytes. some bytes;
  fails = λ offset bytes. false;
  cancel = λ i. false;
  src = medium_source;
  opts = record {
    chunk_size = 4;
    retries = 2;
    reverse_pass = false;
    sparse = true;
    compression = Compression.uncompressed;
    hash_algo = HashAlgo.blake3;
    resume = true;
  };
  sector = 4;
  size = 10;
  chunk_size = 4;
  algo = HashAlgo.blake3;
}

resumed : Progress
resumed = record {
  map = record {
    size = 10;
    sector_size = 4;
    chunk_size = 4;
    hash_algo = HashAlgo.blake3;
    compression = Compression.uncompressed;
    frames = [];
    chunk_hashes = none ∷ some "old" ∷ none ∷ [];
    whole_hash = none;
    bad = [];
    unread = [];
    complete = false;
  };
  dest = record {
    file = [];
    compression = Compression.uncompressed;
    sparse = true;
    append_cursor = 0;
    frames = [];
  };
  bad_total = 0;
  since_checkpoint = 0;
}

job-Writes : Writes job
unfolding job
job-Writes = record { accepts = λ offset bytes. refl; packs = λ bytes. (bytes, refl) }

never : (k : ℕ) → job.cancel k ≡ false
unfolding job
never k = refl

chunks_inside : (k : ℕ) → k < length resumed.map.chunk_hashes → 0 < chunk_len job k
unfolding job resumed chunk_len
chunks_inside k lt = omega arith

third : 2 < length resumed.map.chunk_hashes
unfolding resumed
third = omega arith

image_loop_lem_example :
    (p' : Progress) × (image_loop job (length resumed.map.chunk_hashes) 0 resumed
      ≡ Outcome.finished p')
    × (get_elem? p'.map.chunk_hashes 2 ≡ final_hash job resumed 2)
image_loop_lem_example = image_loop_lem job resumed 2 never job-Writes chunks_inside third

-- Sixteen clusters of four bytes from byte 8 on; the first three are in use.
bitmap : Bitmap
bitmap = record { block_size = 4; base_offset = 8; block_count = 16; bits = 7 ∷ 0 ∷ [] }

bitmap_size : bitmap.block_size ≡ 4
unfolding bitmap
bitmap_size = refl

unallocated_fraction_lem_example : unallocated_fraction bitmap 16 8 ≡ (free_points bitmap 2 4, 2)
unfolding bitmap
unallocated_fraction_lem_example =
    unallocated_fraction_lem bitmap 16 8 (omega arith) (omega arith) (omega arith)
