-- ===== src/Imaging/Types.antt =====
-- crates/reclaim-block/src/imaging/map.rs: the sidecar map of an image. Identity strings and the
-- hashes of the first and last MiB are left out.
use Prim.Native.String.{String}
use reclaim.Prelude.{
  ℕ, max, Bool, true, false, Option, none, some, List, [], ◌∷◌, length, get_elem?, replicate,
  div_ceil,
}
use reclaim.Block.BadBlock.{LbaRange, total_count}

pub data HashAlgo : Type 0 where
  blake3 sha256 : HashAlgo

pub data Compression : Type 0 where
  uncompressed zstd : Compression

pub record FrameEntry : Type 0 where
  pub image_offset : ℕ
  pub file_offset : ℕ
  pub uncompressed_len : ℕ
  pub compressed_len : ℕ

pub record ImageMap : Type 0 where
  pub size : ℕ
  pub sector_size : ℕ
  pub chunk_size : ℕ
  pub hash_algo : HashAlgo
  pub compression : Compression
  pub frames : List FrameEntry
  pub chunk_hashes : List (Option String)
  pub whole_hash : Option String
  pub bad : List LbaRange
  pub unread : List LbaRange
  pub complete : Bool

pub new : ℕ → ℕ → ℕ → HashAlgo → Compression → ImageMap
new size sector_size chunk_size hash_algo compression = record {
  size = size;
  sector_size = sector_size;
  chunk_size = chunk_size;
  hash_algo = hash_algo;
  compression = compression;
  frames = [];
  chunk_hashes = replicate (div_ceil size (max chunk_size 1)) none;
  whole_hash = none;
  bad = [];
  unread = [];
  complete = false;
}

pub num_chunks : ImageMap → ℕ
num_chunks m = length m.chunk_hashes

-- `chunk_hashes.get(i).map(Option::is_some).unwrap_or(false)`
pub is_some : Option (Option String) → Bool
is_some none = false
is_some (some none) = false
is_some (some (some h)) = true

unfoldable pub is_chunk_done : ImageMap → ℕ → Bool
unfolding is_some
is_chunk_done m i = is_some (get_elem? m.chunk_hashes i)

pub bad_sectors : ImageMap → ℕ
bad_sectors m = total_count m.bad

-- `chunk_hashes.iter().all(Option::is_some)`
pub all_some : List (Option String) → Bool
all_some [] = true
all_some (none ∷ rest) = false
all_some (some h ∷ rest) = all_some rest
