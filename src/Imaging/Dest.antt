-- ===== src/Imaging/Dest.antt =====
-- crates/reclaim-block/src/imaging/dest.rs: the image file. A file is its bytes. `compress` is the
-- third-party compressor, and `fails` tells which writes the system refuses.
use reclaim.Prelude.{
  ℕ, ◌+◌, ◌-◌, min, max, Bool, true, ◌&&◌, Option, none, some, List, [], ◌∷◌, ◌++◌, ◌==◌,
  if◌then◌else◌, length, take, replicate, u32_max, overwrite,
}
use reclaim.Imaging.Types.{Compression, FrameEntry}

pub record ImageDest : Type 0 where
  pub file : List ℕ
  pub compression : Compression
  pub sparse : Bool
  pub append_cursor : ℕ
  pub frames : List FrameEntry

pub create : Compression → Bool → ImageDest
create compression sparse = record {
  file = [];
  compression = compression;
  sparse = sparse;
  append_cursor = 0;
  frames = [];
}

-- `frames.iter().map(|f| f.file_offset + f.compressed).max()`
pub frames_end : List FrameEntry → ℕ
frames_end [] = 0
frames_end (f ∷ fs) = max (f.file_offset + f.compressed_len) (frames_end fs)

pub open_append : List ℕ → Compression → Bool → List FrameEntry → ImageDest
open_append file compression sparse frames = record {
  file = file;
  compression = compression;
  sparse = sparse;
  append_cursor = elim compression [
    | Compression.zstd ↦ frames_end frames
    | Compression.uncompressed ↦ 0
  ];
  frames = frames;
}

-- `bytes.iter().all(|b| *b == 0)`
pub all_zeros : List ℕ → Bool
all_zeros [] = true
all_zeros (b ∷ bs) = b == 0 && all_zeros bs

-- `write_all_at`: a write past the end fills the gap with zeros.
pub write_all_at : List ℕ → ℕ → List ℕ → List ℕ
write_all_at file offset bytes =
    overwrite (file ++ replicate (offset + length bytes - length file) 0) offset bytes

module _ (compress : List ℕ → Option (List ℕ)) (fails : ℕ → List ℕ → Bool) where
  unfoldable pub write_raw : ImageDest → ℕ → List ℕ → Option ImageDest
  write_raw d image_offset bytes =
      if d.sparse && all_zeros bytes
      then some d
      else if fails image_offset bytes
      then none
      else some (record d { file = write_all_at d.file image_offset bytes })

  unfoldable pub write_frame : ImageDest → ℕ → List ℕ → Option ImageDest
  write_frame d image_offset bytes = elim (compress bytes) [
    | none ↦ none
    | some packed ↦
        if fails d.append_cursor packed
        then none
        else some (record d {
          file = write_all_at d.file d.append_cursor packed;
          append_cursor = d.append_cursor + length packed;
          frames =
              d.frames
              ++ (record {
                image_offset = image_offset;
                file_offset = d.append_cursor;
                uncompressed_len = min (length bytes) u32_max;
                compressed_len = min (length packed) u32_max;
              }
                  ∷ []);
        })
  ]

  unfoldable pub write_chunk : ImageDest → ℕ → List ℕ → Option ImageDest
  write_chunk d image_offset bytes = elim d.compression [
    | Compression.uncompressed ↦ write_raw d image_offset bytes
    | Compression.zstd ↦ write_frame d image_offset bytes
  ]

-- `file.set_len(size)`, for raw output.
pub set_logical_len : ImageDest → ℕ → ImageDest
set_logical_len d size = elim d.compression [
  | Compression.uncompressed ↦ record d {
    file = take size (d.file ++ replicate (size - length d.file) 0);
  }
  | Compression.zstd ↦ d
]
