-- ===== src/Tests/Iso.antt =====
-- The theorem on the walk of an ISO 9660 volume at a concrete input.
use reclaim.Prelude.{true, false, none, [], ◌∷◌, ◌++◌, replicate}
use reclaim.Block.Memory.{MemorySource, source}
use reclaim.FsCore.Types.{WalkOpts}
use reclaim.Iso.Volume.{Iso}
use reclaim.Iso.Walk.{walk}
use reclaim.Iso.Walk.Bounds.{IsListing, walk-IsListing}

-- Two sectors, the second a directory with one file, `A.;1`.
disc : MemorySource
disc = record {
  bytes =
      replicate 2048 0
      ++ (38 ∷ 0 ∷ 1 ∷ 0 ∷ 0 ∷ 0 ∷ 0 ∷ 0 ∷ 0 ∷ 0 ∷ 9 ∷ 0 ∷ 0 ∷ 0 ∷ [])
      ++ replicate 18 0
      ++ (4 ∷ b'A' ∷ b'.' ∷ b';' ∷ b'1' ∷ 0 ∷ []);
  sector_size = 2048;
}

iso : Iso
iso = record {
  src = source disc;
  block_size = 2048;
  root_lba = 1;
  root_len = 2048;
  joliet = false;
  label = none;
  is_udf = false;
}

opts : WalkOpts
opts = record {
  include_live = true;
  include_deleted = false;
  max_entries = 10;
  include_system_volume = false;
}

walk-IsListing_example : IsListing opts (walk iso opts)
walk-IsListing_example = walk-IsListing iso opts
