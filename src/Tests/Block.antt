-- ===== src/Tests/Block.antt =====
-- The theorems of the block layer at concrete inputs.
use reclaim.Prelude.{
  ℕ, ◌+◌, ◌≤◌, ◌<◌, ◌≡◌, refl, true, false, ◌||◌, some, [], ◌∷◌, arith, ltb, if◌then◌else◌, length,
  get_or, replicate, u64_max, div_ceil,
}
use reclaim.Tests.Data.{medium, buffer, medium_source, failing, window, runs, known}
use reclaim.Block.Bitset
use reclaim.Block.Bitset.Laws.{new-IsValid}
use reclaim.Block.Bitset.Count.{count_ones-length-iter_set}
use reclaim.Block.Source.{BlockSource, SectorStatus, status, all_good_result}
use reclaim.Block.Source.Contract.{IsSource, KeepsContract}
use reclaim.Block.Memory
use reclaim.Block.Memory.Reads.{memory_byte, source-IsSource}
use reclaim.Block.Memory.Contract.{memory-KeepsContract}
use reclaim.Block.BadBlock.{is_bad, add_bad, add_bad_range, any_contains, coalesce, in_ranges}
use reclaim.Block.BadBlock.Lookup.{is_bad-add_bad, is_bad-add_bad_range, in_ranges-coalesce}
use reclaim.Block.View
use reclaim.Block.View.{ok, read_at, source}
use reclaim.Block.View.Window.{AgreeOn, read_at-confined}
use reclaim.Block.View.Zeros.{KeepsUncut, view-KeepsUncut}
use reclaim.Block.Fault
use reclaim.Block.Fault.Injected.{faulty, fault_byte, fault_status}
use reclaim.Block.Segments.{Piece, SegmentMap, push, seg_for}
use reclaim.Block.Segments.Build.{origin_at, extended, push-origin_at}
use reclaim.Block.Segments.Search.{Holds, seg_for_lem}

memory_byte_example : get_or (Memory.read_at medium 4 buffer).1 5 0 ≡ 31
memory_byte_example = memory_byte medium 4 buffer 5 (omega arith) refl (omega arith) (omega arith)

medium-IsSource : IsSource medium_source
medium-IsSource = source-IsSource medium (omega arith)

memory-KeepsContract_example : KeepsContract medium_source
memory-KeepsContract_example = memory-KeepsContract medium (omega arith)

fault_byte_example :
    get_or (Fault.read_at failing 0 buffer).1 5 0
    ≡ (if faulty failing 0 1 then 0 else get_or (medium_source.read_at 0 buffer).1 5 0)
unfolding Memory.source
fault_byte_example = fault_byte failing 0 buffer 5 medium-IsSource (omega arith)

two_sectors : 1 < (medium_source.read_at 0 buffer).0.sector_count
unfolding Memory.source
two_sectors = omega (arith, IsSource.counts medium-IsSource 0 buffer)

fault_status_example :
    status (Fault.read_at failing 0 buffer).0 1
    ≡ (if faulty failing 0 1 then SectorStatus.bad else status (medium_source.read_at 0 buffer).0 1)
unfolding Memory.source
fault_status_example = fault_status failing 0 buffer 1 medium-IsSource two_sectors

-- A medium whose reads below byte 4 yield the given byte, and nines from there on.
patched : ℕ → BlockSource
patched low = record {
  len = 8;
  sector_size = 4;
  physical_sector_size = 4;
  read_at = λ offset buf. (
    all_good_result 4 (div_ceil (length buf) 4),
    replicate (length buf) (if ltb offset 4 then low else 9),
  );
}

patched-AgreeOn : AgreeOn 4 (4 + 4) (patched 1) (patched 2)
unfolding patched
patched-AgreeOn = record {
  sectors = refl;
  reads = λ offset buf lo hi. let above : ltb offset 4 ≡ false = ground arith in rw above refl;
}

read_at-confined_example :
    View.read_at (record { inner = patched 1; start = 4; len = 4 }) 0 buffer
    ≡ View.read_at (record { inner = patched 2; start = 4; len = 4 }) 0 buffer
unfolding patched
read_at-confined_example =
    read_at-confined (patched 1) (patched 2) 4 4 refl patched-AgreeOn 0 buffer

opened : View.new medium_source 4 4 ≡ ok window
unfolding View.new Memory.source
opened = refl

view-KeepsUncut_example : KeepsUncut window
unfolding Memory.source
view-KeepsUncut_example =
    view-KeepsUncut window (memory-KeepsContract medium (omega arith)) (omega arith)

runs_Starts : (3 ≤ u64_max) × (3 ≤ u64_max)
runs_Starts = (omega arith, omega arith)

is_bad-add_bad_example : is_bad (add_bad known 20) 8 ≡ (is_bad known 8 || false)
is_bad-add_bad_example = is_bad-add_bad known 20 8 (omega arith, (omega arith, tt)) (omega arith)

is_bad-add_bad_range_example : is_bad (add_bad_range known 20 4) 22 ≡ (is_bad known 22 || true)
is_bad-add_bad_range_example =
    is_bad-add_bad_range known 20 4 22 (omega arith, (omega arith, tt)) (omega arith)

in_ranges-coalesce_example : in_ranges (coalesce runs) 4 ≡ any_contains runs 4
in_ranges-coalesce_example = in_ranges-coalesce runs 4 (omega arith, (omega arith, tt))

count_ones-length-iter_set_example :
    Bitset.count_ones (Bitset.new 100) ≡ length (Bitset.iter_set (Bitset.new 100))
count_ones-length-iter_set_example = count_ones-length-iter_set (Bitset.new 100) (new-IsValid 100)

-- An image of a hole and of eight bytes of the backing store.
image : SegmentMap
image = record {
  segs =
      record { out_start = 0; out_len = 4; piece = Piece.zero_fill }
      ∷ record { out_start = 4; out_len = 8; piece = Piece.raw 100 }
      ∷ [];
  next_out = 12;
}

push-origin_at_example :
    origin_at (push image 4 (Piece.raw 108)).segs 13
    ≡ extended image.segs image.next_out 4 (Piece.raw 108) 13
unfolding image
push-origin_at_example =
    push-origin_at image 4 (Piece.raw 108) 13 (refl, omega arith, (refl, omega arith, refl))
      (omega arith) (omega arith)

seg_for_lem_example : (i : ℕ) × (seg_for image.segs 5 ≡ some i) × Holds image.segs 5 i
unfolding image
seg_for_lem_example =
    seg_for_lem image.segs 12 5 (refl, omega arith, (refl, omega arith, refl)) (omega arith)
      (omega arith)
