-- ===== src/Block/View/Window.antt =====
-- A window of offset_view.rs reads nothing of its parent outside `[start, start + len)`.
use reclaim.Prelude.{
  ℕ, ◌+◌, ◌-◌, ◌≤◌, min, max, ◌≡◌, ◌⊎◌, true, List, arith, length, take, length-take,
  is_multiple_of,
}
use reclaim.Block.Source.{BlockSource, align_down}
use reclaim.Block.Source.Align.{align_down-aligned}
use reclaim.Block.View.{ok, OffsetView, new, read_clipped, read_at}

-- A view that could be opened holds the source, the start and the length it was opened with, lies
-- inside the source and starts at a sector, unless the source has sector size zero.
pub new_lem :
    (inner : BlockSource) (start len : ℕ) {v : OffsetView}
    → new inner start len ≡ ok v
    → (v.inner ≡ inner)
      × (v.start ≡ start)
      × (v.len ≡ len)
      × (start + len ≤ inner.len)
      × ((inner.sector_size ≡ 0) ⊎ (is_multiple_of start inner.sector_size ≡ true))
unfolding new
new_lem inner start len e = ground arith

-- Two parents are alike on `[lo, hi)` if they answer alike each request inside it.
pub record AgreeOn (lo hi : ℕ) (a b : BlockSource) : Type 0 where
  pub sectors : a.sector_size ≡ b.sector_size
  pub reads :
      (offset : ℕ) (buf : List ℕ)
      → lo ≤ offset
      → offset + length buf ≤ hi
      → a.read_at offset buf ≡ b.read_at offset buf

clipped-alike :
    (a b : BlockSource) (start len off avail : ℕ) (buf : List ℕ)
    → a.sector_size ≡ b.sector_size
    → a.read_at off (take avail buf) ≡ b.read_at off (take avail buf)
    → read_clipped (record { inner = a; start = start; len = len }) off buf avail
      ≡ read_clipped (record { inner = b; start = start; len = len }) off buf avail
unfolding read_clipped
clipped-alike a b start len off avail buf e r = ground arith

-- A view reads its window alone: two parents with the same sector size that answer alike for every
-- request inside the window give the same result for every read through the view, at an aligned
-- window start.
pub read_at-confined :
    (a b : BlockSource) (start len : ℕ)
    → is_multiple_of start (max a.sector_size 1) ≡ true
    → AgreeOn start (start + len) a b
    → (offset : ℕ) (buf : List ℕ)
    → read_at (record { inner = a; start = start; len = len }) offset buf
      ≡ read_at (record { inner = b; start = start; len = len }) offset buf
unfolding read_at
read_at-confined a b start len h agree offset buf =
    let off : ℕ = align_down start (max a.sector_size 1) + offset in
    let avail : ℕ = min (len - offset) (length buf) in
    ground (
      arith,
      agree.sectors,
      align_down-aligned start (max a.sector_size 1) h,
      length-take avail buf,
      agree.reads off buf,
      agree.reads off (take avail buf),
      clipped-alike a b start len off avail buf,
    )
