-- ===== src/ExFat/Files.antt =====
-- crates/fs-exfat/src/lib.rs: clusters, chains, directories, the bitmap and the extents of files.
use reclaim.Prelude.{
  ℕ, zero, suc, ◌+◌, ◌-◌, ◌*◌, ◌/◌, ◌^◌, min, max, Bool, false, not, ◌&&◌, ◌||◌, Option, none, some,
  List, [], ◌∷◌, ◌++◌, ltb, leb, ◌==◌, if◌then◌else◌, length, get_or, u32_max, sat_add, sat_mul,
  div_ceil,
}
use reclaim.FsCore.Types.{Extent}
use reclaim.FsCore.Extents.{retain}
use reclaim.FsCore.Bitmap
use reclaim.FsCore.Bitmap.{Bitmap}
use reclaim.FsCore.Reader.{read}
use reclaim.Part.Reader.{le_u32, le_u64}
use reclaim.Fat.Files.{Run, push_run, follows, trim_excess, no_run, is_empty}
use reclaim.ExFat.Boot.{ExFat}

unfoldable pub cluster_offset : ExFat → ℕ → Option ℕ
cluster_offset fs cluster =
    if ltb cluster 2 || leb (min u32_max (fs.cluster_count + 2)) cluster
    then none
    else some (sat_add fs.cluster_heap_offset (sat_mul (cluster - 2) fs.cluster_size))

pub fat_next : ExFat → ℕ → ℕ
fat_next fs cluster = le_u32 (read fs.src (fs.fat_offset + cluster * 4) 4) 0

-- The loop of `chain`, on its cap.
pub chain_loop : ExFat → ℕ → ℕ → List ℕ
unfolding fat_next
chain_loop fs zero cur = []
chain_loop fs (suc left) cur =
    let limit = min u32_max (fs.cluster_count + 2) in
    let next = fat_next fs cur in
    let more = chain_loop fs left next in
    if leb 2 cur && ltb cur limit
    then cur
      ∷ (if next == 0xFFFFFFFF || ltb next 2 || leb limit next || next == cur then [] else more)
    else []

unfoldable pub chain : ExFat → ℕ → ℕ → List ℕ
unfolding chain_loop
chain fs first max_clusters =
    chain_loop fs (max (min max_clusters (min u32_max (fs.cluster_count + 2))) 1) first

-- One round of `coalesce`: cluster `c`, which lies at `off`.
pub take_cluster : ExFat → ℕ → ℕ → Run → Run
take_cluster fs c off s =
    let joins = follows s.prev c in
    record {
      extents = if joins then s.extents else push_run s;
      remaining = s.remaining - min s.remaining fs.cluster_size;
      run_start = if joins then s.run_start else some off;
      run_len = if joins then s.run_len + fs.cluster_size else fs.cluster_size;
      prev = some c;
    }

pub coalesce_loop : ExFat → List ℕ → Run → Run
unfolding take_cluster
coalesce_loop fs [] s = s
coalesce_loop fs (c ∷ cs) s = if s.remaining == 0 then s else elim (cluster_offset fs c) [
  | none ↦ s
  | some off ↦ coalesce_loop fs cs (take_cluster fs c off s)
]

unfoldable pub coalesce : ExFat → List ℕ → ℕ → List Extent
unfolding coalesce_loop
coalesce fs clusters data_len =
    retain (trim_excess data_len (push_run (coalesce_loop fs clusters (no_run data_len))))

-- The closure `contiguous`.
pub contiguous : ExFat → ℕ → ℕ → ℕ → Bool → List Extent × Bool
contiguous fs first data_len need assumed = elim (cluster_offset fs first) [
  | none ↦ ([], assumed)
  | some start ↦
      let span = sat_mul need fs.cluster_size in
      let avail = fs.volume_length - start in
      (record { offset = start; len = min (min data_len span) avail } ∷ [], assumed)
]

unfoldable pub resolve_extents : ExFat → ℕ → ℕ → Bool → Bool → List Extent × Bool
unfolding contiguous
resolve_extents fs first data_len no_fat_chain deleted =
    let need = div_ceil data_len fs.cluster_size in
    let assumed = ltb 1 need in
    let clusters = chain fs first (sat_add need 2) in
    let ex = coalesce fs clusters data_len in
    if data_len == 0 || ltb first 2
    then ([], false)
    else if no_fat_chain
    then contiguous fs first data_len need false
    else if is_empty clusters || (deleted && ltb (length clusters) need)
    then contiguous fs first data_len need assumed
    else if is_empty ex
    then contiguous fs first data_len need assumed
    else (ex, false)

pub append_clusters : ExFat → List ℕ → List ℕ → List ℕ
append_clusters fs [] buf = buf
append_clusters fs (c ∷ cs) buf = elim (cluster_offset fs c) [
  | none ↦ buf
  | some off ↦
      if leb (32 * 1024 * 1024) (length buf)
      then buf
      else append_clusters fs cs (buf ++ read fs.src off fs.cluster_size)
]

unfoldable pub read_directory : ExFat → ℕ → Option (List ℕ)
unfolding append_clusters
read_directory fs first =
    let max_clusters = sat_add (32 * 1024 * 1024 / max fs.cluster_size 1) 1 in
    let clusters = chain fs first (min max_clusters (2 ^ 20)) in
    if is_empty clusters then none else some (append_clusters fs clusters [])

-- The loop of `has_upcase`, on rounds of 32 bytes.
pub upcase_loop : List ℕ → ℕ → ℕ → Bool
upcase_loop root zero i = false
upcase_loop root (suc left) i =
    let t = get_or root i 0 in
    let rest = upcase_loop root left (i + 32) in
    if ltb (length root) (i + 32) then false else t == 0x82 || (not (t == 0x00) && rest)

pub has_upcase : ExFat → Bool
unfolding upcase_loop
has_upcase fs = elim (read_directory fs fs.root_dir_cluster) [
  | none ↦ false
  | some root ↦ upcase_loop root (length root / 32) 0
]

-- The bitmap that the entry at `i` of the root directory describes.
pub bitmap_at : ExFat → List ℕ → ℕ → Option Bitmap
bitmap_at fs root i = elim (cluster_offset fs (le_u32 root (i + 20))) [
  | none ↦ none
  | some start ↦
      let want =
        min (min (le_u64 root (i + 24)) (div_ceil fs.cluster_count 8 + 8)) (64 * 1024 * 1024) in
      some (
        Bitmap.new (if leb fs.cluster_size u32_max then fs.cluster_size else 0)
          fs.cluster_heap_offset fs.cluster_count (read fs.src start want))
]

pub bitmap_loop : ExFat → List ℕ → ℕ → ℕ → Option Bitmap
unfolding bitmap_at
bitmap_loop fs root zero i = none
bitmap_loop fs root (suc left) i =
    let t = get_or root i 0 in
    let rest = bitmap_loop fs root left (i + 32) in
    if ltb (length root) (i + 32)
    then none
    else if t == 0x81
    then bitmap_at fs root i
    else if t == 0x00
    then none
    else rest

pub load_bitmap : ExFat → Option Bitmap
unfolding bitmap_loop
load_bitmap fs = elim (read_directory fs fs.root_dir_cluster) [
  | none ↦ none
  | some root ↦ bitmap_loop fs root (length root / 32) 0
]
