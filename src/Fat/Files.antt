-- ===== src/Fat/Files.antt =====
-- crates/fs-fat/src/lib.rs: the extents of a file, and the first cluster of a deleted one.
pub mod Runs
pub mod Extents
pub mod Resolve
use Prim.Native.Nat.{bit_or}
use reclaim.Prelude.{
  ℕ, zero, suc, ◌+◌, ◌-◌, ◌*◌, ◌^◌, min, Bool, true, false, not, ◌&&◌, ◌||◌, Option, none, some,
  List, [], ◌∷◌, ◌++◌, ltb, leb, ◌==◌, if◌then◌else◌, u32_max, sat_add, sat_mul, div_ceil,
}
use reclaim.FsCore.Reader.{read}
use reclaim.FsCore.Types.{Extent}
use reclaim.FsCore.Extents.{total_len, retain}
use reclaim.Fat.Boot.{FatFs, FatKind, fat32}
use reclaim.Fat.Table.{cluster_offset, fat_entry, chain}

-- The variables of the loop of `coalesce`.
pub record Run : Type 0 where
  pub extents : List Extent
  pub remaining : ℕ
  pub run_start : Option ℕ
  pub run_len : ℕ
  pub prev : Option ℕ

-- The extents with the run so far.
pub push_run : Run → List Extent
push_run s = elim s.run_start [
  | none ↦ s.extents
  | some start ↦ s.extents ++ (record { offset = start; len = s.run_len } ∷ [])
]

pub follows : Option ℕ → ℕ → Bool
follows none c = false
follows (some p) c = p + 1 == c

-- One round: cluster `c`, which lies at `off`.
pub take_cluster : FatFs → ℕ → ℕ → Run → Run
unfolding push_run follows
take_cluster fs c off s =
    let remaining = s.remaining - min s.remaining fs.cluster_size in
    if follows s.prev c
    then record {
      extents = s.extents;
      remaining = remaining;
      run_start = s.run_start;
      run_len = s.run_len + fs.cluster_size;
      prev = some c;
    }
    else record {
      extents = push_run s;
      remaining = remaining;
      run_start = some off;
      run_len = fs.cluster_size;
      prev = some c;
    }

pub coalesce_loop : FatFs → List ℕ → Run → Run
unfolding take_cluster
coalesce_loop fs [] s = s
coalesce_loop fs (c ∷ cs) s = elim (s.remaining == 0) [
  | true ↦ s
  | false ↦ elim (cluster_offset fs c) [
    | none ↦ s
    | some off ↦ coalesce_loop fs cs (take_cluster fs c off s)
  ]
]

-- `last.len = last.len.saturating_sub(excess)`
pub trim_last : ℕ → List Extent → List Extent
trim_last excess [] = []
trim_last excess (e ∷ []) = record e { len = e.len - excess } ∷ []
trim_last excess (e ∷ f ∷ es) = e ∷ trim_last excess (f ∷ es)

pub trim_excess : ℕ → List Extent → List Extent
unfolding trim_last
trim_excess size es = if ltb size (total_len es) then trim_last (total_len es - size) es else es

abbrev pub no_run : ℕ → Run
no_run size = record { extents = []; remaining = size; run_start = none; run_len = 0; prev = none }

unfoldable pub coalesce : FatFs → List ℕ → ℕ → List Extent
unfolding coalesce_loop push_run trim_excess
coalesce fs clusters size =
    retain (trim_excess size (push_run (coalesce_loop fs clusters (no_run size))))

abbrev pub is_empty {ℓ} : {A : Type ℓ} → List A → Bool
is_empty [] = true
is_empty (x ∷ xs) = false

-- The clusters from the first on, whose chain is lost.
pub assume_contiguous : FatFs → ℕ → ℕ → ℕ → List Extent × Bool
assume_contiguous fs first size need = elim (cluster_offset fs first) [
  | none ↦ ([], ltb 1 need)
  | some start ↦
      let span = sat_mul need fs.cluster_size in
      let avail = fs.total_bytes - start in
      (record { offset = start; len = min (min size span) avail } ∷ [], ltb 1 need)
]

unfoldable pub resolve_extents : FatFs → ℕ → ℕ → Bool → List Extent × Bool
unfolding coalesce assume_contiguous
resolve_extents fs first size deleted =
    let need = div_ceil size fs.cluster_size in
    let clusters = chain fs first (sat_add need 2) in
    let ex = coalesce fs clusters size in
    if size == 0 || ltb first 2
    then ([], false)
    else if not deleted && not (is_empty clusters) && not (is_empty ex)
    then (ex, false)
    else assume_contiguous fs first size need

pub nonzero_count : List ℕ → ℕ
nonzero_count [] = 0
nonzero_count (b ∷ bs) = (if b == 0 then 0 else 1) + nonzero_count bs

-- The bytes at the head of a cluster that are not zero.
pub head_count : FatFs → ℕ → ℕ
unfolding nonzero_count
head_count fs c = elim (cluster_offset fs c) [
  | none ↦ 0
  | some off ↦ nonzero_count (read fs.src off 16)
]

-- The search of `repair_first_cluster`, on the rounds that are left: `k`, the best cluster and its
-- count.
pub repair_loop : FatFs → ℕ → ℕ → ℕ → ℕ → ℕ → ℕ
unfolding head_count
repair_loop fs lo zero k best best_nonzero = best
repair_loop fs lo (suc left) k best best_nonzero =
    let cand = bit_or lo (k * 2 ^ 16) in
    let nz = head_count fs cand in
    let skip = repair_loop fs lo left (k + 1) best best_nonzero in
    let better = repair_loop fs lo left (k + 1) cand nz in
    if not (ltb cand (min (fs.count_of_clusters + 2) u32_max) && ltb k 256)
    then best
    else if not (fat_entry fs cand == 0)
    then skip
    else if ltb best_nonzero nz
    then better
    else skip

unfoldable pub repair_first_cluster : FatFs → ℕ → ℕ → ℕ
unfolding repair_loop head_count
repair_first_cluster fs hi lo =
    let first = bit_or (hi * 2 ^ 16) lo in
    let wide : Bool = elim fs.kind [ FatKind.fat32 ↦ true | _ ↦ false ] in
    if not wide || not (hi == 0) || lo == 0
    then first
    else if leb fs.count_of_clusters 0xFFFF
    then first
    else if ltb 0 (head_count fs first)
    then first
    else repair_loop fs lo 255 1 first 0
