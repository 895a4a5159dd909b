-- ===== src/Fat/Table/Clusters.antt =====
-- Where the clusters of an opened volume lie.
use native.Mathlib.Nat.{mul-div_cancel, mul-le-mul_right}
use reclaim.Prelude.{
  ℕ, ◌+◌, ◌-◌, ◌*◌, ◌/◌, ◌≤◌, ◌<◌, min, ◌≡◌, ap, true, false, ◌||◌, some, arith, ltb, leb, u32_max,
}
use reclaim.Fat.Boot.{FatFs}
use reclaim.Fat.Boot.Geometry.{IsVolume}
use reclaim.Fat.Table.{cluster_offset, in_range}

-- The first byte of a cluster.
abbrev pub start_of : FatFs → ℕ → ℕ
start_of fs c = fs.first_data_sector * fs.bytes_per_sector + (c - 2) * fs.cluster_size

-- The clusters that a volume numbers.
abbrev pub IsCluster : FatFs → ℕ → Type 0
IsCluster fs c = (2 ≤ c) × (c < fs.count_of_clusters + 2)

pub in_range-IsCluster : (fs : FatFs) (c : ℕ) → in_range fs c ≡ true → IsCluster fs c
in_range-IsCluster fs c h = ground arith

module _ (fs : FatFs) (v : IsVolume fs) (c : ℕ) (r : IsCluster fs c) where
  -- A cluster is a whole number of sectors, so the division of `cluster_offset` is exact.
  start_eq :
      (fs.first_data_sector + (c - 2) * (fs.cluster_size / fs.bytes_per_sector))
        * fs.bytes_per_sector
      ≡ start_of fs c
  start_eq =
      let exact : fs.cluster_size / fs.bytes_per_sector ≡ v.sectors_per_cluster =
        rw v.whole (mul-div_cancel v.sectors_per_cluster (omega (arith, v.unit))) in
      rw (exact, v.whole) (grind arith)

  pub cluster_offset_lem : cluster_offset fs c ≡ some (start_of fs c)
  unfolding cluster_offset
  cluster_offset_lem =
      let known : (ltb c 2 || leb (min (fs.count_of_clusters + 2) u32_max) c) ≡ false =
        ground (arith, v.small) in
      rw known (ap some start_eq)

  -- A cluster ends before the end of the volume.
  pub cluster-inside : start_of fs c + fs.cluster_size ≤ fs.total_bytes
  cluster-inside =
      let some_clusters : 0 < fs.count_of_clusters = omega arith in
      let upto : (c - 2) + 1 ≤ fs.count_of_clusters = omega arith in
      let size : ((c - 2) + 1) * fs.cluster_size ≤ fs.count_of_clusters * fs.cluster_size =
        mul-le-mul_right fs.cluster_size upto in
      let all : fs.first_data_sector * fs.bytes_per_sector + fs.count_of_clusters * fs.cluster_size
          ≤ fs.total_bytes =
        rw v.whole (grind (arith, v.holds some_clusters)) in
      let one_more : ((c - 2) + 1) * fs.cluster_size ≡ (c - 2) * fs.cluster_size + fs.cluster_size =
        grind arith in
      omega (arith, size, all, one_more)
