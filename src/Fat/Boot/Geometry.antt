-- ===== src/Fat/Boot/Geometry.antt =====
-- A volume that opens: where its clusters lie.
use mathlib.Core.Path.{subst}
use native.Mathlib.Nat.{div-add-mod', mul-le-mul_right, mul-pos, mul-le-mul, div-le_self}
use reclaim.Prelude.{
  refl, some, ℕ, ◌+◌, ◌-◌, ◌*◌, ◌/◌, ◌≤◌, ◌<◌, max, ◌≡◌, inl, inr, true, List, arith, ◌==◌,
  Bool-cases, u32_max, IsByte, All,
}
use reclaim.Block.Source.{BlockSource}
use reclaim.FsCore.Reader.{read, le_u16}
use reclaim.FsCore.Reader.Bytes.{IsByte-get_or, le_u16_bound, le_u32_bound}
use reclaim.Fat.Boot.{
  FatFs, Bpb, bpb_fields, is_sector_size, accepts_bpb, parse_bpb, data_start, classify,
  has_boot_mark, volume_of, Opened, open_backup, open_volume, root_dir_sectors,
}

-- The sectors of `count_of_clusters` clusters of whole sectors lie between the start of the data
-- and the end of the volume.
pub record IsVolume (fs : FatFs) : Type 0 where
  pub sectors_per_cluster : ℕ
  pub unit : 512 ≤ fs.bytes_per_sector
  pub whole : fs.cluster_size ≡ sectors_per_cluster * fs.bytes_per_sector
  pub some_sectors : 0 < sectors_per_cluster
  pub word : fs.cluster_size ≤ u32_max
  pub small : fs.count_of_clusters + 2 ≤ u32_max
  pub holds :
      0 < fs.count_of_clusters
      → (fs.first_data_sector + fs.count_of_clusters * sectors_per_cluster) * fs.bytes_per_sector
        ≤ fs.total_bytes

-- A cluster is not empty.
pub cluster_size-pos : (fs : FatFs) → IsVolume fs → 0 < fs.cluster_size
cluster_size-pos fs v = rw v.whole (mul-pos v.some_sectors (omega (arith, v.unit)))

accepted :
    (b : Bpb)
    → accepts_bpb b ≡ true
    → (512 ≤ b.bytes_per_sector) × (0 < b.sectors_per_cluster) × (b.bytes_per_sector ≤ 4096)
unfolding accepts_bpb is_sector_size
accepted b h = ground arith

-- Whole units of `n` that fit into what is left of `total` after `start`.
units_fit : (total start n q : ℕ) → 0 < n → q ≤ (total - start) / n → 0 < q → start + q * n ≤ total
units_fit total start n q unit le some_units =
    let part : q * n ≤ (total - start) / n * n = mul-le-mul_right n le in
    let used : 0 < q * n = mul-pos some_units unit in
    omega (arith, part, used, div-add-mod' (total - start) n)

-- The sectors before the data are two at least, so two can be added to the number of clusters in
-- 32 bits.
count_bound :
    (b : Bpb) → accepts_bpb b ≡ true → b.total_sectors ≤ u32_max → (classify b).1 + 2 ≤ u32_max
unfolding classify data_start accepts_bpb
count_bound b h small =
    let spread : 1 ≤ b.num_fats * b.fat_size =
      mul-pos {m = b.num_fats} {n = b.fat_size} (ground arith) (ground arith) in
    let some_reserved : 0 < b.reserved_sectors = ground arith in
    omega (
      arith,
      spread,
      some_reserved,
      small,
      div-le_self
          (b.total_sectors - (b.reserved_sectors + b.num_fats * b.fat_size + root_dir_sectors b))
          b.sectors_per_cluster,
    )

total_sectors_bound : (boot : List ℕ) → All IsByte boot → (bpb_fields boot).total_sectors ≤ u32_max
unfolding bpb_fields
total_sectors_bound boot a = ground (arith, le_u16_bound boot a 19, le_u32_bound boot a 32)

sectors_bound : (boot : List ℕ) → All IsByte boot → (bpb_fields boot).sectors_per_cluster ≤ 255
unfolding bpb_fields
sectors_bound boot a = omega (arith, IsByte-get_or boot 13 a)

volume_of-IsVolume :
    (src : BlockSource) (b : Bpb)
    → accepts_bpb b ≡ true
    → b.total_sectors ≤ u32_max
    → b.sectors_per_cluster ≤ 255
    → IsVolume (volume_of src b)
unfolding volume_of classify
volume_of-IsVolume src b h t byte = record {
  word = omega (
    arith,
    mul-le-mul {n₁ = b.bytes_per_sector} {m₁ = b.sectors_per_cluster} {n₂ = 4096} {m₂ = 255}
        (accepted b h).2 byte,
  );
  small = count_bound b h t;
  sectors_per_cluster = b.sectors_per_cluster;
  unit = (accepted b h).0;
  whole = grind arith;
  some_sectors = (accepted b h).1;
  holds = λ some_clusters. mul-le-mul_right b.bytes_per_sector (
      units_fit b.total_sectors (data_start b) b.sectors_per_cluster (classify b).1 (accepted b h).1
        (omega arith) some_clusters);
}

open_backup-IsVolume :
    (src : BlockSource) (boot : List ℕ) (fs : FatFs)
    → ((offset : ℕ) → All IsByte (read src offset 512))
    → open_backup src boot ≡ Opened.ok fs
    → IsVolume fs
unfolding open_backup parse_bpb
open_backup-IsVolume src boot fs bytes h =
    let b = bpb_fields (read src (le_u16 boot 50 * max (le_u16 boot 11) 512) 512) in
    elim (Bool-cases (le_u16 boot 50 == 0)) [
      | inl absent ↦ absurd (ground arith)
      | inr present ↦ elim (Bool-cases (accepts_bpb b)) [
        | inr refused ↦ absurd (ground arith)
        | inl taken ↦
            let same : volume_of src b ≡ fs = ground arith in
            subst IsVolume same (
              volume_of-IsVolume src b taken (total_sectors_bound _ (bytes _))
                (sectors_bound _ (bytes _)))
      ]
    ]

pub open_volume-IsVolume :
    (src : BlockSource) (fs : FatFs)
    → ((offset : ℕ) → All IsByte (read src offset 512))
    → open_volume src ≡ Opened.ok fs
    → IsVolume fs
unfolding open_volume parse_bpb
open_volume-IsVolume src fs bytes h =
    let b = bpb_fields (read src 0 512) in
    elim (Bool-cases (accepts_bpb b)) [
      | inr refused ↦ open_backup-IsVolume src (read src 0 512) fs bytes (ground arith)
      | inl taken ↦ elim (Bool-cases (has_boot_mark (read src 0 512))) [
        | inr unmarked ↦ open_backup-IsVolume src (read src 0 512) fs bytes (ground arith)
        | inl marked ↦
            let same : volume_of src b ≡ fs = ground arith in
            subst IsVolume same (
              volume_of-IsVolume src b taken (total_sectors_bound _ (bytes 0))
                (sectors_bound _ (bytes 0)))
      ]
    ]

-- A boot sector that is accepted and marked is the volume's.
parse_bpb-accepted :
    (boot : List ℕ) → accepts_bpb (bpb_fields boot) ≡ true → parse_bpb boot ≡ some (bpb_fields boot)
unfolding parse_bpb
parse_bpb-accepted boot taken = rw taken refl

pub open_volume-volume_of :
    (src : BlockSource)
    → accepts_bpb (bpb_fields (read src 0 512)) ≡ true
    → has_boot_mark (read src 0 512) ≡ true
    → open_volume src ≡ Opened.ok (volume_of src (bpb_fields (read src 0 512)))
unfolding open_volume parse_bpb
open_volume-volume_of src taken marked = ground arith
