-- ===== src/Part/Scan/Outcome.antt =====
-- What a scan promises of its outcome.
use reclaim.Prelude.{
  ℕ, ◌+◌, ◌≤◌, ◌<◌, max, ◌≡◌, refl, inl, inr, Bool, true, false, none, some, List, [], ◌∷◌, ◌++◌,
  map, arith, ltb, ◌==◌, if◌then◌else◌, Bool-cases, Option-cases, length, All, All-append,
}
use reclaim.Block.Source.{BlockSource}
use reclaim.Part.Types.{Partition, PartitionMap, Container, ContainerKind, volume_windows}
use reclaim.Part.Reader.{read_bytes}
use reclaim.Part.Reader.Bytes.{length-read_bytes}
use reclaim.Part.Mbr
use reclaim.Part.Gpt
use reclaim.Part.Mbr.Chains.{expand_bounds}
use reclaim.Part.Mbr.Bounds.{InSource, parse_bounds}
use reclaim.Part.Gpt.Bounds.{gpt_bounds}
use reclaim.Part.Gpt.{has_tag, parse}
use reclaim.Part.Scan.{
  detect_containers, real_entries, real_mbr, as_mbr, with_hybrid, without_table, append_containers,
  without_gpt, scan, is_protective, detect_apm,
}

real_entries-InSource :
    (total : ℕ) (ps : List Partition)
    → All (InSource total) ps
    → All (InSource total) (real_entries ps)
unfolding real_entries
real_entries-InSource total [] a = tt
real_entries-InSource total (p ∷ ps) (h, a) = elim (Bool-cases (is_protective p)) [
  | inl guard ↦ rw guard (real_entries-InSource total ps a)
  | inr real ↦ rw real (h, real_entries-InSource total ps a)
]

as_mbr-InSource :
    (total : ℕ) (ps : List Partition)
    → All (InSource total) ps
    → All (InSource total) (map as_mbr ps)
unfolding as_mbr
as_mbr-InSource total [] a = tt
as_mbr-InSource total (p ∷ ps) (h, a) =
    (record { starts = h.starts; nonempty = h.nonempty; ends = h.ends }, as_mbr-InSource total ps a)

with_hybrid-InSource :
    (total : ℕ) (g : PartitionMap) (ps : List Partition)
    → All (InSource total) g.entries
    → All (InSource total) ps
    → All (InSource total) (with_hybrid g ps).entries
unfolding with_hybrid
with_hybrid-InSource total g [] a b = a
with_hybrid-InSource total g (p ∷ ps) a b =
    All-append (InSource total) g.entries (map as_mbr (p ∷ ps)) a (as_mbr-InSource total (p ∷ ps) b)

real_mbr-InSource :
    (lba0 : List ℕ) (total : ℕ) → All (InSource total) (real_mbr (Mbr.parse lba0 total))
unfolding real_mbr
real_mbr-InSource lba0 total = elim (Option-cases (Mbr.parse lba0 total)) [
  | inl missing ↦ rw (missing, real_mbr) tt
  | inr (m, e) ↦
      rw (e, real_mbr) (real_entries-InSource total m.entries (parse_bounds lba0 total m e).0)
]

entries-without_table :
    (src : BlockSource) (ss : ℕ) (cs : List Container) → (without_table src ss cs).entries ≡ []
unfolding without_table
entries-without_table src ss cs = elim (Option-cases (detect_apm src ss)) [
  | inl missing ↦ rw (missing, without_table) refl
  | inr (n, e) ↦ rw (e, without_table) refl
]

expand-InSource :
    (src : BlockSource) (lba0 : List ℕ) (total : ℕ) (m : PartitionMap)
    → Mbr.parse lba0 total ≡ some m
    → All (InSource total) (Mbr.expand src lba0 total m).entries
expand-InSource src lba0 total m e =
    let (more, grown, bounds, numbered) = expand_bounds src lba0 total m in
    rw grown (All-append (InSource total) m.entries more (parse_bounds lba0 total m e).0 bounds)

without_gpt-InSource :
    (src : BlockSource) (lba0 : List ℕ) (ss : ℕ) (cs : List Container)
    → All (InSource src.len) (without_gpt src lba0 ss (Mbr.parse lba0 src.len) cs).entries
unfolding without_gpt append_containers
without_gpt-InSource src lba0 ss cs = elim (Option-cases (Mbr.parse lba0 src.len)) [
  | inl missing ↦ rw (missing, entries-without_table src ss cs) tt
  | inr (m, e) ↦ elim (Bool-cases (length m.entries == 0)) [
    | inl empty ↦ rw (e, empty, entries-without_table src ss cs) tt
    | inr full ↦ rw (e, full) (expand-InSource src lba0 src.len m e)
  ]
]

-- Every partition that a scan reports, of whichever scheme (GPT, hybrid, MBR or its logical
-- partitions), is a non-empty range inside the source, whatever the source returns.
pub scan_bounds : (src : BlockSource) → All (InSource src.len) (scan src).entries
unfolding scan append_containers
scan_bounds src = elim (Option-cases (Gpt.parse src (max src.sector_size 512) src.len)) [
  | inl missing ↦ rw (missing, scan) (without_gpt-InSource src _ _ _)
  | inr (g, e) ↦
      rw (e, scan)
        (with_hybrid-InSource src.len g _ (gpt_bounds src _ src.len g e).0
          (real_mbr-InSource _ src.len))
]

-- A window that lies inside a source of `total` bytes.
abbrev pub WindowIn : ℕ → ℕ × ℕ → Type 0
WindowIn total (start, len) = start + len ≤ total

windows-WindowIn :
    (total : ℕ) (ps : List Partition)
    → All (InSource total) ps
    → All (WindowIn total) (map (λ (q : Partition). (q.start, q.len)) ps)
windows-WindowIn total [] a = tt
windows-WindowIn total (p ∷ ps) (h, a) = (h.ends, windows-WindowIn total ps a)

module _ (total : ℕ) where
  windows : List Partition → List (ℕ × ℕ)
  windows [] = (0, total) ∷ []
  windows (p ∷ ps) = (p.start, p.len) ∷ map (λ (q : Partition). (q.start, q.len)) ps

  volume_windows_lem : (m : PartitionMap) → volume_windows m total ≡ windows m.entries
  unfolding volume_windows windows
  volume_windows_lem m = by_entries m.entries
    where
      by_entries :
          (ps : List Partition)
          → elim ps [
            | [] ↦ (0, total) ∷ []
            | p ∷ ps' ↦ (p.start, p.len) ∷ map (λ (q : Partition). (q.start, q.len)) ps'
          ]
            ≡ windows ps
      by_entries [] = refl
      by_entries (p ∷ ps) = refl

  windows_lem :
      (ps : List Partition)
      → All (InSource total) ps
      → All (WindowIn total) (windows ps) × (0 < length (windows ps))
  unfolding windows
  windows_lem [] a = ((omega arith, tt), omega arith)
  windows_lem (p ∷ ps) a = (windows-WindowIn total (p ∷ ps) a, omega arith)

-- The windows that a scan hands on for file systems to be looked for lie inside the source, and
-- there is at least one.
pub volume_windows-scan :
    (src : BlockSource)
    → All (WindowIn src.len) (volume_windows (scan src) src.len)
      × (0 < length (volume_windows (scan src) src.len))
volume_windows-scan src =
    rw (volume_windows_lem src.len (scan src))
      (windows_lem src.len (scan src).entries (scan_bounds src))

has_tag_short :
    (b : List ℕ) (off : ℕ) (tag : List ℕ) → length b < off + length tag → has_tag b off tag ≡ false
unfolding has_tag
has_tag_short b off tag h = ground arith

-- The container probe reports APFS containers alone: no source makes it report Core Storage.
pub detect_containers_lem :
    (src : BlockSource) (total : ℕ)
    → All (λ (c : Container). c.kind ≡ ContainerKind.apfs_container) (detect_containers src total)
unfolding detect_containers
detect_containers_lem src total =
    let short =
      has_tag_short (read_bytes src 0 64) 88 (0x43 ∷ 0x53 ∷ [])
        (omega (arith, length-read_bytes src 0 64)) in
    elim (Bool-cases (ltb 0 total)) [
      | inl some_bytes ↦ rw (short, some_bytes) (apfs_only (has_tag (read_bytes src 0 64) 32 _))
      | inr no_bytes ↦ rw (short, no_bytes) (apfs_only (has_tag (read_bytes src 0 64) 32 _))
    ]
  where
    apfs_only :
        (b : Bool)
        → All
            (λ (c : Container). c.kind ≡ ContainerKind.apfs_container)
            ((if b then record { kind = ContainerKind.apfs_container; offset = 0 } ∷ [] else [])
              ++ [])
    apfs_only true = (refl, tt)
    apfs_only false = tt

-- Without a GPT and a boot sector there is no entry.
pub scan_without_mbr :
    (src : BlockSource)
    → Gpt.parse src (max src.sector_size 512) src.len ≡ none
    → Mbr.parse (read_bytes src 0 512) src.len ≡ none
    → (scan src).entries ≡ []
unfolding scan without_gpt
scan_without_mbr src g e = rw (g, scan) (rw (e, without_gpt) (entries-without_table src _ _))

entries-without_gpt :
    (src : BlockSource) (lba0 : List ℕ) (ss : ℕ) (m : PartitionMap) (cs : List Container)
    → m.entries ≡ []
    → (without_gpt src lba0 ss (some m) cs).entries ≡ []
unfolding without_gpt
entries-without_gpt src lba0 ss m cs h = rw h (entries-without_table src ss cs)

-- Nor with one that has no primary partition.
pub scan_extended_only :
    (src : BlockSource) (m : PartitionMap)
    → Gpt.parse src (max src.sector_size 512) src.len ≡ none
    → Mbr.parse (read_bytes src 0 512) src.len ≡ some m
    → m.entries ≡ []
    → (scan src).entries ≡ []
unfolding scan
scan_extended_only src m g e h = rw (g, scan) (rw e (entries-without_gpt src _ _ m _ h))
