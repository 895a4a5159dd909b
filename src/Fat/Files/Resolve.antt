-- ===== src/Fat/Files/Resolve.antt =====
-- What `resolve_extents` yields: the bytes of the chain, or a stretch of the volume.
use native.Mathlib.Nat.{
  lt_of_mul-lt-mul_right, mul-le-mul_right, mul-add-div_right, mul-add-mod_self_right, div-eq_of_lt,
  mod-eq_of_lt,
}
use mathlib.Core.List.{append_assoc}
use reclaim.Prelude.{
  ℕ, zero, suc, ◌+◌, ◌*◌, ◌/◌, ◌%◌, ◌≤◌, ◌<◌, min, max, ◌≡◌, refl, ◌∙◌, inl, inr, Bool, true, false,
  not, ◌&&◌, ◌||◌, some, List, [], ◌∷◌, ◌++◌, arith, ltb, ◌==◌, Bool-cases, Option-cases, length,
  length-append, get_or, take, length-take, u64_max, sat_add, div_ceil, All, div_ceil_bounds,
}
use reclaim.FsCore.Types.{Extent}
use reclaim.FsCore.Extents.{total_len, Covers, IsWithin}
use reclaim.Fat.Boot.{FatFs}
use reclaim.Fat.Boot.Geometry.{IsVolume}
use reclaim.Fat.Table.{cluster_offset, chain, in_range}
use reclaim.Fat.Table.Clusters.{
  start_of, IsCluster, in_range-IsCluster, cluster_offset_lem, cluster-inside,
}
use reclaim.Fat.Table.Chains.{Links, link, last, chain-Links, chain_bounds}
use reclaim.Fat.Files.{
  coalesce, coalesce_loop, assume_contiguous, is_empty, resolve_extents, trim_excess, push_run,
}
use reclaim.Fat.Files.Runs.{Places}
use reclaim.Fat.Files.Extents.{byte_at, Holds, coalesce-Holds}

get_or-middle : (pre : List ℕ) (c : ℕ) (cs : List ℕ) → get_or (pre ++ c ∷ cs) (length pre) 0 ≡ c
get_or-middle [] c cs = refl
get_or-middle (x ∷ pre) c cs = get_or-middle pre c cs

All-clusters :
    (fs : FatFs) (cs : List ℕ) → All (λ c. in_range fs c ≡ true) cs → All (IsCluster fs) cs
All-clusters fs [] a = tt
All-clusters fs (c ∷ cs) (h, a) = (in_range-IsCluster fs c h, All-clusters fs cs a)

both_used :
    (ks : List ℕ) (ex : List Extent)
    → 0 < length ks
    → 0 < total_len ex
    → (not (is_empty ks) && not (is_empty ex)) ≡ true
both_used [] ex h k = absurd (omega arith)
both_used (x ∷ ks) [] h k = absurd (omega arith)
both_used (x ∷ ks) (e ∷ ex) h k = refl

Links-head : (fs : FatFs) (c : ℕ) (cs : List ℕ) → Links fs (c ∷ cs) → 2 ≤ c
Links-head fs c [] (last _ r s) = (in_range-IsCluster fs c r).0
Links-head fs c _ (link _ d cs r e s l) = (in_range-IsCluster fs c r).0

module _ (fs : FatFs) (v : IsVolume fs) (some_size : 0 < fs.cluster_size) where
  -- The clusters of a file place its bytes.
  byte_at-Places :
      (pre cs : List ℕ) → Places fs v (byte_at fs (pre ++ cs)) (length pre * fs.cluster_size) cs
  byte_at-Places pre [] = tt
  byte_at-Places pre (c ∷ cs) = (
    λ j lt.
        let block : (length pre * fs.cluster_size + j) / fs.cluster_size ≡ length pre =
          mul-add-div_right some_size (length pre) j ∙ omega (arith, div-eq_of_lt lt) in
        let byte : (length pre * fs.cluster_size + j) % fs.cluster_size ≡ j =
          mul-add-mod_self_right (length pre) fs.cluster_size j ∙ mod-eq_of_lt lt in
        rw (block, get_or-middle pre c cs, byte) refl,
    let next : length (pre ++ c ∷ []) * fs.cluster_size
            ≡ length pre * fs.cluster_size + fs.cluster_size =
          rw (length-append pre (c ∷ [])) (grind arith) in
        rw (append_assoc pre (c ∷ []) cs, next) at (byte_at-Places (pre ++ c ∷ []) cs),
  )

  own-Places : (cs : List ℕ) → Places fs v (byte_at fs cs) 0 cs
  own-Places cs =
      let start : length {A = ℕ} [] * fs.cluster_size ≡ 0 = grind arith in
      rw start at (byte_at-Places [] cs)

  Places-take :
      (at : ℕ → ℕ) (n m : ℕ) (cs : List ℕ) → Places fs v at n cs → Places fs v at n (take m cs)
  Places-take at n zero cs p = tt
  Places-take at n (suc m) [] p = tt
  Places-take at n (suc m) (c ∷ cs) (h, p) = (h, Places-take at (n + fs.cluster_size) m cs p)

  -- The extents of any clusters of the volume.
  clusters-Holds :
      (at : ℕ → ℕ) (cs : List ℕ) (size : ℕ)
      → 0 < size
      → All (IsCluster fs) cs
      → Places fs v at 0 cs
      → Holds fs at size (min size (length cs * fs.cluster_size)) (coalesce fs cs size)
  unfolding coalesce coalesce_loop push_run trim_excess
  clusters-Holds at [] size pos k p =
      let no_excess : ltb size 0 ≡ false = ground arith in
      rw no_excess (record {
        count = 0;
        enough = omega arith;
        few = omega arith;
        covers = record { total = refl; placed = λ i lt. absurd (omega arith) };
        within = tt;
      })
  clusters-Holds at (c ∷ cs) size pos k p = coalesce-Holds fs v at size c cs pos k p

  -- A cluster that has an offset is a cluster of the volume.
  offset-IsCluster : (c start : ℕ) → cluster_offset fs c ≡ some start → IsCluster fs c
  unfolding cluster_offset
  offset-IsCluster c start e = ground arith

  -- The stretch that a lost chain is taken for lies on the volume.
  assume_contiguous-IsWithin :
      (first size need : ℕ)
      → IsWithin fs.total_bytes (assume_contiguous fs first size need).0
        × (total_len (assume_contiguous fs first size need).0 ≤ size)
  unfolding assume_contiguous
  assume_contiguous-IsWithin first size need = elim (Option-cases (cluster_offset fs first)) [
    | inl lost ↦ rw (lost, assume_contiguous) (tt, omega arith)
    | inr (start, found) ↦
        let k = offset-IsCluster first start found in
        let place : start_of fs first ≡ start = ground (arith, cluster_offset_lem fs v first k) in
        let inside = cluster-inside fs v first k in
        rw (found, assume_contiguous) ((omega (arith, place, inside), tt), omega arith)
  ]

  -- Whatever the FAT and the directory say, the extents of a file, live or deleted, lie on the
  -- volume and hold no more bytes than its size.
  pub resolve_extents_bounds :
      (first size : ℕ) (deleted : Bool)
      → IsWithin fs.total_bytes (resolve_extents fs first size deleted).0
        × (total_len (resolve_extents fs first size deleted).0 ≤ size)
  unfolding resolve_extents
  resolve_extents_bounds first size deleted = elim (Bool-cases (size == 0 || ltb first 2)) [
    | inl nothing ↦ rw nothing (tt, omega arith)
    | inr some_bytes ↦ elim (Bool-cases (not deleted && not (is_empty ks) && not (is_empty ex))) [
      | inl used ↦
          let h =
            clusters-Holds (byte_at fs ks) ks size (ground arith)
              (All-clusters fs ks (chain_bounds fs first _).0) (own-Places ks) in
          rw (some_bytes, used) (h.within, omega (arith, h.covers.total, h.few))
      | inr lost ↦ rw (some_bytes, lost) (assume_contiguous-IsWithin first size _)
    ]
  ]
    where
      ks : List ℕ
      ks = chain fs first (sat_add (div_ceil size fs.cluster_size) 2)

      ex : List Extent
      ex = coalesce fs ks size

  -- On a volume whose clusters lie inside it, when the FAT links clusters enough for the size of a
  -- live file, no more than the volume has, the extents that are resolved hold exactly the size,
  -- each byte where the linked clusters put it, and are not marked as assumed.
  pub resolve_extents-Links :
      (c : ℕ) (cs : List ℕ) (size : ℕ)
      → Links fs (c ∷ cs)
      → 0 < size
      → size ≤ length (c ∷ cs) * fs.cluster_size
      → length (c ∷ cs) ≤ fs.count_of_clusters + 2
      → div_ceil size fs.cluster_size + 2 ≤ u64_max
      → Covers (resolve_extents fs c size false).0 size (byte_at fs (c ∷ cs))
        × ((resolve_extents fs c size false).1 ≡ false)
  unfolding resolve_extents
  resolve_extents-Links c cs size links pos enough few fits =
      let need = div_ceil size fs.cluster_size in
      let cap = max (min (sat_add need 2) (fs.count_of_clusters + 2)) 1 in
      let ks = take cap (c ∷ cs) in
      let walked : chain fs c (sat_add need 2) ≡ ks = chain-Links fs c _ cs links in
      let known : All (IsCluster fs) ks =
        All-clusters fs ks (rw walked at (chain_bounds fs c (sat_add need 2)).0) in
      let h =
        clusters-Holds (byte_at fs (c ∷ cs)) ks size pos known
          (Places-take (byte_at fs (c ∷ cs)) 0 cap (c ∷ cs) (own-Places (c ∷ cs))) in
      let long : need ≤ length ks = omega (
        arith,
        length-take cap (c ∷ cs),
        lt_of_mul-lt-mul_right fs.cluster_size {m = need} {n = suc (length (c ∷ cs))} (
            let bounds = div_ceil_bounds size fs.cluster_size some_size in
            let up : suc (length (c ∷ cs)) * fs.cluster_size
                ≡ length (c ∷ cs) * fs.cluster_size + fs.cluster_size =
              grind arith in
            omega (arith, bounds, up, enough)),
      ) in
      let all : h.count ≡ size = omega (
        arith,
        h.enough,
        h.few,
        div_ceil_bounds size fs.cluster_size some_size,
        mul-le-mul_right fs.cluster_size long,
      ) in
      let covers : Covers (coalesce fs ks size) size (byte_at fs (c ∷ cs)) = rw all at h.covers in
      let used : (not (is_empty ks) && not (is_empty (coalesce fs ks size))) ≡ true =
        both_used ks (coalesce fs ks size) (omega (arith, length-take cap (c ∷ cs)))
          (omega (arith, covers.total, pos)) in
      let small : (size == 0 || ltb c 2) ≡ false = ground (arith, Links-head fs c cs links) in
      rw (walked, small, used) (covers, refl)
