-- ===== src/Fat/Files/Extents.antt =====
-- The extents of a file: they hold its bytes, in order, and lie on the volume.
use reclaim.Prelude.{
  ℕ, suc, ◌+◌, ◌-◌, ◌*◌, ◌/◌, ◌%◌, ◌≤◌, ◌<◌, min, ◌≡◌, refl, ap, inl, inr, false, List, [], ◌∷◌,
  ◌++◌, arith, ltb, ◌==◌, ltb→lt, Bool-cases, length, get_or, All,
}
use reclaim.FsCore.Types.{Extent}
use reclaim.FsCore.Extents.{
  IsWithin-push, Covers, Covers-cut, retain, Covers-retain, IsWithin, IsWithin-retain,
}
use reclaim.Fat.Boot.{FatFs}
use reclaim.Fat.Boot.Geometry.{IsVolume}
use reclaim.Fat.Table.Clusters.{start_of, IsCluster, cluster_offset_lem, cluster-inside}
use reclaim.Fat.Files.{Run, push_run, coalesce_loop, trim_last, trim_excess, coalesce}
use reclaim.Fat.Files.Runs.{Places, IsClosed, coalesce_loop-IsClosed, first_run, push_run_eq}

-- Byte `i` of a file whose clusters these are.
abbrev pub byte_at : FatFs → List ℕ → ℕ → ℕ
byte_at fs cs i = start_of fs (get_or cs (i / fs.cluster_size) 0) + i % fs.cluster_size

trim_last-append :
    (d : ℕ) (es : List Extent) (s l : ℕ)
    → trim_last d (es ++ (record { offset = s; len = l } ∷ []))
      ≡ es ++ (record { offset = s; len = l - d } ∷ [])
unfolding trim_last
trim_last-append d [] s l = refl
trim_last-append d (e ∷ []) s l = refl
trim_last-append d (e ∷ f ∷ es) s l = ap (λ t. e ∷ t) (trim_last-append d (f ∷ es) s l)

-- The extents hold `goal` bytes at least, no more than `size`, and lie on the volume.
pub record Holds (fs : FatFs) (at : ℕ → ℕ) (size goal : ℕ) (es : List Extent) : Type 0 where
  pub count : ℕ
  pub enough : goal ≤ count
  pub few : count ≤ size
  pub covers : Covers es count at
  pub within : IsWithin fs.total_bytes es

module _ (fs : FatFs) (v : IsVolume fs) (at : ℕ → ℕ) (size : ℕ) where
  trim_excess-Holds :
      (goal : ℕ) (s : Run)
      → IsClosed fs v at size goal s
      → goal ≤ size
      → Holds fs at size goal (retain (trim_excess size (push_run s)))
  unfolding trim_excess
  trim_excess-Holds goal s c le =
      let o = c.open_run in
      let es = s.extents ++ (record { offset = o.start; len = s.run_len } ∷ []) in
      let cover : Covers es c.count at = o.covers in
      let fits : o.start + s.run_len ≤ fs.total_bytes =
        omega (arith, o.ends, cluster-inside fs v c.last o.known) in
      elim (Bool-cases (ltb size c.count)) [
        | inr whole ↦
            rw (push_run_eq fs v at s o.start o.started, cover.total, whole)
              (record {
                count = c.count;
                enough = c.reaches;
                few = ground arith;
                covers = Covers-retain es c.count at cover;
                within =
                    IsWithin-retain fs.total_bytes es
                      (IsWithin-push fs.total_bytes s.extents o.start s.run_len o.within fits);
              })
        | inl excess ↦
            let over : size < c.count = ltb→lt _ _ excess in
            let cut =
              Covers-cut s.extents o.start s.run_len c.count at cover (c.count - size)
                (omega (arith, o.few, o.long)) in
            let left : c.count - (c.count - size) ≡ size = omega arith in
            rw
              (
                push_run_eq fs v at s o.start o.started,
                cover.total,
                excess,
                trim_last-append (c.count - size) s.extents o.start s.run_len,
              )
              (record {
                count = size;
                enough = le;
                few = omega arith;
                covers = Covers-retain _ size at (rw left at cut);
                within = IsWithin-retain fs.total_bytes _ (
                    IsWithin-push fs.total_bytes s.extents o.start _ o.within
                      (omega (arith, fits)));
              })
      ]

  pub coalesce-Holds :
      (c : ℕ) (cs : List ℕ)
      → 0 < size
      → All (IsCluster fs) (c ∷ cs)
      → Places fs v at 0 (c ∷ cs)
      → Holds fs at size (min size (length (c ∷ cs) * fs.cluster_size)) (coalesce fs (c ∷ cs) size)
  unfolding coalesce coalesce_loop
  coalesce-Holds c cs pos (k, ks) (place, pl) =
      let some_size : (size == 0) ≡ false = ground arith in
      let closed =
        coalesce_loop-IsClosed fs v at size (0 + fs.cluster_size) c cs _
          (first_run fs v at size c pos k place) ks pl in
      let goal : 0 + fs.cluster_size + length cs * fs.cluster_size
          ≡ suc (length cs) * fs.cluster_size =
        grind arith in
      rw (some_size, coalesce_loop, cluster_offset_lem fs v c k)
        (rw goal at (trim_excess-Holds _ _ closed (omega arith)))
