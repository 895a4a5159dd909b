-- ===== src/Fat/Files/Runs.antt =====
-- The runs of a chain of clusters: every byte of the clusters, in order.
use reclaim.Prelude.{
  ℕ, suc, ◌+◌, ◌-◌, ◌*◌, ◌≤◌, ◌<◌, min, ◌≡◌, refl, ◌∙◌, inl, inr, some, List, [], ◌∷◌, ◌++◌, arith,
  ◌==◌, if◌then◌else◌, ==_iff, Bool-cases, length, All,
}
use reclaim.FsCore.Extents.{Covers, Covers-extend, Covers-push, IsWithin, IsWithin-push}
use reclaim.Fat.Boot.{FatFs}
use reclaim.Fat.Boot.Geometry.{IsVolume}
use reclaim.Fat.Table.Clusters.{start_of, IsCluster, cluster_offset_lem, cluster-inside}
use reclaim.Fat.Files.{Run, push_run, follows, take_cluster, coalesce_loop, no_run}

module _ (fs : FatFs) (v : IsVolume fs) (at : ℕ → ℕ) where
  -- The bytes from `n` on are those of the clusters.
  abbrev pub Places : ℕ → List ℕ → Type 0
  Places n [] = Unit {0}
  Places n (c ∷ cs) =
      ((j : ℕ) → j < fs.cluster_size → at (n + j) ≡ start_of fs c + j)
      × Places (n + fs.cluster_size) cs

  -- The loop has an open run that ends where the cluster before ends.
  pub record IsOpen (size n p : ℕ) (s : Run) : Type 0 where
    pub start : ℕ
    pub started : s.run_start ≡ some start
    pub left : s.remaining ≡ size - n
    pub before : s.prev ≡ some p
    pub known : IsCluster fs p
    pub ends : start + s.run_len ≡ start_of fs p + fs.cluster_size
    pub long : fs.cluster_size ≤ s.run_len
    pub few : n < size + fs.cluster_size
    pub covers : Covers (s.extents ++ (record { offset = start; len = s.run_len } ∷ [])) n at
    pub within : IsWithin fs.total_bytes s.extents

  next_start :
      (p c : ℕ) → IsCluster fs p → p + 1 ≡ c → start_of fs p + fs.cluster_size ≡ start_of fs c
  next_start p c k e = let up : c - 2 ≡ suc (p - 2) = omega arith in rw up (grind arith)

  -- What a round leaves: the open run, longer, or a new run after it.
  joined : (c : ℕ) (s : Run) → Run
  joined c s = record {
    extents = s.extents;
    remaining = s.remaining - min s.remaining fs.cluster_size;
    run_start = s.run_start;
    run_len = s.run_len + fs.cluster_size;
    prev = some c;
  }

  parted : (c : ℕ) (s : Run) → Run
  parted c s = record {
    extents = push_run s;
    remaining = s.remaining - min s.remaining fs.cluster_size;
    run_start = some (start_of fs c);
    run_len = fs.cluster_size;
    prev = some c;
  }

  take_cluster_eq :
      (p c : ℕ) (s : Run)
      → s.prev ≡ some p
      → take_cluster fs c (start_of fs c) s ≡ (if p + 1 == c then joined c s else parted c s)
  unfolding take_cluster follows joined parted
  take_cluster_eq p c s e = rw (e, follows) refl

  pub push_run_eq :
      (s : Run) (start : ℕ)
      → s.run_start ≡ some start
      → push_run s ≡ s.extents ++ (record { offset = start; len = s.run_len } ∷ [])
  unfolding push_run
  push_run_eq s start e = rw (e, push_run) refl

  module _ (size n p c : ℕ) (s : Run) (o : IsOpen size n p s) (more : n < size) (k : IsCluster fs c)
      (place : (j : ℕ) → j < fs.cluster_size → at (n + j) ≡ start_of fs c + j) where
    joined-IsOpen : p + 1 ≡ c → IsOpen size (n + fs.cluster_size) c (joined c s)
    unfolding joined
    joined-IsOpen same =
        let next = next_start p c o.known same in
        record {
          start = o.start;
          started = o.started;
          left = omega (arith, o.left);
          before = refl;
          known = k;
          ends = omega (arith, o.ends, next);
          long = omega arith;
          few = omega arith;
          covers =
              Covers-extend s.extents o.start s.run_len n at o.covers fs.cluster_size
                (λ j lt. place j lt ∙ omega (arith, o.ends, next));
          within = o.within;
        }

    parted-IsOpen : IsOpen size (n + fs.cluster_size) c (parted c s)
    unfolding parted
    parted-IsOpen =
        let pushed = push_run_eq s o.start o.started in
        record {
          start = start_of fs c;
          started = refl;
          left = omega (arith, o.left);
          before = refl;
          known = k;
          ends = refl;
          long = omega arith;
          few = omega arith;
          covers = rw pushed (Covers-push _ n at (start_of fs c) fs.cluster_size o.covers place);
          within = rw pushed (
              IsWithin-push fs.total_bytes s.extents o.start s.run_len o.within
                (omega (arith, o.ends, cluster-inside fs v p o.known)));
        }

    -- A round keeps it.
    take_cluster-IsOpen : IsOpen size (n + fs.cluster_size) c (take_cluster fs c (start_of fs c) s)
    take_cluster-IsOpen =
        let step = take_cluster_eq p c s o.before in
        elim (Bool-cases (p + 1 == c)) [
          | inl same ↦ rw (step, same) (joined-IsOpen ((==_iff (p + 1) c).0 same))
          | inr apart ↦ rw (step, apart) parted-IsOpen
        ]

  -- What the loop leaves behind it: the runs of at least the bytes that are wanted, if there are as
  -- many.
  pub record IsClosed (size goal : ℕ) (s : Run) : Type 0 where
    pub count : ℕ
    pub last : ℕ
    pub open_run : IsOpen size count last s
    pub reaches : goal ≤ count

  -- The first round opens a run.
  pub first_run :
      (size c : ℕ)
      → 0 < size
      → IsCluster fs c
      → ((j : ℕ) → j < fs.cluster_size → at (0 + j) ≡ start_of fs c + j)
      → IsOpen size (0 + fs.cluster_size) c (take_cluster fs c (start_of fs c) (no_run size))
  unfolding take_cluster follows push_run
  first_run size c pos k place = record {
    start = start_of fs c;
    started = refl;
    left = omega arith;
    before = refl;
    known = k;
    ends = refl;
    long = omega arith;
    few = omega arith;
    covers =
        Covers-push [] 0 at (start_of fs c) fs.cluster_size
          (record { total = refl; placed = λ i lt. absurd (omega arith) }) place;
    within = tt;
  }

  pub coalesce_loop-IsClosed :
      (size n p : ℕ) (cs : List ℕ) (s : Run)
      → IsOpen size n p s
      → All (IsCluster fs) cs
      → Places n cs
      → IsClosed size (min size (n + length cs * fs.cluster_size)) (coalesce_loop fs cs s)
  unfolding coalesce_loop
  coalesce_loop-IsClosed size n p [] s o k pl = record {
    count = n;
    last = p;
    open_run = o;
    reaches = omega arith;
  }
  coalesce_loop-IsClosed size n p (c ∷ cs) s o (k, ks) (place, pl) =
      elim (Bool-cases (s.remaining == 0)) [
        | inl full ↦
            rw (full, coalesce_loop)
              (record { count = n; last = p; open_run = o; reaches = ground (arith, o.left) })
        | inr more ↦
            let below : n < size = ground (arith, o.left) in
            let goal : n + fs.cluster_size + length cs * fs.cluster_size
                ≡ n + suc (length cs) * fs.cluster_size =
              grind arith in
            rw (more, coalesce_loop, cluster_offset_lem fs v c k)
              (rw goal at (
                coalesce_loop-IsClosed size (n + fs.cluster_size) c cs _
                  (take_cluster-IsOpen size n p c s o below k place) ks pl))
      ]
