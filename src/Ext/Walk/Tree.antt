-- ===== src/Ext/Walk/Tree.antt =====
-- The walk over the directories and the inodes ends, and what it counts.
use reclaim.FsCore.Text.{from_utf8_lossy}
use reclaim.Prelude.{
  ℕ, zero, suc, ◌+◌, ◌-◌, ◌≤◌, ◌<◌, min, ◌≡◌, refl, ap, ◌∙◌, ◌⊎◌, inl, inr, Bool, true, false, not,
  ◌&&◌, ◌||◌, Option, some, List, [], ◌∷◌, arith, ltb, ◌==◌, if◌then◌else◌, ltb→lt, Bool-cases,
  Option-cases, length, length-append, sat_mul,
}
use reclaim.Block.Source.{BlockSource}
use reclaim.FsCore.Types.{Extent, Entry, WalkOpts, is_recoverable_target}
use reclaim.Ext.Superblock.{Superblock}
use reclaim.Ext.Inode.{Inode, is_dir, is_regular, looks_deleted, read_inode, extents}
use reclaim.Ext.Dir.{DirEntry, read_dir}
use reclaim.Ext.Walk.{
  WalkCtx, budget_left, contains, record_entry, pick_inode, file_entry, emit_from_inode, is_skipped,
  Queue, child_path, each_entry, read_directory, max_dirs, tree_loop, orphan_step, orphan_loop,
  orphan_inode_scan, node_loop, extent_node_scan, fresh_ctx, walk,
}

-- The counts agree with what was sent, which is within the cap.
pub record IsCounted (opts : WalkOpts) (w : WalkCtx) : Type 0 where
  pub counted : length w.sent ≡ w.stats.emitted
  pub split : w.stats.live + w.stats.deleted ≡ w.stats.emitted
  pub capped : w.stats.emitted ≤ opts.max_entries

-- What holds of both branches holds of a test.
if_rule : {A : Type 0} (P : A → Type 0) (b : Bool) (x y : A) → P x → P y → P (if b then x else y)
if_rule P true x y h k = h
if_rule P false x y h k = k

List-cases : {A : Type 0} (xs : List A) → (xs ≡ []) ⊎ ((x : A) × (rest : List A) × (xs ≡ x ∷ rest))
List-cases [] = inl refl
List-cases (x ∷ xs) = inr (x, xs, refl)

module _ (src : BlockSource) (sb : Superblock) (journal : ℕ → Option Inode) (opts : WalkOpts) where
  -- What a step keeps: the counts, and the directories that were visited.
  record Keeps (w w' : WalkCtx) : Type 0 where
    counts : IsCounted opts w'
    visited : w'.visited_dirs ≡ w.visited_dirs

  same-Keeps : (w : WalkCtx) → IsCounted opts w → Keeps w w
  same-Keeps w h = record { counts = h; visited = refl }

  trans-Keeps : (u v w : WalkCtx) → Keeps u v → Keeps v w → Keeps u w
  trans-Keeps u v w p q = record { counts = q.counts; visited = q.visited ∙ p.visited }

  record_entry-Keeps :
      (w : WalkCtx) (e : Entry)
      → IsCounted opts w
      → budget_left opts w ≡ true
      → Keeps w (record_entry w e)
  unfolding record_entry budget_left
  record_entry-Keeps w e h more =
      let below : w.stats.emitted < opts.max_entries = ltb→lt _ _ more in
      record {
        counts = record {
          counted = omega (arith, length-append w.sent (e ∷ []), h.counted);
          split = elim (Bool-cases (is_recoverable_target e.state)) [
            | inl target ↦ rw target (omega (arith, h.split))
            | inr live ↦ rw live (omega (arith, h.split))
          ];
          capped = omega (arith, below);
        };
        visited = refl;
      }

  emit_from_inode-Keeps :
      (e : DirEntry) (parent : ℕ) (path : List ℕ) (live : Bool) (w : WalkCtx)
      → IsCounted opts w
      → Keeps w (emit_from_inode src sb journal opts e parent path live w)
  unfolding emit_from_inode
  emit_from_inode-Keeps e parent path live w h = elim (Bool-cases (budget_left opts w)) [
    | inr spent ↦ rw spent (same-Keeps w h)
    | inl more ↦
        elim (Option-cases (pick_inode live (read_inode src sb e.inode) (journal e.inode))) [
          | inl gone ↦ rw (more, gone, emit_from_inode) (same-Keeps w h)
          | inr (inode, found) ↦ elim (Bool-cases (is_dir inode)) [
            | inl dir ↦ rw (more, found, emit_from_inode, dir) (same-Keeps w h)
            | inr file ↦
                rw (more, found, emit_from_inode, file)
                  (record_entry-Keeps w (file_entry src sb e parent path live inode) h more)
          ]
        ]
  ]

  each_entry-Keeps :
      (dino : ℕ) (path : List ℕ) (es : List DirEntry) (w : WalkCtx) (q : Queue)
      → IsCounted opts w
      → Keeps w (each_entry src sb journal opts dino path es w q).0
  unfolding each_entry
  each_entry-Keeps dino path [] w q h = same-Keeps w h
  each_entry-Keeps dino path (e ∷ es) w q h =
      let name = from_utf8_lossy e.raw_name in
      let child = child_path path name in
      let queued = not e.deleted && e.file_type == 2 in
      let q' = if queued then (e.inode, child) ∷ q else q in
      elim (Bool-cases (is_skipped name)) [
        | inl skipped ↦ rw skipped (each_entry-Keeps dino path es w q h)
        | inr kept ↦
            let w' =
              if queued
              then w
              else emit_from_inode src sb journal opts e dino child (not e.deleted) w in
            let step : Keeps w w' = elim (Bool-cases queued) [
              | inl dir ↦ rw dir (same-Keeps w h)
              | inr file ↦ rw file (emit_from_inode-Keeps e dino child (not e.deleted) w h)
            ] in
            elim (Bool-cases (budget_left opts w')) [
              | inr spent ↦ rw (kept, spent) step
              | inl more ↦
                  rw (kept, more)
                    (trans-Keeps w w' _ step (each_entry-Keeps dino path es w' q' step.counts))
            ]
      ]

  read_directory-Keeps :
      (dino : ℕ) (path : List ℕ) (w : WalkCtx) (q : Queue)
      → IsCounted opts w
      → Keeps w (read_directory src sb journal opts dino path w q).0
  unfolding read_directory
  read_directory-Keeps dino path w q h = elim (Option-cases (read_inode src sb dino)) [
    | inl gone ↦ rw (gone, read_directory) (same-Keeps w h)
    | inr (dir, found) ↦ elim (Bool-cases (is_dir dir)) [
      | inl yes_dir ↦
          rw (found, read_directory, yes_dir)
            (each_entry-Keeps dino path (read_dir src sb dir) w q h)
      | inr no_dir ↦ rw (found, read_directory, no_dir) (same-Keeps w h)
    ]
  ]

  -- The walk ends, with counts that agree.
  Ends : (w : WalkCtx) (q : Queue) → Type 0
  Ends w q =
      (fuel : ℕ) × (w' : WalkCtx) × (tree_loop src sb journal opts fuel w q ≡ some w')
      × IsCounted opts w'

  -- Each directory is read once, and there is a cap on their number.
  tree_loop-Ends :
      (left : ℕ) (w : WalkCtx) (q : Queue)
      → IsCounted opts w
      → 2_000_001 ≤ length w.visited_dirs + left
      → Ends w q
  unfolding tree_loop Ends
  tree_loop-Ends left w [] h room = (1, w, refl, h)
  tree_loop-Ends zero w ((dino, path) ∷ q) h room =
      let full : (not (budget_left opts w) || ltb max_dirs (length w.visited_dirs)) ≡ true =
        ground arith in
      (1, w, rw full refl, h)
  tree_loop-Ends (suc left) w ((dino, path) ∷ q) h room =
      elim (Bool-cases (not (budget_left opts w) || ltb max_dirs (length w.visited_dirs))) [
        | inl stop ↦ (1, w, rw stop refl, h)
        | inr go ↦ elim (Bool-cases (contains w.visited_dirs dino)) [
          | inl again ↦
              let (fuel, w', e, c) = tree_loop-Ends (suc left) w q h room in
              (suc fuel, w', rw (go, again) e, c)
          | inr new ↦
              let seen = record w { visited_dirs = dino ∷ w.visited_dirs } in
              let counts : IsCounted opts seen = record {
                counted = h.counted;
                split = h.split;
                capped = h.capped;
              } in
              let k = read_directory-Keeps dino path seen q counts in
              let step = read_directory src sb journal opts dino path seen q in
              let (fuel, w', e, c) =
                tree_loop-Ends left step.0 step.1 k.counts
                  (omega (arith, room, ap (λ (v : List ℕ). length v) k.visited)) in
              (suc fuel, w', rw (go, new) e, c)
        ]
      ]

  orphan_step-IsCounted :
      (ino : ℕ) (w : WalkCtx)
      → IsCounted opts w
      → budget_left opts w ≡ true
      → IsCounted opts (orphan_step src sb journal opts ino w)
  unfolding orphan_step
  orphan_step-IsCounted ino w h more =
      elim (Bool-cases (contains w.emitted_inodes ino || contains w.visited_dirs ino)) [
        | inl known ↦ rw known h
        | inr new ↦ elim (Option-cases (read_inode src sb ino)) [
          | inl gone ↦ rw (new, gone, orphan_step) h
          | inr (inode, found) ↦
              elim (Bool-cases
                (not (is_regular inode) || not (looks_deleted inode) || inode.size == 0)) [
                  | inl other ↦ rw (new, found, orphan_step, other) h
                  | inr file ↦ elim (List-cases (extents src sb inode)) [
                    | inl unmapped ↦ rw (new, found, orphan_step, file, unmapped) h
                    | inr (x, xs, mapped) ↦
                        rw (new, found, orphan_step, file, mapped)
                          (record_entry-Keeps w _ h more).counts
                  ]
                ]
        ]
      ]

  orphan_loop-IsCounted :
      (left ino : ℕ) (w : WalkCtx)
      → IsCounted opts w
      → IsCounted opts (orphan_loop src sb journal opts left ino w)
  unfolding orphan_loop
  orphan_loop-IsCounted zero ino w h = h
  orphan_loop-IsCounted (suc left) ino w h = elim (Bool-cases (budget_left opts w)) [
    | inr spent ↦ rw spent h
    | inl more ↦ rw more (
        orphan_loop-IsCounted left (ino + 1) (orphan_step src sb journal opts ino w)
          (orphan_step-IsCounted ino w h more))
  ]

  orphan_inode_scan-IsCounted :
      (w : WalkCtx) → IsCounted opts w → IsCounted opts (orphan_inode_scan src sb journal opts w)
  unfolding orphan_inode_scan
  orphan_inode_scan-IsCounted w h =
      let count =
        min (min sb.inodes_count (sat_mul (length sb.groups) sb.inodes_per_group)) 8_000_000 in
      if_rule (IsCounted opts) (not opts.include_deleted) w
        (orphan_loop src sb journal opts (count + 1 - 11) 11 w) h
        (orphan_loop-IsCounted (count + 1 - 11) 11 w h)

  node_loop-IsCounted :
      (idx : ℕ) (runs : List (List Extent)) (w : WalkCtx)
      → IsCounted opts w
      → IsCounted opts (node_loop src sb journal opts idx runs w)
  unfolding node_loop
  node_loop-IsCounted idx [] w h = h
  node_loop-IsCounted idx (exts ∷ runs) w h = elim (Bool-cases (budget_left opts w)) [
    | inr spent ↦ rw spent h
    | inl more ↦
        rw more (node_loop-IsCounted (idx + 1) runs _ (record_entry-Keeps w _ h more).counts)
  ]

  extent_node_scan-IsCounted :
      (runs : List (List Extent)) (w : WalkCtx)
      → IsCounted opts w
      → IsCounted opts (extent_node_scan src sb journal opts runs w)
  unfolding extent_node_scan
  extent_node_scan-IsCounted runs w h =
      elim (Bool-cases (not opts.include_deleted || not (budget_left opts w))) [
        | inl off ↦ rw off h
        | inr on ↦ rw on (node_loop-IsCounted 0 runs w h)
      ]

-- Whatever the volume, its journal and its free extent nodes hold, the walk over the directories,
-- the inodes and the nodes ends, with no more entries than the cap, counted as they were sent.
pub walk_ends :
    (src : BlockSource) (sb : Superblock) (journal : ℕ → Option Inode) (opts : WalkOpts)
    → (runs : List (List Extent))
    → (fuel : ℕ) × (w : WalkCtx) × (walk src sb journal opts fuel runs ≡ some w) × IsCounted opts w
unfolding walk Ends
walk_ends src sb journal opts runs =
    let (fuel, w, e, c) =
      tree_loop-Ends src sb journal opts 2_000_001 fresh_ctx ((2, []) ∷ [])
        (record { counted = refl; split = omega arith; capped = omega arith }) (omega arith) in
    let scanned = orphan_inode_scan src sb journal opts w in
    (
      fuel,
      extent_node_scan src sb journal opts runs scanned,
      rw (e, walk) refl,
      extent_node_scan-IsCounted src sb journal opts runs scanned
          (orphan_inode_scan-IsCounted src sb journal opts w c),
    )
