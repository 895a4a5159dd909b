-- ===== src/Fat/Walk/Bounds.antt =====
-- What a walk reports: entries whose extents lie on the volume, no more of them than the cap, and
-- of the states that were asked for.
use Prim.Native.Nat.{bit_and}
use reclaim.Prelude.{
  ℕ, zero, suc, ◌+◌, ◌/◌, ◌≤◌, ◌<◌, ◌≡◌, refl, ◌⊎◌, inl, inr, Bool, true, false, not, ◌&&◌, Option,
  List, [], ◌∷◌, arith, ltb, leb, ◌==◌, if◌then◌else◌, Bool-cases, length, length-append, get_or,
  take, drop, IsByte, All, All-append,
}
use reclaim.FsCore.Types.{Entry, EntryState, WalkOpts, WalkStats, new_file}
use reclaim.FsCore.Extents.{IsWithin, total_len}
use reclaim.FsCore.Bitmap.{Bitmap, new}
use reclaim.Fat.Boot.{FatFs, Opened, open_volume}
use reclaim.Block.Source.{BlockSource}
use reclaim.FsCore.Reader.{read}
use reclaim.Fat.Table.{read_directory, fat_bitmap}
use reclaim.Fat.Names.{collect_sfn_names}
use reclaim.Fat.Boot.Geometry.{IsVolume, open_volume-IsVolume, cluster_size-pos}
use reclaim.Fat.Files.Resolve.{resolve_extents_bounds}
use reclaim.Fat.Walk.{
  WalkState, emit, DirState, entry_name, is_dots, Fields, state_of, dir_entry, file_entry, include,
  report, entry_step, Ended, dir_loop, contains, read_entries, each_subdir, after_entries, walk_dir,
  fresh_walk, walk, count_entry,
}

-- An entry was asked for, its extents lie on the volume, and they hold no more than its size.
pub record IsReport (fs : FatFs) (opts : WalkOpts) (e : Entry) : Type 0 where
  pub within : IsWithin fs.total_bytes e.extents
  pub sized : total_len e.extents ≤ e.size
  pub wanted :
      ((e.state ≡ EntryState.live) × (opts.include_live ≡ true))
      ⊎ ((e.state ≡ EntryState.deleted) × (opts.include_deleted ≡ true))

-- The counts agree with what was sent, which is within the cap.
pub record IsWalk (fs : FatFs) (opts : WalkOpts) (w : WalkState) : Type 0 where
  pub reports : All (IsReport fs opts) w.sent
  pub counted : length w.sent ≡ w.stats.emitted
  pub split : w.stats.live + w.stats.deleted ≡ w.stats.emitted
  pub capped : w.stats.emitted ≤ opts.max_entries

count_entry_lem :
    (st : EntryState) (s : WalkStats)
    → ((count_entry st s).emitted ≡ s.emitted + 1)
      × ((count_entry st s).live + (count_entry st s).deleted ≡ s.live + s.deleted + 1)
unfolding count_entry
count_entry_lem EntryState.live s = omega arith
count_entry_lem EntryState.deleted s = omega arith
count_entry_lem EntryState.orphaned s = omega arith
count_entry_lem EntryState.historical s = omega arith

module _ (fs : FatFs) (v : IsVolume fs) (some_size : 0 < fs.cluster_size) (opts : WalkOpts)
    (bitmap : Option Bitmap) where
  emit-IsWalk :
      (w : WalkState) (e : Entry)
      → IsWalk fs opts w
      → w.stats.emitted < opts.max_entries
      → IsReport fs opts e
      → IsWalk fs opts (emit w e)
  unfolding emit
  emit-IsWalk w e h more r =
      let counts = count_entry_lem e.state w.stats in
      record {
        reports = All-append _ w.sent (e ∷ []) h.reports (r, tt);
        counted = omega (arith, length-append w.sent (e ∷ []), h.counted, counts);
        split = omega (arith, h.split, counts);
        capped = omega (arith, counts, more);
      }

  wanted_lem :
      (deleted : Bool)
      → include opts deleted ≡ true
      → ((state_of deleted ≡ EntryState.live) × (opts.include_live ≡ true))
        ⊎ ((state_of deleted ≡ EntryState.deleted) × (opts.include_deleted ≡ true))
  unfolding include state_of
  wanted_lem true h = inr (refl, ground arith)
  wanted_lem false h = inl (refl, ground arith)

  report-IsWalk :
      (f : Fields) (i : ℕ) (d : DirState)
      → IsWalk fs opts d.walk
      → d.walk.stats.emitted < opts.max_entries
      → IsWalk fs opts (report fs opts bitmap f i d).walk
  unfolding report dir_entry file_entry new_file
  report-IsWalk f i d h more = elim (Bool-cases (include opts f.deleted)) [
    | inr hidden ↦ elim (Bool-cases f.is_dir) [
      | inl dir ↦ rw (dir, hidden) h
      | inr file ↦ rw (file, hidden) h
    ]
    | inl shown ↦ elim (Bool-cases f.is_dir) [
      | inl dir ↦
          rw (dir, shown)
            (emit-IsWalk d.walk (dir_entry f i) h more
              (record { within = tt; sized = omega arith; wanted = wanted_lem f.deleted shown }))
      | inr file ↦
          let bounds = resolve_extents_bounds fs v some_size f.first f.size f.deleted in
          rw (file, shown)
            (emit-IsWalk d.walk (file_entry fs bitmap f i) h more
              (record { within = bounds.0; sized = bounds.1; wanted = wanted_lem f.deleted shown }))
    ]
  ]

  entry_step-IsWalk :
      (parent : List ℕ) (siblings : List (List ℕ)) (ent : List ℕ) (i : ℕ) (d : DirState)
      → IsWalk fs opts d.walk
      → d.walk.stats.emitted < opts.max_entries
      → IsWalk fs opts (entry_step fs opts bitmap parent siblings ent i d).walk
  unfolding entry_step
  entry_step-IsWalk parent siblings ent i d h more =
      let attr = get_or ent 11 0 in
      let named = entry_name ent d.lfn (get_or ent 0 0 == 0xE5) siblings in
      elim (Bool-cases (attr == 0x0F)) [
        | inl long ↦ rw long h
        | inr short ↦ elim (Bool-cases (not (bit_and attr 0x08 == 0) && bit_and attr 0x10 == 0)) [
          | inl label ↦ rw (short, label) h
          | inr entry ↦ elim (Bool-cases (is_dots named.0)) [
            | inl dots ↦ rw (short, entry, dots) h
            | inr name ↦ rw (short, entry, name) (report-IsWalk _ i d h more)
          ]
        ]
      ]

  -- The walk when the loop ends, whichever way.
  abbrev ended_walk : Ended → WalkState
  ended_walk (Ended.reached d) = d.walk
  ended_walk (Ended.capped d) = d.walk

  dir_loop-IsWalk :
      (parent : List ℕ) (siblings : List (List ℕ)) (dir : List ℕ) (left i : ℕ) (d : DirState)
      → IsWalk fs opts d.walk
      → IsWalk fs opts (ended_walk (dir_loop fs opts bitmap parent siblings dir left i d))
  unfolding dir_loop
  dir_loop-IsWalk parent siblings dir zero i d h = h
  dir_loop-IsWalk parent siblings dir (suc left) i d h =
      let ent = take 32 (drop i dir) in
      elim (Bool-cases (ltb (length dir) (i + 32))) [
        | inl past ↦ rw past h
        | inr within ↦ elim (Bool-cases (leb opts.max_entries d.walk.stats.emitted)) [
          | inl full ↦ rw (within, full) h
          | inr more ↦ elim (Bool-cases (get_or ent 0 0 == 0x00)) [
            | inl end ↦ rw (within, more, end) h
            | inr used ↦
                rw (within, more, used)
                  (dir_loop-IsWalk parent siblings dir left (i + 32) _
                    (entry_step-IsWalk parent siblings ent i d h (ground arith)))
          ]
        ]
      ]

  read_entries-IsWalk :
      (first : ℕ) (fixed : Bool) (parent : List ℕ) (w : WalkState)
      → IsWalk fs opts w
      → IsWalk fs opts (ended_walk (read_entries fs opts bitmap first fixed parent w))
  unfolding read_entries
  read_entries-IsWalk first fixed parent w h =
      let dir = read_directory fs first fixed in
      dir_loop-IsWalk parent (collect_sfn_names dir) dir (length dir / 32) 0
        (record { walk = w; lfn = []; subdirs = [] }) h

  -- A directory is noted as visited before it is read.
  seen-IsWalk :
      (first : ℕ) (fixed : Bool) (w : WalkState)
      → IsWalk fs opts w
      → IsWalk fs opts (if fixed then w else record w { visited = first ∷ w.visited })
  seen-IsWalk first true w h = h
  seen-IsWalk first false w h = record {
    reports = h.reports;
    counted = h.counted;
    split = h.split;
    capped = h.capped;
  }

  after_entries-IsWalk :
      (f : ℕ → List ℕ → WalkState → WalkState)
      → ((c : ℕ) (path : List ℕ) (w : WalkState) → IsWalk fs opts w → IsWalk fs opts (f c path w))
      → (e : Ended) → IsWalk fs opts (ended_walk e)
      → IsWalk fs opts (after_entries f e)
  unfolding after_entries
  after_entries-IsWalk f keep (Ended.capped d) h = h
  after_entries-IsWalk f keep (Ended.reached d) h = subdirs d.subdirs d.walk h
    where
      subdirs :
          (ds : List (ℕ × List ℕ)) (w : WalkState)
          → IsWalk fs opts w
          → IsWalk fs opts (each_subdir f ds w)
      subdirs [] w h = h
      subdirs ((c, path) ∷ ds) w h = subdirs ds (f c path w) (keep c path w h)

  walk_dir-IsWalk :
      (left first : ℕ) (fixed : Bool) (parent : List ℕ) (w : WalkState)
      → IsWalk fs opts w
      → IsWalk fs opts (walk_dir fs opts bitmap left first fixed parent w)
  unfolding walk_dir
  walk_dir-IsWalk zero first fixed parent w h = h
  walk_dir-IsWalk (suc left) first fixed parent w h =
      let seen = if fixed then w else record w { visited = first ∷ w.visited } in
      elim (Bool-cases (leb opts.max_entries w.stats.emitted)) [
        | inl full ↦ rw full h
        | inr more ↦ elim (Bool-cases (not fixed && contains w.visited first)) [
          | inl again ↦ rw (more, again) h
          | inr new ↦
              rw (more, new)
                (after_entries-IsWalk (λ c path w'. walk_dir fs opts bitmap left c false path w')
                  (λ c path w' h'. walk_dir-IsWalk left c false path w' h')
                  (read_entries fs opts bitmap first fixed parent seen)
                  (read_entries-IsWalk first fixed parent seen (seen-IsWalk first fixed w h)))
        ]
      ]

-- Whatever the bytes of the source, a walk over an opened volume sends no more entries than the cap
-- and counts them, live and deleted; the extents of each lie on the volume and hold no more than
-- its size, and it is of a state that was asked for.
pub walk-IsWalk :
    (src : BlockSource) (fs : FatFs) (opts : WalkOpts)
    → ((offset : ℕ) → All IsByte (read src offset 512))
    → open_volume src ≡ Opened.ok fs
    → IsWalk fs opts (walk fs opts)
unfolding walk
walk-IsWalk src fs opts bytes opened =
    let v = open_volume-IsVolume src fs bytes opened in
    walk_dir-IsWalk fs v (cluster_size-pos fs v) opts (fat_bitmap fs) 65 _ _ [] fresh_walk
      (record { reports = tt; counted = refl; split = omega arith; capped = omega arith })
