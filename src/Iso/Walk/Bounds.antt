-- ===== src/Iso/Walk/Bounds.antt =====
-- What a walk sends: live entries in a rising order of ids, as many as it counts and the cap lets in.
use Prim.Native.Nat.{bit_and}
use reclaim.Prelude.{
  if_cases, ℕ, zero, suc, ◌+◌, ◌*◌, ◌/◌, ◌≤◌, ◌<◌, min, ◌≡◌, refl, inl, inr, false, not, ◌||◌, List,
  [], ◌∷◌, ◌++◌, arith, ltb, leb, ◌==◌, Bool-cases, length, length-append, get_or, take, drop,
  sat_mul, All, All-append,
}
use reclaim.FsCore.Types.{Entry, EntryState, WalkOpts, new_file}
use reclaim.FsCore.Reader.{read}
use reclaim.Fat.Files.{is_empty}
use reclaim.Fat.Walk.{contains, child_path}
use reclaim.Part.Reader.{le_u32}
use reclaim.Iso.Volume.{Iso}
use reclaim.Iso.Walk.{
  WalkState, Subdir, DirState, emit, file_entry, take_record, is_counted, cap, Ended, record_loop,
  each_subdir, after_records, walk_dir, fresh_walk, walk, is_self_or_parent, name_bytes,
  decode_name,
}

-- Each entry has a larger id than all before it, and a smaller one than the last number.
pub data Numbered : List Entry → ℕ → Type 0 where
  none_yet : (n : ℕ) → Numbered [] n
  one_more :
      (es : List Entry) (e : Entry) (n : ℕ)
      → Numbered es n
      → n ≤ e.id
      → Numbered (es ++ (e ∷ [])) (e.id + 1)
  passed : (es : List Entry) (n m : ℕ) → Numbered es n → n ≤ m → Numbered es m

pub record IsListing (opts : WalkOpts) (w : WalkState) : Type 0 where
  pub counted : length w.sent ≡ w.stats.emitted
  pub live_only : All (λ (e : Entry). e.state ≡ EntryState.live) w.sent
  pub all_live : w.stats.live ≡ w.stats.emitted
  pub none_deleted : w.stats.deleted ≡ 0
  pub numbered : Numbered w.sent w.next_id
  pub capped : w.stats.emitted ≤ cap opts

emit-IsListing :
    (opts : WalkOpts) (w : WalkState) (e : Entry)
    → IsListing opts w
    → w.stats.emitted < cap opts
    → e.id ≡ w.next_id
    → e.state ≡ EntryState.live
    → IsListing opts (emit (record w { next_id = w.next_id + 1 }) e)
unfolding emit
emit-IsListing opts w e h room same live = record {
  counted = omega (arith, h.counted, length-append w.sent (e ∷ []));
  live_only =
      All-append (λ (t : Entry). t.state ≡ EntryState.live) w.sent (e ∷ []) h.live_only (live, tt);
  all_live = omega (arith, h.all_live);
  none_deleted = h.none_deleted;
  numbered =
      passed (w.sent ++ (e ∷ [])) (e.id + 1) (w.next_id + 1)
        (one_more w.sent e w.next_id h.numbered (omega (arith, same))) (omega (arith, same));
  capped = omega (arith, room);
}

id-file_entry :
    (fs : Iso) (id : ℕ) (name raw path : List ℕ) (lba len : ℕ)
    → (file_entry fs id name raw path lba len).id ≡ id
unfolding file_entry new_file
id-file_entry fs id name raw path lba len = refl

state-file_entry :
    (fs : Iso) (id : ℕ) (name raw path : List ℕ) (lba len : ℕ)
    → (file_entry fs id name raw path lba len).state ≡ EntryState.live
unfolding file_entry new_file
state-file_entry fs id name raw path lba len = refl

module _ (fs : Iso) (opts : WalkOpts) where
  -- A record that is counted.
  took_one :
      (path rec : List ℕ) (d : DirState)
      → IsListing opts d.walk
      → d.walk.stats.emitted < cap opts
      → IsListing opts (take_record fs path rec d).walk
  unfolding take_record
  took_one path rec d h room =
      let is_dir = not (bit_and (get_or rec 25 0) 0x02 == 0) in
      let name = decode_name fs.joliet (name_bytes rec) is_dir in
      let e =
        file_entry fs d.walk.next_id name (name_bytes rec) (child_path path name) (le_u32 rec 2)
          (le_u32 rec 10) in
      let P : DirState → Type 0 = λ d'. IsListing opts d'.walk in
      if_cases P (is_self_or_parent rec || is_empty name) d _ (λ skip. h)
        (λ named.
          if_cases P is_dir _ _
            (λ dir. record {
              counted = h.counted;
              live_only = h.live_only;
              all_live = h.all_live;
              none_deleted = h.none_deleted;
              numbered =
                  passed d.walk.sent d.walk.next_id (d.walk.next_id + 1) h.numbered (omega arith);
              capped = h.capped;
            })
            (λ file.
              emit-IsListing opts d.walk e h room
                (id-file_entry fs d.walk.next_id name (name_bytes rec) (child_path path name)
                  (le_u32 rec 2) (le_u32 rec 10))
                (state-file_entry fs d.walk.next_id name (name_bytes rec) (child_path path name)
                  (le_u32 rec 2) (le_u32 rec 10))))

  skipped_eq :
      (path rec : List ℕ) (d : DirState) → is_counted fs rec ≡ false → take_record fs path rec d ≡ d
  unfolding take_record is_counted
  skipped_eq path rec d h = ground arith

abbrev state_at_end : Ended → DirState
state_at_end (Ended.reached d) = d
state_at_end (Ended.capped d) = d

module _ (fs : Iso) (opts : WalkOpts) (path bytes : List ℕ) where
  record_loop-IsListing :
      (left pos : ℕ) (d : DirState)
      → IsListing opts d.walk
      → d.walk.stats.emitted < cap opts
      → IsListing opts (state_at_end (record_loop fs opts path bytes left pos d)).walk
  unfolding record_loop
  record_loop-IsListing zero pos d h room = h
  record_loop-IsListing (suc left) pos d h room =
      let reclen = get_or bytes pos 0 in
      let rec = take reclen (drop pos bytes) in
      let next = (pos / fs.block_size + 1) * fs.block_size in
      elim (Bool-cases (leb (length bytes) pos)) [
        | inl past ↦ rw past h
        | inr before ↦ rw before (elim (Bool-cases (reclen == 0)) [
          | inl pad ↦ rw pad (elim (Bool-cases (leb next pos)) [
            | inl stuck ↦ rw stuck h
            | inr on ↦ rw on (record_loop-IsListing left next d h room)
          ])
          | inr some_bytes ↦ rw some_bytes (elim (Bool-cases (ltb (length bytes) (pos + reclen))) [
            | inl cut ↦ rw cut h
            | inr whole ↦
                let h' = took_one fs opts path rec d h room in
                rw whole (elim (Bool-cases (is_counted fs rec)) [
                  | inr skip ↦
                      rw (skip, skipped_eq fs opts path rec d skip)
                        (record_loop-IsListing left (pos + reclen) d h room)
                  | inl took ↦
                      rw took
                        (elim (Bool-cases
                          (leb (cap opts) (take_record fs path rec d).walk.stats.emitted)) [
                            | inl full ↦ rw full h'
                            | inr more ↦ rw more (
                                record_loop-IsListing left (pos + reclen)
                                  (take_record fs path rec d) h' (ground arith))
                          ])
                ])
          ])
        ])
      ]

module _ (fs : Iso) (opts : WalkOpts) where
  each_subdir-IsListing :
      (f : Subdir → WalkState → WalkState) (ss : List Subdir) (w : WalkState)
      → ((s : Subdir) (w' : WalkState) → IsListing opts w' → IsListing opts (f s w'))
      → IsListing opts w
      → IsListing opts (each_subdir f ss w)
  unfolding each_subdir
  each_subdir-IsListing f [] w keep h = h
  each_subdir-IsListing f (s ∷ ss) w keep h = each_subdir-IsListing f ss (f s w) keep (keep s w h)

  after_records-IsListing :
      (f : Subdir → WalkState → WalkState) (ended : Ended)
      → ((s : Subdir) (w' : WalkState) → IsListing opts w' → IsListing opts (f s w'))
      → IsListing opts (state_at_end ended).walk
      → IsListing opts (after_records f ended)
  unfolding after_records
  after_records-IsListing f (Ended.capped d) keep h = h
  after_records-IsListing f (Ended.reached d) keep h =
      each_subdir-IsListing f d.subdirs d.walk keep h

  walk_dir-IsListing :
      (left : ℕ) (s : Subdir) (w : WalkState)
      → IsListing opts w
      → IsListing opts (walk_dir fs opts left s w)
  unfolding walk_dir
  walk_dir-IsListing zero s w h = h
  walk_dir-IsListing (suc left) (lba, len, path) w h =
      let bytes = read fs.src (sat_mul lba fs.block_size) (min len (16 * 1024 * 1024)) in
      let start : WalkState = record w { visited = lba ∷ w.visited } in
      let d : DirState = record { walk = start; subdirs = [] } in
      let h' : IsListing opts start = record {
        counted = h.counted;
        live_only = h.live_only;
        all_live = h.all_live;
        none_deleted = h.none_deleted;
        numbered = h.numbered;
        capped = h.capped;
      } in
      if_cases (IsListing opts) (leb (cap opts) w.stats.emitted) w _ (λ full. h)
        (λ room.
          if_cases (IsListing opts) (contains w.visited lba) w _ (λ seen. h)
            (λ new_dir.
              after_records-IsListing (λ s w'. walk_dir fs opts left s w')
                (record_loop fs opts path bytes 5_000_000 0 d)
                (λ s w' k. walk_dir-IsListing left s w' k)
                (record_loop-IsListing fs opts path bytes 5_000_000 0 d h' (ground arith))))

-- Whatever a disc holds, every entry that a walk sends is in the state live and is counted as live,
-- none as deleted, no more are sent than the cap lets in, as many as are counted, and each has a
-- larger id than all before it.
pub walk-IsListing : (fs : Iso) (opts : WalkOpts) → IsListing opts (walk fs opts)
unfolding walk
walk-IsListing fs opts =
    let fresh : IsListing opts fresh_walk = record {
      counted = refl;
      live_only = tt;
      all_live = refl;
      none_deleted = refl;
      numbered = none_yet 1;
      capped = omega arith;
    } in
    if_cases (IsListing opts) (not opts.include_live || fs.root_lba == 0) fresh_walk _
      (λ off. fresh)
      (λ on. walk_dir-IsListing fs opts 65 (fs.root_lba, fs.root_len, []) fresh_walk fresh)
