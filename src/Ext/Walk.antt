-- ===== src/Ext/Walk.antt =====
-- crates/fs-ext/src/lib.rs: the walk over the directory tree, the inode table and the extent nodes.
-- The inodes that the journal yields and the extent lists of free blocks are arguments here.
-- A confidence is in thousandths.
pub mod Dates
pub mod Tree
use Prim.Native.Nat.{bit_or}
use reclaim.Prelude.{
  ℕ, zero, suc, ◌+◌, ◌-◌, ◌*◌, ◌/◌, ◌%◌, ◌^◌, min, Bool, true, false, not, ◌&&◌, ◌||◌, Option, none,
  some, List, [], ◌∷◌, ◌++◌, ltb, leb, ◌==◌, if◌then◌else◌, length, sat_add, sat_mul,
}
use reclaim.Block.Source.{BlockSource}
use reclaim.FsCore.Text.{from_utf8_lossy, decimal}
use reclaim.FsCore.Types.{
  Extent, Entry, EntryKind, EntryState, WalkOpts, WalkStats, new_file, is_recoverable_target,
}
use reclaim.FsCore.Bitmap
use reclaim.FsCore.Bitmap.{Bitmap}
use reclaim.Ext.Superblock.{Superblock}
use reclaim.Ext.Inode.{Inode, is_dir, is_regular, looks_deleted, read_inode, extents}
use reclaim.Ext.Dir.{DirEntry, read_dir}

-- What a walk changes: what was sent to the sink, the counts, the directories it has read and the
-- inodes it has reported.
pub record WalkCtx : Type 0 where
  pub sent : List Entry
  pub stats : WalkStats
  pub visited_dirs : List ℕ
  pub emitted_inodes : List ℕ

pub budget_left : WalkOpts → WalkCtx → Bool
budget_left opts w = ltb w.stats.emitted opts.max_entries

pub contains : List ℕ → ℕ → Bool
contains [] c = false
contains (x ∷ xs) c = x == c || contains xs c

-- `HashSet::insert`
pub insert_once : ℕ → List ℕ → List ℕ
unfolding contains
insert_once c xs = if contains xs c then xs else c ∷ xs

pub record_entry : WalkCtx → Entry → WalkCtx
unfolding insert_once
record_entry w e =
    let s = w.stats in
    let target = is_recoverable_target e.state in
    record {
      sent = w.sent ++ (e ∷ []);
      stats = record {
        emitted = s.emitted + 1;
        live = if target then s.live else s.live + 1;
        deleted = if target then s.deleted + 1 else s.deleted;
      };
      visited_dirs = w.visited_dirs;
      emitted_inodes = insert_once (e.id % 2 ^ 32) w.emitted_inodes;
    }

-- `civil_from_days`, of a day from 1970 on: year, month and day.
unfoldable pub civil_from_days : ℕ → ℕ × ℕ × ℕ
civil_from_days days =
    let z = days + 719_468 in
    let era = z / 146_097 in
    let doe = z - era * 146_097 in
    let yoe = (doe - doe / 1460 + doe / 36_524 - doe / 146_096) / 365 in
    let y = yoe + era * 400 in
    let doy = doe - (365 * yoe + yoe / 4 - yoe / 100) in
    let mp = (5 * doy + 2) / 153 in
    let d = doy - (153 * mp + 2) / 5 + 1 in
    let m = if ltb mp 10 then mp + 3 else mp - 9 in (if leb m 2 then y + 1 else y, m, d)

pub two_digits : ℕ → List ℕ
two_digits n = (b'0' + n / 10 % 10) ∷ (b'0' + n % 10) ∷ []

pub date_from_epoch : ℕ → Option (List ℕ)
unfolding civil_from_days two_digits
date_from_epoch secs =
    let c = civil_from_days (secs / 86_400) in
    if secs == 0
    then none
    else some (
        two_digits (c.0 / 100)
        ++ (two_digits (c.0 % 100) ++ (b'-' ∷ two_digits c.1 ++ (b'-' ∷ two_digits c.2))))

pub all_zero : List ℕ → Bool
all_zero [] = true
all_zero (b ∷ bs) = b == 0 && all_zero bs

pub sum_len : List Extent → ℕ → ℕ
sum_len [] a = a
sum_len (e ∷ es) a = sum_len es (sat_add a e.len)

-- The inode of a record, or the journal's copy of it where the map of a deleted one is empty.
pub pick_inode : Bool → Option Inode → Option Inode → Option Inode
unfolding all_zero
pick_inode live none copy = if live then none else copy
pick_inode live (some i) copy =
    if not live && all_zero i.i_block then elim copy [ some j ↦ some j | none ↦ some i ] else some i

-- The entry of a file, from `inode.extents` on.
pub file_entry : BlockSource → Superblock → DirEntry → ℕ → List ℕ → Bool → Inode → Entry
unfolding sum_len date_from_epoch
file_entry src sb e parent path live inode =
    let exts = extents src sb inode in
    let size = if ltb 0 inode.size then inode.size else sum_len exts 0 in
    let state = if live then EntryState.live else EntryState.deleted in
    record (new_file e.inode (from_utf8_lossy e.raw_name) e.raw_name size state) {
      parent_id = some parent;
      kind = if is_regular inode then EntryKind.file else EntryKind.other;
      path = some path;
      created = date_from_epoch inode.ctime;
      modified = date_from_epoch inode.mtime;
      extents = exts;
      confidence = if live then 1000 else if looks_deleted inode then 850 else 600;
    }

-- Equality of texts.
pub same_text : List ℕ → List ℕ → Bool
same_text [] [] = true
same_text (a ∷ xs) (b ∷ ys) = a == b && same_text xs ys
same_text [] (b ∷ ys) = false
same_text (a ∷ xs) [] = false

-- The names that are passed over: `.`, `..` and `lost+found`.
pub is_skipped : List ℕ → Bool
unfolding same_text
is_skipped name =
    same_text name (b'.' ∷ [])
    || same_text name (b'.' ∷ b'.' ∷ [])
    || same_text name (b'l' ∷ b'o' ∷ b's' ∷ b't' ∷ b'+' ∷ b'f' ∷ b'o' ∷ b'u' ∷ b'n' ∷ b'd' ∷ [])

-- The queue of directories, the last one first.
abbrev pub Queue : Type 0
Queue = List (ℕ × List ℕ)

pub child_path : List ℕ → List ℕ → List ℕ
child_path [] name = name
child_path (c ∷ cs) name = (c ∷ cs) ++ (b'/' ∷ name)

abbrev pub max_dirs : ℕ
max_dirs = 2_000_000

abbrev pub fresh_ctx : WalkCtx
fresh_ctx = record {
  sent = [];
  stats = record { emitted = 0; live = 0; deleted = 0 };
  visited_dirs = [];
  emitted_inodes = [];
}

module _ (src : BlockSource) (sb : Superblock) (journal : ℕ → Option Inode) (opts : WalkOpts) where
  pub emit_from_inode : DirEntry → ℕ → List ℕ → Bool → WalkCtx → WalkCtx
  emit_from_inode e parent path live w =
      if not (budget_left opts w)
      then w
      else elim (pick_inode live (read_inode src sb e.inode) (journal e.inode)) [
        | none ↦ w
        | some inode ↦
            if is_dir inode then w else record_entry w (file_entry src sb e parent path live inode)
      ]

  -- The loop over the records of one directory.
  pub each_entry : ℕ → List ℕ → List DirEntry → WalkCtx → Queue → WalkCtx × Queue
  each_entry dino path [] w q = (w, q)
  each_entry dino path (e ∷ es) w q =
      let name = from_utf8_lossy e.raw_name in
      let child = child_path path name in
      let queued = not e.deleted && e.file_type == 2 in
      let w' = if queued then w else emit_from_inode e dino child (not e.deleted) w in
      let q' = if queued then (e.inode, child) ∷ q else q in
      let skipped = is_skipped name in
      let next = each_entry dino path es (if skipped then w else w') (if skipped then q else q') in
      if not skipped && not (budget_left opts w') then (w', q') else next

  -- A round for a directory that was not visited before.
  pub read_directory : ℕ → List ℕ → WalkCtx → Queue → WalkCtx × Queue
  read_directory dino path w q = elim (read_inode src sb dino) [
    | none ↦ (w, q)
    | some dir ↦ if is_dir dir then each_entry dino path (read_dir src sb dir) w q else (w, q)
  ]

  -- The loop of `walk_tree`, on fuel: `none` means that the fuel ran out.
  pub tree_loop : ℕ → WalkCtx → Queue → Option WalkCtx
  tree_loop zero w q = none
  tree_loop (suc fuel) w [] = some w
  tree_loop (suc fuel) w ((dino, path) ∷ q) =
      let seen = record w { visited_dirs = dino ∷ w.visited_dirs } in
      let step = read_directory dino path seen q in
      let again = tree_loop fuel w q in
      let on = tree_loop fuel step.0 step.1 in
      if not (budget_left opts w) || ltb max_dirs (length w.visited_dirs)
      then some w
      else if contains w.visited_dirs dino
      then again
      else on

  -- One round of `orphan_inode_scan`.
  pub orphan_step : ℕ → WalkCtx → WalkCtx
  orphan_step ino w =
      if contains w.emitted_inodes ino || contains w.visited_dirs ino
      then w
      else elim (read_inode src sb ino) [
        | none ↦ w
        | some inode ↦
            if not (is_regular inode) || not (looks_deleted inode) || inode.size == 0
            then w
            else elim (extents src sb inode) [
              | [] ↦ w
              | x ∷ xs ↦
                  let name = b'i' ∷ b'n' ∷ b'o' ∷ b'd' ∷ b'e' ∷ b'_' ∷ decimal ino in
                  record_entry w (record (new_file ino name name inode.size EntryState.orphaned) {
                    created = date_from_epoch inode.ctime;
                    modified = date_from_epoch inode.mtime;
                    extents = x ∷ xs;
                    confidence = 600;
                  })
            ]
      ]

  pub orphan_loop : ℕ → ℕ → WalkCtx → WalkCtx
  orphan_loop zero ino w = w
  orphan_loop (suc left) ino w =
      let rest = orphan_loop left (ino + 1) (orphan_step ino w) in
      if budget_left opts w then rest else w

  pub orphan_inode_scan : WalkCtx → WalkCtx
  orphan_inode_scan w =
      let addressable = sat_mul (length sb.groups) sb.inodes_per_group in
      let count = min (min sb.inodes_count addressable) 8_000_000 in
      if not opts.include_deleted then w else orphan_loop (count + 1 - 11) 11 w

  -- The loop of `extent_node_scan`.
  pub node_loop : ℕ → List (List Extent) → WalkCtx → WalkCtx
  node_loop idx [] w = w
  node_loop idx (exts ∷ runs) w =
      let name =
        b'e'
        ∷ b'x'
        ∷ b't'
        ∷ b'e'
        ∷ b'n'
        ∷ b't'
        ∷ b'n'
        ∷ b'o'
        ∷ b'd'
        ∷ b'e'
        ∷ b'_'
        ∷ decimal (idx + 1) in
      let e =
        record (new_file (bit_or 0xF30A000000000000 (idx + 1)) name name (sum_len exts 0)
          EntryState.orphaned) { extents = exts; confidence = 400 } in
      let rest = node_loop (idx + 1) runs (record_entry w e) in
      if budget_left opts w then rest else w

  pub extent_node_scan : List (List Extent) → WalkCtx → WalkCtx
  extent_node_scan runs w =
      if not opts.include_deleted || not (budget_left opts w) then w else node_loop 0 runs w

  -- `walk`, with fuel for the tree.
  pub walk : ℕ → List (List Extent) → Option WalkCtx
  walk fuel runs = elim (tree_loop fuel fresh_ctx ((2, []) ∷ [])) [
    | none ↦ none
    | some w ↦ some (extent_node_scan runs (orphan_inode_scan w))
  ]
