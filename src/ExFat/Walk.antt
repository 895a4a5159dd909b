-- ===== src/ExFat/Walk.antt =====
-- crates/fs-exfat/src/lib.rs: walk_dir and walk. A confidence is in thousandths.
use Prim.Native.Nat.{bit_and, bit_or}
use reclaim.Prelude.{
  ℕ, zero, suc, ◌+◌, ◌-◌, ◌*◌, ◌/◌, ◌^◌, max, Bool, true, false, not, ◌&&◌, ◌||◌, Option, none,
  some, List, [], ◌∷◌, ◌++◌, ltb, leb, ◌==◌, if◌then◌else◌, length, get_or,
}
use reclaim.FsCore.Types.{Entry, EntryKind, EntryState, WalkOpts, new_file}
use reclaim.FsCore.Bitmap
use reclaim.FsCore.Bitmap.{Bitmap}
use reclaim.FsCore.Reader.{le_u16}
use reclaim.FsCore.Text.{as_bytes}
use reclaim.Part.Reader.{le_u32, le_u64}
use reclaim.Fat.Walk.{
  WalkState, emit, is_dots, child_path, first_offset, include, contains, each_subdir, fresh_walk,
}
use reclaim.ExFat.Boot.{ExFat}
use reclaim.ExFat.Files.{cluster_offset, resolve_extents, read_directory, load_bitmap}
use reclaim.ExFat.Names.{read_name, exfat_date}

pub record Fields : Type 0 where
  pub name : List ℕ
  pub path : List ℕ
  pub first : ℕ
  pub data_len : ℕ
  pub no_fat_chain : Bool
  pub created : Option (List ℕ)
  pub modified : Option (List ℕ)
  pub in_use : Bool
  pub is_dir : Bool

-- The entry set at `i`, whose stream entry follows.
pub fields_at : List ℕ → List ℕ → ℕ → Fields
fields_at parent dir i =
    let s = i + 32 in
    let name = read_name dir (s + 32) (get_or dir (i + 1) 0 - 1) (get_or dir (s + 3) 0) in
    record {
      name = name;
      path = child_path parent name;
      first = le_u32 dir (s + 20);
      data_len = le_u64 dir (s + 24);
      no_fat_chain = not (bit_and (get_or dir (s + 1) 0) 0x02 == 0);
      created = exfat_date (le_u32 dir (i + 8));
      modified = exfat_date (le_u32 dir (i + 12));
      in_use = not (bit_and (get_or dir i 0) 0x80 == 0);
      is_dir = not (bit_and (le_u16 dir (i + 4)) 0x0010 == 0);
    }

pub state_of : Bool → EntryState
state_of in_use = if in_use then EntryState.live else EntryState.deleted

pub dir_entry : ExFat → ℕ → Fields → ℕ → Entry
unfolding state_of
dir_entry fs parent_cluster f i =
    record (new_file (bit_or (parent_cluster * 2 ^ 20) i) f.name (as_bytes f.name) 0
      (state_of f.in_use)) {
        kind = EntryKind.dir;
        path = some f.path;
        created = f.created;
        modified = f.modified;
        confidence = if fs.checksum_ok then 950 else 850;
      }

pub file_entry : ExFat → Option Bitmap → Fields → ℕ → Entry
unfolding state_of
file_entry fs bitmap f i =
    let resolved = resolve_extents fs f.first f.data_len f.no_fat_chain (not f.in_use) in
    let base = if fs.checksum_ok then 900 else 800 in
    record (new_file (bit_or (f.first * 2 ^ 20) i) f.name (as_bytes f.name) f.data_len
      (state_of f.in_use)) {
        path = some f.path;
        created = f.created;
        modified = f.modified;
        extents = resolved.0;
        contiguous_assumed = resolved.1;
        allocated = elim bitmap [
          | none ↦ false
          | some b ↦ Bitmap.is_offset_allocated b (first_offset resolved.0)
        ];
        confidence = if resolved.1 then base * 3 / 4 else base;
      }

-- A deleted directory is walked while its first cluster is free, as far as one can tell.
pub descends : ExFat → Option Bitmap → Fields → Bool
descends fs bitmap f = f.in_use || (elim bitmap [
  | none ↦ true
  | some b ↦ elim (cluster_offset fs f.first) [
    | none ↦ true
    | some o ↦ not (Bitmap.is_offset_allocated b o)
  ]
])

-- What the loop over one directory changes.
pub record DirState : Type 0 where
  pub walk : WalkState
  pub subdirs : List (ℕ × List ℕ)

pub report : ExFat → WalkOpts → Option Bitmap → ℕ → Fields → ℕ → DirState → DirState
unfolding dir_entry file_entry descends
report fs opts bitmap parent_cluster f i d =
    let shown = include opts (not f.in_use) in
    if f.is_dir
    then record {
      walk =
          if shown && not (is_dots f.name)
          then emit d.walk (dir_entry fs parent_cluster f i)
          else d.walk;
      subdirs =
          if leb 2 f.first && descends fs bitmap f
          then d.subdirs ++ ((f.first, f.path) ∷ [])
          else d.subdirs;
    }
    else record {
      walk = if shown then emit d.walk (file_entry fs bitmap f i) else d.walk;
      subdirs = d.subdirs;
    }

-- How the loop over a directory ends: at its end, or by the cap, which leaves the rest out.
pub data Ended : Type 0 where
  reached capped : DirState → Ended

-- The loop over the entries, on rounds of at least 32 bytes.
pub dir_loop : ExFat → WalkOpts → Option Bitmap → ℕ → List ℕ → List ℕ → ℕ → ℕ → DirState → Ended
unfolding fields_at report
dir_loop fs opts bitmap cluster parent dir zero i d = Ended.reached d
dir_loop fs opts bitmap cluster parent dir (suc left) i d =
    let raw_type = get_or dir i 0 in
    let shown = report fs opts bitmap cluster (fields_at parent dir i) i d in
    let past = i + 32 * (1 + max (get_or dir (i + 1) 0) 1) in
    let skip = dir_loop fs opts bitmap cluster parent dir left (i + 32) d in
    let on = dir_loop fs opts bitmap cluster parent dir left past shown in
    if ltb (length dir) (i + 32)
    then Ended.reached d
    else if leb opts.max_entries d.walk.stats.emitted
    then Ended.capped d
    else if raw_type == 0x00
    then Ended.reached d
    else if bit_and raw_type 0x7F == 0x05 && bit_and (get_or dir (i + 32) 0) 0x7F == 0x40
    then on
    else skip

pub after_entries : (ℕ → List ℕ → WalkState → WalkState) → Ended → WalkState
after_entries f (Ended.capped d) = d.walk
after_entries f (Ended.reached d) = each_subdir f d.subdirs d.walk

-- `walk_dir`, at depth 65 less the levels that are left.
pub walk_dir : ExFat → WalkOpts → Option Bitmap → ℕ → ℕ → List ℕ → WalkState → WalkState
unfolding dir_loop after_entries
walk_dir fs opts bitmap zero first parent w = w
walk_dir fs opts bitmap (suc left) first parent w =
    let seen = record w { visited = first ∷ w.visited } in
    let deeper : WalkState = elim (read_directory fs first) [
      | none ↦ seen
      | some dir ↦
          after_entries (λ c path w'. walk_dir fs opts bitmap left c path w')
            (dir_loop fs opts bitmap first parent dir (length dir / 32) 0
              (record { walk = seen; subdirs = [] }))
    ] in
    if leb opts.max_entries w.stats.emitted
    then w
    else if contains w.visited first
    then w
    else deeper

unfoldable pub walk : ExFat → WalkOpts → WalkState
unfolding walk_dir
walk fs opts = walk_dir fs opts (load_bitmap fs) 65 fs.root_dir_cluster [] fresh_walk
