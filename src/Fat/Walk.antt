-- ===== src/Fat/Walk.antt =====
-- crates/fs-fat/src/lib.rs: the walk over the directories. What the sink is sent is a list, and the
-- confidence of an entry is in thousandths, without the rounding of the floats.
pub mod Bounds
use Prim.Native.Nat.{bit_and, bit_or}
use reclaim.Prelude.{
  ℕ, zero, suc, ◌+◌, ◌*◌, ◌/◌, ◌^◌, Bool, true, false, not, ◌&&◌, ◌||◌, Option, none, some, List,
  [], ◌∷◌, ◌++◌, ltb, leb, ◌==◌, if◌then◌else◌, length, get_or, take, drop,
}
use reclaim.Part.Reader.{le_u32}
use reclaim.FsCore.Reader.{le_u16}
use reclaim.FsCore.Text.{as_bytes}
use reclaim.FsCore.Types.{Extent, Entry, EntryKind, EntryState, WalkOpts, WalkStats, new_file}
use reclaim.FsCore.Bitmap
use reclaim.FsCore.Bitmap.{Bitmap}
use reclaim.Fat.Boot.{FatFs, FatKind}
use reclaim.Fat.Table.{fat_bitmap, read_directory}
use reclaim.Fat.Names.{lfn_chars, assemble_lfn, short_name, fat_date, collect_sfn_names}
use reclaim.Fat.Files.{is_empty, resolve_extents, repair_first_cluster}

-- What a walk changes: what was sent to the sink, the counts, and the directories it has read.
pub record WalkState : Type 0 where
  pub sent : List Entry
  pub stats : WalkStats
  pub visited : List ℕ

-- The counts of `emit`.
pub count_entry : EntryState → WalkStats → WalkStats
count_entry EntryState.live s = record {
  emitted = s.emitted + 1;
  live = s.live + 1;
  deleted = s.deleted;
}
count_entry _ s = record { emitted = s.emitted + 1; live = s.live; deleted = s.deleted + 1 }

pub emit : WalkState → Entry → WalkState
unfolding count_entry
emit w e = record {
  sent = w.sent ++ (e ∷ []);
  stats = count_entry e.state w.stats;
  visited = w.visited;
}

-- What the loop over one directory changes besides.
pub record DirState : Type 0 where
  pub walk : WalkState
  pub lfn : List (List ℕ)
  pub subdirs : List (ℕ × List ℕ)

-- The name of an entry, with its confidence in tenths.
pub entry_name : List ℕ → List (List ℕ) → Bool → List (List ℕ) → List ℕ × ℕ
entry_name ent lfn deleted siblings =
    let short = short_name ent deleted siblings in
    let guessed = deleted && (elim short [ [] ↦ false | c ∷ cs ↦ c == b'_' ]) in
    let by_short : List ℕ × ℕ = (short, if guessed then 7 else 9) in
    elim (assemble_lfn lfn) [ none ↦ by_short | some l ↦ if is_empty l then by_short else (l, 10) ]

-- `name == "." || name == ".." || name.is_empty()`
pub is_dots : List ℕ → Bool
is_dots [] = true
is_dots (a ∷ []) = a == b'.'
is_dots (a ∷ b ∷ []) = a == b'.' && b == b'.'
is_dots (a ∷ b ∷ c ∷ cs) = false

pub child_path : List ℕ → List ℕ → List ℕ
child_path parent name = if is_empty parent then name else parent ++ (b'/' ∷ name)

-- The fields of a directory entry.
pub record Fields : Type 0 where
  pub name : List ℕ
  pub name_conf : ℕ
  pub first : ℕ
  pub size : ℕ
  pub created : Option (List ℕ)
  pub modified : Option (List ℕ)
  pub deleted : Bool
  pub is_dir : Bool
  pub path : List ℕ

pub state_of : Bool → EntryState
state_of deleted = if deleted then EntryState.deleted else EntryState.live

pub fields_of : FatFs → List ℕ → List ℕ → Bool → List ℕ × ℕ → Fields
fields_of fs parent ent deleted named =
    let hi = le_u16 ent 20 in
    let lo = le_u16 ent 26 in
    record {
      name = named.0;
      name_conf = named.1;
      first = if deleted then repair_first_cluster fs hi lo else bit_or (hi * 2 ^ 16) lo;
      size = le_u32 ent 28;
      created = fat_date (le_u16 ent 16);
      modified = fat_date (le_u16 ent 24);
      deleted = deleted;
      is_dir = not (bit_and (get_or ent 11 0) 0x10 == 0);
      path = child_path parent named.0;
    }

pub entry_id : Fields → ℕ → ℕ
entry_id f i = bit_or (f.first * 2 ^ 20) i

pub dir_entry : Fields → ℕ → Entry
unfolding state_of entry_id
dir_entry f i = record (new_file (entry_id f i) f.name (as_bytes f.name) 0 (state_of f.deleted)) {
  kind = EntryKind.dir;
  path = some f.path;
  created = f.created;
  modified = f.modified;
  confidence = f.name_conf * 9 * 10;
}

pub first_offset : List Extent → ℕ
first_offset [] = 0
first_offset (e ∷ es) = e.offset

pub file_entry : FatFs → Option Bitmap → Fields → ℕ → Entry
unfolding state_of entry_id first_offset
file_entry fs bitmap f i =
    let resolved = resolve_extents fs f.first f.size f.deleted in
    let base = if fs.fats_match then f.name_conf * 10 else f.name_conf * 9 in
    record (new_file (entry_id f i) f.name (as_bytes f.name) f.size (state_of f.deleted)) {
      path = some f.path;
      created = f.created;
      modified = f.modified;
      extents = resolved.0;
      contiguous_assumed = resolved.1;
      allocated = elim bitmap [
        | none ↦ false
        | some b ↦ Bitmap.is_offset_allocated b (first_offset resolved.0)
      ];
      confidence = if resolved.1 then base * 8 else base * 10;
    }

pub include : WalkOpts → Bool → Bool
include opts deleted = (deleted && opts.include_deleted) || (not deleted && opts.include_live)

-- An entry with a name, from the test for a directory on.
pub report : FatFs → WalkOpts → Option Bitmap → Fields → ℕ → DirState → DirState
unfolding dir_entry file_entry include emit
report fs opts bitmap f i d =
    let shown = include opts f.deleted in
    let subdirs =
      if not f.deleted && leb 2 f.first then d.subdirs ++ ((f.first, f.path) ∷ []) else d.subdirs in
    if f.is_dir
    then record {
      walk = if shown then emit d.walk (dir_entry f i) else d.walk;
      lfn = [];
      subdirs = subdirs;
    }
    else record {
      walk = if shown then emit d.walk (file_entry fs bitmap f i) else d.walk;
      lfn = [];
      subdirs = d.subdirs;
    }

-- One round of the loop, for an entry that does not end the directory.
pub entry_step :
    FatFs → WalkOpts → Option Bitmap → List ℕ → List (List ℕ) → List ℕ → ℕ → DirState → DirState
unfolding entry_name is_dots fields_of report
entry_step fs opts bitmap parent siblings ent i d =
    let attr = get_or ent 11 0 in
    let deleted = get_or ent 0 0 == 0xE5 in
    let named = entry_name ent d.lfn deleted siblings in
    let cleared : DirState = record { walk = d.walk; lfn = []; subdirs = d.subdirs } in
    if attr == 0x0F
    then record { walk = d.walk; lfn = d.lfn ++ (lfn_chars ent ∷ []); subdirs = d.subdirs }
    else if not (bit_and attr 0x08 == 0) && bit_and attr 0x10 == 0
    then cleared
    else if is_dots named.0
    then cleared
    else report fs opts bitmap (fields_of fs parent ent deleted named) i d

-- How the loop over a directory ends: at the end of the directory, or by the cap on entries, which
-- leaves the subdirectories out.
pub data Ended : Type 0 where
  reached capped : DirState → Ended

pub dir_loop :
    FatFs → WalkOpts → Option Bitmap → List ℕ → List (List ℕ) → List ℕ → ℕ → ℕ → DirState → Ended
unfolding entry_step
dir_loop fs opts bitmap parent siblings dir zero i d = Ended.reached d
dir_loop fs opts bitmap parent siblings dir (suc left) i d =
    let ent = take 32 (drop i dir) in
    let rest =
      dir_loop fs opts bitmap parent siblings dir left (i + 32)
        (entry_step fs opts bitmap parent siblings ent i d) in
    if ltb (length dir) (i + 32)
    then Ended.reached d
    else if leb opts.max_entries d.walk.stats.emitted
    then Ended.capped d
    else if get_or ent 0 0 == 0x00
    then Ended.reached d
    else rest

pub contains : List ℕ → ℕ → Bool
contains [] c = false
contains (x ∷ xs) c = x == c || contains xs c

-- The loop over a directory's bytes. Each round takes 32 of them.
pub read_entries : FatFs → WalkOpts → Option Bitmap → ℕ → Bool → List ℕ → WalkState → Ended
unfolding dir_loop
read_entries fs opts bitmap first fixed parent w =
    let dir = read_directory fs first fixed in
    dir_loop fs opts bitmap parent (collect_sfn_names dir) dir (length dir / 32) 0
      (record { walk = w; lfn = []; subdirs = [] })

-- The descent into the subdirectories, by the walk of a directory one level deeper.
pub each_subdir : (ℕ → List ℕ → WalkState → WalkState) → List (ℕ × List ℕ) → WalkState → WalkState
each_subdir f [] w = w
each_subdir f ((first, path) ∷ ds) w = each_subdir f ds (f first path w)

pub after_entries : (ℕ → List ℕ → WalkState → WalkState) → Ended → WalkState
unfolding each_subdir
after_entries f (Ended.capped d) = d.walk
after_entries f (Ended.reached d) = each_subdir f d.subdirs d.walk

-- `walk_dir`, at depth 65 less the levels that are left.
pub walk_dir : FatFs → WalkOpts → Option Bitmap → ℕ → ℕ → Bool → List ℕ → WalkState → WalkState
unfolding contains read_entries after_entries
walk_dir fs opts bitmap zero first fixed parent w = w
walk_dir fs opts bitmap (suc left) first fixed parent w =
    let seen = if fixed then w else record w { visited = first ∷ w.visited } in
    let deeper =
      after_entries (λ c path w'. walk_dir fs opts bitmap left c false path w')
        (read_entries fs opts bitmap first fixed parent seen) in
    if leb opts.max_entries w.stats.emitted
    then w
    else if not fixed && contains w.visited first
    then w
    else deeper

abbrev pub fresh_walk : WalkState
fresh_walk = record {
  sent = [];
  stats = record { emitted = 0; live = 0; deleted = 0 };
  visited = [];
}

unfoldable pub walk : FatFs → WalkOpts → WalkState
unfolding walk_dir
walk fs opts =
    let fixed_root : Bool = elim fs.kind [ FatKind.fat32 ↦ false | _ ↦ true ] in
    walk_dir fs opts (fat_bitmap fs) 65 (if fixed_root then 0 else fs.root_cluster) fixed_root []
      fresh_walk
