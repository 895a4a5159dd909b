-- ===== src/Iso/Walk.antt =====
-- crates/fs-iso/src/lib.rs: names, directory records and the walk.
pub mod Bounds
use Prim.Native.Nat.{bit_and}
use reclaim.Prelude.{
  ℕ, zero, suc, ◌+◌, ◌*◌, ◌/◌, min, Bool, false, not, ◌&&◌, ◌||◌, none, some, List, [], ◌∷◌, ◌++◌,
  ltb, leb, ◌==◌, if◌then◌else◌, length, get_or, take, drop, sat_mul, slice,
}
use reclaim.FsCore.Types.{Entry, EntryKind, EntryState, WalkOpts, WalkStats, new_file}
use reclaim.FsCore.Reader.{read}
use reclaim.FsCore.Text.{from_utf8_lossy, from_utf16_lossy}
use reclaim.Part.Reader.{le_u32}
use reclaim.Fat.Walk.{contains, child_path}
use reclaim.Fat.Files.{is_empty}
use reclaim.Iso.Volume.{Iso}

-- The text before the first `;`.
pub before_version : List ℕ → List ℕ
before_version [] = []
before_version (c ∷ cs) = if c == b';' then [] else c ∷ before_version cs

-- `base.strip_suffix('.').unwrap_or(base)`
pub strip_dot : List ℕ → List ℕ
strip_dot [] = []
strip_dot (c ∷ []) = if c == b'.' then [] else c ∷ []
strip_dot (c ∷ d ∷ cs) = c ∷ strip_dot (d ∷ cs)

unfoldable pub strip_version : List ℕ → Bool → List ℕ
unfolding before_version strip_dot
strip_version name is_dir = if is_dir then name else strip_dot (before_version name)

-- The big-endian units of a Joliet name; an odd byte at the end is left out.
pub be_units : List ℕ → List ℕ
be_units [] = []
be_units (h ∷ []) = []
be_units (h ∷ l ∷ bs) = (h * 256 + l) ∷ be_units bs

unfoldable pub decode_name : Bool → List ℕ → Bool → List ℕ
unfolding be_units
decode_name joliet raw is_dir =
    strip_version (if joliet then from_utf16_lossy (be_units raw) else from_utf8_lossy raw) is_dir

-- What a walk changes.
pub record WalkState : Type 0 where
  pub sent : List Entry
  pub stats : WalkStats
  pub visited : List ℕ
  pub next_id : ℕ

-- A directory to go down into: where it lies, its length and its path.
abbrev pub Subdir : Type 0
Subdir = ℕ × ℕ × List ℕ

pub record DirState : Type 0 where
  pub walk : WalkState
  pub subdirs : List Subdir

pub file_entry : Iso → ℕ → List ℕ → List ℕ → List ℕ → ℕ → ℕ → Entry
file_entry fs id name raw path lba len = record (new_file id name raw len EntryState.live) {
  kind = EntryKind.file;
  path = some path;
  extents =
      if not (lba == 0) && not (len == 0)
      then record { offset = sat_mul lba fs.block_size; len = len } ∷ []
      else [];
  confidence = 1000;
}

pub emit : WalkState → Entry → WalkState
emit w e = record w {
  sent = w.sent ++ (e ∷ []);
  stats = record {
    emitted = w.stats.emitted + 1;
    live = w.stats.live + 1;
    deleted = w.stats.deleted;
  };
}

-- The bytes of the name in a record.
pub name_bytes : List ℕ → List ℕ
name_bytes rec = elim (slice 33 (get_or rec 32 0) rec) [ none ↦ [] | some s ↦ s ]

-- The records of a directory and its parent: one byte, zero or one.
pub is_self_or_parent : List ℕ → Bool
unfolding name_bytes
is_self_or_parent rec =
    get_or rec 32 0 == 1 && (elim (name_bytes rec) [ b ∷ [] ↦ b == 0 || b == 1 | _ ↦ false ])

-- One record, past the tests for padding and for the end.
pub take_record : Iso → List ℕ → List ℕ → DirState → DirState
unfolding file_entry emit name_bytes is_self_or_parent
take_record fs path rec d =
    let lba = le_u32 rec 2 in
    let len = le_u32 rec 10 in
    let is_dir = not (bit_and (get_or rec 25 0) 0x02 == 0) in
    let raw = name_bytes rec in
    let name = decode_name fs.joliet raw is_dir in
    let child = child_path path name in
    let id = d.walk.next_id in
    let counted = record d.walk { next_id = id + 1 } in
    if is_self_or_parent rec || is_empty name
    then d
    else if is_dir
    then record {
      walk = counted;
      subdirs =
          if not (lba == 0) && not (len == 0)
          then d.subdirs ++ ((lba, len, child) ∷ [])
          else d.subdirs;
    }
    else record {
      walk = emit counted (file_entry fs id name raw child lba len);
      subdirs = d.subdirs;
    }

-- A record that is skipped does not look at the cap.
pub is_counted : Iso → List ℕ → Bool
unfolding is_self_or_parent name_bytes
is_counted fs rec =
    let is_dir = not (bit_and (get_or rec 25 0) 0x02 == 0) in
    not (is_self_or_parent rec) && not (is_empty (decode_name fs.joliet (name_bytes rec) is_dir))

abbrev pub cap : WalkOpts → ℕ
cap opts = min opts.max_entries 5_000_000

-- How the loop over a directory ends: at its end, or by the cap, which leaves the rest out.
pub data Ended : Type 0 where
  reached capped : DirState → Ended

-- The loop over the records, on the rounds that its guard leaves.
pub record_loop : Iso → WalkOpts → List ℕ → List ℕ → ℕ → ℕ → DirState → Ended
unfolding take_record is_counted
record_loop fs opts path bytes zero pos d = Ended.reached d
record_loop fs opts path bytes (suc left) pos d =
    let reclen = get_or bytes pos 0 in
    let rec = take reclen (drop pos bytes) in
    let d' = take_record fs path rec d in
    let padded =
      record_loop fs opts path bytes left ((pos / fs.block_size + 1) * fs.block_size) d in
    let on = record_loop fs opts path bytes left (pos + reclen) d' in
    if leb (length bytes) pos
    then Ended.reached d
    else if reclen == 0
    then (if leb ((pos / fs.block_size + 1) * fs.block_size) pos then Ended.reached d else padded)
    else if ltb (length bytes) (pos + reclen)
    then Ended.reached d
    else if is_counted fs rec && leb (cap opts) d'.walk.stats.emitted
    then Ended.capped d'
    else on

pub each_subdir : (Subdir → WalkState → WalkState) → List Subdir → WalkState → WalkState
each_subdir f [] w = w
each_subdir f (s ∷ ss) w = each_subdir f ss (f s w)

pub after_records : (Subdir → WalkState → WalkState) → Ended → WalkState
unfolding each_subdir
after_records f (Ended.capped d) = d.walk
after_records f (Ended.reached d) = each_subdir f d.subdirs d.walk

-- `walk_dir`, at depth 65 less the levels that are left.
pub walk_dir : Iso → WalkOpts → ℕ → Subdir → WalkState → WalkState
unfolding record_loop after_records
walk_dir fs opts zero s w = w
walk_dir fs opts (suc left) (lba, len, path) w =
    let bytes = read fs.src (sat_mul lba fs.block_size) (min len (16 * 1024 * 1024)) in
    let seen = record w { visited = lba ∷ w.visited } in
    let deeper =
      after_records (λ s w'. walk_dir fs opts left s w')
        (record_loop fs opts path bytes 5_000_000 0 (record { walk = seen; subdirs = [] })) in
    if leb (cap opts) w.stats.emitted then w else if contains w.visited lba then w else deeper

abbrev pub fresh_walk : WalkState
fresh_walk = record {
  sent = [];
  stats = record { emitted = 0; live = 0; deleted = 0 };
  visited = [];
  next_id = 1;
}

unfoldable pub walk : Iso → WalkOpts → WalkState
unfolding walk_dir
walk fs opts =
    if not opts.include_live || fs.root_lba == 0
    then fresh_walk
    else walk_dir fs opts 65 (fs.root_lba, fs.root_len, []) fresh_walk
