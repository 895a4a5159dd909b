-- ===== src/FsCore/Types.antt =====
-- crates/reclaim-fs-core/src/lib.rs: the entries that a file system reports, and the options of a
-- walk. A confidence is a number of thousandths, and a text is the list of its code points.
use reclaim.Prelude.{ℕ, Bool, true, false, Option, none, List, [], sat_add}

pub data FsError : Type 0 where
  not_this_fs corrupt budget : FsError

pub data EntryKind : Type 0 where
  file dir other : EntryKind

pub data EntryState : Type 0 where
  live deleted orphaned historical : EntryState

pub is_recoverable_target : EntryState → Bool
is_recoverable_target EntryState.live = false
is_recoverable_target EntryState.deleted = true
is_recoverable_target EntryState.orphaned = true
is_recoverable_target EntryState.historical = true

pub record Extent : Type 0 where
  pub offset : ℕ
  pub len : ℕ

-- `Extent::end`
unfoldable pub extent_end : Extent → ℕ
extent_end e = sat_add e.offset e.len

pub record Entry : Type 0 where
  pub id : ℕ
  pub parent_id : Option ℕ
  pub name : List ℕ
  pub raw_name : List ℕ
  pub kind : EntryKind
  pub size : ℕ
  pub path : Option (List ℕ)
  pub created : Option (List ℕ)
  pub modified : Option (List ℕ)
  pub extents : List Extent
  pub state : EntryState
  pub confidence : ℕ
  pub allocated : Bool
  pub contiguous_assumed : Bool

unfoldable pub new_file : ℕ → List ℕ → List ℕ → ℕ → EntryState → Entry
new_file id name raw_name size state = record {
  id = id;
  parent_id = none;
  name = name;
  raw_name = raw_name;
  kind = EntryKind.file;
  size = size;
  path = none;
  created = none;
  modified = none;
  extents = [];
  state = state;
  confidence = 500;
  allocated = false;
  contiguous_assumed = false;
}

pub record WalkOpts : Type 0 where
  pub include_live : Bool
  pub include_deleted : Bool
  pub max_entries : ℕ
  pub include_system_volume : Bool

pub record WalkStats : Type 0 where
  pub emitted : ℕ
  pub live : ℕ
  pub deleted : ℕ
