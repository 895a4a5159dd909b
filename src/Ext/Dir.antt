-- ===== src/Ext/Dir.antt =====
-- crates/fs-ext/src/dir.rs: the records of a directory block, and those that deletion left in the
-- slack of others. A name is its bytes; its text is what UTF-8 makes of them.
pub mod Slack
pub mod Stale
use reclaim.Prelude.{
  ℕ, zero, suc, ◌+◌, ◌*◌, ◌/◌, min, max, Bool, true, false, not, ◌&&◌, ◌||◌, Option, none, some,
  List, [], ◌∷◌, ◌++◌, ltb, leb, ◌==◌, if◌then◌else◌, length, get_or, sat_add, div_ceil, slice,
}
use reclaim.Block.Source.{BlockSource}
use reclaim.Part.Reader.{le_u32}
use reclaim.FsCore.Reader.{read, le_u16}
use reclaim.FsCore.Types.{Extent, extent_end}
use reclaim.Ext.Superblock.{Superblock}
use reclaim.Ext.Inode.{Inode, extents}

pub record DirEntry : Type 0 where
  pub inode : ℕ
  pub raw_name : List ℕ
  pub file_type : ℕ
  pub deleted : Bool

-- `(n + 3) & !3`
unfoldable pub round4 : ℕ → ℕ
round4 n = (n + 3) / 4 * 4

unfoldable pub is_dots : List ℕ → Bool
is_dots [] = true
is_dots (a ∷ []) = a == b'.'
is_dots (a ∷ b ∷ []) = a == b'.' && b == b'.'
is_dots (a ∷ b ∷ c ∷ cs) = false

unfoldable pub all_plain : List ℕ → Bool
all_plain [] = true
all_plain (c ∷ cs) = (leb 0x20 c && not (c == b'/') && not (c == 0x7f)) && all_plain cs

unfoldable pub is_plausible_name : List ℕ → Bool
unfolding is_dots all_plain
is_plausible_name name = if is_dots name then false else all_plain name

-- The record at `p` of the slack before `stop`, if there is a plausible one.
unfoldable pub stale_record : Superblock → List ℕ → ℕ → ℕ → Option DirEntry
unfolding is_plausible_name
stale_record sb block p stop =
    let inode = le_u32 block p in
    let name_len = get_or block (p + 6) 0 in
    let fits =
      not (inode == 0)
      && leb inode sb.inodes_count
      && ltb 0 name_len
      && leb name_len 255
      && leb (p + 8 + name_len) stop in
    if not fits then none else elim (slice (p + 8) name_len block) [
      | none ↦ none
      | some name ↦
          if is_plausible_name name
          then some (record {
            inode = inode;
            raw_name = name;
            file_type = get_or block (p + 7) 0;
            deleted = true;
          })
          else none
    ]

-- Where the scan goes on, and what it has found.
pub next_place : Option DirEntry → ℕ → ℕ
next_place none p = p + 4
next_place (some e) p = round4 (p + 8 + length e.raw_name)

pub push_found : Option DirEntry → List DirEntry → List DirEntry
push_found none out = out
push_found (some e) out = out ++ (e ∷ [])

-- The loop of `scan_slack`, on rounds: each moves on by four bytes at least.
pub slack_loop : Superblock → List ℕ → ℕ → ℕ → ℕ → List DirEntry → List DirEntry
unfolding stale_record next_place push_found
slack_loop sb block stop zero p out = out
slack_loop sb block stop (suc left) p out =
    let found = stale_record sb block p stop in
    let rest = slack_loop sb block stop left (next_place found p) (push_found found out) in
    if leb (p + 8) stop then rest else out

unfoldable pub scan_slack : Superblock → List ℕ → ℕ → ℕ → List DirEntry → List DirEntry
unfolding slack_loop
scan_slack sb block start stop out =
    let upto = min stop (length block) in slack_loop sb block upto (suc upto) (round4 start) out

-- A live record is reported if its name is plausible.
pub push_live : List ℕ → ℕ → ℕ → List DirEntry → List DirEntry
unfolding is_plausible_name
push_live block pos name_len out = elim (slice (pos + 8) name_len block) [
  | none ↦ out
  | some name ↦
      if is_plausible_name name
      then out
        ++ (record {
          inode = le_u32 block pos;
          raw_name = name;
          file_type = get_or block (pos + 7) 0;
          deleted = false;
        }
            ∷ [])
      else out
]

-- One round of the loop, for a record of `rec_len` bytes.
pub block_step : Superblock → List ℕ → ℕ → ℕ → List DirEntry → List DirEntry
block_step sb block pos rec_len out =
    let name_len = get_or block (pos + 6) 0 in
    if not (le_u32 block pos == 0) && ltb 0 name_len && leb (pos + 8 + name_len) (length block)
    then scan_slack sb block (pos + round4 (8 + name_len)) (pos + rec_len)
        (push_live block pos name_len out)
    else scan_slack sb block (pos + 8) (pos + rec_len) out

-- The loop of `parse_dir_block`, on the rounds that its guard leaves.
pub block_loop : Superblock → List ℕ → ℕ → ℕ → List DirEntry → List DirEntry
block_loop sb block zero pos out = out
block_loop sb block (suc left) pos out =
    let rec_len = le_u16 block (pos + 4) in
    let rest = block_loop sb block left (pos + rec_len) (block_step sb block pos rec_len out) in
    if not (leb (pos + 8) (length block))
    then out
    else if ltb rec_len 8 || ltb (length block) (pos + rec_len)
    then out
    else rest

unfoldable pub parse_dir_block : Superblock → List ℕ → List DirEntry → List DirEntry
unfolding block_loop
parse_dir_block sb block out = block_loop sb block 100_000 0 out

-- The blocks of one extent, on rounds: the cap on entries ends the whole directory.
pub extent_blocks : BlockSource → Superblock → ℕ → ℕ → ℕ → List DirEntry → List DirEntry × Bool
unfolding parse_dir_block
extent_blocks src sb stop zero off out = (out, false)
extent_blocks src sb stop (suc left) off out =
    let block = read src off sb.block_size in
    let rest =
      extent_blocks src sb stop left (sat_add off sb.block_size) (parse_dir_block sb block out) in
    if not (ltb off stop)
    then (out, false)
    else if leb 2_000_000 (length out)
    then (out, true)
    else rest

pub dir_extents : BlockSource → Superblock → List Extent → List DirEntry → List DirEntry
unfolding extent_blocks
dir_extents src sb [] out = out
dir_extents src sb (e ∷ es) out =
    let read_out =
      extent_blocks src sb (extent_end e) (suc (div_ceil e.len (max sb.block_size 1))) e.offset
        out in
    let rest = dir_extents src sb es read_out.0 in if read_out.1 then read_out.0 else rest

unfoldable pub read_dir : BlockSource → Superblock → Inode → List DirEntry
unfolding dir_extents
read_dir src sb dir = dir_extents src sb (extents src sb dir) []
