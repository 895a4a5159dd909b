-- ===== src/Ext/Dir/Slack.antt =====
-- The records of a directory block, with deleted ones in their slack, and what `parse_dir_block` of
-- dir.rs reads.
use mathlib.Core.List.{append_assoc, append-nil}
use reclaim.Prelude.{
  ℕ, zero, suc, ◌+◌, ◌%◌, ◌≤◌, ◌<◌, ◌≡◌, refl, sym, ap, ◌∙◌, inl, inr, true, false, not, ◌&&◌, ◌||◌,
  List, [], ◌∷◌, ◌++◌, arith, ltb, leb, ◌==◌, if◌then◌else◌, Bool-cases, length,
}
use reclaim.Part.Reader.{le_u32}
use reclaim.FsCore.Reader.{le_u16}
use reclaim.Ext.Superblock.{Superblock}
use reclaim.Ext.Dir.{
  DirEntry, is_plausible_name, scan_slack, push_live, block_step, block_loop, parse_dir_block,
}
use reclaim.Ext.Dir.Stale.{
  IsRecordAt, needs, Slack, entry_eq, needs_aligned, step_fits, scan_slack-Slack,
}

-- What a directory lists of a live record: nothing of `.`, of `..` or of an implausible name.
abbrev pub shown : DirEntry → List DirEntry
shown e = if is_plausible_name e.raw_name then e ∷ [] else []

-- From `pos` on, the block holds `n` records, each in its `rec_len` bytes with deleted ones in its
-- slack, of which these entries are to be listed.
pub data Chain (sb : Superblock) (block : List ℕ) : ℕ → ℕ → List DirEntry → Type 0 where
  closed : (pos : ℕ) → length block < pos + 8 → Chain sb block pos 0 []
  live :
      (pos rec_len n : ℕ) (e : DirEntry) (ds rest : List DirEntry)
      → pos % 4 ≡ 0
      → IsRecordAt block pos e
      → e.deleted ≡ false
      → le_u16 block (pos + 4) ≡ rec_len
      → needs e ≤ rec_len
      → pos + rec_len ≤ length block
      → Slack sb block (pos + rec_len) (pos + needs e) ds
      → Chain sb block (pos + rec_len) n rest
      → Chain sb block pos (suc n) (shown e ++ (ds ++ rest))
  unused :
      (pos rec_len n : ℕ) (ds rest : List DirEntry)
      → pos % 4 ≡ 0
      → le_u32 block pos ≡ 0
      → le_u16 block (pos + 4) ≡ rec_len
      → 8 ≤ rec_len
      → pos + rec_len ≤ length block
      → Slack sb block (pos + rec_len) (pos + 8) ds
      → Chain sb block (pos + rec_len) n rest
      → Chain sb block pos (suc n) (ds ++ rest)

module _ (sb : Superblock) (block : List ℕ) where
  push_live_lem :
      (pos : ℕ) (e : DirEntry) (out : List DirEntry)
      → IsRecordAt block pos e
      → e.deleted ≡ false
      → push_live block pos (length e.raw_name) out ≡ out ++ shown e
  unfolding push_live
  push_live_lem pos e out r l = elim (Bool-cases (is_plausible_name e.raw_name)) [
    | inl listed ↦
        rw (r.name, push_live, listed)
          (ap (λ (t : DirEntry). out ++ (t ∷ [])) (entry_eq _ _ e false r.inode r.file_type l))
    | inr hidden ↦ rw (r.name, push_live, hidden) (sym (append-nil out))
  ]

  block_step-live :
      (pos rec_len : ℕ) (e : DirEntry) (out ds : List DirEntry)
      → pos % 4 ≡ 0
      → IsRecordAt block pos e
      → e.deleted ≡ false
      → pos + rec_len ≤ length block
      → Slack sb block (pos + rec_len) (pos + needs e) ds
      → block_step sb block pos rec_len out ≡ out ++ (shown e ++ ds)
  unfolding block_step
  block_step-live pos rec_len e out ds aligned r l inside s =
      let n = length e.raw_name in
      let fit : (not (le_u32 block pos == 0) && ltb 0 n && leb (pos + 8 + n) (length block))
          ≡ true =
        ground (arith, r.inode, r.some_name, r.used, r.inside) in
      rw (r.name_len, fit)
        (ap (λ t. scan_slack sb block (pos + needs e) (pos + rec_len) t)
            (push_live_lem pos e out r l)
          ∙ scan_slack-Slack sb block (pos + needs e) (pos + rec_len) (out ++ shown e) ds
              (needs_aligned pos e aligned) inside s
          ∙ append_assoc out (shown e) ds)

  block_step-unused :
      (pos rec_len : ℕ) (out ds : List DirEntry)
      → pos % 4 ≡ 0
      → le_u32 block pos ≡ 0
      → pos + rec_len ≤ length block
      → Slack sb block (pos + rec_len) (pos + 8) ds
      → block_step sb block pos rec_len out ≡ out ++ ds
  unfolding block_step
  block_step-unused pos rec_len out ds aligned free inside s =
      rw free (
        scan_slack-Slack sb block (pos + 8) (pos + rec_len) out ds (omega (arith, aligned)) inside
          s)

  loop_closed :
      (left pos : ℕ) (out : List DirEntry)
      → length block < pos + 8
      → block_loop sb block left pos out ≡ out
  unfolding block_loop
  loop_closed zero pos out h = refl
  loop_closed (suc left) pos out h = ground arith

  loop_step :
      (left pos rec_len : ℕ) (out : List DirEntry)
      → le_u16 block (pos + 4) ≡ rec_len
      → 8 ≤ rec_len
      → pos + rec_len ≤ length block
      → block_loop sb block (suc left) pos out
        ≡ block_loop sb block left (pos + rec_len) (block_step sb block pos rec_len out)
  unfolding block_loop
  loop_step left pos rec_len out e some_len inside =
      let head : not (leb (pos + 8) (length block)) ≡ false = ground arith in
      let sound : (ltb rec_len 8 || ltb (length block) (pos + rec_len)) ≡ false = ground arith in
      rw (e, head, sound) refl

  -- One round, after which `new` is listed.
  loop_lists :
      (left pos rec_len : ℕ) (out new rest : List DirEntry)
      → le_u16 block (pos + 4) ≡ rec_len
      → 8 ≤ rec_len
      → pos + rec_len ≤ length block
      → block_step sb block pos rec_len out ≡ out ++ new
      → block_loop sb block left (pos + rec_len) (out ++ new) ≡ (out ++ new) ++ rest
      → block_loop sb block (suc left) pos out ≡ out ++ (new ++ rest)
  loop_lists left pos rec_len out new rest len some_len inside stepped rest_read =
      loop_step left pos rec_len out len some_len inside
      ∙ ap (λ t. block_loop sb block left (pos + rec_len) t) stepped
      ∙ rest_read
      ∙ append_assoc out new rest

  block_loop-Chain :
      (left pos n : ℕ) (out es : List DirEntry)
      → Chain sb block pos n es
      → n < left
      → block_loop sb block left pos out ≡ out ++ es
  block_loop-Chain zero pos n out es c h = absurd (omega arith)
  block_loop-Chain (suc left) _ _ out _ (closed pos past) h =
      loop_closed (suc left) pos out past ∙ sym (append-nil out)
  block_loop-Chain (suc left) _ _ out _
        (live pos rec_len n e ds rest aligned r l len long inside s c) h =
      loop_lists left pos rec_len out (shown e ++ ds) rest len (omega (arith, long, step_fits e))
        inside (block_step-live pos rec_len e out ds aligned r l inside s)
        (block_loop-Chain left (pos + rec_len) n (out ++ (shown e ++ ds)) rest c (omega arith))
      ∙ ap (λ t. out ++ t) (append_assoc (shown e) ds rest)
  block_loop-Chain (suc left) _ _ out _
        (unused pos rec_len n ds rest aligned free len long inside s c) h =
      loop_lists left pos rec_len out ds rest len long inside
        (block_step-unused pos rec_len out ds aligned free inside s)
        (block_loop-Chain left (pos + rec_len) n (out ++ ds) rest c (omega arith))

-- A directory block of fewer than 100,000 records, each at a multiple of four, inside the block and
-- long enough for its name, live ones or unused ones, whose slack holds whole deleted records (a
-- plausible name of at most 255 bytes, an inode of the volume) and between them only words that are
-- no inode of the volume, is read as exactly the live records with plausible names, so without .
-- and .., and the deleted ones in the slack of each record, in their order in the block.
pub parse_dir_block-Chain :
    (sb : Superblock) (block : List ℕ) (n : ℕ) (es : List DirEntry)
    → Chain sb block 0 n es
    → n < 100_000
    → parse_dir_block sb block [] ≡ es
unfolding parse_dir_block
parse_dir_block-Chain sb block n es c h = block_loop-Chain sb block 100_000 0 n [] es c h
