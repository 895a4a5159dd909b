-- ===== src/Ext/Dir/Stale.antt =====
-- The slack of a directory record: the deleted records that `scan_slack` of dir.rs finds there.
use mathlib.Core.List.{append_assoc, append-nil}
use mathlib.Core.Path.{ap₂}
use reclaim.Prelude.{
  ℕ, zero, suc, ◌+◌, ◌*◌, ◌/◌, ◌%◌, ◌≤◌, ◌<◌, min, ◌≡◌, refl, sym, ap, ◌∙◌, ◌≢◌, ◌⊎◌, Bool, true,
  not, ◌&&◌, Option, none, some, List, [], ◌∷◌, ◌++◌, arith, ltb, leb, ◌==◌, length, get_or, slice,
}
use reclaim.Part.Reader.{le_u32}
use reclaim.Ext.Superblock.{Superblock}
use reclaim.Ext.Dir.{
  DirEntry, round4, is_plausible_name, stale_record, next_place, push_found, slack_loop, scan_slack,
}

-- The record `e` stands at `pos`.
pub record IsRecordAt (block : List ℕ) (pos : ℕ) (e : DirEntry) : Type 0 where
  pub inode : le_u32 block pos ≡ e.inode
  pub used : e.inode ≢ 0
  pub name_len : get_or block (pos + 6) 0 ≡ length e.raw_name
  pub file_type : get_or block (pos + 7) 0 ≡ e.file_type
  pub some_name : 0 < length e.raw_name
  pub name : slice (pos + 8) (length e.raw_name) block ≡ some e.raw_name
  pub inside : pos + 8 + length e.raw_name ≤ length block

-- The bytes that a record needs.
abbrev pub needs : DirEntry → ℕ
needs e = round4 (8 + length e.raw_name)

-- From `p` on, the slack that ends at `stop` holds these deleted records: each is still whole, with a
-- plausible name and an inode of the volume; between them lie words that are no inode of it.
pub data Slack (sb : Superblock) (block : List ℕ) (stop : ℕ) : ℕ → List DirEntry → Type 0 where
  ends : (p : ℕ) → stop < p + 8 → Slack sb block stop p []
  gap :
      (p : ℕ) (ds : List DirEntry)
      → p + 8 ≤ stop
      → (le_u32 block p ≡ 0) ⊎ (sb.inodes_count < le_u32 block p)
      → Slack sb block stop (p + 4) ds
      → Slack sb block stop p ds
  found :
      (p : ℕ) (d : DirEntry) (ds : List DirEntry)
      → IsRecordAt block p d
      → is_plausible_name d.raw_name ≡ true
      → d.deleted ≡ true
      → d.inode ≤ sb.inodes_count
      → length d.raw_name ≤ 255
      → p + 8 + length d.raw_name ≤ stop
      → Slack sb block stop (p + needs d) ds
      → Slack sb block stop p (d ∷ ds)

pub entry_eq :
    (inode file_type : ℕ) (e : DirEntry) (deleted : Bool)
    → inode ≡ e.inode
    → file_type ≡ e.file_type
    → e.deleted ≡ deleted
    → ◌≡◌ {A = DirEntry}
        (record { inode = inode; raw_name = e.raw_name; file_type = file_type; deleted = deleted })
        e
entry_eq inode file_type e deleted p q r = ground arith

next_place_eq : (p : ℕ) (d : DirEntry) → p % 4 ≡ 0 → next_place (some d) p ≡ p + needs d
unfolding next_place round4
next_place_eq p d aligned = omega (arith, aligned)

pub needs_aligned : (pos : ℕ) (e : DirEntry) → pos % 4 ≡ 0 → (pos + needs e) % 4 ≡ 0
unfolding round4
needs_aligned pos e h = omega (arith, h)

pub step_fits : (e : DirEntry) → 8 ≤ needs e
unfolding round4
step_fits e = omega arith

push_found_eq : (d : DirEntry) (out : List DirEntry) → push_found (some d) out ≡ out ++ (d ∷ [])
unfolding push_found
push_found_eq d out = refl

module _ (sb : Superblock) (block : List ℕ) where
  stale_record_lem :
      (p stop : ℕ) (d : DirEntry)
      → IsRecordAt block p d
      → is_plausible_name d.raw_name ≡ true
      → d.deleted ≡ true
      → d.inode ≤ sb.inodes_count
      → length d.raw_name ≤ 255
      → p + 8 + length d.raw_name ≤ stop
      → stale_record sb block p stop ≡ some d
  unfolding stale_record
  stale_record_lem p stop d r named del small short fits =
      let n = length d.raw_name in
      let fit : (not (le_u32 block p == 0)
            && leb (le_u32 block p) sb.inodes_count
            && ltb 0 n
            && leb n 255
            && leb (p + 8 + n) stop)
          ≡ true =
        ground (arith, r.inode, r.some_name, r.used) in
      rw (r.name_len, fit, r.name, stale_record, named)
        (ap some (entry_eq _ _ d true r.inode r.file_type del))

  stale_record-gap :
      (p stop : ℕ)
      → (le_u32 block p ≡ 0) ⊎ (sb.inodes_count < le_u32 block p)
      → stale_record sb block p stop ≡ none
  unfolding stale_record
  stale_record-gap p stop h = ground (arith, h)

  slack_ends :
      (stop left p : ℕ) (out : List DirEntry)
      → stop < p + 8
      → slack_loop sb block stop left p out ≡ out
  unfolding slack_loop
  slack_ends stop zero p out h = refl
  slack_ends stop (suc left) p out h = ground arith

  slack_step :
      (stop left p : ℕ) (out : List DirEntry) (o : Option DirEntry)
      → p + 8 ≤ stop
      → stale_record sb block p stop ≡ o
      → slack_loop sb block stop (suc left) p out
        ≡ slack_loop sb block stop left (next_place o p) (push_found o out)
  unfolding slack_loop
  slack_step stop left p out o h e =
      let room : leb (p + 8) stop ≡ true = ground arith in rw (e, room) refl

  slack_loop-Slack :
      (stop left p : ℕ) (out ds : List DirEntry)
      → Slack sb block stop p ds
      → p % 4 ≡ 0
      → stop < p + left
      → slack_loop sb block stop left p out ≡ out ++ ds
  unfolding next_place push_found
  slack_loop-Slack stop left _ out _ (ends p past) aligned h =
      slack_ends stop left p out past ∙ sym (append-nil out)
  slack_loop-Slack stop zero _ out _ (gap p ds room none_here s) aligned h = absurd (omega arith)
  slack_loop-Slack stop (suc left) _ out _ (gap p ds room none_here s) aligned h =
      slack_step stop left p out none room (stale_record-gap p stop none_here)
      ∙ slack_loop-Slack stop left (p + 4) out ds s (omega (arith, aligned)) (omega (arith, h))
  slack_loop-Slack stop zero _ out _ (found p d ds r named del small short fits s) aligned h =
      absurd (omega arith)
  slack_loop-Slack stop (suc left) _ out _ (found p d ds r named del small short fits s) aligned h =
      slack_step stop left p out (some d) (omega arith)
        (stale_record_lem p stop d r named del small short fits)
      ∙ ap₂ (λ (q : ℕ) (o : List DirEntry). slack_loop sb block stop left q o)
          (next_place_eq p d aligned) (push_found_eq d out)
      ∙ slack_loop-Slack stop left (p + needs d) (out ++ (d ∷ [])) ds s (needs_aligned p d aligned)
          (omega (arith, h, step_fits d))
      ∙ append_assoc out (d ∷ []) ds

  pub scan_slack-Slack :
      (start stop : ℕ) (out ds : List DirEntry)
      → start % 4 ≡ 0
      → stop ≤ length block
      → Slack sb block stop start ds
      → scan_slack sb block start stop out ≡ out ++ ds
  unfolding scan_slack round4
  scan_slack-Slack start stop out ds aligned inside s =
      let same : (start + 3) / 4 * 4 ≡ start = omega (arith, aligned) in
      let upto : min stop (length block) ≡ stop = omega arith in
      ap₂ (λ (u q : ℕ). slack_loop sb block u (suc u) q out) upto same
      ∙ slack_loop-Slack stop (suc stop) start out ds s aligned (omega arith)
