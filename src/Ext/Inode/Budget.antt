-- ===== src/Ext/Inode/Budget.antt =====
-- The caps on the blocks of one file: whatever the tree of an inode says, their number is bounded.
use Prim.Native.Nat.{bit_and}
use reclaim.FsCore.Types.{Extent}
use reclaim.Prelude.{
  ℕ, zero, suc, ◌+◌, ◌-◌, ◌*◌, ◌/◌, ◌≤◌, min, ◌≡◌, refl, ap, ◌∙◌, inl, inr, true, false, not, ◌&&◌,
  ◌||◌, List, [], ◌∷◌, arith, ltb, ◌==◌, Bool-cases, length, length-append, sat_add, sat_mul,
}
use reclaim.Block.Source.{BlockSource}
use reclaim.FsCore.Reader.{read, le_u16}
use reclaim.Part.Reader.{le_u32}
use reclaim.Ext.Superblock.{Superblock}
use reclaim.Ext.Inode.{
  Inode, Collected, max_file_blocks, is_full, push_leaf, leaf_len, leaf_entry, leaf_entries,
  index_entries, has_entries, collect_extent_tree, Classic, push_data_block, direct_blocks,
  each_pointer, walk_indirect, collect_classic, insert_block, sort_blocks, push_block, push_blocks,
  trim_loop, trim_to_size, runs_to_extents, extents,
}

-- At most one block more than the cap was collected.
abbrev pub IsCapped : Collected → Type 0
IsCapped s = length s.out ≤ max_file_blocks + 1

push_leaf-IsCapped :
    (left b logical phys : ℕ) (s : Collected)
    → IsCapped s
    → IsCapped (push_leaf left b logical phys s)
unfolding push_leaf is_full
push_leaf-IsCapped zero b logical phys s h = h
push_leaf-IsCapped (suc left) b logical phys s h = elim (Bool-cases (is_full s)) [
  | inl full ↦ rw full h
  | inr more ↦ rw more (
      push_leaf-IsCapped left (b + 1) logical phys _ (
        let below : length s.out ≤ max_file_blocks = ground arith in
        omega (arith, below, length-append s.out ((sat_add logical b, sat_add phys b) ∷ []))))
]

leaf_entries-IsCapped :
    (node : List ℕ) (left i : ℕ) (s : Collected)
    → IsCapped s
    → IsCapped (leaf_entries node left i s)
unfolding leaf_entries leaf_entry
leaf_entries-IsCapped node zero i s h = h
leaf_entries-IsCapped node (suc left) i s h =
    let base = 12 + i * 12 in
    let after : IsCapped (leaf_entry node base s) = push_leaf-IsCapped _ 0 _ _ s h in
    elim (Bool-cases (ltb (length node) (base + 12))) [
      | inl cut ↦ rw cut h
      | inr within ↦
          elim (Bool-cases
            (is_full (leaf_entry node base s) && ltb 0 (leaf_len (le_u16 node (base + 4))))) [
              | inl full ↦ rw (within, full) after
              | inr more ↦ rw (within, more) (leaf_entries-IsCapped node left (i + 1) _ after)
            ]
    ]

index_entries-IsCapped :
    (child : ℕ → Collected → Collected)
    → ((b : ℕ) (s : Collected) → IsCapped s → IsCapped (child b s))
    → (node : List ℕ) (left i : ℕ) (s : Collected) → IsCapped s
    → IsCapped (index_entries child node left i s)
unfolding index_entries
index_entries-IsCapped child keep node zero i s h = h
index_entries-IsCapped child keep node (suc left) i s h =
    elim (Bool-cases (ltb (length node) (12 + i * 12 + 12))) [
      | inl cut ↦ rw cut h
      | inr within ↦ rw within (index_entries-IsCapped child keep node left (i + 1) _ (keep _ s h))
    ]

pub collect_extent_tree-IsCapped :
    (src : BlockSource) (sb : Superblock) (left : ℕ) (node : List ℕ) (s : Collected)
    → IsCapped s
    → IsCapped (collect_extent_tree src sb left node s)
unfolding collect_extent_tree
collect_extent_tree-IsCapped src sb zero node s h = h
collect_extent_tree-IsCapped src sb (suc left) node s h =
    elim (Bool-cases (is_full s || s.budget == 0)) [
      | inl stop ↦ rw stop h
      | inr go ↦ elim (Bool-cases (not (has_entries node))) [
        | inl none_here ↦ rw (go, none_here) h
        | inr entries ↦ elim (Bool-cases (le_u16 node 6 == 0)) [
          | inl leaf ↦ rw (go, entries, leaf) (leaf_entries-IsCapped node (le_u16 node 2) 0 _ h)
          | inr index ↦
              rw (go, entries, index)
                (index_entries-IsCapped
                  (λ b t.
                    collect_extent_tree src sb left
                      (read src (sat_mul b sb.block_size) sb.block_size) t)
                  (λ b t k.
                    collect_extent_tree-IsCapped src sb left
                      (read src (sat_mul b sb.block_size) sb.block_size) t k)
                  node (le_u16 node 2) 0 (record { budget = s.budget - 1; out = s.out }) h)
        ]
      ]
    ]

not_full : (s : Collected) → is_full s ≡ false → length s.out ≤ max_file_blocks
unfolding is_full
not_full s h = ground arith

each_pointer-IsCapped :
    (visit : ℕ → Classic → Classic)
    → ((b : ℕ) (c : Classic) → is_full c.got ≡ false → IsCapped (visit b c).got)
    → (block : List ℕ) (left i : ℕ) (c : Classic) → is_full c.got ≡ false
    → IsCapped (each_pointer visit block left i c).got
unfolding each_pointer
each_pointer-IsCapped visit keep block zero i c h =
    (let below = not_full c.got h in omega (arith, below))
each_pointer-IsCapped visit keep block (suc left) i c h =
    let c' = visit (le_u32 block (i * 4)) c in
    elim (Bool-cases (is_full c'.got)) [
      | inl full ↦ rw full (keep (le_u32 block (i * 4)) c h)
      | inr more ↦ rw more (each_pointer-IsCapped visit keep block left (i + 1) c' more)
    ]

walk_indirect-IsCapped :
    (src : BlockSource) (sb : Superblock) (level block : ℕ) (c : Classic)
    → is_full c.got ≡ false
    → IsCapped (walk_indirect src sb level block c).got
unfolding walk_indirect push_data_block is_full
walk_indirect-IsCapped src sb zero block c h =
    let below = not_full c.got h in
    elim (Bool-cases (block == 0)) [
      | inl hole ↦ rw hole (omega (arith, below))
      | inr used ↦ rw used (omega (arith, below, length-append c.got.out ((c.logical, block) ∷ [])))
    ]
walk_indirect-IsCapped src sb (suc level) block c h =
    elim (Bool-cases (block == 0 || is_full c.got || c.got.budget == 0)) [
      | inl stop ↦ rw stop (let below = not_full c.got h in omega (arith, below))
      | inr go ↦ rw go (
          each_pointer-IsCapped (λ b t. walk_indirect src sb level b t)
            (λ b t k. walk_indirect-IsCapped src sb level b t k)
            (read src (sat_mul block sb.block_size) sb.block_size) (sb.block_size / 4) 0
            (record c { got = record { budget = c.got.budget - 1; out = c.got.out } }) h)
    ]

-- An indirect pointer of the inode is not followed when the blocks are too many already.
indirect-IsCapped :
    (src : BlockSource) (sb : Superblock) (level block : ℕ) (c : Classic)
    → IsCapped c.got
    → IsCapped (walk_indirect src sb (suc level) block c).got
unfolding walk_indirect
indirect-IsCapped src sb level block c h = elim (Bool-cases (is_full c.got)) [
  | inr more ↦ walk_indirect-IsCapped src sb (suc level) block c more
  | inl full ↦
      let stop : (block == 0 || is_full c.got || c.got.budget == 0) ≡ true = ground arith in
      rw stop h
]

push_data_block-length :
    (phys : ℕ) (c : Classic) → length (push_data_block phys c).got.out ≤ length c.got.out + 1
unfolding push_data_block
push_data_block-length phys c = elim (Bool-cases (phys == 0)) [
  | inl hole ↦ rw hole (omega arith)
  | inr used ↦ rw used (omega (arith, length-append c.got.out ((c.logical, phys) ∷ [])))
]

direct_blocks-length :
    (i_block : List ℕ) (left i : ℕ) (c : Classic)
    → length (direct_blocks i_block left i c).got.out ≤ length c.got.out + left
unfolding direct_blocks push_data_block
direct_blocks-length i_block zero i c = omega arith
direct_blocks-length i_block (suc left) i c =
    let step : length (push_data_block (le_u32 i_block (i * 4)) c).got.out ≤ length c.got.out + 1 =
      push_data_block-length (le_u32 i_block (i * 4)) c in
    omega (
      arith,
      step,
      direct_blocks-length i_block left (i + 1) (push_data_block (le_u32 i_block (i * 4)) c),
    )

collect_classic-IsCapped :
    (src : BlockSource) (sb : Superblock) (i_block : List ℕ) (budget : ℕ)
    → IsCapped (collect_classic src sb i_block (record { budget = budget; out = [] }))
unfolding collect_classic
collect_classic-IsCapped src sb i_block budget =
    let direct =
      direct_blocks i_block 12 0
        (record { logical = 0; got = record { budget = budget; out = [] } }) in
    let few : IsCapped direct.got = omega (
      arith,
      direct_blocks-length i_block 12 0
          (record { logical = 0; got = record { budget = budget; out = [] } }),
    ) in
    let single = walk_indirect src sb 1 (le_u32 i_block 48) direct in
    let double = walk_indirect src sb 2 (le_u32 i_block 52) single in
    indirect-IsCapped src sb 2 (le_u32 i_block 56) double (
      indirect-IsCapped src sb 1 (le_u32 i_block 52) single
        (indirect-IsCapped src sb 0 (le_u32 i_block 48) direct few))

length-insert_block : (b : ℕ × ℕ) (bs : List (ℕ × ℕ)) → length (insert_block b bs) ≡ suc (length bs)
unfolding insert_block
length-insert_block b [] = refl
length-insert_block b (c ∷ cs) = ground (arith, length-insert_block b cs)

length-sort_blocks : (bs : List (ℕ × ℕ)) → length (sort_blocks bs) ≡ length bs
unfolding sort_blocks
length-sort_blocks [] = refl
length-sort_blocks (b ∷ bs) =
    length-insert_block b (sort_blocks bs) ∙ ap suc (length-sort_blocks bs)

length-push_block : (bs off : ℕ) (es : List Extent) → length (push_block bs off es) ≤ length es + 1
unfolding push_block
length-push_block bs off [] = omega arith
length-push_block bs off (e ∷ []) = ground arith
length-push_block bs off (e ∷ f ∷ es) = omega (arith, length-push_block bs off (f ∷ es))

length-push_blocks :
    (bs : ℕ) (blocks : List (ℕ × ℕ)) (es : List Extent)
    → length (push_blocks bs blocks es) ≤ length es + length blocks
unfolding push_blocks
length-push_blocks bs [] es = omega arith
length-push_blocks bs (b ∷ blocks) es = omega (
  arith,
  length-push_block bs (sat_mul b.1 bs) es,
  length-push_blocks bs blocks (push_block bs (sat_mul b.1 bs) es),
)

length-trim_loop : (size acc : ℕ) (es : List Extent) → length (trim_loop size acc es) ≤ length es
unfolding trim_loop
length-trim_loop size acc [] = omega arith
length-trim_loop size acc (e ∷ es) =
    ground (arith, length-trim_loop size (sat_add acc (min e.len (size - acc))) es)

length-runs_to_extents :
    (sb : Superblock) (blocks : List (ℕ × ℕ)) (size : ℕ)
    → length (runs_to_extents sb blocks size) ≤ length blocks
unfolding runs_to_extents trim_to_size
length-runs_to_extents sb blocks size = elim (Bool-cases (size == 0)) [
  | inl nothing ↦ rw nothing (omega arith)
  | inr some_size ↦ rw some_size (
      omega (
        arith,
        length-trim_loop size 0 (push_blocks sb.block_size (sort_blocks blocks) []),
        length-push_blocks sb.block_size (sort_blocks blocks) [],
        length-sort_blocks blocks,
      ))
]

-- Whatever the inode and its maps hold, a file has at most one extent more than the cap on its
-- blocks.
pub length-extents :
    (src : BlockSource) (sb : Superblock) (i : Inode)
    → length (extents src sb i) ≤ max_file_blocks + 1
unfolding extents
length-extents src sb i = elim (Bool-cases (not (bit_and i.flags 0x00080000 == 0))) [
  | inl tree ↦ rw tree (
      omega (
        arith,
        length-runs_to_extents sb
            (collect_extent_tree src sb 6 i.i_block (record { budget = 4096; out = [] })).out
            i.size,
        collect_extent_tree-IsCapped src sb 6 i.i_block (record { budget = 4096; out = [] })
            (omega arith),
      ))
  | inr classic ↦ rw classic (
      omega (
        arith,
        length-runs_to_extents sb
            (collect_classic src sb i.i_block (record { budget = 4096; out = [] })).out i.size,
        collect_classic-IsCapped src sb i.i_block 4096,
      ))
]
