-- ===== src/Ext/Inode/Extents.antt =====
-- The extents of a list of blocks: the bytes of the blocks, in order, up to the size of the file.
use native.Mathlib.Nat.{zero-add}
use reclaim.Prelude.{
  ℕ, suc, ◌+◌, ◌-◌, ◌*◌, ◌≤◌, ◌<◌, min, ◌≡◌, refl, ap, ◌∙◌, ◌⊎◌, inl, inr, List, [], ◌∷◌, ◌++◌,
  arith, ltb, leb, ◌==◌, if◌then◌else◌, Bool-cases, length, u64_max, sat_add, sat_mul, All,
}
use reclaim.FsCore.Types.{Extent}
use reclaim.FsCore.Extents.{
  total_len, locate, Covers, Covers-extend, Covers-push, IsWithin, IsWithin-push,
}
use reclaim.FsCore.Pieces.{piece_byte, Lies, piece_byte-Lies}
use reclaim.Ext.Superblock.{Superblock}
use reclaim.Ext.Inode.Sorted.{IsSortOf, sort_blocks-IsSortOf}
use reclaim.Ext.Inode.{
  push_block, push_blocks, sort_blocks, trim_loop, trim_to_size, runs_to_extents,
}

-- A list is empty, or has a last element.
Last-cases :
    (es : List Extent)
    → (es ≡ []) ⊎ ((front : List Extent) × (e : Extent) × (es ≡ front ++ (e ∷ [])))
Last-cases [] = inl refl
Last-cases (e ∷ es) = elim (Last-cases es) [
  | inl none_left ↦ inr ([], e, ap (λ t. e ∷ t) none_left)
  | inr (front, f, eq) ↦ inr (e ∷ front, f, ap (λ t. e ∷ t) eq)
]

push_block-append :
    (bs off : ℕ) (front : List Extent) (e : Extent)
    → push_block bs off (front ++ (e ∷ [])) ≡ (
        if sat_add e.offset e.len == off
        then front ++ (record { offset = e.offset; len = sat_add e.len bs } ∷ [])
        else (front ++ (e ∷ [])) ++ (record { offset = off; len = bs } ∷ []))
unfolding push_block
push_block-append bs off [] e = refl
push_block-append bs off (f ∷ []) e = elim (Bool-cases (sat_add e.offset e.len == off)) [
  | inl joins ↦ rw joins refl
  | inr apart ↦ rw apart refl
]
push_block-append bs off (f ∷ g ∷ front) e =
    let ih = push_block-append bs off (g ∷ front) e in
    elim (Bool-cases (sat_add e.offset e.len == off)) [
      | inl joins ↦ rw joins (ap (λ t. f ∷ t) (rw joins at ih))
      | inr apart ↦ rw apart (ap (λ t. f ∷ t) (rw apart at ih))
    ]

IsWithin-last :
    (total : ℕ) (front : List Extent) (e : Extent)
    → IsWithin total (front ++ (e ∷ []))
    → IsWithin total front × (e.offset + e.len ≤ total)
IsWithin-last total [] e (h, w) = (tt, h)
IsWithin-last total (f ∷ front) e (h, w) =
    let rest = IsWithin-last total front e w in ((h, rest.0), rest.1)

-- The extents so far hold the bytes so far, and end within 64 bits.
record Holds (at : ℕ → ℕ) (n : ℕ) (es : List Extent) : Type 0 where
  covers : Covers es n at
  within : IsWithin u64_max es

module _ (at : ℕ → ℕ) (bs off n : ℕ) (small : off + bs ≤ u64_max)
    (place : (j : ℕ) → j < bs → at (n + j) ≡ off + j) where
  push_block-Holds : (es : List Extent) → Holds at n es → Holds at (n + bs) (push_block bs off es)
  unfolding push_block
  push_block-Holds es h = elim (Last-cases es) [
    | inl none_left ↦
        let pushed = Covers-push es n at off bs h.covers place in
        rw none_left (record { covers = rw none_left at pushed; within = (small, tt) })
    | inr (front, e, eq) ↦
        let cover : Covers (front ++ (e ∷ [])) n at = rw eq at h.covers in
        let inside = IsWithin-last u64_max front e (rw eq at h.within) in
        elim (Bool-cases (sat_add e.offset e.len == off)) [
          | inl joins ↦
              let follows : e.offset + e.len ≡ off = ground (arith, inside.1) in
              let longer : sat_add e.len bs ≡ e.len + bs = omega (arith, follows, small) in
              rw (eq, push_block-append bs off front e, joins, longer)
                (record {
                  covers =
                      Covers-extend front e.offset e.len n at cover bs
                        (λ j lt. place j lt ∙ omega (arith, follows));
                  within =
                      IsWithin-push u64_max front e.offset (e.len + bs) inside.0
                        (omega (arith, follows, small));
                })
          | inr apart ↦
              rw (eq, push_block-append bs off front e, apart)
                (record {
                  covers = Covers-push (front ++ (e ∷ [])) n at off bs cover place;
                  within =
                      IsWithin-push u64_max (front ++ (e ∷ [])) off bs (rw eq at h.within) small;
                })
        ]
  ]

-- The first bytes of the blocks.
abbrev pub block_starts : ℕ → List (ℕ × ℕ) → List ℕ
block_starts bs [] = []
block_starts bs (b ∷ blocks) = b.1 * bs ∷ block_starts bs blocks

push_blocks-Holds :
    (at : ℕ → ℕ) (bs n : ℕ) (blocks : List (ℕ × ℕ)) (es : List Extent)
    → All (λ (s : ℕ). s + bs ≤ u64_max) (block_starts bs blocks)
    → Lies at bs n (block_starts bs blocks)
    → Holds at n es
    → Holds at (n + length blocks * bs) (push_blocks bs blocks es)
unfolding push_blocks
push_blocks-Holds at bs n [] es small lies h =
    let none_left : n + 0 * bs ≡ n = grind arith in rw none_left h
push_blocks-Holds at bs n (b ∷ blocks) es (small, rest) (place, lies) h =
    let exact : sat_mul b.1 bs ≡ b.1 * bs = omega (arith, small) in
    let all : n + bs + length blocks * bs ≡ n + suc (length blocks) * bs = grind arith in
    rw exact (
      rw all at (
        push_blocks-Holds at bs (n + bs) blocks (push_block bs (b.1 * bs) es) rest lies
          (push_block-Holds at bs (b.1 * bs) n small place es h)))

trim_loop_lem :
    (size acc : ℕ) (es : List Extent)
    → acc + total_len es ≤ u64_max
    → (total_len (trim_loop size acc es) ≡ min (total_len es) (size - acc))
      × ((i : ℕ)
          → i < min (total_len es) (size - acc)
          → locate (trim_loop size acc es) i ≡ locate es i)
unfolding trim_loop
trim_loop_lem size acc [] fits = (omega arith, λ i lt. refl)
trim_loop_lem size acc (e ∷ es) fits = elim (Bool-cases (leb size acc)) [
  | inl done ↦ rw done (ground arith, λ i lt. absurd (ground arith))
  | inr more ↦
      let kept = min e.len (size - acc) in
      let sum : sat_add acc kept ≡ acc + kept = omega (arith, fits) in
      let below : acc < size = ground arith in
      let rest = trim_loop_lem size (acc + kept) es (omega (arith, fits)) in
      rw (more, sum)
        (
          omega (arith, rest.0, below),
          λ i lt. elim (Bool-cases (ltb i kept)) [
            | inl here ↦ ground arith
            | inr later ↦ ground (arith, rest.1 (i - kept))
          ],
        )
]

trim_to_size-Covers :
    (at : ℕ → ℕ) (n size : ℕ) (es : List Extent)
    → n ≤ u64_max
    → Covers es n at
    → Covers (trim_to_size size es) (min n size) at
unfolding trim_to_size
trim_to_size-Covers at n size es fits c = elim (Bool-cases (size == 0)) [
  | inl nothing ↦
      rw nothing (record { total = ground arith; placed = λ i lt. absurd (ground arith) })
  | inr some_size ↦
      let cut = trim_loop_lem size 0 es (omega (arith, c.total)) in
      rw some_size (record {
        total = omega (arith, cut.0, c.total);
        placed = λ i lt. cut.1 i (omega (arith, c.total)) ∙ c.placed i (omega arith);
      })
]

-- The blocks of a file are put into the stable order of their logical numbers, rising and with the
-- same blocks of each number in the same order, and the extents hold the bytes of the blocks one
-- after another in that order, cut to the size, when every block and all of them together fit 64
-- bits; a gap between logical numbers leaves no gap in the bytes.
pub runs_to_extents-Covers :
    (sb : Superblock) (blocks : List (ℕ × ℕ)) (size : ℕ)
    → 0 < sb.block_size
    → All (λ (s : ℕ). s + sb.block_size ≤ u64_max) (block_starts sb.block_size (sort_blocks blocks))
    → length (sort_blocks blocks) * sb.block_size ≤ u64_max
    → IsSortOf blocks (sort_blocks blocks)
      × Covers
          (runs_to_extents sb blocks size)
          (min (length (sort_blocks blocks) * sb.block_size) size)
          (piece_byte sb.block_size (block_starts sb.block_size (sort_blocks blocks)))
unfolding runs_to_extents
runs_to_extents-Covers sb blocks size pos small fits =
    let bs = sb.block_size in
    let bl = sort_blocks blocks in
    let at = piece_byte bs (block_starts bs bl) in
    let h =
      push_blocks-Holds at bs 0 bl [] small (piece_byte-Lies bs pos (block_starts bs bl)) (record {
        covers = record { total = refl; placed = λ i lt. absurd (omega arith) };
        within = tt;
      }) in
    (
      sort_blocks-IsSortOf blocks,
      trim_to_size-Covers at (length bl * bs) size (push_blocks bs bl []) fits
          (rw (zero-add (length bl * bs)) at h.covers),
    )
