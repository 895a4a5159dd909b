-- ===== src/Ext/Inode/Sorted.antt =====
-- `sort_by_key` of `runs_to_extents`: a rising order of the logical numbers, and the same blocks.
use reclaim.Prelude.{
  ℕ, ◌≤◌, ◌≡◌, refl, ap, ◌∙◌, inl, inr, ◌||◌, List, [], ◌∷◌, arith, ltb, ◌==◌, if◌then◌else◌,
  Bool-cases, All,
}
use reclaim.Ext.Inode.{insert_block, sort_blocks}

-- The logical numbers never fall.
abbrev pub Rising : List (ℕ × ℕ) → Type 0
Rising [] = Unit
Rising (b ∷ bs) = All (λ (c : ℕ × ℕ). b.0 ≤ c.0) bs × Rising bs

-- The blocks that have the logical number `k`, in their order.
abbrev pub of_number : ℕ → List (ℕ × ℕ) → List (ℕ × ℕ)
of_number k [] = []
of_number k (b ∷ bs) = if b.0 == k then b ∷ of_number k bs else of_number k bs

-- `sorted` is the stable order of `blocks`: its numbers never fall, and of each number it holds the
-- same blocks, in the same order.
pub record IsSortOf (blocks sorted : List (ℕ × ℕ)) : Type 0 where
  pub rising : Rising sorted
  pub same : (k : ℕ) → of_number k sorted ≡ of_number k blocks

insert_block-All :
    (P : ℕ × ℕ → Type 0) (b : ℕ × ℕ) (bs : List (ℕ × ℕ))
    → P b
    → All P bs
    → All P (insert_block b bs)
unfolding insert_block
insert_block-All P b [] p a = (p, tt)
insert_block-All P b (c ∷ cs) p (q, a) = elim (Bool-cases (ltb b.0 c.0 || b.0 == c.0)) [
  | inl here ↦ rw here (p, (q, a))
  | inr later ↦ rw later (q, insert_block-All P b cs p a)
]

All-from :
    (n m : ℕ) (bs : List (ℕ × ℕ))
    → n ≤ m
    → All (λ (c : ℕ × ℕ). m ≤ c.0) bs
    → All (λ (c : ℕ × ℕ). n ≤ c.0) bs
All-from n m [] h a = tt
All-from n m (b ∷ bs) h (q, a) = (omega (arith, q), All-from n m bs h a)

insert_block-Rising : (b : ℕ × ℕ) (bs : List (ℕ × ℕ)) → Rising bs → Rising (insert_block b bs)
unfolding insert_block
insert_block-Rising b [] r = (tt, tt)
insert_block-Rising b (c ∷ cs) (a, r) = elim (Bool-cases (ltb b.0 c.0 || b.0 == c.0)) [
  | inl here ↦ let le : b.0 ≤ c.0 = ground arith in rw here ((le, All-from b.0 c.0 cs le a), (a, r))
  | inr later ↦ rw later (
    insert_block-All (λ (d : ℕ × ℕ). c.0 ≤ d.0) b cs (ground arith) a,
    insert_block-Rising b cs r,
  )
]

of_number-insert_block :
    (k : ℕ) (b : ℕ × ℕ) (bs : List (ℕ × ℕ)) → of_number k (insert_block b bs) ≡ of_number k (b ∷ bs)
unfolding insert_block
of_number-insert_block k b [] = refl
of_number-insert_block k b (c ∷ cs) = elim (Bool-cases (ltb b.0 c.0 || b.0 == c.0)) [
  | inl here ↦ rw here refl
  | inr later ↦ rw (later, of_number-insert_block k b cs) (ground arith)
]

pub sort_blocks-IsSortOf : (blocks : List (ℕ × ℕ)) → IsSortOf blocks (sort_blocks blocks)
unfolding sort_blocks
sort_blocks-IsSortOf [] = record { rising = tt; same = λ k. refl }
sort_blocks-IsSortOf (b ∷ bs) =
    let rest = sort_blocks-IsSortOf bs in
    record {
      rising = insert_block-Rising b (sort_blocks bs) rest.rising;
      same = λ k.
          of_number-insert_block k b (sort_blocks bs)
          ∙ ap (λ t. if b.0 == k then b ∷ t else t) (rest.same k);
    }
