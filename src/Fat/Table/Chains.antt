-- ===== src/Fat/Table/Chains.antt =====
-- Chains of clusters.
use reclaim.Prelude.{
  ℕ, zero, suc, ◌+◌, ◌≤◌, min, max, ◌≡◌, refl, sym, ap, inl, inr, true, false, List, [], ◌∷◌, arith,
  Bool-cases, length, take, All,
}
use reclaim.Fat.Boot.{FatFs}
use reclaim.Fat.Table.{fat_entry, in_range, stops_at, chain_loop, chain}

-- The FAT links these clusters, each to the next, and the last to none: its entry is an end mark,
-- or no cluster of the volume, or the cluster itself.
pub data Links (fs : FatFs) : List ℕ → Type 0 where
  last : (c : ℕ) → in_range fs c ≡ true → stops_at fs c (fat_entry fs c) ≡ true → Links fs (c ∷ [])
  link :
      (c d : ℕ) (cs : List ℕ)
      → in_range fs c ≡ true
      → fat_entry fs c ≡ d
      → stops_at fs c d ≡ false
      → Links fs (d ∷ cs)
      → Links fs (c ∷ d ∷ cs)

take_nil : (n : ℕ) → take {A = ℕ} n [] ≡ []
take_nil zero = refl
take_nil (suc n) = refl

chain_loop-Links :
    (fs : FatFs) (left : ℕ) (c : ℕ) (cs : List ℕ)
    → Links fs (c ∷ cs)
    → chain_loop fs left c ≡ take left (c ∷ cs)
unfolding chain_loop
chain_loop-Links fs zero c cs l = refl
chain_loop-Links fs (suc left) c [] (last _ r s) = rw (r, s) (ap (λ t. c ∷ t) (sym (take_nil left)))
chain_loop-Links fs (suc left) c _ (link _ d cs r e s l) =
    rw (r, e, s) (ap (λ t. c ∷ t) (chain_loop-Links fs left d cs l))

pub chain-Links :
    (fs : FatFs) (c limit : ℕ) (cs : List ℕ)
    → Links fs (c ∷ cs)
    → chain fs c limit ≡ take (max (min limit (fs.count_of_clusters + 2)) 1) (c ∷ cs)
unfolding chain
chain-Links fs c limit cs l = chain_loop-Links fs _ c cs l

-- Whatever the FAT says, a chain holds clusters of the volume alone, and no more than the cap.
chain_loop_bounds :
    (fs : FatFs) (left cur : ℕ)
    → All (λ c. in_range fs c ≡ true) (chain_loop fs left cur)
      × (length (chain_loop fs left cur) ≤ left)
unfolding chain_loop
chain_loop_bounds fs zero cur = (tt, omega arith)
chain_loop_bounds fs (suc left) cur =
    let rest = chain_loop_bounds fs left (fat_entry fs cur) in
    elim (Bool-cases (in_range fs cur)) [
      | inr outside ↦ rw outside (tt, omega arith)
      | inl inside ↦ elim (Bool-cases (stops_at fs cur (fat_entry fs cur))) [
        | inl stop ↦ rw (inside, stop) ((inside, tt), omega arith)
        | inr goes ↦ rw (inside, goes) ((inside, rest.0), omega (arith, rest.1))
      ]
    ]

pub chain_bounds :
    (fs : FatFs) (first limit : ℕ)
    → All (λ c. in_range fs c ≡ true) (chain fs first limit)
      × (length (chain fs first limit) ≤ max (min limit (fs.count_of_clusters + 2)) 1)
unfolding chain
chain_bounds fs first limit = chain_loop_bounds fs _ first
