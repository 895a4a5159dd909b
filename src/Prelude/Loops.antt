-- ===== src/Prelude/Loops.antt =====
-- Rules for counted loops over a state.
use native.Mathlib.Decide.{ℕ_discrete}
use Prim.Native.Nat.{ℕ, zero, suc, ◌+◌, ◌≤◌, ◌<◌}
use native.Mathlib.Omega.{arith}
use mathlib.Core.Path.{◌≡◌, refl, ◌∙◌}
use mathlib.Core.Logic.{◌≢◌, ◌⊎◌, inl}
use reclaim.Prelude.Bytes.{for_range}

module _ {S : Type 0} (body : ℕ → S → S) (P : S → Type 0)
    (keep : (i : ℕ) (s : S) → P s → P (body i s)) where
  -- An invariant of every round holds at the end.
  pub for_range_keeps : (n start : ℕ) (s : S) → P s → P (for_range n start body s)
  for_range_keeps zero start s h = h
  for_range_keeps (suc n) start s h = for_range_keeps n (start + 1) (body start s) (keep start s h)

  -- A part of the state that only round `q` changes.
  module _ (f : S → ℕ) (q : ℕ) (other : (i : ℕ) (s : S) → P s → i ≢ q → f (body i s) ≡ f s) where
    pub for_range_other :
        (n start : ℕ) (s : S)
        → P s
        → (q < start) ⊎ (start + n ≤ q)
        → f (for_range n start body s) ≡ f s
    for_range_other zero start s h out = refl
    for_range_other (suc n) start s h out =
        for_range_other n (start + 1) (body start s) (keep start s h) (omega arith)
        ∙ other start s h (omega arith)

    pub for_range_at :
        (n start : ℕ) (s : S) (v : ℕ)
        → P s
        → start ≤ q
        → q < start + n
        → ((s' : S) → P s' → f s' ≡ f s → f (body q s') ≡ v)
        → f (for_range n start body s) ≡ v
    for_range_at zero start s v h lo hi hit = absurd (omega arith)
    for_range_at (suc n) start s v h lo hi hit = elim (ℕ_discrete start q) [
      | yes e ↦
          for_range_other n (start + 1) (body start s) (keep start s h) (inl (omega arith))
          ∙ rw e (hit s h refl)
      | no ne ↦
          for_range_at n (start + 1) (body start s) v (keep start s h) (omega arith) (omega arith)
            (λ s' h' e. hit s' h' (e ∙ other start s h ne))
    ]
