-- ===== src/FsCore/Pieces.antt =====
-- A file in pieces of one size: the byte that each place of the file holds.
use mathlib.Core.List.{append_assoc}
use native.Mathlib.Nat.{mul-add-div_right, mul-add-mod_self_right, div-eq_of_lt, mod-eq_of_lt}
use reclaim.Prelude.{
  ℕ, ◌+◌, ◌*◌, ◌/◌, ◌%◌, ◌<◌, ◌≡◌, refl, ◌∙◌, List, [], ◌∷◌, ◌++◌, arith, length, length-append,
  get_or,
}

-- Where byte `i` lies, if the pieces start there.
abbrev pub piece_byte : ℕ → List ℕ → ℕ → ℕ
piece_byte unit starts i = get_or starts (i / unit) 0 + i % unit

-- From byte `n` on, the bytes are those of the pieces.
abbrev pub Lies : (ℕ → ℕ) → ℕ → ℕ → List ℕ → Type 0
Lies at unit n [] = Unit {0}
Lies at unit n (s ∷ ss) = ((j : ℕ) → j < unit → at (n + j) ≡ s + j) × Lies at unit (n + unit) ss

get_or-middle : (pre : List ℕ) (s : ℕ) (ss : List ℕ) → get_or (pre ++ s ∷ ss) (length pre) 0 ≡ s
get_or-middle [] s ss = refl
get_or-middle (x ∷ pre) s ss = get_or-middle pre s ss

module _ (unit : ℕ) (pos : 0 < unit) where
  Lies-append : (pre ss : List ℕ) → Lies (piece_byte unit (pre ++ ss)) unit (length pre * unit) ss
  Lies-append pre [] = tt
  Lies-append pre (s ∷ ss) = (
    λ j lt.
        let block : (length pre * unit + j) / unit ≡ length pre =
          mul-add-div_right pos (length pre) j ∙ omega (arith, div-eq_of_lt lt) in
        let byte : (length pre * unit + j) % unit ≡ j =
          mul-add-mod_self_right (length pre) unit j ∙ mod-eq_of_lt lt in
        rw (block, get_or-middle pre s ss, byte) refl,
    let next : length (pre ++ s ∷ []) * unit ≡ length pre * unit + unit =
          rw (length-append pre (s ∷ [])) (grind arith) in
        rw (append_assoc pre (s ∷ []) ss, next) at (Lies-append (pre ++ s ∷ []) ss),
  )

  pub piece_byte-Lies : (ss : List ℕ) → Lies (piece_byte unit ss) unit 0 ss
  piece_byte-Lies ss =
      let start : length {A = ℕ} [] * unit ≡ 0 = grind arith in rw start at (Lies-append [] ss)
