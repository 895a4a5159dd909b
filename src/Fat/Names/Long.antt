-- ===== src/Fat/Names/Long.antt =====
-- Long names: what is written into the entries of a name is read back from them.
use mathlib.Core.Path.{ap₂}
use mathlib.Core.List.{reverse, reverse-cons, map-append, reverse-reverse}
use reclaim.FsCore.Reader.{le_u16}
use reclaim.Part.Reader.{le_at, le_value}
use reclaim.FsCore.Text.{from_utf16_lossy}
use reclaim.Prelude.{
  ℕ, zero, suc, ◌+◌, ◌*◌, ◌/◌, ◌%◌, ◌≤◌, ◌<◌, ◌≡◌, refl, ap, ◌∙◌, false, ◌||◌, some, List, [], ◌∷◌,
  ◌++◌, map, arith, ◌==◌, length, take, drop, replicate, take-append-drop, length-drop,
  length-replicate, All,
}
use reclaim.Fat.Names.{push_units, join_pieces, range_units, lfn_chars, assemble_lfn}

-- A piece of 13 units: the name's, then a zero, then ones.
pub pad : ℕ → List ℕ → List ℕ
pad zero us = []
pad (suc n) [] = 0 ∷ replicate n 0xFFFF
pad (suc n) (u ∷ us) = u ∷ pad n us

-- The pieces of a name, in order.
pub pieces : ℕ → List ℕ → List (List ℕ)
pieces zero us = []
pieces (suc fuel) [] = []
pieces (suc fuel) (u ∷ us) = pad 13 (u ∷ us) ∷ pieces fuel (drop 12 us)

abbrev pub IsUnit : ℕ → Type 0
IsUnit u = (0 < u) × (u < 0xFFFF)

push_units-append : (us rest : List ℕ) → All IsUnit us → push_units us rest ≡ us ++ rest
unfolding push_units
push_units-append [] rest a = refl
push_units-append (u ∷ us) rest (h, a) =
    let kept : (u == 0x0000 || u == 0xFFFF) ≡ false = ground arith in
    rw kept (ap (λ t. u ∷ t) (push_units-append us rest a))

push_units-ones : (n : ℕ) (rest : List ℕ) → push_units (replicate n 0xFFFF) rest ≡ rest
unfolding push_units
push_units-ones zero rest = refl
push_units-ones (suc n) rest = push_units-ones n rest

push_units-pad :
    (n : ℕ) (us rest : List ℕ) → All IsUnit us → push_units (pad n us) rest ≡ take n us ++ rest
unfolding push_units pad
push_units-pad zero us rest a = refl
push_units-pad (suc n) [] rest a = push_units-ones n rest
push_units-pad (suc n) (u ∷ us) rest (h, a) =
    let kept : (u == 0x0000 || u == 0xFFFF) ≡ false = ground arith in
    rw kept (ap (λ t. u ∷ t) (push_units-pad n us rest a))

All-drop : (n : ℕ) (us : List ℕ) → All IsUnit us → All IsUnit (drop n us)
All-drop zero us a = a
All-drop (suc n) [] a = tt
All-drop (suc n) (u ∷ us) (h, a) = All-drop n us a

join-pieces :
    (fuel : ℕ) (us : List ℕ) → All IsUnit us → length us ≤ fuel → join_pieces (pieces fuel us) ≡ us
unfolding join_pieces pieces
join-pieces zero [] a h = refl
join-pieces zero (u ∷ us) a h = absurd (omega arith)
join-pieces (suc fuel) [] a h = refl
join-pieces (suc fuel) (u ∷ us) a h =
    push_units-pad 13 (u ∷ us) _ a
    ∙ rw (join-pieces fuel (drop 12 us) (All-drop 12 us a.1) (omega (arith, length-drop 12 us)))
        (take-append-drop 13 (u ∷ us))

-- Units as little-endian bytes.
unit_bytes : List ℕ → List ℕ
unit_bytes [] = []
unit_bytes (u ∷ us) = u % 256 ∷ u / 256 ∷ unit_bytes us

-- The entry of a piece, whatever its sequence byte (overwritten in a deleted entry) and checksum.
pub entry_of : ℕ → ℕ → List ℕ → List ℕ
unfolding unit_bytes
entry_of seq check p =
    seq
    ∷ (unit_bytes (take 5 p)
        ++ (0x0F
            ∷ 0
            ∷ check
            ∷ (unit_bytes (take 6 (drop 5 p)) ++ (0 ∷ 0 ∷ unit_bytes (take 2 (drop 11 p))))))

pair_value : (u : ℕ) → u % 256 + 256 * (u / 256 + 256 * 0) ≡ u
pair_value u = omega arith

lfn_chars-entry_of :
    (seq check : ℕ) (p : List ℕ) → length p ≡ 13 → lfn_chars (entry_of seq check p) ≡ p
unfolding lfn_chars range_units le_u16 le_at le_value entry_of
lfn_chars-entry_of seq check [] len = absurd (omega arith)
lfn_chars-entry_of seq check (a ∷ []) len = absurd (omega arith)
lfn_chars-entry_of seq check (a ∷ b ∷ []) len = absurd (omega arith)
lfn_chars-entry_of seq check (a ∷ b ∷ c ∷ []) len = absurd (omega arith)
lfn_chars-entry_of seq check (a ∷ b ∷ c ∷ d ∷ []) len = absurd (omega arith)
lfn_chars-entry_of seq check (a ∷ b ∷ c ∷ d ∷ e ∷ []) len = absurd (omega arith)
lfn_chars-entry_of seq check (a ∷ b ∷ c ∷ d ∷ e ∷ f ∷ []) len = absurd (omega arith)
lfn_chars-entry_of seq check (a ∷ b ∷ c ∷ d ∷ e ∷ f ∷ g ∷ []) len = absurd (omega arith)
lfn_chars-entry_of seq check (a ∷ b ∷ c ∷ d ∷ e ∷ f ∷ g ∷ h ∷ []) len = absurd (omega arith)
lfn_chars-entry_of seq check (a ∷ b ∷ c ∷ d ∷ e ∷ f ∷ g ∷ h ∷ i ∷ []) len = absurd (omega arith)
lfn_chars-entry_of seq check (a ∷ b ∷ c ∷ d ∷ e ∷ f ∷ g ∷ h ∷ i ∷ j ∷ []) len = absurd (omega arith)
lfn_chars-entry_of seq check (a ∷ b ∷ c ∷ d ∷ e ∷ f ∷ g ∷ h ∷ i ∷ j ∷ k ∷ []) len =
    absurd (omega arith)
lfn_chars-entry_of seq check (a ∷ b ∷ c ∷ d ∷ e ∷ f ∷ g ∷ h ∷ i ∷ j ∷ k ∷ l ∷ []) len =
    absurd (omega arith)
lfn_chars-entry_of seq check (a ∷ b ∷ c ∷ d ∷ e ∷ f ∷ g ∷ h ∷ i ∷ j ∷ k ∷ l ∷ m ∷ []) len = rw (
  pair_value a,
  pair_value b,
  pair_value c,
  pair_value d,
  pair_value e,
  pair_value f,
  pair_value g,
  pair_value h,
  pair_value i,
  pair_value j,
  pair_value k,
  pair_value l,
  pair_value m,
)
lfn_chars-entry_of seq check (a ∷ b ∷ c ∷ d ∷ e ∷ f ∷ g ∷ h ∷ i ∷ j ∷ k ∷ l ∷ m ∷ n ∷ r) len =
    absurd (omega arith)

map-reverse : {A B : Type 0} (f : A → B) (xs : List A) → map f (reverse xs) ≡ reverse (map f xs)
map-reverse f [] = refl
map-reverse f (x ∷ xs) = simp (reverse-cons, map-append, map-reverse f xs)

-- The entries of a name in its order; on the disk they stand the other way round.
pub write_entries : (ℕ → ℕ) → ℕ → ℕ → List (List ℕ) → List (List ℕ)
write_entries seq check k [] = []
write_entries seq check k (p ∷ ps) = entry_of (seq k) check p ∷ write_entries seq check (k + 1) ps

length-pad : (n : ℕ) (us : List ℕ) → length (pad n us) ≡ n
unfolding pad
length-pad zero us = refl
length-pad (suc n) [] = ap suc (length-replicate n 0xFFFF)
length-pad (suc n) (u ∷ us) = ap suc (length-pad n us)

lfn_chars-write_entries :
    (seq : ℕ → ℕ) (check k fuel : ℕ) (us : List ℕ)
    → map lfn_chars (write_entries seq check k (pieces fuel us)) ≡ pieces fuel us
unfolding write_entries pieces
lfn_chars-write_entries seq check k zero us = refl
lfn_chars-write_entries seq check k (suc fuel) [] = refl
lfn_chars-write_entries seq check k (suc fuel) (u ∷ us) =
    ap₂ ◌∷◌ (lfn_chars-entry_of (seq k) check (pad 13 (u ∷ us)) (length-pad 13 (u ∷ us)))
      (lfn_chars-write_entries seq check (k + 1) fuel (drop 12 us))

-- A long name that is not empty and has no unit 0 or 0xFFFF, written as directory entries of 13
-- units, last piece first, is read back as the text of its units, whatever the sequence and the
-- check bytes are.
pub assemble_lfn-write_entries :
    (seq : ℕ → ℕ) (check : ℕ) (u : ℕ) (us : List ℕ)
    → All IsUnit (u ∷ us)
    → assemble_lfn
        (map lfn_chars (reverse (write_entries seq check 1 (pieces (suc (length us)) (u ∷ us)))))
      ≡ some (from_utf16_lossy (u ∷ us))
unfolding assemble_lfn
assemble_lfn-write_entries seq check u us a =
    let ps = pieces (suc (length us)) (u ∷ us) in
    let read_back : map lfn_chars (reverse (write_entries seq check 1 ps)) ≡ reverse ps =
      map-reverse lfn_chars (write_entries seq check 1 ps)
      ∙ ap reverse (lfn_chars-write_entries seq check 1 (suc (length us)) (u ∷ us)) in
    let joined : join_pieces (reverse (reverse ps)) ≡ u ∷ us =
      ap join_pieces (reverse-reverse ps)
      ∙ join-pieces (suc (length us)) (u ∷ us) a (omega arith) in
    rw (read_back, joined, assemble_lfn) refl
