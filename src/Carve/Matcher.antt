-- ===== src/Carve/Matcher.antt =====
-- crates/reclaim-carve/src/matcher.rs, and HeaderPat of crates/reclaim-sigs/src/lib.rs. The automaton
-- is a function from patterns and a buffer to the matches, each a pattern's index and its start. Of
-- a signature only the headers are read here.
pub mod Confirmed
pub mod Reports
use Prim.Native.Nat.{bit_and}
use reclaim.Prelude.{
  ℕ, zero, suc, ◌+◌, ◌-◌, Bool, true, false, not, ◌&&◌, Option, none, some, List, [], ◌∷◌, ◌++◌,
  ltb, ◌==◌, if◌then◌else◌, length, get_elem?, sat_add, slice,
}
use reclaim.Fat.Boot.{bytes_eq}

pub record HeaderPat : Type 0 where
  pub bytes : List ℕ
  pub mask : List ℕ
  pub offset : ℕ
  pub anchor : List ℕ
  pub anchor_pos : ℕ

pub record SigDef : Type 0 where
  pub headers : List HeaderPat

-- The comparison under the mask, as far as all three go.
pub matches_masked : List ℕ → List ℕ → List ℕ → Bool
matches_masked (b ∷ bs) (m ∷ ms) (w ∷ ws) = bit_and w m == bit_and b m && matches_masked bs ms ws
matches_masked _ _ _ = true

unfoldable pub confirm : HeaderPat → List ℕ → Bool
unfolding matches_masked
confirm h window =
    if ltb (length window) (length h.bytes) then false else matches_masked h.bytes h.mask window

pub record HeaderRef : Type 0 where
  pub sig_idx : ℕ
  pub header_idx : ℕ

pub record Candidate : Type 0 where
  pub sig_idx : ℕ
  pub header_idx : ℕ
  pub file_start : ℕ

-- The patterns of the automaton, each with the headers that share it.
pub record Matcher : Type 0 where
  pub patterns : List (List ℕ)
  pub refs : List (List HeaderRef)
  pub sigs : List SigDef

-- The index of a pattern, counted from `i`.
unfoldable pub index_of : List ℕ → List (List ℕ) → ℕ → Option ℕ
index_of anchor [] i = none
index_of anchor (p ∷ ps) i = if bytes_eq p anchor then some i else index_of anchor ps (i + 1)

-- `refs.get_mut(id)`, with a reference pushed.
unfoldable pub push_ref : List (List HeaderRef) → ℕ → HeaderRef → List (List HeaderRef)
push_ref [] id r = []
push_ref (bucket ∷ refs) zero r = (bucket ++ (r ∷ [])) ∷ refs
push_ref (bucket ∷ refs) (suc id) r = bucket ∷ push_ref refs id r

unfoldable pub add_header : HeaderRef → HeaderPat → Matcher → Matcher
unfolding index_of push_ref
add_header r h m = if ltb (length h.anchor) 2 then m else elim (index_of h.anchor m.patterns 0) [
  | some id ↦ record m { refs = push_ref m.refs id r }
  | none ↦ record m {
    patterns = m.patterns ++ (h.anchor ∷ []);
    refs = push_ref (m.refs ++ ([] ∷ [])) (length m.patterns) r;
  }
]

unfoldable pub add_headers : ℕ → ℕ → List HeaderPat → Matcher → Matcher
unfolding add_header
add_headers si hi [] m = m
add_headers si hi (h ∷ hs) m =
    add_headers si (hi + 1) hs (add_header (record { sig_idx = si; header_idx = hi }) h m)

unfoldable pub add_signatures : ℕ → List SigDef → Matcher → Matcher
unfolding add_headers
add_signatures si [] m = m
add_signatures si (sig ∷ sigs) m = add_signatures (si + 1) sigs (add_headers si 0 sig.headers m)

unfoldable pub for_signatures : List SigDef → Matcher
unfolding add_signatures
for_signatures sigs = add_signatures 0 sigs (record { patterns = []; refs = []; sigs = sigs })

pub checked_sub : ℕ → ℕ → Option ℕ
checked_sub a b = if ltb a b then none else some (a - b)

-- The pattern lies in the buffer and is not the header's.
unfoldable pub is_refuted : ℕ → List ℕ → HeaderPat → ℕ → Bool
unfolding checked_sub
is_refuted base buf h patt_start = elim (checked_sub patt_start base) [
  | none ↦ false
  | some rel ↦ elim (slice rel (length h.bytes) buf) [
    | none ↦ false
    | some window ↦ not (confirm h window)
  ]
]

-- The candidate of one header that shares the anchor found at `anchor_abs`, if it is one.
pub candidate_at : ℕ → List ℕ → HeaderPat → HeaderRef → ℕ → List Candidate
unfolding checked_sub is_refuted
candidate_at base buf h r anchor_abs = elim (checked_sub anchor_abs h.anchor_pos) [
  | none ↦ []
  | some patt_start ↦ elim (checked_sub patt_start h.offset) [
    | none ↦ []
    | some file_start ↦
        if is_refuted base buf h patt_start
        then []
        else record { sig_idx = r.sig_idx; header_idx = r.header_idx; file_start = file_start } ∷ []
  ]
]

pub candidate_of : List SigDef → ℕ → List ℕ → HeaderRef → ℕ → List Candidate
unfolding candidate_at
candidate_of sigs base buf r anchor_abs = elim (get_elem? sigs r.sig_idx) [
  | none ↦ []
  | some sig ↦ elim (get_elem? sig.headers r.header_idx) [
    | none ↦ []
    | some h ↦ candidate_at base buf h r anchor_abs
  ]
]

pub each_ref : List SigDef → ℕ → List ℕ → ℕ → List HeaderRef → List Candidate
unfolding candidate_of
each_ref sigs base buf anchor_abs [] = []
each_ref sigs base buf anchor_abs (r ∷ rs) =
    candidate_of sigs base buf r anchor_abs ++ each_ref sigs base buf anchor_abs rs

pub each_match : Matcher → ℕ → List ℕ → List (ℕ × ℕ) → List Candidate
unfolding each_ref
each_match m base buf [] = []
each_match m base buf ((pid, start) ∷ found) = elim (get_elem? m.refs pid) [
  | none ↦ each_match m base buf found
  | some bucket ↦
      each_ref m.sigs base buf (sat_add base start) bucket ++ each_match m base buf found
]

-- `scan_buffer`: the candidates that it calls `f` for, in their order.
unfoldable pub scan_buffer :
    (List (List ℕ) → List ℕ → List (ℕ × ℕ)) → Matcher → ℕ → List ℕ → List Candidate
unfolding each_match
scan_buffer find m base buf = each_match m base buf (find m.patterns buf)
