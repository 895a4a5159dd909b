-- ===== src/Carve/Matcher/Confirmed.antt =====
-- Candidates: each names a header of the catalogue, whose pattern the buffer does not refute.
use reclaim.Prelude.{
  if_cases, ℕ, zero, suc, ◌≤◌, ◌<◌, leb, take, drop, get_or, get_or-take, get_or-drop, ◌+◌, ◌≡◌,
  refl, sym, ap, ◌∙◌, true, false, not, Option, none, some, List, [], ◌∷◌, arith, ltb, length,
  get_elem?, sat_add, slice, All, All-append,
}
use Prim.Native.Nat.{bit_and}
use mathlib.Core.Path.{subst}
use reclaim.Carve.Matcher.{
  matches_masked, HeaderPat, SigDef, HeaderRef, Candidate, Matcher, confirm, checked_sub,
  is_refuted, candidate_at, candidate_of, each_ref, each_match, scan_buffer,
}

-- The byte `w` has the bits of `b` that the mask `m` keeps.
abbrev pub Agrees : ℕ → ℕ → ℕ → Type 0
Agrees b m w = bit_and w m ≡ bit_and b m

-- A candidate names a header, and where the buffer, from `base` on, holds as many bytes as its
-- pattern has at its place in the file, each of them agrees with the pattern's byte on the bits of
-- the mask; the bytes past the end of the mask are free.
pub record IsConfirmed (sigs : List SigDef) (base : ℕ) (buf : List ℕ) (c : Candidate) : Type 0 where
  pub sig : SigDef
  pub header : HeaderPat
  pub known_sig : get_elem? sigs c.sig_idx ≡ some sig
  pub known_header : get_elem? sig.headers c.header_idx ≡ some header
  pub agrees :
      (rel i : ℕ)
      → base + rel ≡ c.file_start + header.offset
      → rel + length header.bytes ≤ length buf
      → i < length header.bytes
      → i < length header.mask
      → Agrees (get_or header.bytes i 0) (get_or header.mask i 0) (get_or buf (rel + i) 0)

pub option_cases :
    {A B : Type 0} (P : B → Type 0) (o : Option A) (x : B) (f : A → B)
    → (o ≡ none → P x)
    → ((a : A) → o ≡ some a → P (f a))
    → P (elim o [ none ↦ x | some a ↦ f a ])
option_cases P none x f h k = h refl
option_cases P (some a) x f h k = k a refl

pub checked_sub-some : (a b d : ℕ) → checked_sub a b ≡ some d → a ≡ b + d
unfolding checked_sub
checked_sub-some a b d h = ground arith

pub checked_sub-add : (b d : ℕ) → checked_sub (b + d) b ≡ some d
unfolding checked_sub
checked_sub-add b d =
    let reached : ltb (b + d) b ≡ false = ground arith in
    rw reached (ap (λ n. some n) (omega arith))

agrees_lem :
    (base : ℕ) (buf : List ℕ) (h : HeaderPat) (patt_start rel : ℕ) (window : List ℕ)
    → is_refuted base buf h patt_start ≡ false
    → base + rel ≡ patt_start
    → slice rel (length h.bytes) buf ≡ some window
    → confirm h window ≡ true
unfolding is_refuted
agrees_lem base buf h patt_start rel window kept place held =
    let sub : checked_sub patt_start base ≡ some rel =
      ap (λ n. checked_sub n base) (sym place) ∙ checked_sub-add base rel in
    let in_reach =
      subst
        (λ (o : Option ℕ).
          (elim o [
            | none ↦ false
            | some rel' ↦ elim (slice rel' (length h.bytes) buf) [
              | none ↦ false
              | some w ↦ not (confirm h w)
            ]
          ])
          ≡ false)
        sub kept in
    let kept' : not (confirm h window) ≡ false =
      subst
        (λ (o : Option (List ℕ)). (elim o [ none ↦ false | some w ↦ not (confirm h w) ]) ≡ false)
        held in_reach in
    ground arith

matches_masked-Agrees :
    (bs ms ws : List ℕ) (i : ℕ)
    → matches_masked bs ms ws ≡ true
    → i < length bs
    → i < length ms
    → i < length ws
    → Agrees (get_or bs i 0) (get_or ms i 0) (get_or ws i 0)
unfolding matches_masked
matches_masked-Agrees [] ms ws i h hb hm hw = absurd (omega arith)
matches_masked-Agrees (b ∷ bs) [] ws i h hb hm hw = absurd (omega arith)
matches_masked-Agrees (b ∷ bs) (m ∷ ms) [] i h hb hm hw = absurd (omega arith)
matches_masked-Agrees (b ∷ bs) (m ∷ ms) (w ∷ ws) zero h hb hm hw = ground (arith, h)
matches_masked-Agrees (b ∷ bs) (m ∷ ms) (w ∷ ws) (suc i) h hb hm hw =
    matches_masked-Agrees bs ms ws i (ground (arith, h)) (omega arith) (omega arith) (omega arith)

confirm-Agrees :
    (h : HeaderPat) (window : List ℕ) (i : ℕ)
    → confirm h window ≡ true
    → i < length h.bytes
    → i < length h.mask
    → Agrees (get_or h.bytes i 0) (get_or h.mask i 0) (get_or window i 0)
unfolding confirm
confirm-Agrees h window i ok hb hm =
    let long : ltb (length window) (length h.bytes) ≡ false = ground (arith, ok) in
    matches_masked-Agrees h.bytes h.mask window i (rw long at ok) hb hm (ground arith)

-- A byte of a window of the buffer.
window_bits :
    (base : ℕ) (buf : List ℕ) (h : HeaderPat) (patt_start rel i : ℕ)
    → is_refuted base buf h patt_start ≡ false
    → base + rel ≡ patt_start
    → rel + length h.bytes ≤ length buf
    → i < length h.bytes
    → i < length h.mask
    → Agrees (get_or h.bytes i 0) (get_or h.mask i 0) (get_or buf (rel + i) 0)
window_bits base buf h patt_start rel i kept place held hb hm =
    let n = length h.bytes in
    let window = take n (drop rel buf) in
    let fits : leb (rel + n) (length buf) ≡ true = ground arith in
    let same : get_or window i 0 ≡ get_or buf (rel + i) 0 =
      ground (arith, get_or-take n (drop rel buf) i 0, get_or-drop rel buf i 0) in
    let ok = agrees_lem base buf h patt_start rel window kept place (rw fits refl) in
    rw same at (confirm-Agrees h window i ok hb hm)

module _ (sigs : List SigDef) (base : ℕ) (buf : List ℕ) where
  abbrev Good : List Candidate → Type 0
  Good cs = All (IsConfirmed sigs base buf) cs

  candidate_at-IsConfirmed :
      (sig : SigDef) (h : HeaderPat) (r : HeaderRef) (anchor_abs : ℕ)
      → get_elem? sigs r.sig_idx ≡ some sig
      → get_elem? sig.headers r.header_idx ≡ some h
      → Good (candidate_at base buf h r anchor_abs)
  unfolding candidate_at
  candidate_at-IsConfirmed sig h r anchor_abs ks kh =
      option_cases Good (checked_sub anchor_abs h.anchor_pos) [] _ (λ e. tt)
        (λ patt_start e.
          option_cases Good (checked_sub patt_start h.offset) [] _ (λ e'. tt)
            (λ file_start e'.
              if_cases Good (is_refuted base buf h patt_start) [] _ (λ no. tt)
                (λ kept. (
                  record {
                    sig = sig;
                    header = h;
                    known_sig = ks;
                    known_header = kh;
                    agrees = λ rel i place held hb hm.
                        window_bits base buf h patt_start rel i kept
                          (omega (arith, place, checked_sub-some patt_start h.offset file_start e'))
                          held hb hm;
                  },
                  tt,
                ))))

  candidate_of-IsConfirmed :
      (r : HeaderRef) (anchor_abs : ℕ) → Good (candidate_of sigs base buf r anchor_abs)
  unfolding candidate_of
  candidate_of-IsConfirmed r anchor_abs =
      option_cases Good (get_elem? sigs r.sig_idx) [] _ (λ e. tt)
        (λ sig ks.
          option_cases Good (get_elem? sig.headers r.header_idx) [] _ (λ e. tt)
            (λ h kh. candidate_at-IsConfirmed sig h r anchor_abs ks kh))

  each_ref-IsConfirmed :
      (anchor_abs : ℕ) (rs : List HeaderRef) → Good (each_ref sigs base buf anchor_abs rs)
  unfolding each_ref
  each_ref-IsConfirmed anchor_abs [] = tt
  each_ref-IsConfirmed anchor_abs (r ∷ rs) =
      All-append (IsConfirmed sigs base buf) (candidate_of sigs base buf r anchor_abs)
        (each_ref sigs base buf anchor_abs rs) (candidate_of-IsConfirmed r anchor_abs)
        (each_ref-IsConfirmed anchor_abs rs)

each_match-IsConfirmed :
    (m : Matcher) (base : ℕ) (buf : List ℕ) (found : List (ℕ × ℕ))
    → All (IsConfirmed m.sigs base buf) (each_match m base buf found)
unfolding each_match
each_match-IsConfirmed m base buf [] = tt
each_match-IsConfirmed m base buf ((pid, start) ∷ found) =
    let rest = each_match-IsConfirmed m base buf found in
    option_cases (All (IsConfirmed m.sigs base buf)) (get_elem? m.refs pid) _ _ (λ e. rest)
      (λ bucket e.
        All-append (IsConfirmed m.sigs base buf)
          (each_ref m.sigs base buf (sat_add base start) bucket) (each_match m base buf found)
          (each_ref-IsConfirmed m.sigs base buf (sat_add base start) bucket) rest)

-- Whatever matches the automaton reports, each candidate names a header of the signatures, and
-- where the buffer holds as many bytes as its pattern has, at the place in the file that the header
-- asks for, each of these bytes has the bits of the byte of the pattern that the byte of the mask
-- keeps; bytes of the pattern past the end of the mask are free.
pub scan_buffer-IsConfirmed :
    (find : List (List ℕ) → List ℕ → List (ℕ × ℕ)) (m : Matcher) (base : ℕ) (buf : List ℕ)
    → All (IsConfirmed m.sigs base buf) (scan_buffer find m base buf)
unfolding scan_buffer
scan_buffer-IsConfirmed find m base buf = each_match-IsConfirmed m base buf (find m.patterns buf)
