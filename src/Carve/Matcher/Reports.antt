-- ===== src/Carve/Matcher/Reports.antt =====
-- The matches of the automaton from which `scan_buffer` of matcher.rs makes a candidate.
use mathlib.Core.List.{append_assoc}
use reclaim.Prelude.{
  ℕ, suc, ◌+◌, ◌≤◌, ◌<◌, ◌≡◌, refl, sym, ap, ◌∙◌, inl, inr, Bool, true, false, not, none, some,
  List, [], ◌∷◌, ◌++◌, arith, ltb, leb, Bool-cases, length, get_elem?, get_or, take, drop,
  length-take, length-drop, sat_add, slice, get_or-take, get_or-drop,
}
use reclaim.Carve.Matcher.{
  HeaderPat, SigDef, HeaderRef, Candidate, Matcher, matches_masked, confirm, checked_sub,
  is_refuted, candidate_at, candidate_of, each_ref, each_match, scan_buffer,
}
use reclaim.Carve.Matcher.Confirmed.{Agrees, option_cases, checked_sub-some, checked_sub-add}

-- The list has the element `x`.
abbrev pub Has : {A : Type 0} → A → List A → Type 0
Has {A = A} x xs = (front : List A) × (back : List A) × (xs ≡ front ++ (x ∷ back))

Has-left : {A : Type 0} (x : A) (xs ys : List A) → Has x xs → Has x (xs ++ ys)
Has-left x xs ys (front, back, e) =
    (front, back ++ ys, ap (λ t. t ++ ys) e ∙ append_assoc front (x ∷ back) ys)

Has-right : {A : Type 0} (x : A) (xs ys : List A) → Has x ys → Has x (xs ++ ys)
Has-right x xs ys (front, back, e) =
    (xs ++ front, back, ap (λ t. xs ++ t) e ∙ sym (append_assoc xs front (x ∷ back)))

-- Where the buffer, from `base` on, holds as many bytes as the pattern has, they are the pattern's on
-- the bits of its mask.
abbrev pub Fits : ℕ → List ℕ → HeaderPat → ℕ → Type 0
Fits base buf h patt_start =
    (rel i : ℕ)
    → base + rel ≡ patt_start
    → rel + length h.bytes ≤ length buf
    → i < length h.bytes
    → i < length h.mask
    → Agrees (get_or h.bytes i 0) (get_or h.mask i 0) (get_or buf (rel + i) 0)

Agrees-matches_masked :
    (bs ms ws : List ℕ)
    → ((i : ℕ)
        → i < length bs
        → i < length ms
        → i < length ws
        → Agrees (get_or bs i 0) (get_or ms i 0) (get_or ws i 0))
    → matches_masked bs ms ws ≡ true
unfolding matches_masked
Agrees-matches_masked [] ms ws a = refl
Agrees-matches_masked (b ∷ bs) [] ws a = refl
Agrees-matches_masked (b ∷ bs) (m ∷ ms) [] a = refl
Agrees-matches_masked (b ∷ bs) (m ∷ ms) (w ∷ ws) a =
    let first = a 0 (omega arith) (omega arith) (omega arith) in
    let rest =
      Agrees-matches_masked bs ms ws
        (λ i hb hm hw. a (suc i) (omega arith) (omega arith) (omega arith)) in
    ground (arith, first, rest)

Agrees-confirm :
    (h : HeaderPat) (window : List ℕ)
    → length h.bytes ≤ length window
    → ((i : ℕ)
        → i < length h.bytes
        → i < length h.mask
        → Agrees (get_or h.bytes i 0) (get_or h.mask i 0) (get_or window i 0))
    → confirm h window ≡ true
unfolding confirm
Agrees-confirm h window long a =
    let enough : ltb (length window) (length h.bytes) ≡ false = ground arith in
    rw enough (Agrees-matches_masked h.bytes h.mask window (λ i hb hm hw. a i hb hm))

not_refuted_at :
    (base : ℕ) (buf : List ℕ) (h : HeaderPat) (patt_start rel : ℕ)
    → base + rel ≡ patt_start
    → Fits base buf h patt_start
    → (elim (slice rel (length h.bytes) buf) [ none ↦ false | some w ↦ not (confirm h w) ]) ≡ false
not_refuted_at base buf h patt_start rel place fits =
    let n = length h.bytes in
    elim (Bool-cases (leb (rel + n) (length buf))) [
      | inl inside ↦
          let held : rel + n ≤ length buf = ground arith in
          let ok =
            Agrees-confirm h (take n (drop rel buf))
              (omega (arith, held, length-take n (drop rel buf), length-drop rel buf))
              (λ i hb hm.
                let same : get_or (take n (drop rel buf)) i 0 ≡ get_or buf (rel + i) 0 =
                  ground (arith, get_or-take n (drop rel buf) i 0, get_or-drop rel buf i 0) in
                rw same (fits rel i place held hb hm)) in
          rw (inside, ok) refl
      | inr out ↦ rw out refl
    ]

Fits-is_refuted :
    (base : ℕ) (buf : List ℕ) (h : HeaderPat) (patt_start : ℕ)
    → Fits base buf h patt_start
    → is_refuted base buf h patt_start ≡ false
unfolding is_refuted
Fits-is_refuted base buf h patt_start fits =
    option_cases (λ (b : Bool). b ≡ false) (checked_sub patt_start base) false _ (λ e. refl)
      (λ rel e.
        not_refuted_at base buf h patt_start rel (sym (checked_sub-some patt_start base rel e))
          fits)

-- The candidate of a file that begins at `file_start`.
abbrev pub candidate : HeaderRef → ℕ → Candidate
candidate r file_start = record {
  sig_idx = r.sig_idx;
  header_idx = r.header_idx;
  file_start = file_start;
}

module _ (base : ℕ) (buf : List ℕ) (h : HeaderPat) (file_start anchor_abs : ℕ)
    (place : anchor_abs ≡ file_start + h.offset + h.anchor_pos)
    (fits : Fits base buf h (file_start + h.offset)) where
  candidate_at-reports :
      (r : HeaderRef) → candidate_at base buf h r anchor_abs ≡ candidate r file_start ∷ []
  unfolding candidate_at
  candidate_at-reports r =
      let kept = Fits-is_refuted base buf h (file_start + h.offset) fits in
      let patt : checked_sub anchor_abs h.anchor_pos ≡ some (file_start + h.offset) =
        ap (λ n. checked_sub n h.anchor_pos) (omega (arith, place))
        ∙ checked_sub-add h.anchor_pos (file_start + h.offset) in
      let file : checked_sub (file_start + h.offset) h.offset ≡ some file_start =
        ap (λ n. checked_sub n h.offset) (omega arith) ∙ checked_sub-add h.offset file_start in
      rw (patt, file, kept, candidate_at) refl

  each_ref-reports :
      (sigs : List SigDef) (sig : SigDef) (r : HeaderRef) (front back : List HeaderRef)
      → get_elem? sigs r.sig_idx ≡ some sig
      → get_elem? sig.headers r.header_idx ≡ some h
      → Has (candidate r file_start) (each_ref sigs base buf anchor_abs (front ++ (r ∷ back)))
  unfolding each_ref candidate_of
  each_ref-reports sigs sig r [] back ks kh =
      Has-left (candidate r file_start) (candidate_of sigs base buf r anchor_abs)
        (each_ref sigs base buf anchor_abs back)
        ([], [], rw (ks, kh, candidate_of) (candidate_at-reports r))
  each_ref-reports sigs sig r (q ∷ front) back ks kh =
      Has-right (candidate r file_start) _ _ (each_ref-reports sigs sig r front back ks kh)

each_match-reports :
    (m : Matcher) (base : ℕ) (buf : List ℕ) (pid start : ℕ) (front back : List (ℕ × ℕ))
    (bucket : List HeaderRef) (c : Candidate)
    → get_elem? m.refs pid ≡ some bucket
    → Has c (each_ref m.sigs base buf (sat_add base start) bucket)
    → Has c (each_match m base buf (front ++ ((pid, start) ∷ back)))
unfolding each_match
each_match-reports m base buf pid start [] back bucket c known has =
    rw (known, each_match)
      (Has-left c (each_ref m.sigs base buf (sat_add base start) bucket)
        (each_match m base buf back) has)
each_match-reports m base buf pid start ((p, s) ∷ front) back bucket c known has =
    let rest = each_match-reports m base buf pid start front back bucket c known has in
    option_cases (Has c) (get_elem? m.refs p)
      (each_match m base buf (front ++ ((pid, start) ∷ back)))
      (λ b.
        each_ref m.sigs base buf (sat_add base s) b
        ++ each_match m base buf (front ++ ((pid, start) ∷ back)))
      (λ e. rest)
      (λ b e.
        Has-right c (each_ref m.sigs base buf (sat_add base s) b)
          (each_match m base buf (front ++ ((pid, start) ∷ back))) rest)

-- A match of the automaton whose pattern stands for a header of the signatures, among others, makes
-- a candidate at the place where the file begins, if that place and the place of the pattern are
-- not before the start of the medium, and the buffer, where it holds as many bytes as the pattern
-- has, has the bits of the pattern that the mask keeps, as far as the mask goes; so a pattern that
-- the buffer cuts off is not missed.
pub scan_buffer-reports :
    (find : List (List ℕ) → List ℕ → List (ℕ × ℕ)) (m : Matcher) (base : ℕ) (buf : List ℕ)
    (pid start file_start : ℕ) (bucket : List HeaderRef) (r : HeaderRef) (sig : SigDef)
    (h : HeaderPat)
    → Has (pid, start) (find m.patterns buf)
    → get_elem? m.refs pid ≡ some bucket
    → Has r bucket
    → get_elem? m.sigs r.sig_idx ≡ some sig
    → get_elem? sig.headers r.header_idx ≡ some h
    → sat_add base start ≡ file_start + h.offset + h.anchor_pos
    → Fits base buf h (file_start + h.offset)
    → Has (candidate r file_start) (scan_buffer find m base buf)
unfolding scan_buffer
scan_buffer-reports find m base buf pid start file_start bucket r sig h (front, back, e) known
      (before, after, e') ks kh place fits =
    rw e (
      each_match-reports m base buf pid start front back bucket (candidate r file_start) known (
        rw e' (
          each_ref-reports base buf h file_start (sat_add base start) place fits m.sigs sig r before
            after ks kh)))
