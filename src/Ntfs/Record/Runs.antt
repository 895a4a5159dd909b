-- ===== src/Ntfs/Record/Runs.antt =====
-- The run list of an attribute: decoding inverts the on-disk format.
use native.Mathlib.Nat.{mod-eq_of_lt}
use mathlib.Core.List.{append_assoc, append-nil}
use reclaim.Prelude.{
  ℕ, zero, suc, ◌+◌, ◌*◌, ◌/◌, ◌%◌, ◌^◌, ◌≤◌, ◌<◌, ◌≡◌, refl, sym, ◌∙◌, true, false, ◌||◌, List, [],
  ◌∷◌, ◌++◌, arith, ltb, leb, ◌==◌, length, length-append, get_or,
}
use reclaim.Ntfs.Record.{
  Run, Decoded, decode_run, decode_loop, decode_runs, read_le_unsigned, too_many,
}
use reclaim.Ntfs.Record.Numbers.{Stored, FitsSigned, read_le_unsigned_lem, read_le_signed_lem}

-- The header of a run at `pos`, with the width of its length and of its offset, and the length.
pub record Head (b : List ℕ) (pos len_size off_size : ℕ) (run_length : ℕ) : Type 0 where
  pub header : get_or b pos 0 ≡ len_size + 16 * off_size
  pub has_length : 0 < len_size
  pub len_fits : len_size ≤ 8
  pub off_fits : off_size ≤ 8
  pub inside : pos + 1 + len_size + off_size ≤ length b
  pub stored : Stored b (pos + 1) len_size run_length
  pub bounded : run_length < 2 ^ (8 * len_size)

-- The format: the bytes from `pos` on, after a run at cluster `lcn`, list the runs. A run's offset
-- is relative to the last one that is not sparse; a zero byte or the end closes the list.
pub data Lists (b : List ℕ) : ℕ → ℕ → List Run → Type 0 where
  closed : (pos lcn : ℕ) → length b ≤ pos → Lists b pos lcn []
  terminated : (pos lcn : ℕ) → get_or b pos 0 ≡ 0 → Lists b pos lcn []
  hole :
      (pos lcn len_size run_length : ℕ) (rest : List Run)
      → Head b pos len_size 0 run_length
      → Lists b (pos + 1 + len_size) lcn rest
      → Lists b pos lcn (record { lcn = 0; length = run_length; sparse = true } ∷ rest)
  extent :
      (pos lcn len_size off_size run_length delta lcn' : ℕ) (rest : List Run)
      → Head b pos len_size off_size run_length
      → 0 < off_size
      → Stored b (pos + 1 + len_size) off_size delta
      → FitsSigned off_size delta
      → lcn' ≡ (lcn + delta) % 2 ^ 64
      → lcn' < 2 ^ 63
      → Lists b (pos + 1 + len_size + off_size) lcn' rest
      → Lists b pos lcn (record { lcn = lcn'; length = run_length; sparse = false } ∷ rest)

module _ (b : List ℕ) (pos len_size off_size run_length : ℕ)
    (h : Head b pos len_size off_size run_length) where
  low_nibble : get_or b pos 0 % 16 ≡ len_size
  low_nibble = omega (arith, h.header, h.len_fits)

  high_nibble : get_or b pos 0 / 16 % 16 ≡ off_size
  high_nibble = omega (arith, h.header, h.len_fits, h.off_fits)

  not_end : (get_or b pos 0 == 0) ≡ false
  not_end = ground (arith, h.header, h.has_length)

  fits : (len_size == 0 || ltb (length b) (pos + 1 + len_size + off_size)) ≡ false
  fits = ground (arith, h.inside, h.has_length)

  length_read : read_le_unsigned b (pos + 1) len_size ≡ run_length
  length_read =
      read_le_unsigned_lem b (pos + 1) len_size run_length h.stored h.len_fits
      ∙ mod-eq_of_lt h.bounded

decode_run-zero :
    (b : List ℕ) (pos lcn : ℕ) → get_or b pos 0 ≡ 0 → decode_run b pos lcn ≡ Decoded.ends
unfolding decode_run
decode_run-zero b pos lcn e = rw e refl

decode_run-hole :
    (b : List ℕ) (pos lcn len_size run_length : ℕ)
    → Head b pos len_size 0 run_length
    → decode_run b pos lcn
      ≡ Decoded.yields
          (record { lcn = 0; length = run_length; sparse = true })
          (pos + 1 + len_size)
          lcn
unfolding decode_run
decode_run-hole b pos lcn len_size run_length h =
    rw
      (
        low_nibble b pos len_size 0 run_length h,
        high_nibble b pos len_size 0 run_length h,
        not_end b pos len_size 0 run_length h,
        fits b pos len_size 0 run_length h,
        length_read b pos len_size 0 run_length h,
      )
      refl

decode_run-extent :
    (b : List ℕ) (pos lcn len_size off_size run_length delta : ℕ)
    → Head b pos len_size off_size run_length
    → 0 < off_size
    → Stored b (pos + 1 + len_size) off_size delta
    → FitsSigned off_size delta
    → (lcn + delta) % 2 ^ 64 < 2 ^ 63
    → decode_run b pos lcn
      ≡ Decoded.yields
          (record { lcn = (lcn + delta) % 2 ^ 64; length = run_length; sparse = false })
          (pos + 1 + len_size + off_size)
          ((lcn + delta) % 2 ^ 64)
unfolding decode_run
decode_run-extent b pos lcn len_size off_size run_length delta h some_bytes stored signed small =
    let moves : (off_size == 0) ≡ false = ground arith in
    let positive : leb (2 ^ 63) ((lcn + delta) % 2 ^ 64) ≡ false = ground arith in
    rw
      (
        low_nibble b pos len_size off_size run_length h,
        high_nibble b pos len_size off_size run_length h,
        not_end b pos len_size off_size run_length h,
        fits b pos len_size off_size run_length h,
        length_read b pos len_size off_size run_length h,
        read_le_signed_lem b (pos + 1 + len_size) off_size delta some_bytes h.off_fits stored
            signed,
        moves,
        positive,
      )
      (ground (arith, some_bytes))

module _ (b : List ℕ) (left pos lcn : ℕ) (out : List Run) where
  loop_past : length b ≤ pos → decode_loop b (suc left) pos lcn out ≡ out
  unfolding decode_loop
  loop_past h = ground arith

  loop_ends : decode_run b pos lcn ≡ Decoded.ends → decode_loop b (suc left) pos lcn out ≡ out
  unfolding decode_loop
  loop_ends e = rw (e, decode_loop) (ground arith)

  loop_yields :
      (r : Run) (pos' lcn' : ℕ)
      → pos < length b
      → decode_run b pos lcn ≡ Decoded.yields r pos' lcn'
      → length out < 65_536
      → decode_loop b (suc left) pos lcn out ≡ decode_loop b left pos' lcn' (out ++ (r ∷ []))
  unfolding decode_loop too_many
  loop_yields r pos' lcn' lt e few = rw (e, decode_loop, too_few) (ground arith)
    where
      too_few : too_many r (out ++ (r ∷ [])) ≡ false
      too_few = ground (arith, length-append out (r ∷ []))

-- Decoding yields the runs that the bytes list, if there are no more than it will hold.
decode_loop-Lists :
    (b : List ℕ) (left pos lcn : ℕ) (out rs : List Run)
    → Lists b pos lcn rs
    → length out + length rs ≤ 65_536
    → length rs < left
    → decode_loop b left pos lcn out ≡ out ++ rs
decode_loop-Lists b zero pos lcn out rs l few enough = absurd (omega arith)
decode_loop-Lists b (suc left) _ _ out _ (closed pos lcn past) few enough =
    loop_past b left pos lcn out past ∙ sym (append-nil out)
decode_loop-Lists b (suc left) _ _ out _ (terminated pos lcn zero_byte) few enough =
    loop_ends b left pos lcn out (decode_run-zero b pos lcn zero_byte) ∙ sym (append-nil out)
decode_loop-Lists b (suc left) _ _ out _ (hole pos lcn len_size run_length rest h l) few enough =
    let r : Run = record { lcn = 0; length = run_length; sparse = true } in
    loop_yields b left pos lcn out r _ _ (omega (arith, h.inside))
      (decode_run-hole b pos lcn len_size run_length h) (omega arith)
    ∙ decode_loop-Lists b left _ _ (out ++ (r ∷ [])) rest l
        (omega (arith, length-append out (r ∷ []))) (omega arith)
    ∙ append_assoc out (r ∷ []) rest
decode_loop-Lists b (suc left) _ _ out _
      (extent pos lcn len_size off_size run_length delta lcn' rest h some_bytes stored signed moved
        small l)
      few enough =
    let r : Run = record { lcn = lcn'; length = run_length; sparse = false } in
    let decoded : decode_run b pos lcn ≡ Decoded.yields r (pos + 1 + len_size + off_size) lcn' =
      rw moved (
        decode_run-extent b pos lcn len_size off_size run_length delta h some_bytes stored signed
          (rw moved at small)) in
    loop_yields b left pos lcn out r _ _ (omega (arith, h.inside)) decoded (omega arith)
    ∙ decode_loop-Lists b left _ _ (out ++ (r ∷ [])) rest l
        (omega (arith, length-append out (r ∷ []))) (omega arith)
    ∙ append_assoc out (r ∷ []) rest

-- If the bytes of an attribute list some runs in the on-disk format (relative signed offsets,
-- holes, a closing zero byte or the end), and these are at most 65,536, then decoding yields
-- exactly those runs.
pub decode_runs-Lists :
    (b : List ℕ) (rs : List Run) → Lists b 0 0 rs → length rs ≤ 65_536 → decode_runs b ≡ rs
unfolding decode_runs
decode_runs-Lists b rs l few = decode_loop-Lists b 100_000 0 0 [] rs l (omega arith) (omega arith)
