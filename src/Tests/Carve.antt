-- ===== src/Tests/Carve.antt =====
-- The theorems on the signature matcher at a concrete input.
use Prim.Native.Nat.{bit_and}
use reclaim.Prelude.{ℕ, ◌+◌, ◌<◌, ◌≡◌, refl, List, [], ◌∷◌, arith, get_or, All}
use reclaim.Carve.Matcher.{
  HeaderPat, HeaderRef, SigDef, for_signatures, add_signatures, add_headers, add_header, index_of,
  push_ref, scan_buffer,
}
use reclaim.Carve.Matcher.Reports.{Has, Fits, candidate, scan_buffer-reports}
use reclaim.Carve.Matcher.Confirmed.{IsConfirmed, scan_buffer-IsConfirmed}

-- A signature of three bytes, the last of which may have any low half.
abbrev jpeg_header : HeaderPat
jpeg_header = record {
  bytes = 0xFF ∷ 0xD8 ∷ 0xF0 ∷ [];
  mask = 0xFF ∷ 0xFF ∷ 0xF0 ∷ [];
  offset = 0;
  anchor = 0xFF ∷ 0xD8 ∷ [];
  anchor_pos = 0;
}

abbrev jpeg : SigDef
jpeg = record { headers = jpeg_header ∷ [] }

abbrev buffer : List ℕ
buffer = 0 ∷ 0xFF ∷ 0xD8 ∷ 0xFF ∷ 0 ∷ 0xFF ∷ 0xD8 ∷ 0 ∷ []

-- The automaton's matches in the buffer.
abbrev found_here : List (List ℕ) → List ℕ → List (ℕ × ℕ)
found_here patterns buf = (0, 1) ∷ (0, 5) ∷ []

scan_buffer-IsConfirmed_example :
    All
      (IsConfirmed (for_signatures (jpeg ∷ [])).sigs 1000 buffer)
      (scan_buffer found_here (for_signatures (jpeg ∷ [])) 1000 buffer)
scan_buffer-IsConfirmed_example =
    scan_buffer-IsConfirmed found_here (for_signatures (jpeg ∷ [])) 1000 buffer

abbrev first_ref : HeaderRef
first_ref = record { sig_idx = 0; header_idx = 0 }

jpeg-refs : (for_signatures (jpeg ∷ [])).refs ≡ (first_ref ∷ []) ∷ []
unfolding for_signatures add_signatures add_headers add_header index_of push_ref
jpeg-refs = refl

jpeg-sigs : (for_signatures (jpeg ∷ [])).sigs ≡ jpeg ∷ []
unfolding for_signatures add_signatures add_headers add_header index_of push_ref
jpeg-sigs = refl

jpeg-Fits : Fits 1000 buffer jpeg_header (1001 + 0)
jpeg-Fits rel i place held hb hm = let one : rel ≡ 1 = omega (arith, place) in rw one (byte i hb)
  where
    byte :
        (i : ℕ)
        → i < 3
        → bit_and (get_or buffer (1 + i) 0) (get_or jpeg_header.mask i 0)
          ≡ bit_and (get_or jpeg_header.bytes i 0) (get_or jpeg_header.mask i 0)
    byte i h = ground arith

scan_buffer-reports_example :
    Has (candidate first_ref 1001) (scan_buffer found_here (for_signatures (jpeg ∷ [])) 1000 buffer)
scan_buffer-reports_example =
    scan_buffer-reports found_here (for_signatures (jpeg ∷ [])) 1000 buffer 0 1 1001
      (first_ref ∷ []) first_ref jpeg jpeg_header ([], (0, 5) ∷ [], refl) (rw jpeg-refs refl)
      ([], [], refl) (rw jpeg-sigs refl) refl refl jpeg-Fits
