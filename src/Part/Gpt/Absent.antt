-- ===== src/Part/Gpt/Absent.antt =====
-- A source without a GPT: `parse` of gpt.rs finds neither header.
use reclaim.Prelude.{ℕ, ◌-◌, ◌≡◌, refl, false, none, List}
use reclaim.Block.Source.{BlockSource}
use reclaim.Part.Reader.{read_bytes}
use reclaim.Part.Gpt.{has_tag, gpt_sig, parse_header, choose_header, parse}

-- No header of a GPT stands at the given place.
abbrev pub LacksHeader : BlockSource → ℕ → Type 0
LacksHeader src off = has_tag (read_bytes src off 512) 0 gpt_sig ≡ false

parse_header-none : (b : List ℕ) → has_tag b 0 gpt_sig ≡ false → parse_header b ≡ none
unfolding parse_header
parse_header-none b h = rw h refl

pub parse-none :
    (src : BlockSource) (ss total : ℕ)
    → LacksHeader src ss
    → LacksHeader src (total - ss)
    → parse src ss total ≡ none
unfolding parse choose_header
parse-none src ss total p b =
    rw
      (
        parse_header-none (read_bytes src ss 512) p,
        parse_header-none (read_bytes src (total - ss) 512) b,
        parse,
        choose_header,
      )
      refl
