-- ===== src/FsCore/Text.antt =====
-- The texts of the standard library that the file systems use, as lists of code points.
use reclaim.Prelude.{
  ℕ, zero, suc, ◌+◌, ◌-◌, ◌*◌, ◌/◌, ◌%◌, Bool, not, ◌&&◌, ◌||◌, List, [], ◌∷◌, ◌++◌, map, ltb, leb,
  ◌==◌, if◌then◌else◌,
}

is_high : ℕ → Bool
is_high u = leb 0xD800 u && ltb u 0xDC00

is_low : ℕ → Bool
is_low u = leb 0xDC00 u && ltb u 0xE000

-- A code unit that stands alone.
lone_unit : ℕ → ℕ
unfolding is_high is_low
lone_unit u = if is_high u || is_low u then 0xFFFD else u

-- `String::from_utf16_lossy`
unfoldable pub from_utf16_lossy : List ℕ → List ℕ
unfolding is_high is_low lone_unit
from_utf16_lossy [] = []
from_utf16_lossy (u ∷ []) = lone_unit u ∷ []
from_utf16_lossy (u ∷ v ∷ rest) =
    let paired = (0x10000 + (u - 0xD800) * 0x400 + (v - 0xDC00)) ∷ from_utf16_lossy rest in
    let alone = lone_unit u ∷ from_utf16_lossy (v ∷ rest) in
    if is_high u && is_low v then paired else alone

-- The bytes of a text (`as_bytes`), in UTF-8.
unfoldable pub as_bytes : List ℕ → List ℕ
as_bytes [] = []
as_bytes (c ∷ cs) =
    (if ltb c 0x80
      then c ∷ []
      else if ltb c 0x800
      then (0xC0 + c / 0x40) ∷ (0x80 + c % 0x40) ∷ []
      else if ltb c 0x10000
      then (0xE0 + c / 0x1000) ∷ (0x80 + c / 0x40 % 0x40) ∷ (0x80 + c % 0x40) ∷ []
      else (0xF0 + c / 0x40000)
        ∷ (0x80 + c / 0x1000 % 0x40)
        ∷ (0x80 + c / 0x40 % 0x40)
        ∷ (0x80 + c % 0x40)
        ∷ [])
    ++ as_bytes cs

-- `char::is_whitespace`
unfoldable pub is_whitespace : ℕ → Bool
is_whitespace c =
    (leb 9 c && leb c 13)
    || c == 32
    || c == 0x85
    || c == 0xA0
    || c == 0x1680
    || (leb 0x2000 c && leb c 0x200A)
    || c == 0x2028
    || c == 0x2029
    || c == 0x202F
    || c == 0x205F
    || c == 0x3000

-- `trim_end`
unfoldable pub trim_end : List ℕ → List ℕ
unfolding is_whitespace
trim_end [] = []
trim_end (c ∷ cs) = elim (trim_end cs) [
  | [] ↦ if is_whitespace c then [] else c ∷ []
  | d ∷ ds ↦ c ∷ d ∷ ds
]

-- `to_ascii_lowercase`
unfoldable pub lower_ascii : List ℕ → List ℕ
lower_ascii = map (λ c. if leb b'A' c && leb c b'Z' then c + 32 else c)

-- What a byte of UTF-8 begins: a character, one with more bytes to come (how many, its bits so far,
-- and the range of the next byte), or nothing.
pub data Lead : Type 0 where
  char : ℕ → Lead
  more : ℕ → ℕ → ℕ → ℕ → Lead
  bad : Lead

lead_of : ℕ → Lead
lead_of b =
    if ltb b 0x80
    then Lead.char b
    else if leb 0xC2 b && leb b 0xDF
    then Lead.more 1 (b - 0xC0) 0x80 0xBF
    else if b == 0xE0
    then Lead.more 2 0 0xA0 0xBF
    else if b == 0xED
    then Lead.more 2 0xD 0x80 0x9F
    else if leb 0xE1 b && leb b 0xEF
    then Lead.more 2 (b - 0xE0) 0x80 0xBF
    else if b == 0xF0
    then Lead.more 3 0 0x90 0xBF
    else if b == 0xF4
    then Lead.more 3 4 0x80 0x8F
    else if leb 0xF1 b && leb b 0xF3
    then Lead.more 3 (b - 0xF0) 0x80 0xBF
    else Lead.bad

-- The text of the bytes, after an unfinished character.
utf8_from : Lead → List ℕ → List ℕ
unfolding lead_of
utf8_from p [] = elim p [ Lead.more n acc lo hi ↦ 0xFFFD ∷ [] | _ ↦ [] ]
utf8_from p (b ∷ bs) =
    let fresh : List ℕ = elim (lead_of b) [
      | Lead.char c ↦ c ∷ utf8_from Lead.bad bs
      | Lead.more n acc lo hi ↦ utf8_from (Lead.more n acc lo hi) bs
      | Lead.bad ↦ 0xFFFD ∷ utf8_from Lead.bad bs
    ] in
    elim p [
      | Lead.more n acc lo hi ↦
          if not (leb lo b && leb b hi)
          then 0xFFFD ∷ fresh
          else if n == 1
          then (acc * 0x40 + (b - 0x80)) ∷ utf8_from Lead.bad bs
          else utf8_from (Lead.more (n - 1) (acc * 0x40 + (b - 0x80)) 0x80 0xBF) bs
      | _ ↦ fresh
    ]

-- `String::from_utf8_lossy`
unfoldable pub from_utf8_lossy : List ℕ → List ℕ
unfolding utf8_from
from_utf8_lossy bs = utf8_from Lead.bad bs

-- The digits of a number below 10 ^ n, without leading zeros.
digits_from : ℕ → ℕ → List ℕ → List ℕ
digits_from zero n out = out
digits_from (suc left) n out =
    let rest = digits_from left (n / 10) ((b'0' + n % 10) ∷ out) in
    if ltb n 10 then (b'0' + n % 10) ∷ out else rest

-- `format!("{n}")` of a 64-bit number.
unfoldable pub decimal : ℕ → List ℕ
unfolding digits_from
decimal n = digits_from 20 n []
