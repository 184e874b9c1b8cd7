-- ===== src/Text.antt =====
-- Rust strings, as lists of code points. UTF-8 keeps the order of code points, so the order of
-- texts in module Prelude.Ordered is the byte order of `str`.
use Prim.Native.Char.{code}
use mathlib.Core.List.{reverse}
use market_stream_gateway.Prelude.{
  ℕ, zero, suc, ◌+◌, ◌-◌, ◌/◌, ◌%◌, Bool, List, [], ◌∷◌, String, ltb, leb, eqb, if◌then◌else◌, ◌&&◌,
  ◌||◌,
}

abbrev pub Text : Type 0
Text = List ℕ

abbrev codes : String → Text
codes String.[] = []
codes (String.◌∷◌ first others) = code first ∷ codes others

-- A literal of the source.
unfoldable pub text : String → Text
text s = codes s

-- `char::len_utf8`.
abbrev pub len_utf8 : ℕ → ℕ
len_utf8 c = if ltb c 0x80 then 1 else if ltb c 0x800 then 2 else if ltb c 0x10000 then 3 else 4

-- `str::len`: bytes of UTF-8.
abbrev pub len : Text → ℕ
len [] = 0
len (c ∷ s) = len_utf8 c + len s

-- The White_Space property of Unicode, `char::is_whitespace`.
unfoldable pub is_whitespace : ℕ → Bool
is_whitespace c =
    (leb 9 c && leb c 13)
    || eqb c 0x20
    || eqb c 0x85
    || eqb c 0xa0
    || eqb c 0x1680
    || (leb 0x2000 c && leb c 0x200a)
    || eqb c 0x2028
    || eqb c 0x2029
    || eqb c 0x202f
    || eqb c 0x205f
    || eqb c 0x3000

unfoldable pub is_ascii_alphanumeric : ℕ → Bool
is_ascii_alphanumeric c =
    (leb b'0' c && leb c b'9') || (leb b'A' c && leb c b'Z') || (leb b'a' c && leb c b'z')

unfoldable pub to_ascii_uppercase : ℕ → ℕ
to_ascii_uppercase c = if leb b'a' c && leb c b'z' then c - 32 else c

-- The digits of `n` in base ten, least significant first, with fuel.
unfoldable pub digits : ℕ → ℕ → Text
digits zero n = []
digits (suc fuel) n =
    let rest = digits fuel (n / 10) in if ltb n 10 then (n + 48) ∷ [] else (n % 10 + 48) ∷ rest

-- `n.to_string()`. A 64-bit number has at most twenty digits.
unfoldable pub to_string : ℕ → Text
unfolding digits
to_string n = reverse (digits 20 n)
