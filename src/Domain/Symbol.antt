-- ===== src/Domain/Symbol.antt =====
-- src/domain.rs: `normalize_symbol`. Which letters and digits there are beyond ASCII is Unicode's
-- table, the parameter `wide`.
use mathlib.Core.List.{reverse}
use market_stream_gateway.Prelude.{
  ℕ, Bool, true, not, ◌&&◌, ◌||◌, [], ◌∷◌, ltb, eqb, if◌then◌else◌, is_empty, map, Result, ok, err,
}
use market_stream_gateway.Text.{Text, len, is_whitespace, is_ascii_alphanumeric, to_ascii_uppercase}

pub data DomainError : Type 0 where
  invalid_symbol : Text → DomainError
  no_channels : DomainError
  invalid_decimal : Text → DomainError
  invalid_market_data : Text → DomainError

abbrev pub drop_while : (ℕ → Bool) → Text → Text
drop_while p [] = []
drop_while p (c ∷ s) = if p c then drop_while p s else c ∷ s

-- `str::trim`.
unfoldable pub trim : Text → Text
trim s = reverse (drop_while is_whitespace (reverse (drop_while is_whitespace s)))

abbrev pub all_chars : (ℕ → Bool) → Text → Bool
all_chars p [] = true
all_chars p (c ∷ s) = p c && all_chars p s

module _ (wide : ℕ → Bool) where
  -- `char::is_alphanumeric`.
  abbrev pub is_alphanumeric : ℕ → Bool
  is_alphanumeric c = if ltb c 0x80 then is_ascii_alphanumeric c else wide c

  abbrev pub is_symbol_char : ℕ → Bool
  is_symbol_char c = is_alphanumeric c || (eqb c b'-' || eqb c b'_' || eqb c b'.')

  unfoldable pub normalize_symbol : Text → Result Text DomainError
  normalize_symbol symbol =
      let s = trim symbol in
      if is_empty s || ltb 64 (len s)
      then err (invalid_symbol s)
      else if not (all_chars is_symbol_char s)
      then err (invalid_symbol s)
      else ok (map to_ascii_uppercase s)
