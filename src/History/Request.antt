-- ===== src/History/Request.antt =====
-- src/history.rs: `HistoryRequest::new` and the venue symbols it accepts.
use mathlib.Core.List.{reverse}
use market_stream_gateway.Prelude.{
  ℕ, ◌%◌, Bool, true, false, not, ◌&&◌, ◌||◌, [], ◌∷◌, ◌++◌, Option, none, some, ltb, leb, eqb,
  if◌then◌else◌, is_empty, Result, ok, err, ◌>>=◌, ◌>>◌, refuse_if, ◌==◌, text_order,
}
use market_stream_gateway.Text.{Text, text, is_ascii_alphanumeric}
use market_stream_gateway.Domain.Identity.{
  Provider, bybit, binance, okx, kucoin, mexc, bingx, provider_name,
}
use market_stream_gateway.Domain.Symbol.{
  DomainError, invalid_symbol, no_channels, invalid_decimal, invalid_market_data, is_alphanumeric,
  all_chars, normalize_symbol,
}
use market_stream_gateway.Domain.Payload.{checked_sub}

abbrev pub candle_interval_ms : ℕ
candle_interval_ms = 60_000

abbrev pub max_history_candles : ℕ
max_history_candles = 10_000

abbrev pub max_history_range_ms : ℕ
max_history_range_ms = 600_000_000

pub record HistoryRequest : Type 0 where
  pub provider : Provider
  pub symbol : Text
  pub start_time_ms : ℕ
  pub end_time_ms : ℕ
  pub limit : ℕ

-- `upstream` stands for the failures of the HTTP client and of the venue, of which only the
-- provider is kept.
pub data HistoryError : Type 0 where
  invalid_request : Text → HistoryError
  invalid_payload : Provider → Text → HistoryError
  pagination_stalled : Provider → ℕ → HistoryError
  upstream : Provider → HistoryError

-- `to_string` of a `DomainError`.
unfoldable pub show_domain_error : DomainError → Text
show_domain_error (invalid_symbol s) = text "invalid venue symbol: " ++ s
show_domain_error no_channels = text "subscription must contain at least one channel"
show_domain_error (invalid_decimal s) = text "invalid decimal value: " ++ s
show_domain_error (invalid_market_data s) = text "invalid normalized market data: " ++ s

-- `str::strip_prefix`.
abbrev pub strip_prefix : Text → Text → Option Text
strip_prefix [] s = some s
strip_prefix (c ∷ p) [] = none
strip_prefix (c ∷ p) (d ∷ s) = if eqb c d then strip_prefix p s else none

abbrev pub or_none : Option Text → (Text → Bool) → Bool
or_none none f = false
or_none (some s) f = f s

-- `str::strip_suffix`.
abbrev pub strip_suffix : Text → Text → Option Text
strip_suffix p s = elim (strip_prefix (reverse p) (reverse s)) [
  | none ↦ none
  | some r ↦ some (reverse r)
]

-- `str::ends_with`.
abbrev pub ends_with : Text → Text → Bool
ends_with p s = or_none (strip_suffix p s) (λ r. true)

-- `str::split_once` at a character: what stands before and after the first.
abbrev pub split_once : ℕ → Text → Option (Text × Text)
split_once c [] = none
split_once c (d ∷ s) =
    if eqb c d
    then some ([], s)
    else elim (split_once c s) [ none ↦ none | some (a, b) ↦ some (d ∷ a, b) ]

abbrev pub has_char : ℕ → Text → Bool
has_char c [] = false
has_char c (d ∷ s) = eqb c d || has_char c s

unfoldable pub ascii_alphanumeric : Text → Bool
ascii_alphanumeric s = not (is_empty s) && all_chars is_ascii_alphanumeric s

abbrev pub is_quote : Text → Bool
is_quote q = q == text "USDT" || q == text "USDC"

-- A base and a quote with one separator between them.
abbrev pub is_pair : ℕ → Text → Bool
is_pair separator s = elim (split_once separator s) [
  | none ↦ false
  | some (base, quote) ↦ not (has_char separator base) && ascii_alphanumeric base && is_quote quote
]

unfoldable pub validate_okx_symbol : Text → Bool
validate_okx_symbol s = or_none (strip_suffix (text "-SWAP") s) (is_pair b'-')

unfoldable pub validate_mexc_symbol : Text → Bool
validate_mexc_symbol s = is_pair b'_' s

unfoldable pub validate_bingx_symbol : Text → Bool
validate_bingx_symbol s = is_pair b'-' s

module _ (wide : ℕ → Bool) where
  unfoldable pub unicode_alphanumeric : Text → Bool
  unicode_alphanumeric s = not (is_empty s) && all_chars (is_alphanumeric wide) s

  unfoldable pub is_provider_symbol : Provider → Text → Bool
  is_provider_symbol bybit s =
      ascii_alphanumeric s && (ends_with (text "USDT") s || ends_with (text "USDC") s)
  is_provider_symbol binance s =
      unicode_alphanumeric s && (ends_with (text "USDT") s || ends_with (text "USDC") s)
  is_provider_symbol okx s = validate_okx_symbol s
  is_provider_symbol kucoin s =
      ascii_alphanumeric s && (ends_with (text "USDTM") s || ends_with (text "USDCM") s)
  is_provider_symbol mexc s = validate_mexc_symbol s
  is_provider_symbol bingx s = validate_bingx_symbol s

  unfoldable pub validate_provider_symbol : Provider → Text → Result (Unit {0}) HistoryError
  validate_provider_symbol p s = refuse_if (not (is_provider_symbol p s)) (
      invalid_request
        (s ++ text " is not an exact " ++ provider_name p ++ text " linear perpetual symbol"))

  -- The normalised symbol, or the error of the domain as one of the request.
  abbrev pub normalized : Text → Result Text HistoryError
  normalized s = elim (normalize_symbol wide s) [
    | err e ↦ err (invalid_request (show_domain_error e))
    | ok n ↦ ok n
  ]

  abbrev pub checked_range : ℕ → ℕ → Result ℕ HistoryError
  checked_range start end = elim (checked_sub end start) [
    | none ↦ err (invalid_request (text "end_time_ms must be greater than start_time_ms"))
    | some n ↦ ok n
  ]

  -- `HistoryRequest::new`.
  unfoldable pub new_request : Provider → Text → ℕ → ℕ → ℕ → Result HistoryRequest HistoryError
  new_request p symbol start end limit = do
    name ← normalized symbol
    refuse_if (not (symbol == name)) (
        invalid_request
          (text "symbol must be the exact uppercase venue symbol without surrounding whitespace"))
    validate_provider_symbol p name
    refuse_if (eqb start 0 || (not (eqb (start % 60_000) 0) || not (eqb (end % 60_000) 0)))
        (invalid_request (text "history bounds must be positive UTC minute boundaries"))
    range ← checked_range start end
    refuse_if (eqb range 0)
        (invalid_request (text "end_time_ms must be greater than start_time_ms"))
    refuse_if (ltb max_history_range_ms range)
        (invalid_request (text "history range exceeds 600000000 milliseconds"))
    refuse_if (not (leb 1 limit && leb limit max_history_candles))
        (invalid_request (text "history limit must be between 1 and 10000"))
    ok (record {
      provider = p;
      symbol = name;
      start_time_ms = start;
      end_time_ms = end;
      limit = limit;
    })
