-- ===== src/Catalog/Wire.antt =====
-- src/catalog.rs: the fields of a venue's listing, read into the fields of an instrument.
use market_stream_gateway.Prelude.{
  ℕ, suc, ◌+◌, ◌-◌, ◌*◌, Bool, false, not, ◌&&◌, ◌||◌, [], ◌∷◌, ◌++◌, Option, none, some, ltb, leb,
  eqb, if◌then◌else◌, is_empty, Result, ok, err, ◌>>=◌, ◌==◌, text_order, max_u64, ℤ, pos, negsuc,
}
use market_stream_gateway.Text.{Text, text, len, is_whitespace, to_string}
use market_stream_gateway.Domain.Identity.{Provider}
use market_stream_gateway.Domain.Symbol.{normalize_symbol}
use market_stream_gateway.Domain.Payload.{Decimals, DecimalValue}
use market_stream_gateway.History.Request.{show_domain_error}
use market_stream_gateway.Catalog.Instrument.{CatalogError, invalid_payload}

-- A string, or a JSON number as `serde_json` prints it.
pub data WireScalar : Type 0 where
  string : Text → WireScalar
  number : Text → WireScalar

unfoldable pub scalar_text : WireScalar → Text
scalar_text (string s) = s
scalar_text (number s) = s

-- What the catalog uses of `rust_decimal` besides the checks of the domain; `power` is
-- `Decimal::new(1, scale)`.
pub record WireDecimals (D : Type 0) : Type 0 where
  pub decimals : Decimals D
  pub from_scientific : Text → Option D
  pub show : D → Text
  pub power : ℕ → D

abbrev pub max_scale : ℕ
max_scale = 28

unfoldable pub show_int : ℤ → Text
show_int (pos n) = to_string n
show_int (negsuc n) = text "-" ++ to_string (suc n)

-- `str::parse::<u64>` behind its sign.
abbrev pub parse_digits : ℕ → Text → Option ℕ
parse_digits n [] = some n
parse_digits n (c ∷ s) =
    if not (leb b'0' c && leb c b'9')
    then none
    else if ltb max_u64 (n * 10 + (c - b'0'))
    then none
    else parse_digits (n * 10 + (c - b'0')) s

unfoldable pub parse_u64 : Text → Option ℕ
parse_u64 [] = none
parse_u64 (c ∷ []) = if eqb c b'+' then none else parse_digits 0 (c ∷ [])
parse_u64 (c ∷ d ∷ s) = if eqb c b'+' then parse_digits 0 (d ∷ s) else parse_digits 0 (c ∷ d ∷ s)

unfoldable pub optional_timestamp_ms :
    Provider → Text → Option WireScalar → Result (Option ℕ) CatalogError
optional_timestamp_ms p field none = ok none
optional_timestamp_ms p field (some scalar) =
    let value = scalar_text scalar in
    if is_empty value || value == text "0" then ok none else elim (parse_u64 value) [
      | none ↦ err (invalid_payload p (field ++ text " must be an unsigned millisecond timestamp"))
      | some n ↦ ok (some n)
    ]

-- `char::is_control`.
abbrev pub is_control : ℕ → Bool
is_control c = ltb c 0x20 || (leb 0x7f c && leb c 0x9f)

abbrev pub any_char : (ℕ → Bool) → Text → Bool
any_char p [] = false
any_char p (c ∷ s) = p c || any_char p s

unfoldable pub exact_asset : Provider → Text → Text → Result Text CatalogError
exact_asset p field value =
    if is_empty value
      || ltb 64 (len value)
      || any_char is_whitespace value
      || any_char is_control value
    then err (invalid_payload p (field ++ text " must be a non-empty venue asset identifier"))
    else ok value

unfoldable pub exact_symbol : (ℕ → Bool) → Provider → Text → Result Text CatalogError
exact_symbol wide p value = elim (normalize_symbol wide value) [
  | err e ↦ err (invalid_payload p (text "invalid symbol: " ++ show_domain_error e))
  | ok normalized ↦
      if normalized == value
      then ok value
      else err (invalid_payload p (text "symbol is not in its exact canonical form: " ++ value))
]

-- `Result::or_else` on options.
abbrev pub or_try {ℓ} : {A : Type ℓ} → Option A → Option A → Option A
or_try none later = later
or_try (some a) later = some a

module _ {D : Type 0} (w : WireDecimals D) where
  -- `DecimalValue::new` where only success counts.
  abbrev pub try_decimal : Text → Option DecimalValue
  try_decimal s = elim (w.decimals.from_str s) [ none ↦ none | some d ↦ some s ]

  abbrev pub read_decimal : Text → Option D
  read_decimal raw = or_try (w.decimals.from_str raw) (w.from_scientific raw)

  unfoldable pub positive_decimal : Provider → Text → WireScalar → Result DecimalValue CatalogError
  positive_decimal p field scalar =
      let raw = scalar_text scalar in
      let not_decimal = invalid_payload p (field ++ text " is not a decimal: " ++ raw) in
      elim (read_decimal raw) [
        | none ↦ err not_decimal
        | some parsed ↦
            if not (w.decimals.lt w.decimals.zero parsed)
            then err (invalid_payload p (field ++ text " must be greater than zero"))
            else elim (or_try (try_decimal raw) (try_decimal (w.show parsed))) [
              | none ↦ err not_decimal
              | some value ↦ ok value
            ]
      ]

  unfoldable pub optional_positive_decimal :
      Provider → Text → Option WireScalar → Result (Option DecimalValue) CatalogError
  optional_positive_decimal p field none = ok none
  optional_positive_decimal p field (some (string [])) = ok none
  optional_positive_decimal p field (some scalar) = do
    value ← positive_decimal p field scalar
    ok (some value)

  unfoldable pub precision_step : Provider → Text → ℕ → Result DecimalValue CatalogError
  precision_step p field precision =
      if ltb max_scale precision
      then err (invalid_payload p (field ++ text " exceeds decimal scale " ++ to_string max_scale))
      else elim (try_decimal (w.show (w.power precision))) [
        | none ↦ err (
            invalid_payload p (
              text "invalid "
              ++ field
              ++ text ": "
              ++ text "invalid decimal value: "
              ++ w.show (w.power precision)))
        | some value ↦ ok value
      ]
