-- ===== src/Domain/Payload.antt =====
-- src/domain.rs: tickers and candles, and the checks that every provider event passes. Decimal
-- numbers are those of the `rust_decimal` crate, an argument of the checks.
use market_stream_gateway.Prelude.{
  ◌==◌, text_order, ℕ, ◌-◌, Bool, true, false, not, ◌&&◌, ◌||◌, List, [], ◌∷◌, ◌++◌, Option, none,
  some, ltb, eqb, if◌then◌else◌, Result, ok, err, ◌>>=◌, ◌>>◌, refuse_if,
}
use market_stream_gateway.Text.{Text, text}
use market_stream_gateway.Domain.Identity.{Channel}
use market_stream_gateway.Domain.Symbol.{DomainError, invalid_decimal, invalid_market_data}

-- What the code uses of `rust_decimal::Decimal`.
pub record Decimals (D : Type 0) : Type 0 where
  pub from_str : Text → Option D
  pub lt : D → D → Bool
  pub zero : D

-- `struct DecimalValue(String)`.
abbrev pub DecimalValue : Type 0
DecimalValue = Text

pub record ObservedDecimal : Type 0 where
  pub value : DecimalValue
  pub observed_at_ms : ℕ

pub record Ticker : Type 0 where
  pub last : Option ObservedDecimal
  pub mark : Option ObservedDecimal
  pub index : Option ObservedDecimal
  pub bid : Option ObservedDecimal
  pub ask : Option ObservedDecimal
  pub funding_rate : Option ObservedDecimal
  pub next_funding_time_ms : Option ℕ

pub data CandleFinality : Type 0 where
  opened closed unknown : CandleFinality

pub data DataQuality : Type 0 where
  provider_volume_untrusted : DataQuality

pub record Candle : Type 0 where
  pub interval : Text
  pub start_time_ms : ℕ
  pub end_time_ms : ℕ
  pub opening : DecimalValue
  pub high : DecimalValue
  pub low : DecimalValue
  pub close : DecimalValue
  pub base_volume : Option DecimalValue
  pub quote_volume : Option DecimalValue
  pub contract_volume : Option DecimalValue
  pub finality : CandleFinality
  pub data_quality : List DataQuality

pub data MarketPayload : Type 0 where
  ticker : Ticker → MarketPayload
  candle : Candle → MarketPayload

unfoldable pub payload_channel : MarketPayload → Channel
payload_channel (ticker t) = Channel.ticker
payload_channel (candle c) = Channel.candle_1m

abbrev pub is_some {ℓ} : {A : Type ℓ} → Option A → Bool
is_some none = false
is_some (some a) = true

unfoldable pub has_price : Ticker → Bool
has_price t = is_some t.last || is_some t.mark || is_some t.index || is_some t.bid || is_some t.ask

-- `u64::checked_sub`.
abbrev pub checked_sub : ℕ → ℕ → Option ℕ
checked_sub a b = if ltb a b then none else some (a - b)

abbrev pub Checked : Type 0
Checked = Result (Unit {0}) DomainError

module _ {D : Type 0} (dec : Decimals D) where
  -- `DecimalValue::new`.
  unfoldable pub new_decimal : Text → Result DecimalValue DomainError
  new_decimal s = elim (dec.from_str s) [ none ↦ err (invalid_decimal s) | some _ ↦ ok s ]

  -- `ObservedDecimal::new`.
  unfoldable pub new_observed : Text → ℕ → Result ObservedDecimal DomainError
  new_observed s at = do value ← new_decimal s; ok (record { value = value; observed_at_ms = at })

  -- `decimal`.
  unfoldable pub decimal : DecimalValue → Result D DomainError
  decimal s = elim (dec.from_str s) [ none ↦ err (invalid_decimal s) | some d ↦ ok d ]

  -- One round of the loop over the prices.
  unfoldable pub check_price : Text × Option ObservedDecimal → Checked
  unfolding decimal
  check_price (name, none) = ok tt
  check_price (name, some o) = do
    refuse_if (eqb o.observed_at_ms 0)
        (invalid_market_data (name ++ text " observation timestamp must be positive"))
    d ← decimal o.value
    refuse_if (not (dec.lt dec.zero d))
        (invalid_market_data (name ++ text " price must be positive"))

  unfoldable pub check_prices : List (Text × Option ObservedDecimal) → Checked
  check_prices [] = ok tt
  check_prices (p ∷ ps) = do check_price p; check_prices ps

  unfoldable pub check_funding : Option ObservedDecimal → Checked
  check_funding none = ok tt
  check_funding (some o) =
      refuse_if (eqb o.observed_at_ms 0)
        (invalid_market_data (text "funding observation timestamp must be positive"))

  unfoldable pub check_spread : Option ObservedDecimal → Option ObservedDecimal → Checked
  unfolding decimal
  check_spread (some bid) (some ask) = do
    b ← decimal bid.value
    a ← decimal ask.value
    refuse_if (dec.lt a b) (invalid_market_data (text "best bid must not exceed best ask"))
  check_spread _ _ = ok tt

  abbrev pub named_prices : Ticker → List (Text × Option ObservedDecimal)
  named_prices t =
      (text "last", t.last)
      ∷ (text "mark", t.mark)
      ∷ (text "index", t.index)
      ∷ (text "bid", t.bid)
      ∷ (text "ask", t.ask)
      ∷ []

  -- `Ticker::validate`.
  unfoldable pub validate_ticker : Ticker → Checked
  validate_ticker t = do
    check_prices (named_prices t)
    check_funding t.funding_rate
    check_spread t.bid t.ask
    refuse_if (not (has_price t))
        (invalid_market_data (text "ticker must contain at least one price"))

  unfoldable pub check_volumes : List (Option DecimalValue) → Checked
  unfolding decimal
  check_volumes [] = ok tt
  check_volumes (none ∷ vs) = check_volumes vs
  check_volumes (some v ∷ vs) = do
    d ← decimal v
    refuse_if (dec.lt d dec.zero) (invalid_market_data (text "candle volume must not be negative"))
    check_volumes vs

  -- The comparisons of `Candle::validate` on the parsed prices.
  unfoldable pub check_bounds : D → D → D → D → Checked
  check_bounds opening high low close = do
    refuse_if
        (not (
          dec.lt dec.zero opening
          && (dec.lt dec.zero high && (dec.lt dec.zero low && dec.lt dec.zero close))))
        (invalid_market_data (text "candle prices must be positive"))
    refuse_if
        (dec.lt high opening
          || (dec.lt high close || (dec.lt high low || (dec.lt opening low || dec.lt close low))))
        (invalid_market_data (text "candle OHLC bounds are inconsistent"))

  abbrev pub is_one_minute : Candle → Bool
  is_one_minute c = elim (checked_sub c.end_time_ms c.start_time_ms) [
    | none ↦ false
    | some n ↦ eqb n 60_000
  ]

  -- `Candle::validate`.
  unfoldable pub validate_candle : Candle → Checked
  validate_candle c = do
    refuse_if (not (c.interval == text "1m") || not (is_one_minute c))
        (invalid_market_data (text "candle must cover exactly one minute"))
    opening ← decimal c.opening
    high ← decimal c.high
    low ← decimal c.low
    close ← decimal c.close
    check_bounds opening high low close
    check_volumes (c.base_volume ∷ c.quote_volume ∷ c.contract_volume ∷ [])

  -- `MarketPayload::validate`.
  unfoldable pub validate_payload : MarketPayload → Checked
  validate_payload (ticker t) = validate_ticker t
  validate_payload (candle c) = validate_candle c
