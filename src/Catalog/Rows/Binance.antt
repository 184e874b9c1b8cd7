-- ===== src/Catalog/Rows/Binance.antt =====
-- src/catalog.rs: the instruments of Binance.
use market_stream_gateway.Prelude.{
  ℕ, Bool, not, ◌||◌, List, [], ◌∷◌, ◌++◌, Option, none, some, eqb, if◌then◌else◌, Result, ok, err,
  ◌>>=◌, ◌==◌, text_order, keep, length,
}
use market_stream_gateway.Text.{Text, text}
use market_stream_gateway.Domain.Identity.{Provider, linear_perpetual, instrument_id, binance}
use market_stream_gateway.Catalog.Instrument.{
  Instrument, CatalogError, live, capabilities, invalid_payload,
}
use market_stream_gateway.Catalog.Wire.{
  WireScalar, WireDecimals, positive_decimal, exact_symbol, exact_asset,
}
use market_stream_gateway.Text.{to_string}

pub record BinanceFilter : Type 0 where
  pub filter_type : Text
  pub tick_size : Option WireScalar
  pub step_size : Option WireScalar
  pub min_qty : Option WireScalar
  pub notional : Option WireScalar

pub record BinanceInstrument : Type 0 where
  pub symbol : Text
  pub contract_type : Text
  pub status : Text
  pub base_asset : Text
  pub quote_asset : Text
  pub margin_asset : Text
  pub onboard_date : Option ℕ
  pub filters : List BinanceFilter

-- `Option::filter` on a time that is not zero.
abbrev pub not_zero : Option ℕ → Option ℕ
not_zero none = none
not_zero (some n) = if eqb n 0 then none else some n

abbrev pub matching : List BinanceFilter → Text → List BinanceFilter
matching filters filter_type = keep (λ f. f.filter_type == filter_type) filters

module _ {D : Type 0} (w : WireDecimals D) where
  unfoldable pub unique_filter_decimal :
      Provider
      → List BinanceFilter
      → Text
      → Text
      → (BinanceFilter → Option WireScalar)
      → Result Text CatalogError
  unique_filter_decimal p filters filter_type field value = elim (matching filters filter_type) [
    | f ∷ [] ↦ elim (value f) [
      | none ↦ err (invalid_payload p (filter_type ++ text " is missing " ++ field))
      | some scalar ↦ positive_decimal w p (filter_type ++ text "." ++ field) scalar
    ]
    | found ↦ err (
        invalid_payload p (
          text "expected exactly one " ++ filter_type ++ text ", got " ++ to_string (length found)))
  ]

  unfoldable pub optional_unique_filter_decimal :
      Provider
      → List BinanceFilter
      → Text
      → Text
      → (BinanceFilter → Option WireScalar)
      → Result (Option Text) CatalogError
  optional_unique_filter_decimal p filters filter_type field value =
      elim (matching filters filter_type) [
        | [] ↦ ok none
        | f ∷ [] ↦ elim (value f) [
          | none ↦ ok none
          | some scalar ↦ (do
            d ← positive_decimal w p (filter_type ++ text "." ++ field) scalar
            ok (some d))
        ]
        | found ↦ err (
            invalid_payload p (
              text "expected at most one "
              ++ filter_type
              ++ text ", got "
              ++ to_string (length found)))
      ]

module _ {D : Type 0} (w : WireDecimals D) (wide : ℕ → Bool) where
  unfoldable pub binance_row : BinanceInstrument → Result (Option Instrument) CatalogError
  binance_row item = do
    tick_size ←
        unique_filter_decimal w binance item.filters (text "PRICE_FILTER") (text "tickSize")
          (λ f. f.tick_size)
    quantity_step ←
        unique_filter_decimal w binance item.filters (text "LOT_SIZE") (text "stepSize")
          (λ f. f.step_size)
    min_order_quantity ←
        optional_unique_filter_decimal w binance item.filters (text "LOT_SIZE") (text "minQty")
          (λ f. f.min_qty)
    min_notional ←
        optional_unique_filter_decimal w binance item.filters (text "MIN_NOTIONAL")
          (text "notional") (λ f. f.notional)
    symbol ← exact_symbol wide binance item.symbol
    base_asset ← exact_asset binance (text "baseAsset") item.base_asset
    quote_asset ← exact_asset binance (text "quoteAsset") item.quote_asset
    settle_asset ← exact_asset binance (text "marginAsset") item.margin_asset
    ok (
        some (record {
          id = instrument_id binance linear_perpetual symbol;
          symbol = symbol;
          provider = binance;
          market = linear_perpetual;
          base_asset = base_asset;
          quote_asset = quote_asset;
          settle_asset = settle_asset;
          status = live;
          venue_status = item.status;
          tick_size = tick_size;
          quantity_step = quantity_step;
          min_order_quantity = min_order_quantity;
          min_notional = min_notional;
          contract_size = none;
          contract_size_asset = none;
          max_leverage = none;
          listing_time_ms = not_zero item.onboard_date;
          expiry_time_ms = none;
          capabilities = capabilities binance;
        }))

  unfoldable pub binance_instrument : BinanceInstrument → Result (Option Instrument) CatalogError
  binance_instrument item =
      if not (item.contract_type == text "PERPETUAL") || not (item.status == text "TRADING")
      then ok none
      else binance_row item
