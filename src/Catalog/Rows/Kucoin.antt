-- ===== src/Catalog/Rows/Kucoin.antt =====
-- src/catalog.rs: the instruments of KuCoin.
use market_stream_gateway.Prelude.{
  ℕ, Bool, not, ◌||◌, Option, none, some, if◌then◌else◌, Result, ok, err, ◌>>=◌, ◌==◌, text_order,
}
use market_stream_gateway.Text.{Text, text}
use market_stream_gateway.Domain.Identity.{linear_perpetual, instrument_id, kucoin}
use market_stream_gateway.Catalog.Instrument.{Instrument, CatalogError, live, capabilities}
use market_stream_gateway.Catalog.Wire.{
  WireScalar, WireDecimals, positive_decimal, optional_positive_decimal, optional_timestamp_ms,
  exact_symbol, exact_asset,
}
use market_stream_gateway.History.Request.{ends_with}

pub record KucoinInstrument : Type 0 where
  pub symbol : Text
  pub contract_type : Text
  pub status : Text
  pub base_currency : Text
  pub quote_currency : Text
  pub settle_currency : Text
  pub first_open_date : Option WireScalar
  pub expire_date : Option WireScalar
  pub tick_size : WireScalar
  pub lot_size : WireScalar
  pub multiplier : WireScalar
  pub max_leverage : Option WireScalar
  pub is_inverse : Bool

module _ {D : Type 0} (w : WireDecimals D) (wide : ℕ → Bool) where
  unfoldable pub kucoin_row : KucoinInstrument → Result (Option Instrument) CatalogError
  kucoin_row item = do
    symbol ← exact_symbol wide kucoin item.symbol
    base_asset ← exact_asset kucoin (text "baseCurrency") item.base_currency
    quantity_step ← positive_decimal w kucoin (text "lotSize") item.lot_size
    quote_asset ← exact_asset kucoin (text "quoteCurrency") item.quote_currency
    settle_asset ← exact_asset kucoin (text "settleCurrency") item.settle_currency
    tick_size ← positive_decimal w kucoin (text "tickSize") item.tick_size
    contract_size ← positive_decimal w kucoin (text "multiplier") item.multiplier
    max_leverage ← optional_positive_decimal w kucoin (text "maxLeverage") item.max_leverage
    listing_time_ms ← optional_timestamp_ms kucoin (text "firstOpenDate") item.first_open_date
    ok (
        some (record {
          id = instrument_id kucoin linear_perpetual symbol;
          symbol = symbol;
          provider = kucoin;
          market = linear_perpetual;
          base_asset = base_asset;
          quote_asset = quote_asset;
          settle_asset = settle_asset;
          status = live;
          venue_status = item.status;
          tick_size = tick_size;
          quantity_step = quantity_step;
          min_order_quantity = some quantity_step;
          min_notional = none;
          contract_size = some contract_size;
          contract_size_asset = some base_asset;
          max_leverage = max_leverage;
          listing_time_ms = listing_time_ms;
          expiry_time_ms = none;
          capabilities = capabilities kucoin;
        }))

  unfoldable pub kucoin_instrument : KucoinInstrument → Result (Option Instrument) CatalogError
  kucoin_instrument item =
      if not (item.contract_type == text "FFWCSX")
        || not (item.status == text "Open")
        || item.is_inverse
      then ok none
      else elim (optional_timestamp_ms kucoin (text "expireDate") item.expire_date) [
        | err e ↦ err e
        | ok (some expiry) ↦ ok none
        | ok none ↦
            if not (ends_with (text "USDTM") item.symbol || ends_with (text "USDCM") item.symbol)
            then ok none
            else kucoin_row item
      ]
