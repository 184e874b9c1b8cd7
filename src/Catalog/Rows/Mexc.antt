-- ===== src/Catalog/Rows/Mexc.antt =====
-- src/catalog.rs: the instruments of MEXC.
use market_stream_gateway.Prelude.{
  ℕ, Bool, not, ◌||◌, ◌++◌, Option, none, some, if◌then◌else◌, Result, ok, ◌>>=◌, ◌==◌, text_order,
  ℤ, is_number,
}
use market_stream_gateway.Text.{Text, text}
use market_stream_gateway.Domain.Identity.{linear_perpetual, instrument_id, mexc}
use market_stream_gateway.Catalog.Instrument.{Instrument, CatalogError, live, capabilities}
use market_stream_gateway.Catalog.Wire.{
  WireScalar, WireDecimals, positive_decimal, optional_positive_decimal, optional_timestamp_ms,
  exact_symbol, exact_asset, show_int, or_try,
}

pub record MexcInstrument : Type 0 where
  pub symbol : Text
  pub base_coin : Text
  pub quote_coin : Text
  pub settle_coin : Text
  pub future_type : ℤ
  pub state : ℤ
  pub contract_state : ℤ
  pub pre_market : Bool
  pub contract_size : WireScalar
  pub price_unit : WireScalar
  pub vol_unit : WireScalar
  pub min_vol : Option WireScalar
  pub max_leverage : Option WireScalar
  pub create_time : Option WireScalar
  pub opening_time : Option WireScalar

module _ {D : Type 0} (w : WireDecimals D) (wide : ℕ → Bool) where
  unfoldable pub mexc_row : MexcInstrument → Result (Option Instrument) CatalogError
  mexc_row item = do
    opening ← optional_timestamp_ms mexc (text "openingTime") item.opening_time
    created ← optional_timestamp_ms mexc (text "createTime") item.create_time
    symbol ← exact_symbol wide mexc item.symbol
    base_asset ← exact_asset mexc (text "baseCoin") item.base_coin
    quote_asset ← exact_asset mexc (text "quoteCoin") item.quote_coin
    settle_asset ← exact_asset mexc (text "settleCoin") item.settle_coin
    tick_size ← positive_decimal w mexc (text "priceUnit") item.price_unit
    quantity_step ← positive_decimal w mexc (text "volUnit") item.vol_unit
    min_order_quantity ← optional_positive_decimal w mexc (text "minVol") item.min_vol
    contract_size ← positive_decimal w mexc (text "contractSize") item.contract_size
    max_leverage ← optional_positive_decimal w mexc (text "maxLeverage") item.max_leverage
    ok (
        some (record {
          id = instrument_id mexc linear_perpetual symbol;
          symbol = symbol;
          provider = mexc;
          market = linear_perpetual;
          base_asset = base_asset;
          quote_asset = quote_asset;
          settle_asset = settle_asset;
          status = live;
          venue_status =
              text "state=" ++ show_int item.state ++ text ",type=" ++ show_int item.contract_state;
          tick_size = tick_size;
          quantity_step = quantity_step;
          min_order_quantity = min_order_quantity;
          min_notional = none;
          contract_size = some contract_size;
          contract_size_asset = some base_asset;
          max_leverage = max_leverage;
          listing_time_ms = or_try opening created;
          expiry_time_ms = none;
          capabilities = capabilities mexc;
        }))

  unfoldable pub mexc_instrument : MexcInstrument → Result (Option Instrument) CatalogError
  mexc_instrument item =
      if not (is_number 1 item.future_type)
        || not (is_number 0 item.state)
        || not (is_number 1 item.contract_state)
        || item.pre_market
        || not (item.quote_coin == text "USDT")
        || not (item.settle_coin == text "USDT")
      then ok none
      else mexc_row item
