-- ===== src/Catalog/Rows/Bybit.antt =====
-- src/catalog.rs: the instruments of Bybit.
use market_stream_gateway.Prelude.{
  ℕ, Bool, not, ◌||◌, Option, none, some, if◌then◌else◌, Result, ok, ◌>>=◌, ◌==◌, text_order,
}
use market_stream_gateway.Text.{Text, text}
use market_stream_gateway.Domain.Identity.{linear_perpetual, instrument_id, bybit}
use market_stream_gateway.Catalog.Instrument.{Instrument, CatalogError, live, capabilities}
use market_stream_gateway.Catalog.Wire.{
  WireScalar, WireDecimals, positive_decimal, optional_positive_decimal, optional_timestamp_ms,
  exact_symbol, exact_asset,
}

pub record BybitPriceFilter : Type 0 where
  pub tick_size : WireScalar

pub record BybitLotSizeFilter : Type 0 where
  pub qty_step : WireScalar
  pub min_order_qty : Option WireScalar
  pub min_notional_value : Option WireScalar

pub record BybitLeverageFilter : Type 0 where
  pub max_leverage : WireScalar

pub record BybitInstrument : Type 0 where
  pub symbol : Text
  pub contract_type : Text
  pub status : Text
  pub base_coin : Text
  pub quote_coin : Text
  pub settle_coin : Text
  pub launch_time : Option WireScalar
  pub delivery_time : Option WireScalar
  pub price_filter : BybitPriceFilter
  pub lot_size_filter : BybitLotSizeFilter
  pub leverage_filter : Option BybitLeverageFilter

module _ {D : Type 0} (w : WireDecimals D) (wide : ℕ → Bool) where
  unfoldable pub leverage_of : Option BybitLeverageFilter → Result (Option Text) CatalogError
  leverage_of none = ok none
  leverage_of (some f) = do
    value ← positive_decimal w bybit (text "leverageFilter.maxLeverage") f.max_leverage
    ok (some value)

  unfoldable pub bybit_row : BybitInstrument → Result (Option Instrument) CatalogError
  unfolding leverage_of
  bybit_row item = do
    symbol ← exact_symbol wide bybit item.symbol
    max_leverage ← leverage_of item.leverage_filter
    base_asset ← exact_asset bybit (text "baseCoin") item.base_coin
    quote_asset ← exact_asset bybit (text "quoteCoin") item.quote_coin
    settle_asset ← exact_asset bybit (text "settleCoin") item.settle_coin
    tick_size ← positive_decimal w bybit (text "priceFilter.tickSize") item.price_filter.tick_size
    quantity_step ←
        positive_decimal w bybit (text "lotSizeFilter.qtyStep") item.lot_size_filter.qty_step
    min_order_quantity ←
        optional_positive_decimal w bybit (text "lotSizeFilter.minOrderQty")
          item.lot_size_filter.min_order_qty
    min_notional ←
        optional_positive_decimal w bybit (text "lotSizeFilter.minNotionalValue")
          item.lot_size_filter.min_notional_value
    listing_time_ms ← optional_timestamp_ms bybit (text "launchTime") item.launch_time
    expiry_time_ms ← optional_timestamp_ms bybit (text "deliveryTime") item.delivery_time
    ok (
        some (record {
          id = instrument_id bybit linear_perpetual symbol;
          symbol = symbol;
          provider = bybit;
          market = linear_perpetual;
          base_asset = base_asset;
          quote_asset = quote_asset;
          settle_asset = settle_asset;
          status = live;
          venue_status = item.status;
          tick_size = tick_size;
          quantity_step = quantity_step;
          min_order_quantity = min_order_quantity;
          min_notional = min_notional;
          contract_size = none;
          contract_size_asset = none;
          max_leverage = max_leverage;
          listing_time_ms = listing_time_ms;
          expiry_time_ms = expiry_time_ms;
          capabilities = capabilities bybit;
        }))

  unfoldable pub bybit_instrument : BybitInstrument → Result (Option Instrument) CatalogError
  bybit_instrument item =
      if not (item.contract_type == text "LinearPerpetual") || not (item.status == text "Trading")
      then ok none
      else bybit_row item
