-- ===== src/Catalog/Rows/Bingx.antt =====
-- src/catalog.rs: the instruments of BingX.
use market_stream_gateway.Prelude.{
  ℕ, Bool, not, ◌||◌, Option, none, some, eqb, if◌then◌else◌, Result, ok, err, ◌>>=◌, ◌==◌,
  text_order, ℤ, is_number,
}
use market_stream_gateway.Text.{Text, text}
use market_stream_gateway.Domain.Identity.{linear_perpetual, instrument_id, bingx}
use market_stream_gateway.Catalog.Instrument.{
  Instrument, CatalogError, live, capabilities, invalid_payload,
}
use market_stream_gateway.Catalog.Wire.{
  WireScalar, WireDecimals, positive_decimal, optional_positive_decimal, precision_step,
  exact_symbol, exact_asset, show_int,
}

pub record BingxInstrument : Type 0 where
  pub symbol : Text
  pub asset : Text
  pub currency : Text
  pub status : ℤ
  pub api_state_open : Text
  pub size : WireScalar
  pub price_precision : ℕ
  pub quantity_precision : ℕ
  pub trade_min_quantity : Option WireScalar
  pub trade_min_usdt : Option WireScalar
  pub max_long_leverage : Option WireScalar
  pub max_short_leverage : Option WireScalar
  pub launch_time : ℕ
  pub off_time : ℕ

abbrev pub some_time : ℕ → Option ℕ
some_time n = if eqb n 0 then none else some n

module _ {D : Type 0} (w : WireDecimals D) (wide : ℕ → Bool) where
  unfoldable pub smaller_leverage : Option Text → Option Text → Result (Option Text) CatalogError
  smaller_leverage none none = ok none
  smaller_leverage (some long) none = ok (some long)
  smaller_leverage none (some short) = ok (some short)
  smaller_leverage (some long) (some short) = elim (w.decimals.from_str long) [
    | none ↦ err (invalid_payload bingx (text "maxLongLeverage is not a decimal"))
    | some l ↦ elim (w.decimals.from_str short) [
      | none ↦ err (invalid_payload bingx (text "maxShortLeverage is not a decimal"))
      | some s ↦ ok (some (if not (w.decimals.lt s l) then long else short))
    ]
  ]

  unfoldable pub bingx_row : BingxInstrument → Result (Option Instrument) CatalogError
  bingx_row item = do
    symbol ← exact_symbol wide bingx item.symbol
    base_asset ← exact_asset bingx (text "asset") item.asset
    quote_asset ← exact_asset bingx (text "currency") item.currency
    max_long ← optional_positive_decimal w bingx (text "maxLongLeverage") item.max_long_leverage
    max_short ← optional_positive_decimal w bingx (text "maxShortLeverage") item.max_short_leverage
    max_leverage ← smaller_leverage max_long max_short
    tick_size ← precision_step w bingx (text "pricePrecision") item.price_precision
    quantity_step ← precision_step w bingx (text "quantityPrecision") item.quantity_precision
    min_order_quantity ←
        optional_positive_decimal w bingx (text "tradeMinQuantity") item.trade_min_quantity
    min_notional ← optional_positive_decimal w bingx (text "tradeMinUSDT") item.trade_min_usdt
    contract_size ← positive_decimal w bingx (text "size") item.size
    ok (
        some (record {
          id = instrument_id bingx linear_perpetual symbol;
          symbol = symbol;
          provider = bingx;
          market = linear_perpetual;
          base_asset = base_asset;
          quote_asset = quote_asset;
          settle_asset = quote_asset;
          status = live;
          venue_status = show_int item.status;
          tick_size = tick_size;
          quantity_step = quantity_step;
          min_order_quantity = min_order_quantity;
          min_notional = min_notional;
          contract_size = some contract_size;
          contract_size_asset = some base_asset;
          max_leverage = max_leverage;
          listing_time_ms = some_time item.launch_time;
          expiry_time_ms = some_time item.off_time;
          capabilities = capabilities bingx;
        }))

  unfoldable pub bingx_instrument : BingxInstrument → Result (Option Instrument) CatalogError
  bingx_instrument item =
      if not (is_number 1 item.status)
        || not (item.api_state_open == text "true")
        || not (item.currency == text "USDT" || item.currency == text "USDC")
      then ok none
      else bingx_row item
