-- ===== src/Catalog/Made.antt =====
-- src/catalog.rs: what every row that becomes an instrument has checked.
use market_stream_gateway.Prelude.{
  ℕ, Bool, ◌≡◌, ap, ◌∙◌, sym, Result-cases, inl, inr, some, arith, ok, >>=-eq-ok, text_order,
}
use market_stream_gateway.Text.{Text}
use market_stream_gateway.Domain.Identity.{
  Provider, linear_perpetual, instrument_id, bybit, binance, okx, kucoin, mexc, bingx,
}
use market_stream_gateway.Domain.Symbol.{normalize_symbol}
use market_stream_gateway.Catalog.Instrument.{Instrument, capabilities}
use market_stream_gateway.Catalog.Wire.{
  WireDecimals, exact_symbol, exact_asset, positive_decimal, optional_positive_decimal,
  optional_timestamp_ms, precision_step,
}
use market_stream_gateway.Text.{text}
use market_stream_gateway.Catalog.Rows.Bybit.{
  BybitInstrument, bybit_instrument, bybit_row, leverage_of,
}
use market_stream_gateway.Catalog.Rows.Binance.{
  BinanceInstrument, binance_instrument, binance_row, unique_filter_decimal,
  optional_unique_filter_decimal,
}
use market_stream_gateway.Catalog.Rows.Okx.{
  OkxInstrument, okx_instrument, okx_row, okx_underlying_assets, given_or,
}
use market_stream_gateway.Catalog.Rows.Kucoin.{KucoinInstrument, kucoin_instrument, kucoin_row}
use market_stream_gateway.Catalog.Rows.Mexc.{MexcInstrument, mexc_instrument, mexc_row}
use market_stream_gateway.Catalog.Rows.Bingx.{
  BingxInstrument, bingx_instrument, bingx_row, smaller_leverage,
}

pub record IsMade (wide : ℕ → Bool) (p : Provider) (i : Instrument) : Type 0 where
  pub provider : i.provider ≡ p
  pub symbol : normalize_symbol wide i.symbol ≡ ok i.symbol
  pub id : i.id ≡ instrument_id p linear_perpetual i.symbol
  pub capable : i.capabilities ≡ capabilities p

pub exact_symbol-eq-ok :
    (wide : ℕ → Bool) (p : Provider) (v s : Text)
    → exact_symbol wide p v ≡ ok s
    → normalize_symbol wide s ≡ ok s
unfolding exact_symbol
exact_symbol-eq-ok wide p v s h = elim (Result-cases (normalize_symbol wide v)) [
  | inl (e, q) ↦ ground (arith, q, h)
  | inr (n, q) ↦
      (let same : n ≡ s = ground (arith, q, h, text_order.beq_iff n v) in
        let given : v ≡ s = ground (arith, q, h, text_order.beq_iff n v) in
        ap (normalize_symbol wide) (sym given) ∙ q ∙ ap ok same)
]

IsMade-of :
    (wide : ℕ → Bool) (p : Provider) (i : Instrument) (s : Text)
    → normalize_symbol wide s ≡ ok s
    → (i.provider ≡ p)
      × (i.symbol ≡ s)
      × (i.id ≡ instrument_id p linear_perpetual s)
      × (i.capabilities ≡ capabilities p)
    → IsMade wide p i
IsMade-of wide p i s exact (provider, symbol, id, capable) = record {
  provider = provider;
  symbol = ap (normalize_symbol wide) symbol ∙ exact ∙ ap ok (sym symbol);
  id = id ∙ ap (instrument_id p linear_perpetual) (sym symbol);
  capable = capable;
}

module _ {D : Type 0} (w : WireDecimals D) (wide : ℕ → Bool) where
  bybit_row-IsMade :
      (item : BybitInstrument) (i : Instrument)
      → bybit_row w wide item ≡ ok (some i)
      → IsMade wide bybit i
  unfolding bybit_row
  bybit_row-IsMade item i h =
      let a0 = >>=-eq-ok (exact_symbol wide bybit item.symbol) _ h in
      let a1 = >>=-eq-ok (leverage_of w wide item.leverage_filter) _ a0.2 in
      let a2 = >>=-eq-ok (exact_asset bybit (text "baseCoin") item.base_coin) _ a1.2 in
      let a3 = >>=-eq-ok (exact_asset bybit (text "quoteCoin") item.quote_coin) _ a2.2 in
      let a4 = >>=-eq-ok (exact_asset bybit (text "settleCoin") item.settle_coin) _ a3.2 in
      let a5 =
        >>=-eq-ok
          (positive_decimal w bybit (text "priceFilter.tickSize") item.price_filter.tick_size) _
          a4.2 in
      let a6 =
        >>=-eq-ok
          (positive_decimal w bybit (text "lotSizeFilter.qtyStep") item.lot_size_filter.qty_step) _
          a5.2 in
      let a7 =
        >>=-eq-ok
          (optional_positive_decimal w bybit (text "lotSizeFilter.minOrderQty")
            item.lot_size_filter.min_order_qty)
          _ a6.2 in
      let a8 =
        >>=-eq-ok
          (optional_positive_decimal w bybit (text "lotSizeFilter.minNotionalValue")
            item.lot_size_filter.min_notional_value)
          _ a7.2 in
      let a9 =
        >>=-eq-ok (optional_timestamp_ms bybit (text "launchTime") item.launch_time) _ a8.2 in
      let a10 =
        >>=-eq-ok (optional_timestamp_ms bybit (text "deliveryTime") item.delivery_time) _ a9.2 in
      IsMade-of wide bybit i a0.0 (exact_symbol-eq-ok wide bybit item.symbol a0.0 a0.1)
        (ground (arith, a10.2))

  binance_row-IsMade :
      (item : BinanceInstrument) (i : Instrument)
      → binance_row w wide item ≡ ok (some i)
      → IsMade wide binance i
  unfolding binance_row
  binance_row-IsMade item i h =
      let a0 =
        >>=-eq-ok
          (unique_filter_decimal w binance item.filters (text "PRICE_FILTER") (text "tickSize")
            (λ f. f.tick_size))
          _ h in
      let a1 =
        >>=-eq-ok
          (unique_filter_decimal w binance item.filters (text "LOT_SIZE") (text "stepSize")
            (λ f. f.step_size))
          _ a0.2 in
      let a2 =
        >>=-eq-ok
          (optional_unique_filter_decimal w binance item.filters (text "LOT_SIZE") (text "minQty")
            (λ f. f.min_qty))
          _ a1.2 in
      let a3 =
        >>=-eq-ok
          (optional_unique_filter_decimal w binance item.filters (text "MIN_NOTIONAL")
            (text "notional") (λ f. f.notional))
          _ a2.2 in
      let a4 = >>=-eq-ok (exact_symbol wide binance item.symbol) _ a3.2 in
      let a5 = >>=-eq-ok (exact_asset binance (text "baseAsset") item.base_asset) _ a4.2 in
      let a6 = >>=-eq-ok (exact_asset binance (text "quoteAsset") item.quote_asset) _ a5.2 in
      let a7 = >>=-eq-ok (exact_asset binance (text "marginAsset") item.margin_asset) _ a6.2 in
      IsMade-of wide binance i a4.0 (exact_symbol-eq-ok wide binance item.symbol a4.0 a4.1)
        (ground (arith, a7.2))

  okx_row-IsMade :
      (item : OkxInstrument) (i : Instrument)
      → okx_row w wide item ≡ ok (some i)
      → IsMade wide okx i
  unfolding okx_row
  okx_row-IsMade item i h =
      let a0 = >>=-eq-ok (okx_underlying_assets item) _ h in
      let a1 = >>=-eq-ok (given_or (text "baseCcy") item.base_ccy a0.0.0) _ a0.2 in
      let a2 = >>=-eq-ok (given_or (text "quoteCcy") item.quote_ccy a0.0.1) _ a1.2 in
      let a3 = >>=-eq-ok (given_or (text "ctValCcy") item.ct_val_ccy a1.0) _ a2.2 in
      let a4 = >>=-eq-ok (exact_symbol wide okx item.inst_id) _ a3.2 in
      let a5 = >>=-eq-ok (exact_asset okx (text "settleCcy") item.settle_ccy) _ a4.2 in
      let a6 = >>=-eq-ok (positive_decimal w okx (text "tickSz") item.tick_sz) _ a5.2 in
      let a7 = >>=-eq-ok (positive_decimal w okx (text "lotSz") item.lot_sz) _ a6.2 in
      let a8 = >>=-eq-ok (optional_positive_decimal w okx (text "minSz") item.min_sz) _ a7.2 in
      let a9 = >>=-eq-ok (positive_decimal w okx (text "ctVal") item.ct_val) _ a8.2 in
      let a10 = >>=-eq-ok (optional_positive_decimal w okx (text "lever") item.lever) _ a9.2 in
      let a11 = >>=-eq-ok (optional_timestamp_ms okx (text "listTime") item.list_time) _ a10.2 in
      let a12 = >>=-eq-ok (optional_timestamp_ms okx (text "expTime") item.exp_time) _ a11.2 in
      IsMade-of wide okx i a4.0 (exact_symbol-eq-ok wide okx item.inst_id a4.0 a4.1)
        (ground (arith, a12.2))

  kucoin_row-IsMade :
      (item : KucoinInstrument) (i : Instrument)
      → kucoin_row w wide item ≡ ok (some i)
      → IsMade wide kucoin i
  unfolding kucoin_row
  kucoin_row-IsMade item i h =
      let a0 = >>=-eq-ok (exact_symbol wide kucoin item.symbol) _ h in
      let a1 = >>=-eq-ok (exact_asset kucoin (text "baseCurrency") item.base_currency) _ a0.2 in
      let a2 = >>=-eq-ok (positive_decimal w kucoin (text "lotSize") item.lot_size) _ a1.2 in
      let a3 = >>=-eq-ok (exact_asset kucoin (text "quoteCurrency") item.quote_currency) _ a2.2 in
      let a4 = >>=-eq-ok (exact_asset kucoin (text "settleCurrency") item.settle_currency) _ a3.2 in
      let a5 = >>=-eq-ok (positive_decimal w kucoin (text "tickSize") item.tick_size) _ a4.2 in
      let a6 = >>=-eq-ok (positive_decimal w kucoin (text "multiplier") item.multiplier) _ a5.2 in
      let a7 =
        >>=-eq-ok (optional_positive_decimal w kucoin (text "maxLeverage") item.max_leverage) _
          a6.2 in
      let a8 =
        >>=-eq-ok (optional_timestamp_ms kucoin (text "firstOpenDate") item.first_open_date) _
          a7.2 in
      IsMade-of wide kucoin i a0.0 (exact_symbol-eq-ok wide kucoin item.symbol a0.0 a0.1)
        (ground (arith, a8.2))

  mexc_row-IsMade :
      (item : MexcInstrument) (i : Instrument)
      → mexc_row w wide item ≡ ok (some i)
      → IsMade wide mexc i
  unfolding mexc_row
  mexc_row-IsMade item i h =
      let a0 = >>=-eq-ok (optional_timestamp_ms mexc (text "openingTime") item.opening_time) _ h in
      let a1 = >>=-eq-ok (optional_timestamp_ms mexc (text "createTime") item.create_time) _ a0.2 in
      let a2 = >>=-eq-ok (exact_symbol wide mexc item.symbol) _ a1.2 in
      let a3 = >>=-eq-ok (exact_asset mexc (text "baseCoin") item.base_coin) _ a2.2 in
      let a4 = >>=-eq-ok (exact_asset mexc (text "quoteCoin") item.quote_coin) _ a3.2 in
      let a5 = >>=-eq-ok (exact_asset mexc (text "settleCoin") item.settle_coin) _ a4.2 in
      let a6 = >>=-eq-ok (positive_decimal w mexc (text "priceUnit") item.price_unit) _ a5.2 in
      let a7 = >>=-eq-ok (positive_decimal w mexc (text "volUnit") item.vol_unit) _ a6.2 in
      let a8 = >>=-eq-ok (optional_positive_decimal w mexc (text "minVol") item.min_vol) _ a7.2 in
      let a9 =
        >>=-eq-ok (positive_decimal w mexc (text "contractSize") item.contract_size) _ a8.2 in
      let a10 =
        >>=-eq-ok (optional_positive_decimal w mexc (text "maxLeverage") item.max_leverage) _
          a9.2 in
      IsMade-of wide mexc i a2.0 (exact_symbol-eq-ok wide mexc item.symbol a2.0 a2.1)
        (ground (arith, a10.2))

  bingx_row-IsMade :
      (item : BingxInstrument) (i : Instrument)
      → bingx_row w wide item ≡ ok (some i)
      → IsMade wide bingx i
  unfolding bingx_row
  bingx_row-IsMade item i h =
      let a0 = >>=-eq-ok (exact_symbol wide bingx item.symbol) _ h in
      let a1 = >>=-eq-ok (exact_asset bingx (text "asset") item.asset) _ a0.2 in
      let a2 = >>=-eq-ok (exact_asset bingx (text "currency") item.currency) _ a1.2 in
      let a3 =
        >>=-eq-ok
          (optional_positive_decimal w bingx (text "maxLongLeverage") item.max_long_leverage) _
          a2.2 in
      let a4 =
        >>=-eq-ok
          (optional_positive_decimal w bingx (text "maxShortLeverage") item.max_short_leverage) _
          a3.2 in
      let a5 = >>=-eq-ok (smaller_leverage w wide a3.0 a4.0) _ a4.2 in
      let a6 =
        >>=-eq-ok (precision_step w bingx (text "pricePrecision") item.price_precision) _ a5.2 in
      let a7 =
        >>=-eq-ok (precision_step w bingx (text "quantityPrecision") item.quantity_precision) _
          a6.2 in
      let a8 =
        >>=-eq-ok
          (optional_positive_decimal w bingx (text "tradeMinQuantity") item.trade_min_quantity) _
          a7.2 in
      let a9 =
        >>=-eq-ok (optional_positive_decimal w bingx (text "tradeMinUSDT") item.trade_min_usdt) _
          a8.2 in
      let a10 = >>=-eq-ok (positive_decimal w bingx (text "size") item.size) _ a9.2 in
      IsMade-of wide bingx i a0.0 (exact_symbol-eq-ok wide bingx item.symbol a0.0 a0.1)
        (ground (arith, a10.2))

  pub bybit_instrument-IsMade :
      (item : BybitInstrument) (i : Instrument)
      → bybit_instrument w wide item ≡ ok (some i)
      → IsMade wide bybit i
  unfolding bybit_instrument
  bybit_instrument-IsMade item i h = bybit_row-IsMade item i (ground (arith, h))

  pub binance_instrument-IsMade :
      (item : BinanceInstrument) (i : Instrument)
      → binance_instrument w wide item ≡ ok (some i)
      → IsMade wide binance i
  unfolding binance_instrument
  binance_instrument-IsMade item i h = binance_row-IsMade item i (ground (arith, h))

  pub okx_instrument-IsMade :
      (item : OkxInstrument) (i : Instrument)
      → okx_instrument w wide item ≡ ok (some i)
      → IsMade wide okx i
  unfolding okx_instrument
  okx_instrument-IsMade item i h = okx_row-IsMade item i (ground (arith, h))

  pub kucoin_instrument-IsMade :
      (item : KucoinInstrument) (i : Instrument)
      → kucoin_instrument w wide item ≡ ok (some i)
      → IsMade wide kucoin i
  unfolding kucoin_instrument
  kucoin_instrument-IsMade item i h = kucoin_row-IsMade item i (ground (arith, h))

  pub mexc_instrument-IsMade :
      (item : MexcInstrument) (i : Instrument)
      → mexc_instrument w wide item ≡ ok (some i)
      → IsMade wide mexc i
  unfolding mexc_instrument
  mexc_instrument-IsMade item i h = mexc_row-IsMade item i (ground (arith, h))

  pub bingx_instrument-IsMade :
      (item : BingxInstrument) (i : Instrument)
      → bingx_instrument w wide item ≡ ok (some i)
      → IsMade wide bingx i
  unfolding bingx_instrument
  bingx_instrument-IsMade item i h = bingx_row-IsMade item i (ground (arith, h))
