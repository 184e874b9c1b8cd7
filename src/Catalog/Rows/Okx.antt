-- ===== src/Catalog/Rows/Okx.antt =====
-- src/catalog.rs: the instruments of OKX.
use market_stream_gateway.Prelude.{
  ℕ, Bool, not, ◌||◌, ◌++◌, Option, none, some, if◌then◌else◌, is_empty, Result, ok, err, ◌>>=◌,
  ◌==◌, text_order,
}
use market_stream_gateway.Text.{Text, text}
use market_stream_gateway.Domain.Identity.{linear_perpetual, instrument_id, okx}
use market_stream_gateway.Catalog.Instrument.{
  Instrument, CatalogError, live, capabilities, invalid_payload,
}
use market_stream_gateway.Catalog.Wire.{
  WireScalar, WireDecimals, positive_decimal, optional_positive_decimal, optional_timestamp_ms,
  exact_symbol, exact_asset,
}
use market_stream_gateway.History.Request.{split_once, has_char}

pub record OkxInstrument : Type 0 where
  pub inst_id : Text
  pub inst_type : Text
  pub state : Text
  pub base_ccy : Text
  pub quote_ccy : Text
  pub settle_ccy : Text
  pub ct_type : Text
  pub ct_val : WireScalar
  pub ct_val_ccy : Text
  pub tick_sz : WireScalar
  pub lot_sz : WireScalar
  pub min_sz : Option WireScalar
  pub lever : Option WireScalar
  pub list_time : Option WireScalar
  pub exp_time : Option WireScalar
  pub uly : Text
  pub inst_family : Text

unfoldable pub okx_underlying_assets : OkxInstrument → Result (Text × Text) CatalogError
okx_underlying_assets item =
    let underlying = if is_empty item.uly then item.inst_family else item.uly in
    elim (split_once b'-' underlying) [
      | none ↦
          err (invalid_payload okx (text "could not derive assets from underlying " ++ underlying))
      | some (base, quote) ↦
          if has_char b'-' quote
          then err (
              invalid_payload okx
                (text "underlying must contain exactly two assets: " ++ underlying))
          else (do
            b ← exact_asset okx (text "underlying base") base
            q ← exact_asset okx (text "underlying quote") quote
            ok (b, q))
    ]

-- The field where it is given, and otherwise what was derived.
unfoldable pub given_or : Text → Text → Text → Result Text CatalogError
given_or field given derived = if is_empty given then ok derived else exact_asset okx field given

module _ {D : Type 0} (w : WireDecimals D) (wide : ℕ → Bool) where
  unfoldable pub okx_row : OkxInstrument → Result (Option Instrument) CatalogError
  unfolding given_or
  okx_row item = do
    derived ← okx_underlying_assets item
    base_asset ← given_or (text "baseCcy") item.base_ccy derived.0
    quote_asset ← given_or (text "quoteCcy") item.quote_ccy derived.1
    contract_size_asset ← given_or (text "ctValCcy") item.ct_val_ccy base_asset
    symbol ← exact_symbol wide okx item.inst_id
    settle_asset ← exact_asset okx (text "settleCcy") item.settle_ccy
    tick_size ← positive_decimal w okx (text "tickSz") item.tick_sz
    quantity_step ← positive_decimal w okx (text "lotSz") item.lot_sz
    min_order_quantity ← optional_positive_decimal w okx (text "minSz") item.min_sz
    contract_size ← positive_decimal w okx (text "ctVal") item.ct_val
    max_leverage ← optional_positive_decimal w okx (text "lever") item.lever
    listing_time_ms ← optional_timestamp_ms okx (text "listTime") item.list_time
    expiry_time_ms ← optional_timestamp_ms okx (text "expTime") item.exp_time
    ok (
        some (record {
          id = instrument_id okx linear_perpetual symbol;
          symbol = symbol;
          provider = okx;
          market = linear_perpetual;
          base_asset = base_asset;
          quote_asset = quote_asset;
          settle_asset = settle_asset;
          status = live;
          venue_status = item.state;
          tick_size = tick_size;
          quantity_step = quantity_step;
          min_order_quantity = min_order_quantity;
          min_notional = none;
          contract_size = some contract_size;
          contract_size_asset = some contract_size_asset;
          max_leverage = max_leverage;
          listing_time_ms = listing_time_ms;
          expiry_time_ms = expiry_time_ms;
          capabilities = capabilities okx;
        }))

  unfoldable pub okx_instrument : OkxInstrument → Result (Option Instrument) CatalogError
  okx_instrument item =
      if not (item.inst_type == text "SWAP")
        || not (item.ct_type == text "linear")
        || not (item.state == text "live")
      then ok none
      else okx_row item
