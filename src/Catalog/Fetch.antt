-- ===== src/Catalog/Fetch.antt =====
-- src/catalog.rs: `fetch_provider`. What `get_body` gives for each endpoint, as the JSON library
-- reads it, is an argument: a failure of the request, or a body.
use market_stream_gateway.Prelude.{ℕ, Bool, List, Option, Result, ◌>>=◌}
use market_stream_gateway.Text.{Text}
use market_stream_gateway.Domain.Identity.{Provider, bybit, binance, okx, kucoin, mexc, bingx}
use market_stream_gateway.Catalog.Instrument.{CatalogError}
use market_stream_gateway.Catalog.Wire.{WireDecimals}
use market_stream_gateway.Catalog.Rows.Binance.{BinanceInstrument}
use market_stream_gateway.Catalog.Pages.{
  Instruments, BybitEnvelope, BybitPage, OkxEnvelope, KucoinEnvelope, MexcEnvelope, BingxEnvelope,
  parse_bybit_page, fetch_bybit_catalog, parse_binance_catalog, parse_okx_catalog,
  parse_kucoin_catalog, parse_mexc_catalog, parse_bingx_catalog,
}

abbrev Body : Type 0 → Type 0
Body A = Result (Result A Text) CatalogError

-- The answers of the six endpoints; that of Bybit by the cursor asked for.
pub record Answers : Type 0 where
  pub bybit_body : Option Text → Body BybitEnvelope
  pub binance_body : Body (List BinanceInstrument)
  pub okx_body : Body OkxEnvelope
  pub kucoin_body : Body KucoinEnvelope
  pub mexc_body : Body MexcEnvelope
  pub bingx_body : Body BingxEnvelope

module _ {D : Type 0} (w : WireDecimals D) (wide : ℕ → Bool) (a : Answers) where
  -- One turn's request: the body, parsed.
  unfoldable pub bybit_page : Option Text → Result BybitPage CatalogError
  bybit_page cursor = a.bybit_body cursor >>= parse_bybit_page w wide

  unfoldable pub fetch_provider : Provider → Result Instruments CatalogError
  fetch_provider bybit = fetch_bybit_catalog bybit_page
  fetch_provider binance = a.binance_body >>= parse_binance_catalog w wide
  fetch_provider okx = a.okx_body >>= parse_okx_catalog w wide
  fetch_provider kucoin = a.kucoin_body >>= parse_kucoin_catalog w wide
  fetch_provider mexc = a.mexc_body >>= parse_mexc_catalog w wide
  fetch_provider bingx = a.bingx_body >>= parse_bingx_catalog w wide
