-- ===== src/Catalog/Instrument.antt =====
-- src/catalog.rs: instruments, their capabilities, filters and the errors of the catalog.
use market_stream_gateway.Prelude.{
  ℕ, Bool, true, ◌&&◌, ◌++◌, Option, none, some, ◌==◌, text_order, map,
}
use market_stream_gateway.Text.{Text, text, to_string, to_ascii_uppercase}
use market_stream_gateway.Domain.Identity.{
  Provider, MarketKind, Channel, ticker, candle_1m, bybit, binance, okx, kucoin, mexc, bingx,
  provider_name, market_name, channel_name, provider_order, market_order,
}
use market_stream_gateway.Domain.Payload.{DecimalValue}

pub data InstrumentStatus : Type 0 where
  live : InstrumentStatus

pub data CandleFinalitySupport : Type 0 where
  authoritative unknown : CandleFinalitySupport

pub data CandleVolumeSupport : Type 0 where
  available partial unavailable : CandleVolumeSupport

pub record InstrumentCapabilities : Type 0 where
  pub has_ticker : Bool
  pub has_candle_1m : Bool
  pub candle_1m_finality : CandleFinalitySupport
  pub candle_1m_volume : CandleVolumeSupport
  pub history_1m : Bool
  pub history_1m_finality : CandleFinalitySupport
  pub history_1m_volume : CandleVolumeSupport

unfoldable pub supports : InstrumentCapabilities → Channel → Bool
supports c ticker = c.has_ticker
supports c candle_1m = c.has_candle_1m

pub record Instrument : Type 0 where
  pub id : Text
  pub symbol : Text
  pub provider : Provider
  pub market : MarketKind
  pub base_asset : Text
  pub quote_asset : Text
  pub settle_asset : Text
  pub status : InstrumentStatus
  pub venue_status : Text
  pub tick_size : DecimalValue
  pub quantity_step : DecimalValue
  pub min_order_quantity : Option DecimalValue
  pub min_notional : Option DecimalValue
  pub contract_size : Option DecimalValue
  pub contract_size_asset : Option Text
  pub max_leverage : Option DecimalValue
  pub listing_time_ms : Option ℕ
  pub expiry_time_ms : Option ℕ
  pub capabilities : InstrumentCapabilities

pub record CatalogFilter : Type 0 where
  pub by_provider : Option Provider
  pub by_market : Option MarketKind
  pub by_symbol : Option Text
  pub by_base_asset : Option Text
  pub by_quote_asset : Option Text
  pub by_settle_asset : Option Text

-- `Option::is_none_or`.
abbrev pub is_none_or {ℓ} : {A : Type ℓ} → Option A → (A → Bool) → Bool
is_none_or none p = true
is_none_or (some a) p = p a

-- `str::eq_ignore_ascii_case`.
abbrev pub same_letters : Text → Text → Bool
same_letters s t = map to_ascii_uppercase s == map to_ascii_uppercase t

unfoldable pub matches_optional : Option Text → Text → Bool
matches_optional expected actual = is_none_or expected (λ e. same_letters e actual)

unfoldable pub matches : CatalogFilter → Instrument → Bool
matches f i =
    is_none_or f.by_provider (λ p. i.provider == p)
    && is_none_or f.by_market (λ m. i.market == m)
    && matches_optional f.by_symbol i.symbol
    && matches_optional f.by_base_asset i.base_asset
    && matches_optional f.by_quote_asset i.quote_asset
    && matches_optional f.by_settle_asset i.settle_asset

pub data CatalogError : Type 0 where
  provider_disabled : Provider → CatalogError
  request_failed : Provider → Text → CatalogError
  http_status : Provider → ℕ → CatalogError
  invalid_payload : Provider → Text → CatalogError
  duplicate_instrument : Provider → Text → CatalogError
  repeated_cursor : Provider → Text → CatalogError
  pagination_limit : Provider → ℕ → CatalogError
  empty_snapshot : Provider → CatalogError
  instrument_unavailable : Provider → MarketKind → Text → CatalogError
  unsupported_channel : Provider → MarketKind → Text → Channel → CatalogError

abbrev pub show_place : Provider → MarketKind → Text → Text
show_place p m s = provider_name p ++ text ":" ++ market_name m ++ text ":" ++ s

unfoldable pub show_catalog_error : CatalogError → Text
show_catalog_error (provider_disabled p) = provider_name p ++ text " instrument catalog is disabled"
show_catalog_error (request_failed p m) = provider_name p ++ text " catalog request failed: " ++ m
show_catalog_error (http_status p n) =
    provider_name p ++ text " catalog endpoint returned HTTP " ++ to_string n
show_catalog_error (invalid_payload p m) =
    provider_name p ++ text " catalog payload is invalid: " ++ m
show_catalog_error (duplicate_instrument p s) =
    provider_name p ++ text " catalog returned duplicate instrument " ++ s
show_catalog_error (repeated_cursor p c) =
    provider_name p ++ text " catalog pagination repeated cursor " ++ c
show_catalog_error (pagination_limit p n) =
    provider_name p
    ++ text " catalog exceeded the "
    ++ to_string n
    ++ text "-page pagination safety limit"
show_catalog_error (empty_snapshot p) =
    provider_name p ++ text " catalog returned no live linear perpetual instruments"
show_catalog_error (instrument_unavailable p m s) =
    text "instrument is not available: " ++ show_place p m s
show_catalog_error (unsupported_channel p m s c) =
    channel_name c ++ text " is not available for " ++ show_place p m s

abbrev pub all_channels :
    CandleFinalitySupport
    → CandleVolumeSupport
    → CandleFinalitySupport
    → CandleVolumeSupport
    → InstrumentCapabilities
all_channels finality volume history_finality history_volume = record {
  has_ticker = true;
  has_candle_1m = true;
  candle_1m_finality = finality;
  candle_1m_volume = volume;
  history_1m = true;
  history_1m_finality = history_finality;
  history_1m_volume = history_volume;
}

unfoldable pub capabilities : Provider → InstrumentCapabilities
capabilities bybit = all_channels authoritative available authoritative available
capabilities binance = all_channels authoritative available authoritative available
capabilities okx = all_channels authoritative available authoritative available
capabilities kucoin = all_channels unknown unavailable unknown unavailable
capabilities mexc = all_channels unknown partial authoritative available
capabilities bingx = all_channels unknown partial authoritative partial
