-- ===== src/Tests/Volumes.antt =====
-- src/api.rs: a candle of MEXC whose volume is three contracts of two.
use market_stream_gateway.Prelude.{ℕ, ◌*◌, ◌≡◌, ◌≢◌, ◌⊎◌, refl, [], ◌∷◌, none, some, ok, ltb}
use market_stream_gateway.Text.{Text, text, to_string, digits}
use market_stream_gateway.Domain.Identity.{mexc, linear_perpetual, provider_order}
use market_stream_gateway.Domain.Payload.{
  Candle, closed, decimal, check_bounds, check_volumes, validate_candle, new_decimal,
}
use market_stream_gateway.History.Finish.{HistoryResult}
use market_stream_gateway.Catalog.Instrument.{Instrument}
use market_stream_gateway.Catalog.Wire.{parse_u64}
use market_stream_gateway.Api.Requests.{
  VolumeDecimals, enrich_history_volumes, contract_size, enrich_rows, enrich_row, convert_row,
}
use market_stream_gateway.Api.Volumes.{AllEnriched, enrich_history_volumes-Enriched}
use market_stream_gateway.Tests.Catalog.{btc, five, btc_instrument}

abbrev whole_volumes : VolumeDecimals ℕ
whole_volumes = record {
  decimals = record { from_str = parse_u64; lt = ltb; zero = 0 };
  checked_mul = λ a b. some (a * b);
  show_normalized = to_string;
}

abbrev two : Text
two = 50 ∷ []

abbrev pair : Instrument
pair = record btc_instrument {
  provider = mexc;
  contract_size = some two;
  contract_size_asset = some btc;
}

abbrev bare : Candle
bare = record {
  interval = text "1m";
  start_time_ms = 60_000;
  end_time_ms = 120_000;
  opening = five;
  high = five;
  low = five;
  close = five;
  base_volume = none;
  quote_volume = none;
  contract_volume = some (51 ∷ []);
  finality = closed;
  data_quality = [];
}

abbrev result_of : Candle → HistoryResult
result_of c = record {
  provider = mexc;
  market = linear_perpetual;
  symbol = btc;
  start_time_ms = 60_000;
  end_time_ms = 120_000;
  candles = record { provider = mexc; market = linear_perpetual; symbol = btc; candle = c } ∷ [];
}

abbrev filled : Candle
filled = record bare { base_volume = some (54 ∷ []) }

enriched_lem : enrich_history_volumes whole_volumes (result_of bare) pair ≡ ok (result_of filled)
unfolding enrich_history_volumes contract_size enrich_rows enrich_row convert_row new_decimal
    validate_candle decimal check_bounds check_volumes parse_u64 to_string digits text
enriched_lem = refl

enrich_history_volumes-Enriched_example :
    ((mexc ≢ mexc) × (result_of filled ≡ result_of bare))
    ⊎ ((mexc ≡ mexc)
        × (pair.contract_size_asset ≡ some pair.base_asset)
        × ((size_text : Text) × (size : ℕ) × (pair.contract_size ≡ some size_text)
            × (parse_u64 size_text ≡ some size)
            × (result_of filled ≡ record (result_of bare) { candles = (result_of filled).candles })
            × AllEnriched whole_volumes size (result_of bare).candles (result_of filled).candles))
enrich_history_volumes-Enriched_example =
    enrich_history_volumes-Enriched whole_volumes (result_of bare) (result_of filled) pair
      enriched_lem
