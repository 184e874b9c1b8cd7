-- ===== src/History/Finish.antt =====
-- src/history.rs: `finish_result`. `Vec::sort_unstable_by_key` promises no order between candles
-- of one start, so the sort is an argument.
use market_stream_gateway.Prelude.{
  ℕ, Bool, true, false, ◌&&◌, List, [], ◌∷◌, ◌++◌, Option, none, some, leb, eqb, map, take, keep,
  Result, ok, err, ◌>>=◌, ◌==◌, text_order, nat_order,
}
use market_stream_gateway.Text.{Text, text, to_string}
use market_stream_gateway.Domain.Identity.{Provider, MarketKind, linear_perpetual}
use market_stream_gateway.Domain.Payload.{
  Candle, CandleFinality, DataQuality, DecimalValue, opened, closed, unknown,
  provider_volume_untrusted,
}
use market_stream_gateway.History.Request.{HistoryRequest, HistoryError, invalid_payload}

pub record HistoryCandle : Type 0 where
  pub provider : Provider
  pub market : MarketKind
  pub symbol : Text
  pub candle : Candle

pub record HistoryResult : Type 0 where
  pub provider : Provider
  pub market : MarketKind
  pub symbol : Text
  pub start_time_ms : ℕ
  pub end_time_ms : ℕ
  pub candles : List HistoryCandle

-- The derived equality of candles.
abbrev pub same_volume : Option DecimalValue → Option DecimalValue → Bool
same_volume none none = true
same_volume (some a) (some b) = a == b
same_volume _ _ = false

abbrev pub same_finality : CandleFinality → CandleFinality → Bool
same_finality opened opened = true
same_finality closed closed = true
same_finality unknown unknown = true
same_finality _ _ = false

abbrev pub same_quality : List DataQuality → List DataQuality → Bool
same_quality [] [] = true
same_quality (provider_volume_untrusted ∷ qs) (provider_volume_untrusted ∷ rs) = same_quality qs rs
same_quality _ _ = false

unfoldable pub same_candle : Candle → Candle → Bool
same_candle c d =
    c.interval == d.interval
    && eqb c.start_time_ms d.start_time_ms
    && eqb c.end_time_ms d.end_time_ms
    && c.opening == d.opening
    && c.high == d.high
    && c.low == d.low
    && c.close == d.close
    && same_volume c.base_volume d.base_volume
    && same_volume c.quote_volume d.quote_volume
    && same_volume c.contract_volume d.contract_volume
    && same_finality c.finality d.finality
    && same_quality c.data_quality d.data_quality

abbrev pub in_range : HistoryRequest → Candle → Bool
in_range r c = leb r.start_time_ms c.start_time_ms && leb c.end_time_ms r.end_time_ms

abbrev pub conflict : Provider → Candle → HistoryError
conflict p c =
    invalid_payload p (text "conflicting duplicate candle at " ++ to_string c.start_time_ms)

-- The loop over the sorted candles, with the last of `unique` as its state; the result is what the
-- loop still pushes.
unfoldable pub push_unique : Provider → Candle → List Candle → Result (List Candle) HistoryError
push_unique p previous [] = ok []
push_unique p previous (c ∷ cs) = elim (eqb previous.start_time_ms c.start_time_ms) [
  | true ↦ elim (same_candle previous c) [
    | true ↦ push_unique p previous cs
    | false ↦ err (conflict p c)
  ]
  | false ↦ elim (push_unique p c cs) [ err e ↦ err e | ok rest ↦ ok (c ∷ rest) ]
]

unfoldable pub unique_candles : Provider → List Candle → Result (List Candle) HistoryError
unique_candles p [] = ok []
unique_candles p (c ∷ cs) = elim (push_unique p c cs) [ err e ↦ err e | ok rest ↦ ok (c ∷ rest) ]

abbrev pub history_candle : HistoryRequest → Candle → HistoryCandle
history_candle r c = record {
  provider = r.provider;
  market = linear_perpetual;
  symbol = r.symbol;
  candle = c;
}

module _ (sort : List Candle → List Candle) where
  unfoldable pub finish_result : HistoryRequest → List Candle → Result HistoryResult HistoryError
  finish_result r candles = do
    unique ← unique_candles r.provider (sort (keep (in_range r) candles))
    ok (record {
      provider = r.provider;
      market = linear_perpetual;
      symbol = r.symbol;
      start_time_ms = r.start_time_ms;
      end_time_ms = r.end_time_ms;
      candles = map (history_candle r) (take r.limit unique);
    })
