-- ===== src/History/Accepted.antt =====
-- src/history.rs: which requests `HistoryRequest::new` accepts.
use market_stream_gateway.Prelude.{
  ℕ, ◌+◌, ◌%◌, ◌≤◌, ◌<◌, ◌≡◌, Bool, true, arith, text_order, ==_refl, Result-cases, inl, inr, ok,
}
use market_stream_gateway.Text.{Text}
use market_stream_gateway.Domain.Identity.{Provider}
use market_stream_gateway.Domain.Symbol.{normalize_symbol}
use market_stream_gateway.History.Request.{
  HistoryRequest, new_request, is_provider_symbol, validate_provider_symbol, normalized,
  max_history_range_ms, max_history_candles,
}

pub record IsAcceptable (wide : ℕ → Bool) (p : Provider) (symbol : Text) (start end limit : ℕ)
    : Type 0 where
  pub exact : normalize_symbol wide symbol ≡ ok symbol
  pub venue : is_provider_symbol wide p symbol ≡ true
  pub positive : 0 < start
  pub start_minute : start % 60_000 ≡ 0
  pub end_minute : end % 60_000 ≡ 0
  pub ordered : start < end
  pub bounded : end ≤ start + max_history_range_ms
  pub some_candles : 1 ≤ limit
  pub few_candles : limit ≤ max_history_candles

module _ (wide : ℕ → Bool) (p : Provider) (symbol : Text) (start end limit : ℕ) where
  normalized-eq-ok :
      (n : Text) → normalized wide symbol ≡ ok n → normalize_symbol wide symbol ≡ ok n
  normalized-eq-ok n h = elim (Result-cases (normalize_symbol wide symbol)) [
    | inl (e, q) ↦ ground (arith, q)
    | inr (m, q) ↦ ground (arith, q)
  ]

  -- `HistoryRequest::new` accepts every acceptable request: a symbol that is its own normal form
  -- and one of the venue, both bounds full minutes, the start positive and before the end, the
  -- range at most 600000000 milliseconds, and the limit between 1 and 10000.
  pub new_request-accepts :
      IsAcceptable wide p symbol start end limit
      → new_request wide p symbol start end limit
        ≡ ok (record {
          provider = p;
          symbol = symbol;
          start_time_ms = start;
          end_time_ms = end;
          limit = limit;
        })
  unfolding new_request validate_provider_symbol
  new_request-accepts v = ground (arith, ==_refl symbol)

  -- A request that `HistoryRequest::new` accepts is acceptable, and holds the arguments unchanged:
  -- the symbol is its own normal form and one of the venue, both bounds are full minutes, the start
  -- is positive and before the end, the range is at most 600000000 milliseconds, and the limit is
  -- between 1 and 10000.
  pub new_request-accepted :
      (r : HistoryRequest)
      → new_request wide p symbol start end limit ≡ ok r
      → IsAcceptable wide p symbol start end limit
        × (r ≡ record {
          provider = p;
          symbol = symbol;
          start_time_ms = start;
          end_time_ms = end;
          limit = limit;
        })
  unfolding new_request validate_provider_symbol
  new_request-accepted r h = elim (Result-cases (normalize_symbol wide symbol)) [
    | inl (e, q) ↦ ground (arith, q)
    | inr (m, q) ↦
        let same : symbol ≡ m = ground (arith, q, h, text_order.beq_iff symbol m) in
        let venue : is_provider_symbol wide p symbol ≡ true = ground (arith, q, h, same) in
        (
          record {
            exact = ground (arith, q, same);
            venue = venue;
            positive = ground (arith, q, h);
            start_minute = ground (arith, q, h);
            end_minute = ground (arith, q, h);
            ordered = ground (arith, q, h);
            bounded = ground (arith, q, h);
            some_candles = ground (arith, q, h);
            few_candles = ground (arith, q, h);
          },
          ground (arith, q, h, same),
        )
  ]
