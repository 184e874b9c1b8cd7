-- ===== src/History/Venues.antt =====
-- src/history.rs: a request of bounded range reads every candle of the venue in range, where pages
-- cover fixed spans.
use market_stream_gateway.Prelude.{
  ℕ, ◌+◌, ◌-◌, ◌*◌, ◌/◌, ◌%◌, ◌≤◌, ◌<◌, ◌≡◌, Bool, true, ◌&&◌, List, [], arith, ltb, leb, some,
  Result, ok, max_u64,
}
use market_stream_gateway.Domain.Identity.{kucoin, mexc, bingx}
use market_stream_gateway.Domain.Payload.{Candle}
use market_stream_gateway.History.Request.{HistoryRequest, HistoryError, candle_interval_ms}
use market_stream_gateway.History.Pages.{
  Ask, until, mexc_ask, exclusive_query_end, fetch_kucoin, fetch_mexc, fetch_bingx, enough,
}
use market_stream_gateway.History.Unique.{has}
use market_stream_gateway.History.Spans.{Answers, fetch_spans_complete}

-- The bounds that `HistoryRequest::new` has checked.
pub record IsBounded (r : HistoryRequest) : Type 0 where
  pub ordered : r.start_time_ms < r.end_time_ms
  pub range : r.end_time_ms ≤ r.start_time_ms + 600_000_000
  pub start_minute : r.start_time_ms % 60_000 ≡ 0
  pub end_minute : r.end_time_ms % 60_000 ≡ 0
  pub word : r.end_time_ms ≤ max_u64

-- Both bounds of the query are inclusive. A query of at most 500 minutes is answered whole: the
-- venue gives at most 500 candles.
abbrev pub KucoinAnswers : (ℕ → ℕ → Result (List Candle) HistoryError) → (Candle → Bool) → Type 0
KucoinAnswers get market =
    (from last : ℕ)
    → last < from + 500 * 60_000
    → (page : List Candle) × (get from last ≡ ok page)
      × ((c : Candle)
          → has c page ≡ (market c && (leb from c.start_time_ms && leb c.start_time_ms last)))

-- Both bounds are inclusive, in seconds. A query of at most 2000 minutes is answered whole: the
-- venue gives at most 2000 candles.
abbrev pub MexcAnswers : (ℕ → ℕ → Result (List Candle) HistoryError) → (Candle → Bool) → Type 0
MexcAnswers get market =
    (from last : ℕ)
    → last < from + 2_000 * 60
    → (page : List Candle) × (get from last ≡ ok page)
      × ((c : Candle)
          → has c page ≡ (
              market c
              && (leb (from * 1_000) c.start_time_ms && leb c.start_time_ms (last * 1_000))))

-- All candles between the bounds, which are inclusive, when their minutes are no more than asked
-- for, and no more than 1440 are asked for.
abbrev pub BingxAnswers : (ℕ → ℕ → ℕ → Result (List Candle) HistoryError) → (Candle → Bool) → Type 0
BingxAnswers get market =
    (from last count : ℕ)
    → count ≤ 1_440
    → last < from + count * 60_000
    → (page : List Candle) × (get from last count ≡ ok page)
      × ((c : Candle)
          → has c page ≡ (market c && (leb from c.start_time_ms && leb c.start_time_ms last)))

abbrev pub IsMinutely : (Candle → Bool) → Type 0
IsMinutely market = (c : Candle) → market c ≡ true → c.start_time_ms % 60_000 ≡ 0

-- The candles of the market that start in the range of the request.
abbrev pub demanded : (Candle → Bool) → HistoryRequest → Candle → Bool
demanded market r c =
    market c && (leb r.start_time_ms c.start_time_ms && ltb c.start_time_ms r.end_time_ms)

module _ (get : ℕ → ℕ → Result (List Candle) HistoryError) (market : Candle → Bool)
    (r : HistoryRequest) (b : IsBounded r) where
  kucoin_answers : KucoinAnswers get market → Answers (until get) 30_000_000 market
  unfolding exclusive_query_end
  kucoin_answers h from to o n s e =
      let page = h from (to - 1) (omega (arith, o, n)) in
      (page.0, ground (arith, page.1, o), λ c. ground (arith, page.2 c, o))

  -- For a request of checked bounds and a venue that answers each query of at most 500 minutes with
  -- its candles between both bounds, `fetch_kucoin` finds, within its pages, exactly the candles of
  -- the market that start in the range of the request.
  pub fetch_kucoin_complete :
      KucoinAnswers get market
      → (found : List Candle) × (fetch_kucoin get r ≡ some (ok found))
        × ((c : Candle) → has c found ≡ demanded market r c)
  unfolding fetch_kucoin
  fetch_kucoin_complete h =
      fetch_spans_complete (until get) kucoin 30_000_000 r.end_time_ms market (kucoin_answers h) 20
        enough r.start_time_ms 0 [] (omega arith) (omega arith) b.word b.end_minute b.start_minute
        (omega arith) (omega arith) (omega (arith, b.range))

  mexc_answers :
      MexcAnswers get market → IsMinutely market → Answers (mexc_ask get r) 120_000_000 market
  mexc_answers h m from to o n s e =
      let first : from / 1_000 * 1_000 ≡ from = omega (arith, s) in
      let last : (to - 60_000) / 1_000 * 1_000 ≡ to - 60_000 = omega (arith, e) in
      let high : 60_000 ≤ to = omega (arith, e, o) in
      let page = h (from / 1_000) ((to - 60_000) / 1_000) (omega (arith, first, last, n, high)) in
      (
        page.0,
        ground (arith, page.1, high),
        λ c. ground (arith, page.2 c, m c, first, last, high, e),
      )

  -- For a request of checked bounds and a venue with candles at full minutes that answers each
  -- query in seconds of at most 2000 minutes with its candles between both bounds, `fetch_mexc`
  -- finds, within its pages, exactly the candles of the market that start in the range of the
  -- request.
  pub fetch_mexc_complete :
      MexcAnswers get market
      → IsMinutely market
      → (found : List Candle) × (fetch_mexc get r ≡ some (ok found))
        × ((c : Candle) → has c found ≡ demanded market r c)
  unfolding fetch_mexc
  fetch_mexc_complete h m =
      fetch_spans_complete (mexc_ask get r) mexc 120_000_000 r.end_time_ms market (mexc_answers h m)
        5 enough r.start_time_ms 0 [] (omega arith) (omega arith) b.word b.end_minute b.start_minute
        (omega arith) (omega arith) (omega (arith, b.range))

module _ (get : ℕ → ℕ → ℕ → Result (List Candle) HistoryError) (market : Candle → Bool)
    (r : HistoryRequest) (b : IsBounded r) where
  abbrev bingx_ask : Ask
  bingx_ask = λ from to. until (λ x y. get x y ((to - from) / candle_interval_ms)) from to

  bingx_answers : BingxAnswers get market → Answers bingx_ask 86_400_000 market
  unfolding exclusive_query_end
  bingx_answers h from to o n s e =
      let whole : from + (to - from) / 60_000 * 60_000 ≡ to = omega (arith, o, s, e) in
      let page =
        h from (to - 1) ((to - from) / 60_000) (omega (arith, whole, n))
          (omega (arith, whole, o)) in
      (page.0, ground (arith, page.1, o), λ c. ground (arith, page.2 c, o))

  -- For a request of checked bounds and a venue that answers each query, where the count asked for
  -- is at most 1440 and covers its minutes, with its candles between both bounds, `fetch_bingx`
  -- finds, within its pages, exactly the candles of the market that start in the range of the
  -- request.
  pub fetch_bingx_complete :
      BingxAnswers get market
      → (found : List Candle) × (fetch_bingx get r ≡ some (ok found))
        × ((c : Candle) → has c found ≡ demanded market r c)
  unfolding fetch_bingx
  fetch_bingx_complete h =
      fetch_spans_complete bingx_ask bingx 86_400_000 r.end_time_ms market (bingx_answers h) 7
        enough r.start_time_ms 0 [] (omega arith) (omega arith) b.word b.end_minute b.start_minute
        (omega arith) (omega arith) (omega (arith, b.range))
