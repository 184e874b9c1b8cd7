-- ===== src/History/Pages.antt =====
-- src/history.rs: the pagination of `HistoryClient`. A request to a venue with the parse of its
-- answer is an argument, by the bounds the query is built from. Every loop takes fuel, and gives
-- none when it runs out.
use market_stream_gateway.Prelude.{
  ℕ, zero, suc, ◌+◌, ◌-◌, ◌*◌, ◌/◌, true, false, ◌||◌, List, [], ◌∷◌, ◌++◌, Option, none, some, ltb,
  leb, if◌then◌else◌, length, min, max, Result, ok, err, max_u64,
}
use market_stream_gateway.Text.{text}
use market_stream_gateway.Domain.Identity.{Provider, bybit, binance, okx, kucoin, mexc, bingx}
use market_stream_gateway.Domain.Payload.{Candle, checked_sub}
use market_stream_gateway.History.Request.{
  HistoryRequest, HistoryError, invalid_request, invalid_payload, pagination_stalled,
  candle_interval_ms,
}

abbrev pub max_upstream_pages : ℕ
max_upstream_pages = 40

abbrev pub bybit_page_limit : ℕ
bybit_page_limit = 1_000

abbrev pub binance_page_limit : ℕ
binance_page_limit = 1_500

abbrev pub okx_page_limit : ℕ
okx_page_limit = 300

abbrev pub kucoin_page_limit : ℕ
kucoin_page_limit = 500

abbrev pub mexc_page_limit : ℕ
mexc_page_limit = 2_000

abbrev pub bingx_page_limit : ℕ
bingx_page_limit = 1_440

-- The pages read, one more counted.
unfoldable pub count_page : Provider → ℕ → Result ℕ HistoryError
count_page p pages =
    if leb max_upstream_pages pages then err (pagination_stalled p 0) else ok (pages + 1)

unfoldable pub exclusive_query_end : ℕ → Result ℕ HistoryError
exclusive_query_end end = elim (checked_sub end 1) [
  | none ↦ err (invalid_request (text "exclusive end timestamp must be positive"))
  | some n ↦ ok n
]

-- `u64::saturating_add`, and `u64::checked_add`.
abbrev pub saturating_add : ℕ → ℕ → ℕ
saturating_add a b = min (a + b) max_u64

abbrev pub checked_add : ℕ → ℕ → Option ℕ
checked_add a b = if leb (a + b) max_u64 then some (a + b) else none

-- `Iterator::min` and `Iterator::max` over the starts of a page that is not empty.
abbrev pub oldest : Candle → List Candle → ℕ
oldest c [] = c.start_time_ms
oldest c (d ∷ ds) = min c.start_time_ms (oldest d ds)

abbrev pub newest : Candle → List Candle → ℕ
newest c [] = c.start_time_ms
newest c (d ∷ ds) = max c.start_time_ms (newest d ds)

abbrev pub Fetched : Type 0
Fetched = Option (Result (List Candle) HistoryError)

-- What a page query gives, from one time to another.
abbrev pub Ask : Type 0
Ask = ℕ → ℕ → Result (List Candle) HistoryError

module _ (ask : Ask) (p : Provider) (span : ℕ) (end : ℕ) where
  abbrev pub page_end : ℕ → ℕ
  page_end cursor = min (saturating_add cursor span) end

  -- The loop of `fetch_kucoin`, `fetch_mexc` and `fetch_bingx`: fuel, cursor, pages, candles.
  unfoldable pub fetch_spans : ℕ → ℕ → ℕ → List Candle → Fetched
  fetch_spans zero cursor pages candles = none
  fetch_spans (suc fuel) cursor pages candles = elim (ltb cursor end) [
    | false ↦ some (ok candles)
    | true ↦ elim (count_page p pages) [
      | err e ↦ some (err e)
      | ok counted ↦ elim (ask cursor (page_end cursor)) [
        | err e ↦ some (err e)
        | ok page ↦ elim (leb (page_end cursor) cursor) [
          | true ↦ some (err (pagination_stalled p cursor))
          | false ↦ fetch_spans fuel (page_end cursor) counted (candles ++ page)
        ]
      ]
    ]
  ]

module _ (ask : Ask) (p : Provider) (page_limit : ℕ) (start : ℕ) where
  -- The loop of `fetch_bybit` and `fetch_okx`, from the end backwards.
  unfoldable pub fetch_backward : ℕ → ℕ → ℕ → List Candle → Fetched
  fetch_backward zero cursor pages candles = none
  fetch_backward (suc fuel) cursor pages candles = elim (count_page p pages) [
    | err e ↦ some (err e)
    | ok counted ↦ elim (ask start cursor) [
      | err e ↦ some (err e)
      | ok [] ↦ some (ok candles)
      | ok (c ∷ cs) ↦ elim (leb cursor (oldest c cs)) [
        | true ↦ some (err (pagination_stalled p cursor))
        | false ↦ elim (leb (oldest c cs) start || ltb (length (c ∷ cs)) page_limit) [
          | true ↦ some (ok (candles ++ c ∷ cs))
          | false ↦ fetch_backward fuel (oldest c cs) counted (candles ++ c ∷ cs)
        ]
      ]
    ]
  ]

module _ (ask : Ask) (end : ℕ) where
  -- The loop of `fetch_binance`, from the start forwards.
  unfoldable pub fetch_forward : ℕ → ℕ → ℕ → List Candle → Fetched
  fetch_forward zero cursor pages candles = none
  fetch_forward (suc fuel) cursor pages candles = elim (ltb cursor end) [
    | false ↦ some (ok candles)
    | true ↦ elim (count_page binance pages) [
      | err e ↦ some (err e)
      | ok counted ↦ elim (ask cursor end) [
        | err e ↦ some (err e)
        | ok [] ↦ some (ok candles)
        | ok (c ∷ cs) ↦ elim (checked_add (newest c cs) candle_interval_ms) [
          | none ↦ some (err (invalid_payload binance (text "pagination timestamp overflow")))
          | some next ↦ elim (leb next cursor) [
            | true ↦ some (err (pagination_stalled binance cursor))
            | false ↦ elim (leb end next || ltb (length (c ∷ cs)) binance_page_limit) [
              | true ↦ some (ok (candles ++ c ∷ cs))
              | false ↦ fetch_forward fuel next counted (candles ++ c ∷ cs)
            ]
          ]
        ]
      ]
    ]
  ]

-- One turn more than the pages that may be read.
abbrev pub enough : ℕ
enough = 41

-- A query up to the last millisecond before an end.
abbrev pub until : (ℕ → ℕ → Result (List Candle) HistoryError) → Ask
until get from to = elim (exclusive_query_end to) [ err e ↦ err e | ok last ↦ get from last ]

module _ (get : ℕ → ℕ → Result (List Candle) HistoryError) (r : HistoryRequest) where
  unfoldable pub fetch_bybit : Fetched
  fetch_bybit =
      fetch_backward (until get) bybit bybit_page_limit r.start_time_ms enough r.end_time_ms 0 []

  -- Its bounds are exclusive.
  unfoldable pub fetch_okx : Fetched
  fetch_okx =
      fetch_backward (λ from to. get (from - 1) to) okx okx_page_limit r.start_time_ms enough
        r.end_time_ms 0 []

  unfoldable pub fetch_binance : Fetched
  fetch_binance = fetch_forward (until get) r.end_time_ms enough r.start_time_ms 0 []

  unfoldable pub fetch_kucoin : Fetched
  fetch_kucoin =
      fetch_spans (until get) kucoin (kucoin_page_limit * candle_interval_ms) r.end_time_ms enough
        r.start_time_ms 0 []

  -- In seconds, the start of the last candle included.
  abbrev pub mexc_ask : Ask
  mexc_ask from to = elim (checked_sub to candle_interval_ms) [
    | none ↦ err (invalid_payload mexc (text "page end underflow"))
    | some last ↦ get (from / 1_000) (last / 1_000)
  ]

  unfoldable pub fetch_mexc : Fetched
  fetch_mexc =
      fetch_spans mexc_ask mexc (mexc_page_limit * candle_interval_ms) r.end_time_ms enough
        r.start_time_ms 0 []

-- `get` is also told how many candles to give.
unfoldable pub fetch_bingx :
    (ℕ → ℕ → ℕ → Result (List Candle) HistoryError) → HistoryRequest → Fetched
fetch_bingx get r =
    fetch_spans (λ from to. until (λ a b. get a b ((to - from) / candle_interval_ms)) from to) bingx
      (bingx_page_limit * candle_interval_ms) r.end_time_ms enough r.start_time_ms 0 []
