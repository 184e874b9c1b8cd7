-- ===== src/Tests/History.antt =====
-- src/history.rs and src/domain.rs: one candle, requested, fetched, checked and returned.
use market_stream_gateway.Prelude.{
  ℕ, ◌*◌, ◌≤◌, ◌≡◌, refl, ap, sym, ◌∙◌, Bool, true, false, ◌&&◌, ◌||◌, List, [], ◌∷◌, Option, none,
  some, arith, ltb, leb, if◌then◌else◌, Bool-cases, inl, inr, Result, ok, nat_order, text_order,
}
use market_stream_gateway.Text.{
  text, is_whitespace, is_ascii_alphanumeric, to_ascii_uppercase, Text,
}
use market_stream_gateway.Domain.Identity.{bybit, okx}
use market_stream_gateway.Domain.Symbol.{normalize_symbol, trim}
use market_stream_gateway.Domain.Payload.{Candle, closed, Decimals, validate_candle, is_some}
use market_stream_gateway.Domain.Candles.{
  IsCandle, validate_candle-accepts, validate_candle-accepted,
}
use market_stream_gateway.History.Request.{
  HistoryRequest, HistoryError, new_request, is_provider_symbol, ascii_alphanumeric,
}
use market_stream_gateway.History.Accepted.{IsAcceptable, new_request-accepts, new_request-accepted}
use market_stream_gateway.History.Finish.{HistoryResult, same_candle, in_range, finish_result}
use market_stream_gateway.History.Unique.{has, Upward, same_candle_iff}
use market_stream_gateway.History.Outcome.{
  IsSort, Finished, finish_result-Finished, finish_result-succeeds,
}
use market_stream_gateway.History.Pages.{fetch_backward, fetch_kucoin, fetch_mexc, fetch_bingx}
use market_stream_gateway.History.Spans.{fetch_backward-total}
use market_stream_gateway.History.Venues.{
  IsBounded, KucoinAnswers, MexcAnswers, BingxAnswers, IsMinutely, demanded, fetch_kucoin_complete,
  fetch_mexc_complete, fetch_bingx_complete,
}

abbrev one : Text
one = 49 ∷ []

abbrev minute : Candle
minute = record {
  interval = text "1m";
  start_time_ms = 120_000;
  end_time_ms = 180_000;
  opening = one;
  high = one;
  low = one;
  close = one;
  base_volume = some one;
  quote_volume = none;
  contract_volume = none;
  finality = closed;
  data_quality = [];
}

abbrev hour : HistoryRequest
hour = record {
  provider = bybit;
  symbol = 66 ∷ 85 ∷ 83 ∷ 68 ∷ 84 ∷ [];
  start_time_ms = 60_000;
  end_time_ms = 3_660_000;
  limit = 10;
}

-- An insertion sort.
unfoldable put : Candle → List Candle → List Candle
put c [] = c ∷ []
put c (d ∷ ds) = if leb c.start_time_ms d.start_time_ms then c ∷ d ∷ ds else d ∷ put c ds

unfoldable sort : List Candle → List Candle
sort [] = []
sort (c ∷ cs) = put c (sort cs)

put-Upward :
    (c : Candle) (lo : ℕ) (ds : List Candle)
    → lo ≤ c.start_time_ms
    → Upward lo ds
    → Upward lo (put c ds)
unfolding put
put-Upward c lo [] h u = (h, tt)
put-Upward c lo (d ∷ ds) h u = ground (arith, put-Upward c d.start_time_ms ds)

has-put : (x c : Candle) (ds : List Candle) → has x (put c ds) ≡ (same_candle c x || has x ds)
unfolding put
has-put x c [] = refl
has-put x c (d ∷ ds) = ground (arith, has-put x c ds)

sort-Upward : (cs : List Candle) → Upward 0 (sort cs)
unfolding sort
sort-Upward [] = tt
sort-Upward (c ∷ cs) = put-Upward c 0 (sort cs) (omega arith) (sort-Upward cs)

has-sort : (x : Candle) (cs : List Candle) → has x (sort cs) ≡ has x cs
unfolding sort
has-sort x [] = refl
has-sort x (c ∷ cs) = ground (arith, has-put x c (sort cs), has-sort x cs)

sort-IsSort : IsSort sort
sort-IsSort = record { rises = sort-Upward; same = has-sort }

single_agrees :
    (c d : Candle)
    → (has c (minute ∷ []) && in_range hour c) ≡ true
    → (has d (minute ∷ []) && in_range hour d) ≡ true
    → c.start_time_ms ≡ d.start_time_ms
    → c ≡ d
single_agrees c d h k e =
    sym ((same_candle_iff minute c).0 (ground arith)) ∙ (same_candle_iff minute d).0 (ground arith)

finish_result-succeeds_example :
    (out : HistoryResult) × (finish_result sort hour (minute ∷ []) ≡ ok out)
finish_result-succeeds_example =
    finish_result-succeeds sort sort-IsSort hour (minute ∷ []) single_agrees

abbrev answer : (out : HistoryResult) × (finish_result sort hour (minute ∷ []) ≡ ok out)
answer = finish_result-succeeds sort sort-IsSort hour (minute ∷ []) single_agrees

finish_result-Finished_example : Finished hour (minute ∷ []) answer.0
finish_result-Finished_example =
    finish_result-Finished sort sort-IsSort hour (minute ∷ []) answer.0 answer.1

minute_in_range : (has minute (minute ∷ []) && in_range hour minute) ≡ true
minute_in_range = ground (arith, same_candle_iff minute minute)

-- A market of one candle, and a venue that serves it.
abbrev market : Candle → Bool
market c = same_candle minute c

abbrev between : ℕ → ℕ → List Candle
between from last = if leb from 120_000 && leb 120_000 last then minute ∷ [] else []

abbrev venue : ℕ → ℕ → Result (List Candle) HistoryError
venue from last = ok (between from last)

abbrev venue_in_seconds : ℕ → ℕ → Result (List Candle) HistoryError
venue_in_seconds from last = ok (between (from * 1_000) (last * 1_000))

abbrev venue_up_to : ℕ → ℕ → ℕ → Result (List Candle) HistoryError
venue_up_to from last count = ok (between from last)

has-between :
    (from last : ℕ) (c : Candle)
    → has c (between from last)
      ≡ (market c && (leb from c.start_time_ms && leb c.start_time_ms last))
has-between from last c = elim (Bool-cases (same_candle minute c)) [
  | inl e ↦
      (let start = ap (λ d. d.start_time_ms) ((same_candle_iff minute c).0 e) in
        ground (arith, e, start))
  | inr e ↦ ground (arith, e)
]

venue-KucoinAnswers : KucoinAnswers venue market
venue-KucoinAnswers from last near = (between from last, refl, has-between from last)

venue-MexcAnswers : MexcAnswers venue_in_seconds market
venue-MexcAnswers from last near =
    (between (from * 1_000) (last * 1_000), refl, has-between (from * 1_000) (last * 1_000))

venue-BingxAnswers : BingxAnswers venue_up_to market
venue-BingxAnswers from last count few h = (between from last, refl, has-between from last)

market-IsMinutely : IsMinutely market
market-IsMinutely c h =
    let start : 120_000 ≡ c.start_time_ms =
      ap (λ d. d.start_time_ms) ((same_candle_iff minute c).0 h) in
    omega (arith, start)

hour-IsBounded : IsBounded hour
hour-IsBounded = record {
  ordered = omega arith;
  range = omega arith;
  start_minute = omega arith;
  end_minute = omega arith;
  word = omega arith;
}

fetch_kucoin_complete_example :
    (found : List Candle) × (fetch_kucoin venue hour ≡ some (ok found))
    × ((c : Candle) → has c found ≡ demanded market hour c)
fetch_kucoin_complete_example =
    fetch_kucoin_complete venue market hour hour-IsBounded venue-KucoinAnswers

fetch_mexc_complete_example :
    (found : List Candle) × (fetch_mexc venue_in_seconds hour ≡ some (ok found))
    × ((c : Candle) → has c found ≡ demanded market hour c)
fetch_mexc_complete_example =
    fetch_mexc_complete venue_in_seconds market hour hour-IsBounded venue-MexcAnswers
      market-IsMinutely

fetch_bingx_complete_example :
    (found : List Candle) × (fetch_bingx venue_up_to hour ≡ some (ok found))
    × ((c : Candle) → has c found ≡ demanded market hour c)
fetch_bingx_complete_example =
    fetch_bingx_complete venue_up_to market hour hour-IsBounded venue-BingxAnswers

fetch_backward-total_example :
    is_some (fetch_backward venue okx 300 60_000 41 3_660_000 0 []) ≡ true
fetch_backward-total_example =
    fetch_backward-total venue okx 300 60_000 41 3_660_000 0 [] (omega arith) (omega arith)

abbrev ascii_only : ℕ → Bool
ascii_only c = false

abbrev btc_usdt : Text
btc_usdt = 66 ∷ 84 ∷ 67 ∷ 85 ∷ 83 ∷ 68 ∷ 84 ∷ []

btc_usdt-IsAcceptable : IsAcceptable ascii_only bybit btc_usdt 60_000 3_660_000 10
unfolding normalize_symbol trim is_whitespace is_ascii_alphanumeric to_ascii_uppercase
    is_provider_symbol ascii_alphanumeric text
btc_usdt-IsAcceptable = record {
  exact = refl;
  venue = refl;
  positive = omega arith;
  start_minute = omega arith;
  end_minute = omega arith;
  ordered = omega arith;
  bounded = omega arith;
  some_candles = omega arith;
  few_candles = omega arith;
}

abbrev btc_hour : HistoryRequest
btc_hour = record {
  provider = bybit;
  symbol = btc_usdt;
  start_time_ms = 60_000;
  end_time_ms = 3_660_000;
  limit = 10;
}

btc_hour_lem : new_request ascii_only bybit btc_usdt 60_000 3_660_000 10 ≡ ok btc_hour
btc_hour_lem =
    new_request-accepts ascii_only bybit btc_usdt 60_000 3_660_000 10 btc_usdt-IsAcceptable

new_request-accepted_example :
    IsAcceptable ascii_only bybit btc_usdt 60_000 3_660_000 10 × (btc_hour ≡ btc_hour)
new_request-accepted_example =
    new_request-accepted ascii_only bybit btc_usdt 60_000 3_660_000 10 btc_hour btc_hour_lem

-- Numbers of one digit.
abbrev digit : Text → Option ℕ
digit (c ∷ []) = some c
digit _ = none

abbrev digits : Decimals ℕ
digits = record { from_str = digit; lt = ltb; zero = 48 }

minute-IsCandle : IsCandle digits minute
minute-IsCandle = record {
  opening = 49;
  high = 49;
  low = 49;
  close = 49;
  reads_opening = refl;
  reads_high = refl;
  reads_low = refl;
  reads_close = refl;
  interval = refl;
  minute = omega arith;
  positive = refl;
  below_high = refl;
  above_low = refl;
  volumes = refl;
}

minute_accepted : validate_candle digits minute ≡ ok tt
minute_accepted = validate_candle-accepts digits minute minute-IsCandle

validate_candle-accepted_example : IsCandle digits minute
validate_candle-accepted_example = validate_candle-accepted digits minute minute_accepted
