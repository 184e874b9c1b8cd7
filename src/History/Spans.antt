-- ===== src/History/Spans.antt =====
-- src/history.rs: the loops over pages end, and those over fixed spans read every candle in range.
use market_stream_gateway.Prelude.{
  ℕ, zero, suc, ◌+◌, ◌*◌, ◌%◌, ◌≤◌, ◌<◌, ◌≡◌, refl, Bool, true, ◌&&◌, ◌||◌, List, [], ◌∷◌, ◌++◌,
  some, arith, ltb, leb, Bool-cases, Result-cases, Option-cases, inl, inr, min, ok, max_u64,
}
use market_stream_gateway.Domain.Identity.{Provider}
use market_stream_gateway.Domain.Payload.{Candle, is_some}
use market_stream_gateway.History.Request.{candle_interval_ms}
use market_stream_gateway.History.Pages.{
  Ask, count_page, page_end, fetch_spans, fetch_backward, fetch_forward, oldest, newest,
  checked_add,
}
use market_stream_gateway.History.Unique.{has}

-- Whatever the venue answers, the loop of `fetch_kucoin`, `fetch_mexc` and `fetch_bingx` ends with
-- candles or an error when its fuel and the pages read come to at least 41 and the pages are at
-- most 40.
pub fetch_spans-total :
    (ask : Ask) (p : Provider) (span end fuel cursor pages : ℕ) (candles : List Candle)
    → 41 ≤ fuel + pages
    → pages ≤ 40
    → is_some (fetch_spans ask p span end fuel cursor pages candles) ≡ true
unfolding fetch_spans count_page
fetch_spans-total ask p span end zero cursor pages candles h k = ground arith
fetch_spans-total ask p span end (suc fuel) cursor pages candles h k =
    elim (Result-cases (ask cursor (page_end ask p span end cursor))) [
      | inl (e, q) ↦ ground (arith, q)
      | inr (page, q) ↦ ground (
        arith,
        q,
        fetch_spans-total ask p span end fuel (page_end ask p span end cursor) (pages + 1)
            (candles ++ page),
      )
    ]

-- Whatever the venue answers, the backward loop of `fetch_bybit` and `fetch_okx` ends with candles
-- or an error when its fuel and the pages read come to at least 41 and the pages are at most 40.
pub fetch_backward-total :
    (ask : Ask) (p : Provider) (limit start fuel cursor pages : ℕ) (candles : List Candle)
    → 41 ≤ fuel + pages
    → pages ≤ 40
    → is_some (fetch_backward ask p limit start fuel cursor pages candles) ≡ true
unfolding fetch_backward count_page
fetch_backward-total ask p limit start zero cursor pages candles h k = ground arith
fetch_backward-total ask p limit start (suc fuel) cursor pages candles h k =
    elim (Result-cases (ask start cursor)) [
      | inl (e, q) ↦ ground (arith, q)
      | inr ([], q) ↦ ground (arith, q)
      | inr (c ∷ cs, q) ↦ ground (
        arith,
        q,
        fetch_backward-total ask p limit start fuel (oldest c cs) (pages + 1) (candles ++ c ∷ cs),
      )
    ]

-- Whatever the venue answers, the forward loop of `fetch_binance` ends with candles or an error
-- when its fuel and the pages read come to at least 41 and the pages are at most 40.
pub fetch_forward-total :
    (ask : Ask) (end fuel cursor pages : ℕ) (candles : List Candle)
    → 41 ≤ fuel + pages
    → pages ≤ 40
    → is_some (fetch_forward ask end fuel cursor pages candles) ≡ true
unfolding fetch_forward count_page
fetch_forward-total ask end zero cursor pages candles h k = ground arith
fetch_forward-total ask end (suc fuel) cursor pages candles h k =
    elim (Result-cases (ask cursor end)) [
      | inl (e, q) ↦ ground (arith, q)
      | inr ([], q) ↦ ground (arith, q)
      | inr (c ∷ cs, q) ↦ elim (Option-cases (checked_add (newest c cs) candle_interval_ms)) [
        | inl n ↦ ground (arith, q, n)
        | inr (next, n) ↦
            ground
              (arith, q, n, fetch_forward-total ask end fuel next (pages + 1) (candles ++ c ∷ cs))
      ]
    ]

-- A venue that answers a query between two minutes, no more than a span apart, with the candles of
-- its market that start there.
abbrev pub Answers : Ask → ℕ → (Candle → Bool) → Type 0
Answers ask span market =
    (from to : ℕ)
    → from < to
    → to ≤ from + span
    → from % 60_000 ≡ 0
    → to % 60_000 ≡ 0
    → (page : List Candle) × (ask from to ≡ ok page)
      × ((c : Candle)
          → has c page ≡ (market c && (leb from c.start_time_ms && ltb c.start_time_ms to)))

has-append : (c : Candle) (xs ys : List Candle) → has c (xs ++ ys) ≡ (has c xs || has c ys)
has-append c [] ys = refl
has-append c (x ∷ xs) ys = ground (arith, has-append c xs ys)

module _ (ask : Ask) (p : Provider) (span end : ℕ) (market : Candle → Bool)
    (answers : Answers ask span market) where
  page_end_aligned :
      (cursor : ℕ)
      → span % 60_000 ≡ 0
      → end ≤ max_u64
      → end % 60_000 ≡ 0
      → cursor % 60_000 ≡ 0
      → page_end ask p span end cursor % 60_000 ≡ 0
  page_end_aligned cursor d m g a = omega arith

  pub fetch_spans_complete :
      (n fuel cursor pages : ℕ) (candles : List Candle)
      → 0 < span
      → span % 60_000 ≡ 0
      → end ≤ max_u64
      → end % 60_000 ≡ 0
      → cursor % 60_000 ≡ 0
      → n < fuel
      → n + pages ≤ 40
      → end ≤ cursor + n * span
      → (found : List Candle) × (fetch_spans ask p span end fuel cursor pages candles
          ≡ some (ok found))
        × ((c : Candle)
            → has c found ≡ (
                has c candles
                || (market c && (leb cursor c.start_time_ms && ltb c.start_time_ms end))))
  unfolding fetch_spans count_page
  fetch_spans_complete n zero cursor pages candles s d m g a f b e = ground arith
  fetch_spans_complete zero (suc fuel) cursor pages candles s d m g a f b e =
      (candles, ground arith, λ c. ground arith)
  fetch_spans_complete (suc n) (suc fuel) cursor pages candles s d m g a f b e =
      elim (Bool-cases (ltb cursor end)) [
        | inl more ↦
            (let split : suc n * span ≡ span + n * span = omega arith in
              let to : page_end ask p span end cursor ≡ min (cursor + span) end =
                omega (arith, m) in
              let aligned : page_end ask p span end cursor % 60_000 ≡ 0 =
                page_end_aligned cursor d m g a in
              let ahead : cursor < page_end ask p span end cursor = ground (arith, to, more, s) in
              let near : page_end ask p span end cursor ≤ cursor + span = omega (arith, to) in
              let here = answers cursor (page_end ask p span end cursor) ahead near a aligned in
              let rest =
                fetch_spans_complete n fuel (page_end ask p span end cursor) (pages + 1)
                  (candles ++ here.0) s d m g aligned (omega (arith, f)) (omega (arith, b))
                  (omega (arith, e, to, split)) in
              (
                rest.0,
                ground (arith, more, ahead, here.1, rest.1, b),
                λ c.
                    ground
                      (arith, more, ahead, to, here.2 c, rest.2 c, has-append c candles here.0),
              ))
        | inr over ↦ (candles, ground (arith, over), λ c. ground (arith, over))
      ]
