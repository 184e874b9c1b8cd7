-- ===== src/History/Outcome.antt =====
-- src/history.rs: what `finish_result` gives, whatever order the sort leaves equal starts in.
use market_stream_gateway.Prelude.{
  ℕ, zero, suc, ◌≤◌, ◌<◌, ◌≡◌, ◌⊎◌, refl, ap, sym, ◌∙◌, true, ◌&&◌, List, [], ◌∷◌, arith,
  Bool-cases, inl, inr, ok, >>=-eq-ok, keep, take, length, length-take, map,
}
use market_stream_gateway.Domain.Identity.{linear_perpetual}
use market_stream_gateway.Domain.Payload.{Candle}
use market_stream_gateway.History.Request.{HistoryRequest}
use market_stream_gateway.History.Finish.{
  HistoryResult, same_candle, in_range, unique_candles, history_candle, finish_result,
}
use market_stream_gateway.History.Unique.{
  same_candle_iff, has, Upward, Ascending, Ascending-lower, Ascending-Agree,
  unique_candles-Deduplicated, unique_candles-total,
}

-- What the documentation of `sort_unstable_by_key` promises of a sort by start.
pub record IsSort (sort : List Candle → List Candle) : Type 0 where
  pub rises : (cs : List Candle) → Upward 0 (sort cs)
  pub same : (c : Candle) (cs : List Candle) → has c (sort cs) ≡ has c cs

has-keep :
    (r : HistoryRequest) (c : Candle) (cs : List Candle)
    → has c (keep (in_range r) cs) ≡ (has c cs && in_range r c)
has-keep r c [] = ground arith
has-keep r c (x ∷ xs) = elim (Bool-cases (same_candle x c)) [
  | inl e ↦ ground (arith, has-keep r c xs, ap (in_range r) ((same_candle_iff x c).0 e))
  | inr e ↦ ground (arith, has-keep r c xs)
]

take-Ascending : (n lo : ℕ) (cs : List Candle) → Ascending lo cs → Ascending lo (take n cs)
take-Ascending zero lo cs h = tt
take-Ascending (suc n) lo [] h = tt
take-Ascending (suc n) lo (c ∷ cs) h = (h.0, take-Ascending n (suc c.start_time_ms) cs h.1)

has-take : (n : ℕ) (c : Candle) (cs : List Candle) → has c (take n cs) ≡ true → has c cs ≡ true
has-take zero c cs h = ground arith
has-take (suc n) c [] h = h
has-take (suc n) c (x ∷ xs) h = ground (arith, has-take n c xs)

-- Every element of the list starts before the candle.
abbrev pub Before : List Candle → Candle → Type 0
Before [] c = Unit
Before (x ∷ xs) c = (x.start_time_ms < c.start_time_ms) × Before xs c

-- A candle that a cut leaves out comes after a full cut.
take-rest :
    (n lo : ℕ) (c : Candle) (cs : List Candle)
    → Ascending lo cs
    → has c cs ≡ true
    → (has c (take n cs) ≡ true) ⊎ ((length (take n cs) ≡ n) × Before (take n cs) c)
take-rest zero lo c cs u h = inr (refl, tt)
take-rest (suc n) lo c [] u h = ground arith
take-rest (suc n) lo c (x ∷ xs) u h = elim (Bool-cases (same_candle x c)) [
  | inl e ↦ inl (ground (arith, e))
  | inr e ↦
      (let there : has c xs ≡ true = ground (arith, e, h) in
        let low = Ascending-lower (suc x.start_time_ms) xs c u.1 there in
        elim (take-rest n (suc x.start_time_ms) c xs u.1 there) [
          | inl k ↦ inl (ground (arith, k))
          | inr (k, b) ↦ inr (omega (arith, k), (omega (arith, low), b))
        ])
]

pub record Finished (r : HistoryRequest) (cs : List Candle) (out : HistoryResult) : Type 0 where
  pub kept : List Candle
  pub header : out ≡ record {
    provider = r.provider;
    market = linear_perpetual;
    symbol = r.symbol;
    start_time_ms = r.start_time_ms;
    end_time_ms = r.end_time_ms;
    candles = map (history_candle r) kept;
  }
  pub rises : Ascending 0 kept
  pub few : length kept ≤ r.limit
  pub within : (c : Candle) → has c kept ≡ true → (has c cs && in_range r c) ≡ true
  pub earliest :
      (c : Candle)
      → (has c cs && in_range r c) ≡ true
      → (has c kept ≡ true) ⊎ ((length kept ≡ r.limit) × Before kept c)

module _ (sort : List Candle → List Candle) (s : IsSort sort) (r : HistoryRequest)
    (cs : List Candle) where
  sorted_same : (c : Candle) → has c (sort (keep (in_range r) cs)) ≡ (has c cs && in_range r c)
  sorted_same c = s.same c (keep (in_range r) cs) ∙ has-keep r c cs

  -- Whatever order the sort leaves equal starts in, a result of `finish_result` has the identity
  -- and bounds of the request, and its candles rise strictly in start, are at most as many as the
  -- limit, are upstream candles in range, and are the earliest of them: one left out comes after a
  -- full result.
  pub finish_result-Finished :
      (out : HistoryResult) → finish_result sort r cs ≡ ok out → Finished r cs out
  unfolding finish_result
  finish_result-Finished out h =
      let parts = >>=-eq-ok (unique_candles r.provider (sort (keep (in_range r) cs))) _ h in
      let unique =
        unique_candles-Deduplicated r.provider (sort (keep (in_range r) cs)) parts.0
          (s.rises (keep (in_range r) cs)) parts.1 in
      record {
        kept = take r.limit parts.0;
        header = ground (arith, parts.2);
        rises = take-Ascending r.limit 0 parts.0 unique.rises;
        few = omega (arith, length-take r.limit parts.0);
        within = λ c k. sym (sorted_same c) ∙ sym (unique.same c) ∙ has-take r.limit c parts.0 k;
        earliest =
            λ c k. take-rest r.limit 0 c parts.0 unique.rises (unique.same c ∙ sorted_same c ∙ k);
      }

  -- Where `finish_result` gives a result, any two upstream candles in range with one start are
  -- equal: conflicting duplicates are always refused.
  pub finish_result-agrees :
      (out : HistoryResult)
      → finish_result sort r cs ≡ ok out
      → (c d : Candle) → (has c cs && in_range r c) ≡ true
      → (has d cs && in_range r d) ≡ true
      → c.start_time_ms ≡ d.start_time_ms
      → c ≡ d
  unfolding finish_result
  finish_result-agrees out h c d hc hd e =
      let parts = >>=-eq-ok (unique_candles r.provider (sort (keep (in_range r) cs))) _ h in
      let unique =
        unique_candles-Deduplicated r.provider (sort (keep (in_range r) cs)) parts.0
          (s.rises (keep (in_range r) cs)) parts.1 in
      Ascending-Agree 0 parts.0 unique.rises c d (unique.same c ∙ sorted_same c ∙ hc)
        (unique.same d ∙ sorted_same d ∙ hd) e

  -- Whatever order the sort leaves equal starts in, `finish_result` gives a result where any two
  -- upstream candles in range with one start are equal.
  pub finish_result-succeeds :
      ((c d : Candle)
        → (has c cs && in_range r c) ≡ true
        → (has d cs && in_range r d) ≡ true
        → c.start_time_ms ≡ d.start_time_ms
        → c ≡ d)
      → (out : HistoryResult) × (finish_result sort r cs ≡ ok out)
  unfolding finish_result
  finish_result-succeeds agree =
      let done =
        unique_candles-total r.provider (sort (keep (in_range r) cs))
          (s.rises (keep (in_range r) cs))
          (λ c d hc hd e. agree c d (sym (sorted_same c) ∙ hc) (sym (sorted_same d) ∙ hd) e) in
      (
        record {
          provider = r.provider;
          market = linear_perpetual;
          symbol = r.symbol;
          start_time_ms = r.start_time_ms;
          end_time_ms = r.end_time_ms;
          candles = map (history_candle r) (take r.limit done.0);
        },
        ground (arith, done.1),
      )
