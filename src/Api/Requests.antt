-- ===== src/Api/Requests.antt =====
-- src/api.rs: the HTTP requests. A response is its status with its body.
use market_stream_gateway.Prelude.{
  ℕ, ◌+◌, eqb, Bool, true, false, not, ◌&&◌, ◌||◌, List, [], ◌∷◌, ◌++◌, Option, none, some, map,
  keep, take, if◌then◌else◌, Result, ok, err, ◌>>=◌, ◌==◌, text_order,
}
use market_stream_gateway.Set.{contains}
use market_stream_gateway.Map.{or_else}
use market_stream_gateway.Text.{Text, text, to_string}
use market_stream_gateway.Domain.Identity.{
  Provider, MarketKind, Channel, provider_order, linear_perpetual, ticker, candle_1m, provider_name,
  mexc,
}
use market_stream_gateway.Domain.Payload.{Candle, Decimals, is_some, new_decimal, validate_candle}
use market_stream_gateway.Domain.Subscription.{new_key}
use market_stream_gateway.Domain.Symbol.{DomainError}
use market_stream_gateway.History.Request.{
  HistoryRequest, HistoryError, new_request, show_domain_error, invalid_request, invalid_payload,
  pagination_stalled, upstream,
}
use market_stream_gateway.History.Finish.{HistoryResult, HistoryCandle}
use market_stream_gateway.Health.{HealthRegistry, readiness}
use market_stream_gateway.Catalog.Instrument.{Instrument, show_catalog_error}
use market_stream_gateway.Catalog.Store.{
  ProviderCatalogStatus, catalog_statuses, all_providers, validate_subscription,
}
use market_stream_gateway.Api.Server.{AppState}

pub record CandleQuery : Type 0 where
  pub provider : Provider
  pub symbol : Text
  pub start_time_ms : ℕ
  pub end_time_ms : ℕ
  pub limit : Option ℕ

pub record ServiceReadiness : Type 0 where
  pub ready : Bool
  pub status : Text
  pub endpoints : HealthRegistry
  pub catalogs : List ProviderCatalogStatus

abbrev pub all_of {ℓ} : {A : Type ℓ} → (A → Bool) → List A → Bool
all_of p [] = true
all_of p (x ∷ xs) = p x && all_of p xs

-- Every enabled provider's catalog has been read.
unfoldable pub catalogs_ready : List ProviderCatalogStatus → Bool
catalogs_ready catalogs =
    all_of (λ c. is_some c.last_success_at_ms) (keep (λ c. c.enabled) catalogs)

unfoldable pub service_readiness : AppState → ℕ × ServiceReadiness
service_readiness state =
    let catalogs = catalog_statuses state.catalog in
    let ready = readiness state.health && catalogs_ready catalogs in
    (
      if ready then 200 else 503,
      record {
        ready = ready;
        status = if ready then text "ready" else text "degraded";
        endpoints = state.health;
        catalogs = catalogs;
      },
    )

pub record ProviderDescriptor : Type 0 where
  pub provider : Provider
  pub enabled : Bool
  pub markets : List MarketKind
  pub channels : List Channel

unfoldable pub providers : AppState → List ProviderDescriptor
providers state =
    map
      (λ p. record {
        provider = p;
        enabled = contains p state.enabled_providers;
        markets = linear_perpetual ∷ [];
        channels = ticker ∷ candle_1m ∷ [];
      })
      all_providers

-- Whether `stream` upgrades a request with this origin; `none` for a header that is no text.
unfoldable pub admits_origin : List Text → Option (Option Text) → Bool
admits_origin allowed none = true
admits_origin allowed (some none) = false
admits_origin allowed (some (some origin)) = contains (text "*") allowed || contains origin allowed

pub record ApiError : Type 0 where
  pub code : Text
  pub message : Text

abbrev pub Response : Type 0
Response = ℕ × Result HistoryResult ApiError

unfoldable pub api_error : ℕ → Text → Text → Response
api_error status code message = (status, err (record { code = code; message = take 500 message }))

-- `Decimal` as the enrichment uses it: `checked_mul`, and `normalize` with `to_string`.
pub record VolumeDecimals (D : Type 0) : Type 0 where
  pub decimals : Decimals D
  pub checked_mul : D → D → Option D
  pub show_normalized : D → Text

abbrev pub ok_or {ℓ} : {A : Type ℓ} → Text → Option A → Result A Text
ok_or message none = err message
ok_or message (some a) = ok a

-- `map_err(|error| error.to_string())`.
abbrev pub shown {ℓ} : {A : Type ℓ} → Result A DomainError → Result A Text
shown (ok a) = ok a
shown (err e) = err (show_domain_error e)

module _ {D : Type 0} (w : VolumeDecimals D) where
  -- A candle without a volume in the base asset.
  unfoldable pub convert_row : D → HistoryCandle → Result HistoryCandle Text
  convert_row size row = do
    contract_text ←
        ok_or (text "MEXC history candle is missing contract volume") row.candle.contract_volume
    contracts ←
        ok_or (text "MEXC contract volume is not a decimal") (w.decimals.from_str contract_text)
    volume ← ok_or (text "MEXC base volume overflowed") (w.checked_mul contracts size)
    value ← shown (new_decimal w.decimals (w.show_normalized volume))
    let candle : Candle = record (row.candle) { base_volume = some value }
    valid ← shown (validate_candle w.decimals candle)
    ok (record row { candle = candle })

  -- One round of the loop over the candles.
  unfoldable pub enrich_row : D → HistoryCandle → Result HistoryCandle Text
  enrich_row size row = elim row.candle.base_volume [
    | some v ↦ ok row
    | none ↦ convert_row size row
  ]

  unfoldable pub enrich_rows : D → List HistoryCandle → Result (List HistoryCandle) Text
  enrich_rows size [] = ok []
  enrich_rows size (row ∷ rows) = do
    row' ← enrich_row size row
    rows' ← enrich_rows size rows
    ok (row' ∷ rows')

  -- The size of a contract in the base asset.
  unfoldable pub contract_size : Instrument → Result D Text
  contract_size i = do
    size ← ok_or (text "MEXC instrument is missing contract size") i.contract_size
    asset ←
        ok_or (text "MEXC contract size is not denominated in the base asset")
          (elim i.contract_size_asset [
            | none ↦ none
            | some a ↦ if a == i.base_asset then some a else none
          ])
    ok_or (text "MEXC contract size is not a decimal") (w.decimals.from_str size)

  unfoldable pub enrich_history_volumes : HistoryResult → Instrument → Result HistoryResult Text
  enrich_history_volumes result i =
      if not (result.provider == mexc)
      then ok result
      else contract_size i >>= λ size.
          enrich_rows size result.candles >>= λ rows. ok (record result { candles = rows })

-- The text of an error; that of the HTTP client and of a venue's refusal is theirs.
unfoldable pub show_history_error : (Provider → Text) → HistoryError → Text
show_history_error theirs (invalid_request message) = text "invalid history request: " ++ message
show_history_error theirs (invalid_payload p message) =
    text "invalid " ++ provider_name p ++ text " history payload: " ++ message
show_history_error theirs (pagination_stalled p cursor) =
    provider_name p ++ text " history pagination did not advance from " ++ to_string cursor
show_history_error theirs (upstream p) = theirs p

abbrev count_request : AppState → AppState
count_request state = record state {
  metrics = record (state.metrics) { history_requests = state.metrics.history_requests + 1 };
}

abbrev count_failure : AppState → AppState
count_failure state = record state {
  metrics = record (state.metrics) { history_failures = state.metrics.history_failures + 1 };
}

abbrev unavailable : Provider → Response
unavailable p =
    api_error 502 (text "provider_unavailable") (provider_name p ++ text " history request failed")

module _ {D : Type 0} (w : VolumeDecimals D) (wide : ℕ → Bool) (theirs : Provider → Text)
    (fetch : HistoryRequest → Result HistoryResult HistoryError) where
  -- What follows the fetch of a request.
  unfoldable pub fetched_response :
      AppState → Provider → Instrument → Result HistoryResult HistoryError → AppState × Response
  fetched_response state p i (err (invalid_request message)) =
      (count_failure state, api_error 400 (text "invalid_request") message)
  fetched_response state p i (err e) = (count_failure state, unavailable p)
  fetched_response state p i (ok result) = elim (enrich_history_volumes w result i) [
    | err e ↦ (count_failure state, unavailable p)
    | ok enriched ↦ (state, (200, ok enriched))
  ]

  -- The permit is given back at the end.
  unfoldable pub candles : AppState → CandleQuery → AppState × Response
  candles state q =
      let refuse : ℕ → Text → Text → AppState × Response =
        λ status code message. (state, api_error status code message) in
      elim (new_key wide q.provider linear_perpetual q.symbol candle_1m) [
        | err e ↦ refuse 400 (text "invalid_request") (show_domain_error e)
        | ok k ↦ elim (validate_subscription wide state.catalog k) [
          | err e ↦ refuse 422 (text "unsupported_instrument") (show_catalog_error e)
          | ok i ↦
              elim (new_request wide q.provider k.symbol q.start_time_ms q.end_time_ms
                (or_else 1_000 q.limit)) [
                  | err e ↦ refuse 400 (text "invalid_request") (show_history_error theirs e)
                  | ok r ↦
                      if eqb state.history_slots 0
                      then refuse 429 (text "history_busy")
                          (text "too many concurrent history requests")
                      else fetched_response (count_request state) q.provider i (fetch r)
                ]
        ]
      ]
