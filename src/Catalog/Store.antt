-- ===== src/Catalog/Store.antt =====
-- src/catalog.rs: `Catalog`, one snapshot per provider. The write lock makes the end of a refresh
-- one step; its fetch and its times are arguments.
use market_stream_gateway.Prelude.{
  ℕ, Bool, not, List, [], ◌∷◌, ◌++◌, Option, none, some, if◌then◌else◌, length, map, keep, find,
  Result, ok, err, ◌==◌, text_order,
}
use market_stream_gateway.Text.{Text, text}
use market_stream_gateway.Set.{contains}
use market_stream_gateway.Map
use market_stream_gateway.Map.{lookup}
use market_stream_gateway.Domain.Identity.{
  Provider, MarketKind, SubscriptionKey, linear_perpetual, provider_order, bybit, binance, okx,
  kucoin, mexc, bingx,
}
use market_stream_gateway.Domain.Symbol.{normalize_symbol, trim}
use market_stream_gateway.Catalog.Instrument.{
  Instrument, CatalogError, CatalogFilter, matches, supports, show_catalog_error, provider_disabled,
  empty_snapshot, instrument_unavailable, unsupported_channel, invalid_payload,
}
use market_stream_gateway.Catalog.Pages.{Instruments}

pub record ProviderCatalogStatus : Type 0 where
  pub provider : Provider
  pub enabled : Bool
  pub instrument_count : ℕ
  pub last_attempt_at_ms : Option ℕ
  pub last_success_at_ms : Option ℕ
  pub last_error : Option Text

pub record ProviderSnapshot : Type 0 where
  pub instruments : Instruments
  pub status : ProviderCatalogStatus

pub record Catalog : Type 0 where
  pub enabled_providers : List Provider
  pub providers : List (Provider × ProviderSnapshot)

pub record RefreshOutcome : Type 0 where
  pub provider : Provider
  pub instrument_count : ℕ
  pub refreshed_at_ms : ℕ

abbrev pub all_providers : List Provider
all_providers = bybit ∷ binance ∷ okx ∷ kucoin ∷ mexc ∷ bingx ∷ []

unfoldable pub is_enabled : List Provider → Provider → Bool
is_enabled enabled p = contains p enabled

abbrev pub empty_provider : List Provider → Provider → Provider × ProviderSnapshot
empty_provider enabled p = (
  p,
  record {
    instruments = [];
    status = record {
      provider = p;
      enabled = is_enabled enabled p;
      instrument_count = 0;
      last_attempt_at_ms = none;
      last_success_at_ms = none;
      last_error = none;
    };
  },
)

unfoldable pub new_catalog : List Provider → Catalog
new_catalog enabled = record {
  enabled_providers = enabled;
  providers = map (empty_provider enabled) all_providers;
}

-- Every instrument of every snapshot.
abbrev pub values : Instruments → List Instrument
values m = map (λ e. e.1) m

abbrev pub listed : List (Provider × ProviderSnapshot) → List Instrument
listed [] = []
listed ((p, s) ∷ rest) = values s.instruments ++ listed rest

-- `Catalog::filter`.
unfoldable pub filter_instruments : Catalog → CatalogFilter → List Instrument
filter_instruments c f = keep (matches f) (listed c.providers)

unfoldable pub get_by_id : Catalog → Text → Option Instrument
get_by_id c id = find (λ i. i.id == id) (listed c.providers)

-- `None` where the call would panic: there is no such snapshot.
unfoldable pub catalog_status : Catalog → Provider → Option ProviderCatalogStatus
catalog_status c p = elim (lookup p c.providers) [ none ↦ none | some s ↦ some s.status ]

unfoldable pub catalog_statuses : Catalog → List ProviderCatalogStatus
catalog_statuses c = map (λ e. e.1.status) c.providers

abbrev pub or_normalized : Option Instrument → Option Instrument → Option Instrument
or_normalized (some i) later = some i
or_normalized none later = later

unfoldable pub refresh_provider :
    Catalog
    → Provider
    → (attempted_at refreshed_at : ℕ) → Result Instruments CatalogError
    → Catalog × Result RefreshOutcome CatalogError
refresh_provider c p attempted_at refreshed_at fetched =
    let failed : CatalogError → Catalog × Result RefreshOutcome CatalogError = λ e. (
      elim (lookup p c.providers) [
        | none ↦ c
        | some s ↦ record c {
          providers =
              Map.insert p
                (record s {
                  status = record (s.status) {
                    last_attempt_at_ms = some attempted_at;
                    last_error = some (show_catalog_error e);
                  };
                })
                c.providers;
        }
      ],
      err e,
    ) in
    if not (is_enabled c.enabled_providers p)
    then (c, err (provider_disabled p))
    else elim fetched [
      | err e ↦ failed e
      | ok [] ↦ failed (empty_snapshot p)
      | ok (first ∷ others) ↦ elim (lookup p c.providers) [
        | none ↦ (c, err (invalid_payload p (text "internal catalog state is missing provider")))
        | some s ↦ (
          record c {
            providers =
                Map.insert p
                  (record {
                    instruments = first ∷ others;
                    status = record (s.status) {
                      instrument_count = length (first ∷ others);
                      last_attempt_at_ms = some attempted_at;
                      last_success_at_ms = some refreshed_at;
                      last_error = none;
                    };
                  })
                  c.providers;
          },
          ok (record {
            provider = p;
            instrument_count = length (first ∷ others);
            refreshed_at_ms = refreshed_at;
          }),
        )
      ]
    ]

module _ (wide : ℕ → Bool) where
  -- What `get` looks up: the trimmed symbol, and then its normal form.
  abbrev pub find_symbol : Instruments → Text → Option Instrument
  find_symbol m symbol =
      or_normalized (lookup symbol m)
        (elim (normalize_symbol wide symbol) [ err e ↦ none | ok n ↦ lookup n m ])

  unfoldable pub get_instrument : Catalog → Provider → MarketKind → Text → Option Instrument
  get_instrument c p linear_perpetual symbol = elim (lookup p c.providers) [
    | none ↦ none
    | some s ↦ find_symbol s.instruments (trim symbol)
  ]

  unfoldable pub validate_subscription : Catalog → SubscriptionKey → Result Instrument CatalogError
  validate_subscription c k =
      if not (is_enabled c.enabled_providers k.provider)
      then err (provider_disabled k.provider)
      else elim (get_instrument c k.provider k.market k.symbol) [
        | none ↦ err (instrument_unavailable k.provider k.market k.symbol)
        | some i ↦
            if supports i.capabilities k.channel
            then ok i
            else err (unsupported_channel k.provider k.market k.symbol k.channel)
      ]
