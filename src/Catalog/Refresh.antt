-- ===== src/Catalog/Refresh.antt =====
-- src/catalog.rs: what refreshes do to a catalog.
use market_stream_gateway.Prelude.{
  ℕ, ◌≡◌, ◌≢◌, refl, subst, Bool, true, false, List, [], ◌∷◌, none, some, Option, length, arith,
  Result, ok, err, Option-cases, Bool-cases, inl, inr, ◌==◌,
}
use market_stream_gateway.Map
use market_stream_gateway.Map.{lookup, Distinct}
use market_stream_gateway.Map.Laws.{lookup-insert, insert-Distinct}
use market_stream_gateway.Domain.Identity.{
  Provider, provider_order, bybit, binance, okx, kucoin, mexc, bingx,
}
use market_stream_gateway.Catalog.Instrument.{
  CatalogError, show_catalog_error, provider_disabled, empty_snapshot,
}
use market_stream_gateway.Catalog.Wire.{WireDecimals}
use market_stream_gateway.Catalog.Pages.{Instruments}
use market_stream_gateway.Catalog.Store.{
  Catalog, ProviderSnapshot, RefreshOutcome, new_catalog, refresh_provider, is_enabled,
  empty_provider,
}
use market_stream_gateway.Catalog.Fetch.{Answers, fetch_provider}
use market_stream_gateway.Catalog.Reading.{IsListing, fetch_provider-IsListing}

-- What a snapshot of a provider keeps to.
pub record IsSnapshot (wide : ℕ → Bool) (enabled : List Provider) (p : Provider)
    (s : ProviderSnapshot) : Type 0 where
  pub listing : IsListing wide p s.instruments
  pub count : s.status.instrument_count ≡ length s.instruments
  pub provider : s.status.provider ≡ p
  pub marked : s.status.enabled ≡ is_enabled enabled p
  -- Nothing is listed before the first success,
  pub unread : s.status.last_success_at_ms ≡ none → s.instruments ≡ []
  -- and something after it.
  pub listed : s.instruments ≡ [] → s.status.last_success_at_ms ≡ none
  pub idle : is_enabled enabled p ≡ false → s.status.last_attempt_at_ms ≡ none
  pub attempted : s.status.last_attempt_at_ms ≡ none → s.status.last_success_at_ms ≡ none

abbrev pub IsKept :
    (wide : ℕ → Bool) (enabled : List Provider) → Provider → Option ProviderSnapshot → Type 0
IsKept wide enabled p none = ⊥
IsKept wide enabled p (some s) = IsSnapshot wide enabled p s

pub record Inv (wide : ℕ → Bool) (c : Catalog) : Type 0 where
  pub distinct : Distinct c.providers
  pub kept : (p : Provider) → IsKept wide c.enabled_providers p (lookup p c.providers)

module _ (wide : ℕ → Bool) where
  empty_provider-IsSnapshot :
      (enabled : List Provider) (p : Provider)
      → IsSnapshot wide enabled p (empty_provider enabled p).1
  empty_provider-IsSnapshot enabled p = record {
    listing = record { distinct = tt; ordered = tt; filed = tt };
    count = refl;
    provider = refl;
    marked = refl;
    unread = λ h. refl;
    listed = λ h. refl;
    idle = λ h. refl;
    attempted = λ h. refl;
  }

  pub new_catalog-Inv : (enabled : List Provider) → Inv wide (new_catalog enabled)
  unfolding new_catalog lookup
  new_catalog-Inv enabled = record {
    distinct = (refl, (refl, (refl, (refl, (refl, (refl, tt))))));
    kept = λ p. elim p as (λ p. IsKept wide enabled p (lookup p (new_catalog enabled).providers)) [
      | bybit ↦ empty_provider-IsSnapshot enabled bybit
      | binance ↦ empty_provider-IsSnapshot enabled binance
      | okx ↦ empty_provider-IsSnapshot enabled okx
      | kucoin ↦ empty_provider-IsSnapshot enabled kucoin
      | mexc ↦ empty_provider-IsSnapshot enabled mexc
      | bingx ↦ empty_provider-IsSnapshot enabled bingx
    ];
  }

  pub Inv-IsSnapshot :
      (c : Catalog) (p : Provider)
      → Inv wide c
      → (s : ProviderSnapshot) × (lookup p c.providers ≡ some s)
        × IsSnapshot wide c.enabled_providers p s
  Inv-IsSnapshot c p v = elim (Option-cases (lookup p c.providers)) [
    | inl e ↦ absurd (subst (IsKept wide c.enabled_providers p) e (v.kept p))
    | inr (s, e) ↦ (s, e, subst (IsKept wide c.enabled_providers p) e (v.kept p))
  ]

  insert-Inv :
      (c : Catalog) (p : Provider) (s : ProviderSnapshot)
      → Inv wide c
      → IsSnapshot wide c.enabled_providers p s
      → Inv wide (record c { providers = Map.insert p s c.providers })
  insert-Inv c p s v h = record {
    distinct = insert-Distinct p s c.providers v.distinct;
    kept = λ q. elim (Bool-cases (p == q)) [
      | inl e ↦
          (let same : p ≡ q = (provider_order.beq_iff p q).0 e in
            subst (IsKept wide c.enabled_providers q) {x = some s}
              (ground (arith, lookup-insert p q s c.providers, e))
              (subst (λ x. IsSnapshot wide c.enabled_providers x s) same h))
      | inr e ↦
          subst (IsKept wide c.enabled_providers q) {x = lookup q c.providers}
            (ground (arith, lookup-insert p q s c.providers, e)) (v.kept q)
    ];
  }

-- The snapshot of an enabled provider after a refresh that failed,
abbrev pub with_failure : ProviderSnapshot → ℕ → CatalogError → ProviderSnapshot
with_failure s attempted_at e = record s {
  status = record (s.status) {
    last_attempt_at_ms = some attempted_at;
    last_error = some (show_catalog_error e);
  };
}

-- and after one that succeeded.
abbrev pub with_listing : ProviderSnapshot → ℕ → ℕ → Instruments → ProviderSnapshot
with_listing s attempted_at refreshed_at m = record {
  instruments = m;
  status = record (s.status) {
    instrument_count = length m;
    last_attempt_at_ms = some attempted_at;
    last_success_at_ms = some refreshed_at;
    last_error = none;
  };
}

-- The error of a fetch that is no listing, or an empty one.
abbrev pub IsComplaint : Provider → Result Instruments CatalogError → CatalogError → Type 0
IsComplaint p (err complaint) e = e ≡ complaint
IsComplaint p (ok []) e = e ≡ empty_snapshot p
IsComplaint p (ok (i ∷ m)) e = ⊥

-- What a refresh of a provider with snapshot `s` leaves and answers.
pub data Outcome (c : Catalog) (p : Provider) (s : ProviderSnapshot) (attempted_at refreshed_at : ℕ)
    (fetched : Result Instruments CatalogError)
    : Catalog × Result RefreshOutcome CatalogError → Type 0 where
  refused :
      is_enabled c.enabled_providers p ≡ false
      → Outcome c p s attempted_at refreshed_at fetched (c, err (provider_disabled p))
  failed :
      (e : CatalogError)
      → is_enabled c.enabled_providers p ≡ true
      → IsComplaint p fetched e
      → Outcome c p s attempted_at refreshed_at fetched
          (record c { providers = Map.insert p (with_failure s attempted_at e) c.providers }, err e)
  refreshed :
      (m : Instruments)
      → is_enabled c.enabled_providers p ≡ true
      → fetched ≡ ok m
      → m ≢ []
      → Outcome c p s attempted_at refreshed_at fetched (
        record c {
          providers = Map.insert p (with_listing s attempted_at refreshed_at m) c.providers;
        },
        ok (record { provider = p; instrument_count = length m; refreshed_at_ms = refreshed_at }),
      )

module _ (c : Catalog) (p : Provider) (s : ProviderSnapshot) (t u : ℕ)
    (found : lookup p c.providers ≡ some s) where
  -- A refresh of a provider whose snapshot is `s` takes one of three courses. A provider that is
  -- not enabled is refused and the catalog is as it was. A fetch that fails, or gives no
  -- instrument, leaves every snapshot but for the provider's time of attempt and last error, and
  -- its error is answered. A fetch that gives instruments replaces the provider's, sets both times
  -- and the count, and clears the error; the answer has the count and the time.
  pub refresh_provider-Outcome :
      (fetched : Result Instruments CatalogError)
      → Outcome c p s t u fetched (refresh_provider c p t u fetched)
  unfolding refresh_provider
  refresh_provider-Outcome (err e) = elim (Bool-cases (is_enabled c.enabled_providers p)) [
    | inl on ↦ rw (on, found) (failed e on refl)
    | inr off ↦ rw off (refused off)
  ]
  refresh_provider-Outcome (ok []) = elim (Bool-cases (is_enabled c.enabled_providers p)) [
    | inl on ↦ rw (on, found) (failed (empty_snapshot p) on refl)
    | inr off ↦ rw off (refused off)
  ]
  refresh_provider-Outcome (ok (i ∷ m)) = elim (Bool-cases (is_enabled c.enabled_providers p)) [
    | inl on ↦ rw (on, found) (refreshed (i ∷ m) on refl (λ e. cc))
    | inr off ↦ rw off (refused off)
  ]

module _ (wide : ℕ → Bool) where
  Outcome-Inv :
      (c : Catalog) (p : Provider) (s : ProviderSnapshot) (t u : ℕ)
      (fetched : Result Instruments CatalogError)
      (after : Catalog × Result RefreshOutcome CatalogError)
      → Inv wide c
      → IsSnapshot wide c.enabled_providers p s
      → ((m : Instruments) → fetched ≡ ok m → IsListing wide p m)
      → Outcome c p s t u fetched after
      → Inv wide after.0
  Outcome-Inv c p s t u fetched _ v h read (refused off) = v
  Outcome-Inv c p s t u fetched _ v h read (failed e on why) =
      insert-Inv wide c p (with_failure s t e) v (record {
        listing = h.listing;
        count = h.count;
        provider = h.provider;
        marked = h.marked;
        unread = h.unread;
        listed = h.listed;
        idle = λ off. ground arith;
        attempted = λ x. cc;
      })
  Outcome-Inv c p s t u fetched _ v h read (refreshed m on got full) =
      insert-Inv wide c p (with_listing s t u m) v (record {
        listing = read m got;
        count = refl;
        provider = h.provider;
        marked = h.marked;
        unread = λ x. cc;
        listed = λ x. absurd (full x);
        idle = λ off. ground arith;
        attempted = λ x. cc;
      })

  pub refresh_provider-Inv :
      (c : Catalog) (p : Provider) (t u : ℕ) (fetched : Result Instruments CatalogError)
      → ((m : Instruments) → fetched ≡ ok m → IsListing wide p m)
      → Inv wide c
      → Inv wide (refresh_provider c p t u fetched).0
  refresh_provider-Inv c p t u fetched read v =
      let (s, found, h) = Inv-IsSnapshot wide c p v in
      Outcome-Inv c p s t u fetched _ v h read (refresh_provider-Outcome c p s t u found fetched)

-- The catalogs that any sequence of refreshes reaches, whatever the endpoints answer.
pub data Reach {D : Type 0} (w : WireDecimals D) (wide : ℕ → Bool) (enabled : List Provider)
    : Catalog → Type 0 where
  fresh : Reach w wide enabled (new_catalog enabled)
  next :
      {c : Catalog} (p : Provider) (a : Answers) (attempted_at refreshed_at : ℕ)
      → Reach w wide enabled c
      → Reach w wide enabled
          (refresh_provider c p attempted_at refreshed_at (fetch_provider w wide a p)).0

-- In every catalog that refreshes reach, each of the six providers has one snapshot, of which: the
-- count is that of its instruments; no symbol stands twice, and every instrument stands under its
-- symbol, is of the provider, with a symbol in normal form; nothing is listed exactly if no refresh
-- has succeeded yet; and for a provider that is not enabled none was attempted.
pub Reach-Inv :
    {D : Type 0} (w : WireDecimals D) (wide : ℕ → Bool) (enabled : List Provider) (c : Catalog)
    → Reach w wide enabled c
    → Inv wide c
Reach-Inv w wide enabled _ fresh = new_catalog-Inv wide enabled
Reach-Inv w wide enabled _ (next {c} p a t u r) =
    refresh_provider-Inv wide c p t u (fetch_provider w wide a p)
      (fetch_provider-IsListing w wide a p) (Reach-Inv w wide enabled c r)
