-- ===== src/Api/Readiness.antt =====
-- src/api.rs: when the service is ready.
use market_stream_gateway.Prelude.{
  ℕ, Bool, ◌≡◌, ◌≢◌, ◌↔◌, refl, ap, ◌∙◌, subst, true, List, [], ◌∷◌, some, arith, Bool-cases,
  Option-cases, inl, inr, map, if◌then◌else◌,
}
use market_stream_gateway.Map.{lookup, Distinct}
use market_stream_gateway.Domain.Identity.{Provider, provider_order}
use market_stream_gateway.Domain.Payload.{is_some}
use market_stream_gateway.Health.{readiness}
use market_stream_gateway.Catalog.Wire.{WireDecimals}
use market_stream_gateway.Catalog.Store.{
  ProviderSnapshot, ProviderCatalogStatus, is_enabled, catalog_statuses,
}
use market_stream_gateway.Catalog.Refresh.{IsSnapshot, Reach, Reach-Inv, Inv-IsSnapshot}
use market_stream_gateway.Api.Server.{AppState}
use market_stream_gateway.Api.Requests.{all_of, catalogs_ready, service_readiness}

-- Every enabled one has succeeded.
abbrev has_listing : ProviderCatalogStatus → Bool
has_listing s = if s.enabled then is_some s.last_success_at_ms else true

catalogs_ready_lem : (cs : List ProviderCatalogStatus) → catalogs_ready cs ≡ all_of has_listing cs
unfolding catalogs_ready
catalogs_ready_lem [] = refl
catalogs_ready_lem (c ∷ cs) = ground (arith, catalogs_ready_lem cs)

all_of-lookup :
    (m : List (Provider × ProviderSnapshot)) (p : Provider) (s : ProviderSnapshot)
    → all_of has_listing (map (λ e. e.1.status) m) ≡ true
    → lookup p m ≡ some s
    → has_listing s.status ≡ true
unfolding lookup
all_of-lookup [] p s h q = cc
all_of-lookup ((r, t) ∷ m) p s h q = elim (Bool-cases (provider_order.beq r p)) [
  | inl e ↦
      (let same : t ≡ s = ground (arith, e, q) in
        ground (arith, h, ap (λ x. has_listing x.status) same))
  | inr e ↦ all_of-lookup m p s (ground (arith, h)) (ground (arith, e, q))
]

all_of-every :
    (m : List (Provider × ProviderSnapshot))
    → Distinct m
    → ((p : Provider) (s : ProviderSnapshot) → lookup p m ≡ some s → has_listing s.status ≡ true)
    → all_of has_listing (map (λ e. e.1.status) m) ≡ true
unfolding lookup
all_of-every [] d f = refl
all_of-every ((r, t) ∷ m) d f =
    let here = f r t (ground (arith, provider_order.beq_iff r r)) in
    let rest = all_of-every m d.1 (λ p s q. elim (Bool-cases (provider_order.beq r p)) [
      | inl e ↦
          (let same : r ≡ p = (provider_order.beq_iff r p).0 e in
            ground (arith, ap (λ x. lookup x m) same, d.0, q))
      | inr e ↦ f p s (ground (arith, e, q))
    ]) in
    ground (arith, here, rest)

module _ (wide : ℕ → Bool) (enabled : List Provider) (p : Provider) (s : ProviderSnapshot)
    (v : IsSnapshot wide enabled p s) where
  listed_of_success : is_enabled enabled p ≡ true → has_listing s.status ≡ true → s.instruments ≢ []
  listed_of_success on h none_listed = ground (arith, v.marked, v.listed none_listed, on, h)

  success_of_listed :
      (is_enabled enabled p ≡ true → s.instruments ≢ []) → has_listing s.status ≡ true
  success_of_listed f = elim (Bool-cases (is_enabled enabled p)) [
    | inr off ↦ ground (arith, v.marked, off)
    | inl on ↦ elim (Option-cases s.status.last_success_at_ms) [
      | inr (t, e) ↦ ground (arith, e)
      | inl e ↦ absurd (f on (v.unread e))
    ]
  ]

-- Where the catalog is one that refreshes reach: the service answers 200 to the readiness request
-- exactly if the health registry is ready and every enabled provider has some instrument listed.
pub service_readiness-ready :
    {D : Type 0} (w : WireDecimals D) (wide : ℕ → Bool) (enabled : List Provider) (state : AppState)
    → Reach w wide enabled state.catalog
    → ((service_readiness state).0 ≡ 200) ↔ (
        (readiness state.health ≡ true)
        × ((p : Provider)
            → is_enabled state.catalog.enabled_providers p ≡ true
            → (s : ProviderSnapshot) × (lookup p state.catalog.providers ≡ some s)
              × (s.instruments ≢ [])))
unfolding service_readiness catalog_statuses
service_readiness-ready w wide enabled state r =
    let v = Reach-Inv w wide enabled state.catalog r in
    let split = catalogs_ready_lem (catalog_statuses state.catalog) in
    (
      λ h. (
        ground (arith, h),
        λ p on.
            let (s, found, k) = Inv-IsSnapshot wide state.catalog p v in
            let every : all_of has_listing (map (λ e. e.1.status) state.catalog.providers) ≡ true =
              ground (arith, h, split) in
            let here = all_of-lookup state.catalog.providers p s every found in
            (s, found, listed_of_success wide state.catalog.enabled_providers p s k on here),
      ),
      λ (healthy, every).
          let all = all_of-every state.catalog.providers v.distinct (λ p s found.
            let (s', found', k) = Inv-IsSnapshot wide state.catalog p v in
            let same : s' ≡ s = ground (arith, found, found') in
            subst (λ x. has_listing x.status ≡ true) same
              (success_of_listed wide state.catalog.enabled_providers p s' k (λ on empty.
                let (t, there, some_listed) = every p on in
                let again : t ≡ s' = ground (arith, there, found') in
                some_listed (ap (λ x. x.instruments) again ∙ empty)))) in
          ground (arith, healthy, split, all),
    )
