-- ===== src/Gateway/Registry/Invariant.antt =====
-- src/gateway.rs: what a `SubscriptionRegistry` keeps to between any two calls.
use market_stream_gateway.Prelude.{
  ℕ, ◌+◌, ◌≤◌, ◌<◌, ◌≡◌, ◌≢◌, refl, List, [], ◌∷◌, some, arith, ltb, bit, length, max_u64,
  nat_order, true,
}
use market_stream_gateway.Set.{contains, count}
use market_stream_gateway.Set.Sorted.{IsSorted}
use market_stream_gateway.Map.{lookup, Distinct, total}
use market_stream_gateway.Map.Laws.{weight-le-total}
use market_stream_gateway.Domain.Identity.{Provider, SubscriptionKey, key_order, provider_order}
use market_stream_gateway.Gateway.Limits.{ProviderLimits, limit_for}
use market_stream_gateway.Gateway.Registry.{
  Registry, ClientId, client_keys, reference_count, counting, with_provider_limits,
}
use market_stream_gateway.Gateway.Registry.Tally.{IsSound}
use market_stream_gateway.Gateway.Registry.Totals.{of_provider}

abbrev pub holds : SubscriptionKey → List SubscriptionKey → ℕ
holds k keys = bit (contains k keys)

-- How many clients hold a key.
abbrev pub holders : SubscriptionKey → List (ClientId × List SubscriptionKey) → ℕ
holders k clients = total (holds k) clients

pub record Inv (r : Registry) : Type 0 where
  pub distinct : Distinct r.clients
  pub sorted : (c : ClientId) → IsSorted (client_keys r c)
  pub occupied : (c : ClientId) → lookup c r.clients ≢ some []
  pub sound : IsSound (counting r)
  pub counted : (k : SubscriptionKey) → reference_count r k ≡ holders k r.clients
  pub demand : (k : SubscriptionKey) → contains k r.desired ≡ ltb 0 (reference_count r k)
  pub published : r.published ≡ r.desired
  pub bounded : (c : ClientId) → length (client_keys r c) ≤ r.max_subscriptions_per_client
  pub within : (p : Provider) → count (of_provider p) r.desired ≤ limit_for r.provider_limits p

-- The clients, and the desired keys with the requested ones, can be counted in a `usize`.
pub record Fits (r : Registry) (keys : List SubscriptionKey) : Type 0 where
  pub few_clients : length r.clients < max_u64
  pub few_keys : length r.desired + length keys ≤ max_u64

pub with_provider_limits-Inv :
    (max : ℕ) (limits : ProviderLimits) → Inv (with_provider_limits max limits)
unfolding with_provider_limits reference_count total lookup contains count
with_provider_limits-Inv max limits = record {
  distinct = tt;
  sorted = λ c. tt;
  occupied = λ c. cc;
  sound = record { distinct = tt; positive = λ k. cc; sorted = tt };
  counted = λ k. refl;
  demand = λ k. refl;
  published = refl;
  bounded = λ c. omega arith;
  within = λ p. omega arith;
}

pub holders-le :
    (k : SubscriptionKey) (clients : List (ClientId × List SubscriptionKey))
    → holders k clients ≤ length clients
unfolding total
holders-le k [] = omega arith
holders-le k ((c, keys) ∷ clients) = ground (arith, holders-le k clients)

-- A key that a client holds has a holder.
pub holders-pos :
    (r : Registry) (c : ClientId) (k : SubscriptionKey)
    → contains k (client_keys r c) ≡ true
    → 0 < holders k r.clients
unfolding contains
holders-pos r c k h = ground (arith, weight-le-total (holds k) c r.clients)
