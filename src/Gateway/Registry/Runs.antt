-- ===== src/Gateway/Registry/Runs.antt =====
-- src/gateway.rs: the states that a registry reaches by any sequence of calls of its clients.
use mathlib.Core.List.{Perm}
use mathlib.Core.Path.{subst₂}
use market_stream_gateway.Prelude.{ℕ, ◌≤◌, ◌≡◌, List, arith, ltb, length, refl, ap, sym, subst, ◌∙◌}
use market_stream_gateway.Set.{contains, count}
use market_stream_gateway.Domain.Identity.{Provider, SubscriptionKey, key_order, provider_order}
use market_stream_gateway.Gateway.Limits.{ProviderLimits, limit_for}
use market_stream_gateway.Gateway.Registry.{
  Registry, Totals, ClientId, commit_add, store, client_keys, reference_count, with_provider_limits,
  add, remove, cleanup_client,
}
use market_stream_gateway.Gateway.Registry.Totals.{of_provider}
use market_stream_gateway.Gateway.Registry.Invariant.{Inv, Fits, holders, with_provider_limits-Inv}
use market_stream_gateway.Gateway.Registry.Adding.{add-Inv}
use market_stream_gateway.Gateway.Registry.Removing.{remove-Inv, cleanup_client-Inv}

-- One call, of any client, with any keys.
pub data Step (hash_order : Totals → Totals) (r : Registry) : Registry → Type 0 where
  adds :
      (c : ClientId) (keys : List SubscriptionKey)
      → Fits r keys
      → Step hash_order r (add hash_order r c keys).0
  removes : (c : ClientId) (keys : List SubscriptionKey) → Step hash_order r (remove r c keys).0
  leaves : (c : ClientId) → Step hash_order r (cleanup_client r c).0

-- The states that follow a fresh registry.
pub data Reach (hash_order : Totals → Totals) (max : ℕ) (limits : ProviderLimits)
    : Registry → Type 0 where
  fresh : Reach hash_order max limits (with_provider_limits max limits)
  next :
      {r r' : Registry}
      → Reach hash_order max limits r
      → Step hash_order r r'
      → Reach hash_order max limits r'

Step-limits_kept :
    (hash_order : Totals → Totals) (r r' : Registry)
    → Step hash_order r r'
    → (r'.max_subscriptions_per_client ≡ r.max_subscriptions_per_client)
      × (r'.provider_limits ≡ r.provider_limits)
unfolding add commit_add remove cleanup_client store
Step-limits_kept hash_order r _ (adds c keys f) = ground arith
Step-limits_kept hash_order r _ (removes c keys) = ground arith
Step-limits_kept hash_order r _ (leaves c) = ground arith

Reach-limits_kept :
    {hash_order : Totals → Totals} {max : ℕ} {limits : ProviderLimits} {r : Registry}
    → Reach hash_order max limits r
    → (r.max_subscriptions_per_client ≡ max) × (r.provider_limits ≡ limits)
unfolding with_provider_limits
Reach-limits_kept fresh = (refl, refl)
Reach-limits_kept {hash_order} (next {r} {r'} h s) =
    let a = Step-limits_kept hash_order r r' s in
    let b = Reach-limits_kept h in (a.0 ∙ b.0, a.1 ∙ b.1)

module _ (hash_order : Totals → Totals) (perm : (t : Totals) → Perm (hash_order t) t) where
  pub Step-Inv : {r r' : Registry} → Step hash_order r r' → Inv r → Inv r'
  Step-Inv {r} (adds c keys f) v = add-Inv hash_order perm r c keys v f
  Step-Inv {r} (removes c keys) v = remove-Inv r c keys v
  Step-Inv {r} (leaves c) v = cleanup_client-Inv r c v

  pub Reach-Inv :
      {max : ℕ} {limits : ProviderLimits} {r : Registry} → Reach hash_order max limits r → Inv r
  Reach-Inv {max} {limits} fresh = with_provider_limits-Inv max limits
  Reach-Inv (next h s) = Step-Inv s (Reach-Inv h)

  -- In every state that calls of `add`, `remove` and `cleanup_client` reach from a new registry,
  -- where the counts fit a machine word, the reference count of a key is the number of clients that
  -- hold it, and the published snapshot holds exactly the keys that some client holds.
  pub Reach-demand :
      (max : ℕ) (limits : ProviderLimits) (r : Registry) (k : SubscriptionKey)
      → Reach hash_order max limits r
      → (reference_count r k ≡ holders k r.clients)
        × (contains k r.published ≡ ltb 0 (holders k r.clients))
  Reach-demand max limits r k h =
      let v = Reach-Inv h in
      (v.counted k, ap (contains k) v.published ∙ v.demand k ∙ ap (ltb 0) (v.counted k))

  -- In every state that calls of `add`, `remove` and `cleanup_client` reach from a new registry,
  -- where the counts fit a machine word, no client holds more keys than the limit the registry was
  -- made with, and no provider has more published keys than its ceiling.
  pub Reach-limits :
      (max : ℕ) (limits : ProviderLimits) (r : Registry) (c : ClientId) (p : Provider)
      → Reach hash_order max limits r
      → (length (client_keys r c) ≤ max) × (count (of_provider p) r.published ≤ limit_for limits p)
  Reach-limits max limits r c p h =
      let v = Reach-Inv h in
      let e = Reach-limits_kept h in
      (
        subst (λ m. length (client_keys r c) ≤ m) e.0 (v.bounded c),
        subst₂ (λ d l. count (of_provider p) d ≤ limit_for l p) (sym v.published) e.1 (v.within p),
      )
