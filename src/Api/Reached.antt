-- ===== src/Api/Reached.antt =====
-- src/api.rs: whatever the sessions and the publishers do, in whatever order, each session, the
-- registry and the hub agree.
use mathlib.Core.List.{Perm}
use market_stream_gateway.Prelude.{
  ℕ, ◌≡◌, inl, inr, refl, sym, ap, ◌∙◌, subst, true, List, [], Option, none, some, arith, nat_order,
}
use market_stream_gateway.Set.{contains}
use market_stream_gateway.Map.{lookup}
use market_stream_gateway.Domain.Identity.{Provider, SubscriptionKey, key_order}
use market_stream_gateway.Domain.Event.{Uuid}
use market_stream_gateway.Gateway.Limits.{ProviderLimits}
use market_stream_gateway.Gateway.Registry.{Registry, ClientId, client_keys, with_provider_limits}
use market_stream_gateway.Gateway.Registry.Invariant as RegistryInvariant
use market_stream_gateway.Gateway.Registry.Invariant.{holders-pos, Fits, with_provider_limits-Inv}
use market_stream_gateway.Gateway.Hub.{Hub, fresh_hub, ClientRoute, keys_of, ids, with_client_limit}
use market_stream_gateway.Gateway.Hub.Invariant as HubInvariant
use market_stream_gateway.Api.Joint.{
  idle, World, Step, joins, adds, removes, routes, leaves, cleans, publishes, receives, Reach,
  fresh, next, IsRouted, Agrees, Inv,
}
use market_stream_gateway.Api.Agreement.{
  at_phase, joins-Inv, adds-Inv, removes-Inv, leaves-Inv, cleans-Inv, routes-Inv, publishes-Inv,
  receives-Inv,
}

fresh_hub-of :
    (h : Hub) (epoch : Uuid) (capacity max_clients : ℕ)
    → with_client_limit epoch capacity max_clients ≡ some h
    → fresh_hub epoch capacity max_clients ≡ h
unfolding with_client_limit
fresh_hub-of h epoch capacity max_clients e = ground arith

-- A key that a client has is among the published ones.
held-published :
    (r : Registry)
    → RegistryInvariant.Inv r
    → (c : ClientId) (k : SubscriptionKey) → contains k (client_keys r c) ≡ true
    → contains k r.published ≡ true
held-published r v c k h =
    ground (arith, ap (contains k) v.published, v.demand k, v.counted k, holders-pos r c k h)

routed-own :
    (own : List SubscriptionKey) (k : SubscriptionKey) (o : Option ClientRoute)
    → IsRouted own o
    → contains k (keys_of o) ≡ true
    → contains k own ≡ true
unfolding contains
routed-own own k none h q = elim h [ ]
routed-own own k (some route) (is_up, inl same) q = ap (contains k) (sym same) ∙ q
routed-own own k (some route) (is_up, inr (lossy, nothing)) q =
    ground (arith, ap (contains k) nothing, q)

module _ (hash_order : List (Provider × ℕ) → List (Provider × ℕ))
    (perm : (t : List (Provider × ℕ)) → Perm (hash_order t) t) where
  pub Step-Inv : {s s' : World} → Step hash_order s s' → Inv s → Inv s'
  Step-Inv {s} (joins c gone joined) v = joins-Inv hash_order perm s v c gone joined
  Step-Inv {s} (adds c own keys change found fits accepted) v =
      adds-Inv hash_order perm s v c own keys change found fits accepted
  Step-Inv {s} (removes c own keys found) v = removes-Inv hash_order perm s v c own keys found
  Step-Inv {s} (routes c own found) v = routes-Inv hash_order perm s v c own found
  Step-Inv {s} (leaves c own found) v = leaves-Inv hash_order perm s v c
  Step-Inv {s} (cleans c found) v = cleans-Inv hash_order perm s v c found
  Step-Inv {s} (publishes e) v = publishes-Inv hash_order perm s v e
  Step-Inv {s} (receives c route found) v = receives-Inv hash_order perm s v c route found

  pub Reach-Inv :
      {epoch : Uuid} {capacity max_clients max : ℕ} {limits : ProviderLimits} {s : World}
      → Reach hash_order epoch capacity max_clients max limits s
      → Inv s
  unfolding lookup with_client_limit with_provider_limits
  Reach-Inv {epoch} {capacity} {max_clients} {max} {limits} (fresh {h} e) = record {
    hub = HubInvariant.with_client_limit-Inv epoch capacity max_clients h e;
    registry = with_provider_limits-Inv max limits;
    distinct = tt;
    agrees = λ c. (
      refl,
      subst (λ x. lookup c x.routes.clients ≡ none) (fresh_hub-of h epoch capacity max_clients e)
          refl,
    );
  }
  Reach-Inv (next r t) = Step-Inv t (Reach-Inv r)

  module _ (epoch : Uuid) (capacity max_clients max : ℕ) (limits : ProviderLimits) (s : World)
      (r : Reach hash_order epoch capacity max_clients max limits s) where
    -- In every world that the steps of sessions and publishers reach, in any order: a session
    -- between commands has the set of keys that the registry has of it; each of them is among the
    -- keys published to the upstream connections; and its route is there and open, with these keys,
    -- or with none after an event was lost.
    pub Reach-session :
        (c : ClientId) (own : List SubscriptionKey)
        → lookup c s.sessions ≡ some (idle own)
        → (client_keys s.registry c ≡ own)
          × ((k : SubscriptionKey) → contains k own ≡ true → contains k s.registry.published ≡ true)
          × IsRouted own (lookup c s.hub.routes.clients)
    Reach-session c own found =
        let v = Reach-Inv r in
        let (held, routed) = at_phase hash_order perm s v c (idle own) found in
        (held, λ k h. held-published s.registry v.registry c k (ap (contains k) held ∙ h), routed)

    -- In every world that the steps of sessions and publishers reach, in any order: a client
    -- without a session has no route in the hub and no key in the registry.
    pub Reach-absent :
        (c : ClientId)
        → lookup c s.sessions ≡ none
        → (client_keys s.registry c ≡ []) × (lookup c s.hub.routes.clients ≡ none)
    Reach-absent c gone =
        subst (λ o. Agrees o (client_keys s.registry c) (lookup c s.hub.routes.clients)) gone
          ((Reach-Inv r).agrees c)

    -- In every world that the steps of sessions and publishers reach, in any order: where the hub
    -- routes the events of a key to a session between commands, the session has that key and it is
    -- among the keys published to the upstream connections.
    pub Reach-routed :
        (c : ClientId) (own : List SubscriptionKey) (k : SubscriptionKey)
        → lookup c s.sessions ≡ some (idle own)
        → contains c (ids k s.hub.routes.clients_by_key) ≡ true
        → (contains k own ≡ true) × (contains k s.registry.published ≡ true)
    Reach-routed c own k found there =
        let v = Reach-Inv r in
        let (held, wanted, routed) = Reach-session c own found in
        let mine =
          routed-own own k (lookup c s.hub.routes.clients) routed
            (sym (v.hub.mirror.mirror k c) ∙ there) in
        (mine, wanted k mine)
