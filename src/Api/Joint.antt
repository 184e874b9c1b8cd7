-- ===== src/Api/Joint.antt =====
-- src/api.rs: the sessions, the registry and the hub together. A command's two changes, of the
-- registry and of the hub, and the two of a session's end are steps of their own, so that the
-- steps of other sessions and of the publishers come between them.
use market_stream_gateway.Prelude.{
  ℕ, ◌<◌, ◌≡◌, ◌⊎◌, true, List, [], Option, none, some, ok, nat_order,
}
use market_stream_gateway.Map
use market_stream_gateway.Map.{lookup, Distinct}
use market_stream_gateway.Domain.Identity.{Provider, SubscriptionKey, key_order}
use market_stream_gateway.Domain.Event.{Uuid, ProviderEvent}
use market_stream_gateway.Gateway.Limits.{ProviderLimits}
use market_stream_gateway.Gateway.Registry
use market_stream_gateway.Gateway.Registry.{
  Registry, RegistryError, SubscriptionChange, ClientId, client_keys, add, cleanup_client,
  with_provider_limits,
}
use market_stream_gateway.Gateway.Registry.Invariant as RegistryInvariant
use market_stream_gateway.Gateway.Registry.Invariant.{Fits, with_provider_limits-Inv}
use market_stream_gateway.Gateway.Hub.{
  Hub, ClientRoute, with_client_limit, try_register_client, remove_client,
  update_client_subscriptions, publish,
}
use market_stream_gateway.Gateway.Hub.Invariant as HubInvariant
use market_stream_gateway.Gateway.Hub.Publish.{with_route, receive}

-- Where a session stands: between commands with its own set; with a set that the registry has and
-- the hub has not yet; gone from the hub and not yet from the registry.
pub data Phase : Type 0 where
  idle : (own : List SubscriptionKey) → Phase
  switching : (own : List SubscriptionKey) → Phase
  leaving : Phase

pub record World : Type 0 where
  pub hub : Hub
  pub registry : Registry
  pub sessions : List (ClientId × Phase)

module _ (hash_order : List (Provider × ℕ) → List (Provider × ℕ)) where
  pub data Step (s : World) : World → Type 0 where
    joins :
        (c : ClientId)
        → lookup c s.sessions ≡ none
        → (try_register_client s.hub c).1 ≡ true
        → Step s (record s {
          hub = (try_register_client s.hub c).0;
          sessions = Map.insert c (idle []) s.sessions;
        })
    adds :
        (c : ClientId) (own keys : List SubscriptionKey) (change : SubscriptionChange)
        → lookup c s.sessions ≡ some (idle own)
        → Fits s.registry keys
        → (add hash_order s.registry c keys).1 ≡ ok change
        → Step s (record s {
          registry = (add hash_order s.registry c keys).0;
          sessions = Map.insert c (switching change.client_subscriptions) s.sessions;
        })
    removes :
        (c : ClientId) (own keys : List SubscriptionKey)
        → lookup c s.sessions ≡ some (idle own)
        → Step s (record s {
          registry = (Registry.remove s.registry c keys).0;
          sessions =
              Map.insert c
                (switching (Registry.remove s.registry c keys).1.client_subscriptions)
                s.sessions;
        })
    routes :
        (c : ClientId) (own : List SubscriptionKey)
        → lookup c s.sessions ≡ some (switching own)
        → Step s (record s {
          hub = (update_client_subscriptions s.hub c own).0;
          sessions = Map.insert c (idle own) s.sessions;
        })
    leaves :
        (c : ClientId) (own : List SubscriptionKey)
        → lookup c s.sessions ≡ some (idle own)
        → Step s
            (record s { hub = remove_client s.hub c; sessions = Map.insert c leaving s.sessions })
    cleans :
        (c : ClientId)
        → lookup c s.sessions ≡ some leaving
        → Step s (record s {
          registry = (cleanup_client s.registry c).0;
          sessions = Map.remove c s.sessions;
        })
    publishes : (e : ProviderEvent) → Step s (record s { hub = (publish s.hub e).0 })
    receives :
        (c : ClientId) (route : ClientRoute)
        → lookup c s.hub.routes.clients ≡ some route
        → Step s (record s { hub = with_route s.hub c (receive route) })

  -- The worlds that follow a new hub and a new registry.
  pub data Reach (epoch : Uuid) (capacity max_clients max : ℕ) (limits : ProviderLimits)
      : World → Type 0 where
    fresh :
        {h : Hub}
        → with_client_limit epoch capacity max_clients ≡ some h
        → Reach epoch capacity max_clients max limits
            (record { hub = h; registry = with_provider_limits max limits; sessions = [] })
    next :
        {s s' : World}
        → Reach epoch capacity max_clients max limits s
        → Step s s'
        → Reach epoch capacity max_clients max limits s'

-- The route of a session that is not leaving is there and open.
abbrev pub IsOpen : Option ClientRoute → Type 0
IsOpen none = ⊥
IsOpen (some route) = route.is_open ≡ true

-- It has the session's set, or an event was lost and it has none.
abbrev pub IsRouted : List SubscriptionKey → Option ClientRoute → Type 0
IsRouted own none = ⊥
IsRouted own (some route) =
    (route.is_open ≡ true)
    × ((route.subscriptions ≡ own) ⊎ ((0 < route.lagged) × (route.subscriptions ≡ [])))

-- A session, what the registry has of it, and what the hub has of it.
abbrev pub Agrees : Option Phase → List SubscriptionKey → Option ClientRoute → Type 0
Agrees none keys o = (keys ≡ []) × (o ≡ none)
Agrees (some (idle own)) keys o = (keys ≡ own) × IsRouted own o
Agrees (some (switching own)) keys o = (keys ≡ own) × IsOpen o
Agrees (some leaving) keys o = o ≡ none

pub record Inv (s : World) : Type 0 where
  pub hub : HubInvariant.Inv s.hub
  pub registry : RegistryInvariant.Inv s.registry
  pub distinct : Distinct s.sessions
  pub agrees :
      (c : ClientId)
      → Agrees (lookup c s.sessions) (client_keys s.registry c) (lookup c s.hub.routes.clients)
