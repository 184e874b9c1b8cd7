-- ===== src/Gateway/Hub/Publish.antt =====
-- src/gateway.rs: what the methods of a `GatewayHub` do, and what holds of every hub that a
-- sequence of them, and of the receivers' own steps, can reach.
use market_stream_gateway.Prelude.{
  ℕ, ◌+◌, ◌-◌, ◌≤◌, ◌<◌, ◌≡◌, ◌≢◌, refl, Bool, true, false, not, ◌&&◌, List, [], ◌∷◌, map, none,
  some, arith, ltb, ltb→lt, ltb→le, leb, length, Option-cases, Bool-cases, inl, inr, if◌then◌else◌,
  ◌==◌, nat_order, max_u64, Result, ok, err,
}
use market_stream_gateway.Set.{contains}
use market_stream_gateway.Set.Sorted.{IsSorted}
use market_stream_gateway.Map
use market_stream_gateway.Map.{lookup}
use market_stream_gateway.Map.Laws.{lookup-insert, insert-Distinct, length-insert}
use market_stream_gateway.Domain.Identity.{SubscriptionKey, key_order}
use market_stream_gateway.Domain.Payload.{is_some}
use market_stream_gateway.Domain.Event.{
  Uuid, MarketEvent, ProviderEvent, subscription_key, provider_event_key, into_market_event,
}
use market_stream_gateway.Gateway.Registry.{ClientId}
use market_stream_gateway.Gateway.Hub.{
  Hub, ClientRoute, PublishError, new_route, route_keys, ids, keys_of, with_client_limit,
  try_register_client, remove_client, update_client_subscriptions, publish, remove_route,
  route_event,
}
use market_stream_gateway.Gateway.Hub.Mirror.{
  lookup-remove_route, rerouted-IsMirror, route_keys-rerouted,
}
use market_stream_gateway.Gateway.Hub.Delivery.{delivered, lookup-route_event}
use market_stream_gateway.Gateway.Hub.Invariant.{
  Inv, IsQueue, sequence, numbers, with_client_limit-Inv, publish-Inv, remove_client-Inv,
  update_client_subscriptions-Inv, try_register_client-Inv,
}

-- The receiver's own steps: it takes the oldest event from its queue, or it is dropped.
unfoldable pub receive : ClientRoute → ClientRoute
receive route = elim route.queue [ [] ↦ route | e ∷ rest ↦ record route { queue = rest } ]

unfoldable pub hang_up : ClientRoute → ClientRoute
hang_up route = record route { is_open = false }

abbrev pub with_route : Hub → ClientId → ClientRoute → Hub
with_route h c route = record h {
  routes = record (h.routes) { clients = Map.insert c route h.routes.clients };
}

pub data Step (h : Hub) : Hub → Type 0 where
  registers : (c : ClientId) → Step h (try_register_client h c).0
  updates :
      (c : ClientId) (keys : List SubscriptionKey)
      → IsSorted keys
      → Step h (update_client_subscriptions h c keys).0
  leaves : (c : ClientId) → Step h (remove_client h c)
  publishes : (e : ProviderEvent) → Step h (publish h e).0
  receives :
      (c : ClientId) (route : ClientRoute)
      → lookup c h.routes.clients ≡ some route
      → Step h (with_route h c (receive route))
  hangs_up :
      (c : ClientId) (route : ClientRoute)
      → lookup c h.routes.clients ≡ some route
      → Step h (with_route h c (hang_up route))

pub data Reach (epoch : Uuid) (capacity max_clients : ℕ) : Hub → Type 0 where
  fresh :
      {h : Hub}
      → with_client_limit epoch capacity max_clients ≡ some h
      → Reach epoch capacity max_clients h
  next :
      {h h' : Hub}
      → Reach epoch capacity max_clients h
      → Step h h'
      → Reach epoch capacity max_clients h'

with_route-Inv :
    (h : Hub) (c : ClientId) (route route' : ClientRoute)
    → Inv h
    → lookup c h.routes.clients ≡ some route
    → route'.subscriptions ≡ route.subscriptions
    → IsQueue h.client_capacity h.next_delivery_sequence (some route')
    → Inv (with_route h c route')
unfolding contains
with_route-Inv h c route route' v found same q = record {
  mirror = record {
    members = v.mirror.members;
    distinct = insert-Distinct c route' h.routes.clients v.mirror.distinct;
    sorted = λ d. rw (keys_after d) (v.mirror.sorted d);
    mirror = λ k d. rw (keys_after d) (v.mirror.mirror k d);
  };
  queues = λ d. rw (lookup-insert c d route' h.routes.clients) (ground (arith, q, v.queues d));
  crowd = ground (arith, v.crowd, length-insert c route' h.routes.clients);
  started = v.started;
  logged = v.logged;
}
  where
    keys_after :
        (d : ClientId)
        → keys_of (lookup d (Map.insert c route' h.routes.clients)) ≡ route_keys h.routes d
    keys_after d = ground (arith, lookup-insert c d route' h.routes.clients, nat_order.beq_iff c d)

receive-IsQueue :
    (capacity n : ℕ) (route : ClientRoute) (queue : List MarketEvent)
    → route.queue ≡ queue
    → IsQueue capacity n (some route)
    → IsQueue capacity n (some (receive route))
unfolding receive
receive-IsQueue capacity n route [] e q = ground arith
receive-IsQueue capacity n route (x ∷ queue) e q = ground arith

receive-subscriptions : (route : ClientRoute) → (receive route).subscriptions ≡ route.subscriptions
unfolding receive
receive-subscriptions route = ground arith

pub Step-Inv : {h h' : Hub} → Step h h' → Inv h → Inv h'
unfolding hang_up
Step-Inv {h} (registers c) v = try_register_client-Inv h v c
Step-Inv {h} (updates c keys sorted) v = update_client_subscriptions-Inv h v c keys sorted
Step-Inv {h} (leaves c) v = remove_client-Inv h v c
Step-Inv {h} (publishes e) v = publish-Inv h v e
Step-Inv {h} (receives c route found) v =
    with_route-Inv h c route (receive route) v found (receive-subscriptions route)
      (receive-IsQueue _ _ route route.queue refl (ground (arith, v.queues c)))
Step-Inv {h} (hangs_up c route found) v =
    with_route-Inv h c route (hang_up route) v found refl (ground (arith, v.queues c))

pub Reach-Inv :
    {epoch : Uuid} {capacity max_clients : ℕ} {h : Hub} → Reach epoch capacity max_clients h → Inv h
Reach-Inv {epoch} {capacity} {max_clients} (fresh {h} e) =
    with_client_limit-Inv epoch capacity max_clients h e
Reach-Inv (next r s) = Step-Inv s (Reach-Inv r)

module _ (epoch : Uuid) (capacity max_clients : ℕ) (h : Hub)
    (r : Reach epoch capacity max_clients h) where
  -- In every hub that registrations, subscription updates, departures, publications and the
  -- receivers' own steps reach from a new hub, an event of a key is routed to exactly the clients
  -- that subscribe to it.
  pub Reach-mirror :
      (k : SubscriptionKey) (c : ClientId)
      → contains c (ids k h.routes.clients_by_key) ≡ contains k (route_keys h.routes c)
  Reach-mirror k c = (Reach-Inv r).mirror.mirror k c

  -- In every hub that registrations, subscription updates, departures, publications and the
  -- receivers' own steps reach from a new hub, the published events are numbered 1, 2, 3, … in the
  -- order of publication, and each client's queue is within the capacity and holds its events in
  -- that order.
  pub Reach-delivery :
      (c : ClientId)
      → (map sequence h.diagnostics ≡ numbers (h.next_delivery_sequence - 1))
        × IsQueue h.client_capacity h.next_delivery_sequence (lookup c h.routes.clients)
  Reach-delivery c = let v = Reach-Inv r in (v.logged, v.queues c)

key_of_event :
    (e : ProviderEvent) (epoch : Uuid) (n : ℕ)
    → subscription_key (into_market_event e epoch n) ≡ provider_event_key e
unfolding subscription_key into_market_event provider_event_key
key_of_event e epoch n = refl

abbrev pub Published : Hub → ProviderEvent → Hub × Result MarketEvent PublishError → Type 0
Published h e (h', err x) = (h' ≡ h) × (max_u64 ≤ h.next_delivery_sequence)
Published h e (h', ok event) =
    (event ≡ into_market_event e h.stream_epoch h.next_delivery_sequence)
    × (h.next_delivery_sequence < max_u64)
    × (h'.next_delivery_sequence ≡ h.next_delivery_sequence + 1)
    × ((c : ClientId)
        → lookup c h'.routes.clients ≡ (
            if contains (provider_event_key e) (route_keys h.routes c)
            then delivered h.client_capacity event (lookup c h.routes.clients)
            else lookup c h.routes.clients))

-- On a hub that keeps its invariant, `publish` refuses only at the last sequence number, and then
-- changes nothing. Otherwise the event takes the next number and reaches the clients that subscribe
-- to its key and no others: a queue with room gets it at its end, a full one counts a loss and
-- loses its subscriptions, and a dropped receiver's route goes.
pub publish-Published : (h : Hub) (e : ProviderEvent) → Inv h → Published h e (publish h e)
unfolding publish
publish-Published h e v = elim (Bool-cases (ltb h.next_delivery_sequence max_u64)) [
  | inr full ↦ rw full (refl, ltb→le _ _ full)
  | inl room ↦ rw room (refl, ltb→lt _ _ room, refl, to_client)
]
  where
    event : MarketEvent
    event = into_market_event e h.stream_epoch h.next_delivery_sequence

    to_client :
        (c : ClientId)
        → lookup c (route_event h.client_capacity h.routes event).clients ≡ (
            if contains (provider_event_key e) (route_keys h.routes c)
            then delivered h.client_capacity event (lookup c h.routes.clients)
            else lookup c h.routes.clients)
    to_client c =
        rw (← key_of_event e h.stream_epoch h.next_delivery_sequence)
          (lookup-route_event h.client_capacity h.routes event v.mirror c)

abbrev pub Registered : Hub → ClientId → Hub × Bool → Type 0
Registered h c (h', false) =
    (h' ≡ h) × (lookup c h.routes.clients ≡ none) × (h.max_clients ≤ length h.routes.clients)
Registered h c (h', true) =
    (lookup c h'.routes.clients ≡ some new_route)
    × ((d : ClientId) → d ≢ c → lookup d h'.routes.clients ≡ lookup d h.routes.clients)
    × (length h'.routes.clients ≤ h.max_clients)

-- On a hub that keeps its invariant, registration fails only for a new client at the limit, and
-- then changes nothing. Otherwise the client has an open, empty queue and no subscription, the
-- other clients are as they were, and the clients are within the limit.
pub try_register_client-Registered :
    (h : Hub) (c : ClientId) → Inv h → Registered h c (try_register_client h c)
unfolding try_register_client
try_register_client-Registered h c v =
    elim (Bool-cases
      (not (is_some (lookup c h.routes.clients)) && leb h.max_clients (length h.routes.clients))) [
        | inl full ↦ rw full (refl, ground arith, ground arith)
        | inr room ↦ rw room (
          ground (arith, lookup-insert c c new_route (remove_route h.routes c true).clients),
          (λ d ne. ground (
            arith,
            lookup-insert c d new_route (remove_route h.routes c true).clients,
            lookup-remove_route h.routes c true v.mirror d,
          )),
          ground (arith, room, (try_register_client-Inv h v c).crowd),
        )
      ]

abbrev pub Updated : Hub → ClientId → List SubscriptionKey → Hub × Bool → Type 0
Updated h c keys (h', false) = (h' ≡ h) × (lookup c h.routes.clients ≡ none)
Updated h c keys (h', true) =
    (route_keys h'.routes c ≡ keys)
    × ((k : SubscriptionKey) (d : ClientId)
        → contains d (ids k h'.routes.clients_by_key)
          ≡ (if c == d then contains k keys else contains d (ids k h.routes.clients_by_key)))
    × ((d : ClientId) → d ≢ c → lookup d h'.routes.clients ≡ lookup d h.routes.clients)

-- On a hub that keeps its invariant, an update with a sorted set replaces the subscriptions of a
-- registered client, and the routing table agrees: the client is a member of exactly its new keys,
-- and nobody else's membership or route changes. It fails only for a client without a route, and
-- then changes nothing.
pub update_client_subscriptions-Updated :
    (h : Hub) (c : ClientId) (keys : List SubscriptionKey)
    → IsSorted keys
    → Inv h
    → Updated h c keys (update_client_subscriptions h c keys)
unfolding update_client_subscriptions
update_client_subscriptions-Updated h c keys sorted v =
    elim (Option-cases (lookup c h.routes.clients)) [
      | inl e ↦ rw (e, update_client_subscriptions) (refl, e)
      | inr (route, e) ↦
          rw (e, update_client_subscriptions)
            (
              ground (
                arith,
                lookup-insert c c (record route { subscriptions = keys }) h.routes.clients,
              ),
              (λ k d. ground (
                arith,
                (rerouted-IsMirror h.routes c route keys v.mirror e sorted).mirror k d,
                route_keys-rerouted h.routes c route keys v.mirror e sorted d,
                v.mirror.mirror k d,
              )),
              (λ d ne. ground (
                arith,
                lookup-insert c d (record route { subscriptions = keys }) h.routes.clients,
              )),
            )
    ]
