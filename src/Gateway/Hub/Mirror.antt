-- ===== src/Gateway/Hub/Mirror.antt =====
-- src/gateway.rs: `remove_route` and `update_client_subscriptions` keep the two maps of a
-- `RouteState` in step.
use market_stream_gateway.Prelude.{
  ◌+◌, ◌≤◌, ◌≡◌, Bool, true, List, [], Option, none, some, arith, length, Option-cases, inl, inr,
  if◌then◌else◌, ◌==◌, nat_order,
}
use market_stream_gateway.Set
use market_stream_gateway.Set.{contains}
use market_stream_gateway.Set.Laws.{contains-difference}
use market_stream_gateway.Set.Sorted.{IsSorted}
use market_stream_gateway.Map
use market_stream_gateway.Map.{lookup, Distinct, missing}
use market_stream_gateway.Map.Laws.{
  lookup-insert, lookup-remove, insert-Distinct, remove-Distinct, length-insert, length-remove,
}
use market_stream_gateway.Domain.Identity.{SubscriptionKey, key_order}
use market_stream_gateway.Gateway.Registry.{ClientId}
use market_stream_gateway.Gateway.Hub.{
  RouteState, ClientRoute, ids, route_keys, remove_key_routes, add_key_routes, take_subscriptions,
  remove_route,
}
use market_stream_gateway.Gateway.Hub.Routes.{
  IsSound, remove_key_routes-IsSound, ids-remove_key_routes, add_key_routes-IsSound,
  ids-add_key_routes,
}

-- A client is a member of a key exactly when the key is among its subscriptions.
pub record IsMirror (s : RouteState) : Type 0 where
  pub members : IsSound s.clients_by_key
  pub distinct : Distinct s.clients
  pub sorted : (c : ClientId) → IsSorted (route_keys s c)
  pub mirror :
      (k : SubscriptionKey) (c : ClientId)
      → contains c (ids k s.clients_by_key) ≡ contains k (route_keys s c)

abbrev pub cleared : Option ClientRoute → Option ClientRoute
cleared none = none
cleared (some route) = some (record route { subscriptions = [] })

lookup-take_subscriptions :
    (c d : ClientId) (clients : List (ClientId × ClientRoute))
    → lookup d (take_subscriptions c clients)
      ≡ (if c == d then cleared (lookup d clients) else lookup d clients)
unfolding take_subscriptions
lookup-take_subscriptions c d clients = elim (Option-cases (lookup c clients)) [
  | inl e ↦ rw (e, take_subscriptions) (ground (arith, nat_order.beq_iff c d))
  | inr (route, e) ↦
      rw (e, take_subscriptions)
        (ground (
          arith,
          lookup-insert c d (record route { subscriptions = [] }) clients,
          nat_order.beq_iff c d,
        ))
]

take_subscriptions-Distinct :
    (c : ClientId) (clients : List (ClientId × ClientRoute))
    → Distinct clients
    → Distinct (take_subscriptions c clients)
unfolding take_subscriptions
take_subscriptions-Distinct c clients d = elim (Option-cases (lookup c clients)) [
  | inl e ↦ rw (e, take_subscriptions) d
  | inr (route, e) ↦ rw (e, take_subscriptions) (insert-Distinct c _ clients d)
]

length-take_subscriptions :
    (c : ClientId) (clients : List (ClientId × ClientRoute))
    → length (take_subscriptions c clients) ≡ length clients
unfolding take_subscriptions
length-take_subscriptions c clients = elim (Option-cases (lookup c clients)) [
  | inl e ↦ rw (e, take_subscriptions)
  | inr (route, e) ↦
      rw (e, take_subscriptions)
        (ground (arith, length-insert c (record route { subscriptions = [] }) clients))
]

module _ (s : RouteState) (c : ClientId) (drop_client : Bool) (v : IsMirror s) where
  -- The client is gone or has no subscription; the others are as they were.
  pub lookup-remove_route :
      (d : ClientId)
      → lookup d (remove_route s c drop_client).clients ≡ (
          if c == d
          then (if drop_client then none else cleared (lookup d s.clients))
          else lookup d s.clients)
  unfolding remove_route
  lookup-remove_route d = ground (
    arith,
    lookup-take_subscriptions c d s.clients,
    lookup-remove c d (take_subscriptions c s.clients)
        (take_subscriptions-Distinct c s.clients v.distinct),
  )

  pub route_keys-remove_route :
      (d : ClientId)
      → route_keys (remove_route s c drop_client) d ≡ (if c == d then [] else route_keys s d)
  route_keys-remove_route d = ground (arith, lookup-remove_route d)

  pub length-remove_route : length (remove_route s c drop_client).clients ≤ length s.clients
  unfolding remove_route
  length-remove_route = ground (
    arith,
    length-take_subscriptions c s.clients,
    length-remove c (take_subscriptions c s.clients),
  )

  pub length-remove_route_drop :
      drop_client ≡ true
      → length (remove_route s c drop_client).clients + 1
        ≡ length s.clients + missing (lookup c s.clients)
  unfolding remove_route
  length-remove_route_drop h = ground (
    arith,
    length-take_subscriptions c s.clients,
    length-remove c (take_subscriptions c s.clients),
    lookup-take_subscriptions c c s.clients,
  )

  pub remove_route-IsMirror : IsMirror (remove_route s c drop_client)
  unfolding remove_route contains
  remove_route-IsMirror = record {
    members = remove_key_routes-IsSound c (route_keys s c) s.clients_by_key v.members;
    distinct = ground (
      arith,
      take_subscriptions-Distinct c s.clients v.distinct,
      remove-Distinct c (take_subscriptions c s.clients)
          (take_subscriptions-Distinct c s.clients v.distinct),
    );
    sorted = λ d. rw (route_keys-remove_route d) (ground (arith, v.sorted d));
    mirror = λ k d. rw (route_keys-remove_route d) (
        ground (
          arith,
          ids-remove_key_routes c (route_keys s c) s.clients_by_key k d v.members,
          v.mirror k d,
          nat_order.beq_iff c d,
        ));
  }

-- The maps after `update_client_subscriptions` of a registered client.
module _ (s : RouteState) (c : ClientId) (route : ClientRoute) (keys : List SubscriptionKey)
    (v : IsMirror s) (found : lookup c s.clients ≡ some route) (keys_sorted : IsSorted keys) where
  abbrev pub rerouted : RouteState
  rerouted = record {
    clients = Map.insert c (record route { subscriptions = keys }) s.clients;
    clients_by_key =
        add_key_routes c (Set.difference keys route.subscriptions)
          (remove_key_routes c (Set.difference route.subscriptions keys) s.clients_by_key);
  }

  pub route_keys-rerouted :
      (d : ClientId) → route_keys rerouted d ≡ (if c == d then keys else route_keys s d)
  route_keys-rerouted d =
      ground (arith, lookup-insert c d (record route { subscriptions = keys }) s.clients)

  pub rerouted-IsMirror : IsMirror rerouted
  rerouted-IsMirror = record {
    members =
        add_key_routes-IsSound c _ _ (remove_key_routes-IsSound c _ s.clients_by_key v.members);
    distinct = insert-Distinct c (record route { subscriptions = keys }) s.clients v.distinct;
    sorted = λ d. rw (route_keys-rerouted d) (ground (arith, v.sorted d));
    mirror = λ k d. rw (route_keys-rerouted d) (
        ground (
          arith,
          ids-add_key_routes c (Set.difference keys route.subscriptions)
              (remove_key_routes c (Set.difference route.subscriptions keys) s.clients_by_key) k d,
          ids-remove_key_routes c (Set.difference route.subscriptions keys) s.clients_by_key k d
              v.members,
          contains-difference k keys route.subscriptions,
          contains-difference k route.subscriptions keys,
          v.mirror k d,
          v.mirror k c,
          nat_order.beq_iff c d,
        ));
  }
