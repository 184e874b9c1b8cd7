-- ===== src/Gateway/Hub/Delivery.antt =====
-- src/gateway.rs: what `route_event` does to the route of each client.
use market_stream_gateway.Prelude.{
  ℕ, ◌≤◌, ◌≡◌, refl, Bool, true, false, not, ◌&&◌, ◌||◌, List, [], ◌∷◌, ◌++◌, Option, none, some,
  arith, ltb, length, Option-cases, inl, inr, if◌then◌else◌, ◌==◌, nat_order, saturating_suc,
}
use market_stream_gateway.Set.{contains}
use market_stream_gateway.Set.Laws.{contains-append}
use market_stream_gateway.Set.Sorted.{IsSorted, contains-Above}
use market_stream_gateway.Map.{lookup, Distinct}
use market_stream_gateway.Map.Laws.{lookup-insert, insert-Distinct, length-insert}
use market_stream_gateway.Domain.Identity.{key_order}
use market_stream_gateway.Domain.Event.{MarketEvent, subscription_key}
use market_stream_gateway.Gateway.Registry.{ClientId}
use market_stream_gateway.Gateway.Hub.{
  RouteState, ClientRoute, Sending, ids, route_keys, keys_of, send_to, send_to_all, remove_route,
  remove_routes, route_event,
}
use market_stream_gateway.Gateway.Hub.Mirror.{
  IsMirror, cleared, lookup-remove_route, length-remove_route, remove_route-IsMirror,
}

-- A queue that takes no further event.
is_full : ℕ → Option ClientRoute → Bool
is_full capacity none = false
is_full capacity (some route) = route.is_open && not (ltb (length route.queue) capacity)

-- A receiver that was dropped.
is_shut : Option ClientRoute → Bool
is_shut none = false
is_shut (some route) = not route.is_open

-- A route after one `try_send`.
tried : ℕ → MarketEvent → Option ClientRoute → Option ClientRoute
tried capacity event none = none
tried capacity event (some route) =
    if not route.is_open
    then some route
    else if ltb (length route.queue) capacity
    then some (record route { queue = route.queue ++ event ∷ [] })
    else some (record route { lagged = saturating_suc route.lagged })

-- What becomes of the route of a subscribed client: a dropped receiver's goes, a queue with room
-- has the event at its end, and on a full queue the loss is counted and the subscriptions end.
unfoldable pub delivered : ℕ → MarketEvent → Option ClientRoute → Option ClientRoute
delivered capacity event none = none
delivered capacity event (some route) =
    if not route.is_open
    then none
    else if ltb (length route.queue) capacity
    then some (record route { queue = route.queue ++ event ∷ [] })
    else some (record route { lagged = saturating_suc route.lagged; subscriptions = [] })

module _ (capacity : ℕ) (event : MarketEvent) (s : Sending) (c : ClientId) where
  lookup-send_to :
      (d : ClientId)
      → lookup d (send_to capacity event s c).clients
        ≡ (if c == d then tried capacity event (lookup d s.clients) else lookup d s.clients)
  unfolding send_to tried
  lookup-send_to d = elim (Option-cases (lookup c s.clients)) [
    | inl e ↦ rw (e, send_to) (ground (arith, nat_order.beq_iff c d))
    | inr (route, e) ↦
        rw (e, send_to)
          (ground (
            arith,
            lookup-insert c d (record route { queue = route.queue ++ event ∷ [] }) s.clients,
            lookup-insert c d (record route { lagged = saturating_suc route.lagged }) s.clients,
            nat_order.beq_iff c d,
          ))
  ]

  lagged-send_to :
      (d : ClientId)
      → contains d (send_to capacity event s c).lagged
        ≡ (contains d s.lagged || (c == d && is_full capacity (lookup c s.clients)))
  unfolding send_to contains is_full
  lagged-send_to d = elim (Option-cases (lookup c s.clients)) [
    | inl e ↦ rw (e, send_to) (ground arith)
    | inr (route, e) ↦ rw (e, send_to) (ground (arith, contains-append d s.lagged (c ∷ [])))
  ]

  closed-send_to :
      (d : ClientId)
      → contains d (send_to capacity event s c).closed
        ≡ (contains d s.closed || (c == d && is_shut (lookup c s.clients)))
  unfolding send_to contains is_shut
  closed-send_to d = elim (Option-cases (lookup c s.clients)) [
    | inl e ↦ rw (e, send_to) (ground arith)
    | inr (route, e) ↦ rw (e, send_to) (ground (arith, contains-append d s.closed (c ∷ [])))
  ]

  send_to-Distinct : Distinct s.clients → Distinct (send_to capacity event s c).clients
  unfolding send_to
  send_to-Distinct v = elim (Option-cases (lookup c s.clients)) [
    | inl e ↦ rw (e, send_to) v
    | inr (route, e) ↦
        rw (e, send_to)
          (ground (
            arith,
            insert-Distinct c (record route { queue = route.queue ++ event ∷ [] }) s.clients v,
            insert-Distinct c (record route { lagged = saturating_suc route.lagged }) s.clients v,
          ))
  ]

  length-send_to : length (send_to capacity event s c).clients ≡ length s.clients
  unfolding send_to
  length-send_to = elim (Option-cases (lookup c s.clients)) [
    | inl e ↦ rw (e, send_to)
    | inr (route, e) ↦
        rw (e, send_to)
          (ground (
            arith,
            length-insert c (record route { queue = route.queue ++ event ∷ [] }) s.clients,
            length-insert c (record route { lagged = saturating_suc route.lagged }) s.clients,
          ))
  ]

module _ (capacity : ℕ) (event : MarketEvent) where
  send_to_all-Distinct :
      (s : Sending) (cs : List ClientId)
      → Distinct s.clients
      → Distinct (send_to_all capacity event s cs).clients
  unfolding send_to_all
  send_to_all-Distinct s [] v = v
  send_to_all-Distinct s (c ∷ cs) v =
      send_to_all-Distinct (send_to capacity event s c) cs (send_to-Distinct capacity event s c v)

  length-send_to_all :
      (s : Sending) (cs : List ClientId)
      → length (send_to_all capacity event s cs).clients ≡ length s.clients
  unfolding send_to_all
  length-send_to_all s [] = refl
  length-send_to_all s (c ∷ cs) =
      omega (
        arith,
        length-send_to_all (send_to capacity event s c) cs,
        length-send_to capacity event s c,
      )

  lookup-send_to_all :
      (s : Sending) (cs : List ClientId) (d : ClientId)
      → IsSorted cs
      → lookup d (send_to_all capacity event s cs).clients
        ≡ (if contains d cs then tried capacity event (lookup d s.clients) else lookup d s.clients)
  unfolding send_to_all contains
  lookup-send_to_all s [] d h = refl
  lookup-send_to_all s (c ∷ cs) d h = ground (
    arith,
    lookup-send_to_all (send_to capacity event s c) cs d h.1,
    lookup-send_to capacity event s c d,
    contains-Above c cs h.0,
    nat_order.beq_iff c d,
  )

  lagged-send_to_all :
      (s : Sending) (cs : List ClientId) (d : ClientId)
      → IsSorted cs
      → contains d (send_to_all capacity event s cs).lagged
        ≡ (contains d s.lagged || (contains d cs && is_full capacity (lookup d s.clients)))
  unfolding send_to_all contains
  lagged-send_to_all s [] d h = ground arith
  lagged-send_to_all s (c ∷ cs) d h = ground (
    arith,
    lagged-send_to_all (send_to capacity event s c) cs d h.1,
    lagged-send_to capacity event s c d,
    lookup-send_to capacity event s c d,
    contains-Above c cs h.0,
    nat_order.beq_iff c d,
  )

  closed-send_to_all :
      (s : Sending) (cs : List ClientId) (d : ClientId)
      → IsSorted cs
      → contains d (send_to_all capacity event s cs).closed
        ≡ (contains d s.closed || (contains d cs && is_shut (lookup d s.clients)))
  unfolding send_to_all contains
  closed-send_to_all s [] d h = ground arith
  closed-send_to_all s (c ∷ cs) d h = ground (
    arith,
    closed-send_to_all (send_to capacity event s c) cs d h.1,
    closed-send_to capacity event s c d,
    lookup-send_to capacity event s c d,
    contains-Above c cs h.0,
    nat_order.beq_iff c d,
  )

remove_routes-IsMirror :
    (s : RouteState) (cs : List ClientId) (drop_client : Bool)
    → IsMirror s
    → IsMirror (remove_routes s cs drop_client)
unfolding remove_routes
remove_routes-IsMirror s [] drop_client v = v
remove_routes-IsMirror s (c ∷ cs) drop_client v =
    remove_routes-IsMirror (remove_route s c drop_client) cs drop_client
      (remove_route-IsMirror s c drop_client v)

length-remove_routes :
    (s : RouteState) (cs : List ClientId) (drop_client : Bool)
    → IsMirror s
    → length (remove_routes s cs drop_client).clients ≤ length s.clients
unfolding remove_routes
length-remove_routes s [] drop_client v = omega arith
length-remove_routes s (c ∷ cs) drop_client v = omega (
  arith,
  length-remove_routes (remove_route s c drop_client) cs drop_client
      (remove_route-IsMirror s c drop_client v),
  length-remove_route s c drop_client v,
)

lookup-remove_routes :
    (s : RouteState) (cs : List ClientId) (drop_client : Bool) (d : ClientId)
    → IsMirror s
    → lookup d (remove_routes s cs drop_client).clients ≡ (
        if contains d cs
        then (if drop_client then none else cleared (lookup d s.clients))
        else lookup d s.clients)
unfolding remove_routes contains
lookup-remove_routes s [] drop_client d v = refl
lookup-remove_routes s (c ∷ cs) drop_client d v = ground (
  arith,
  lookup-remove_routes (remove_route s c drop_client) cs drop_client d
      (remove_route-IsMirror s c drop_client v),
  lookup-remove_route s c drop_client v d,
)

module _ (capacity : ℕ) (s : RouteState) (event : MarketEvent) (v : IsMirror s) where
  abbrev targets : List ClientId
  targets = ids (subscription_key event) s.clients_by_key

  abbrev sent : Sending
  sent =
      send_to_all capacity event (record { clients = s.clients; lagged = []; closed = [] }) targets

  sent_to :
      (d : ClientId)
      → lookup d sent.clients ≡ (
          if contains d targets
          then tried capacity event (lookup d s.clients)
          else lookup d s.clients)
  sent_to d =
      lookup-send_to_all capacity event _ targets d (v.members.sorted (subscription_key event))

  route_keys-sent : (d : ClientId) → keys_of (lookup d sent.clients) ≡ route_keys s d
  unfolding tried
  route_keys-sent d = rw (sent_to d) (ground arith)

  sent-IsMirror : IsMirror (record s { clients = sent.clients })
  sent-IsMirror = record {
    members = v.members;
    distinct = send_to_all-Distinct capacity event _ targets v.distinct;
    sorted = λ d. rw (route_keys-sent d) (v.sorted d);
    mirror = λ k d. rw (route_keys-sent d) (v.mirror k d);
  }

  pub route_event-IsMirror : IsMirror (route_event capacity s event)
  unfolding route_event
  route_event-IsMirror =
      remove_routes-IsMirror _ sent.closed true
        (remove_routes-IsMirror _ sent.lagged false sent-IsMirror)

  pub length-route_event : length (route_event capacity s event).clients ≤ length s.clients
  unfolding route_event
  length-route_event = omega (
    arith,
    length-remove_routes _ sent.closed true
        (remove_routes-IsMirror _ sent.lagged false sent-IsMirror),
    length-remove_routes (record s { clients = sent.clients }) sent.lagged false sent-IsMirror,
    length-send_to_all capacity event (record { clients = s.clients; lagged = []; closed = [] })
        targets,
  )

  -- Exactly the routes subscribed to the key of the event change, and each as `delivered` says.
  pub lookup-route_event :
      (d : ClientId)
      → lookup d (route_event capacity s event).clients ≡ (
          if contains (subscription_key event) (route_keys s d)
          then delivered capacity event (lookup d s.clients)
          else lookup d s.clients)
  unfolding route_event tried is_full is_shut delivered contains
  lookup-route_event d = ground (
    arith,
    lookup-remove_routes (remove_routes (record s { clients = sent.clients }) sent.lagged false)
        sent.closed true d (remove_routes-IsMirror _ sent.lagged false sent-IsMirror),
    lookup-remove_routes (record s { clients = sent.clients }) sent.lagged false d sent-IsMirror,
    sent_to d,
    lagged-send_to_all capacity event (record { clients = s.clients; lagged = []; closed = [] })
        targets d (v.members.sorted (subscription_key event)),
    closed-send_to_all capacity event (record { clients = s.clients; lagged = []; closed = [] })
        targets d (v.members.sorted (subscription_key event)),
    v.mirror (subscription_key event) d,
  )
