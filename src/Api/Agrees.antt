-- ===== src/Api/Agrees.antt =====
-- src/api.rs: how each step of a session, of the registry and of the hub bears on what the three
-- say of one client.
use market_stream_gateway.Prelude.{
  ℕ, Bool, ◌≡◌, ◌≢◌, ◌⊎◌, inl, inr, refl, sym, ap, subst, true, false, List, [], ◌∷◌, Option, none,
  some, arith, Bool-cases, Result, ok, err, ◌==◌, nat_order, saturating_suc_pos, if◌then◌else◌,
}
use market_stream_gateway.Set.{contains}
use market_stream_gateway.Map
use market_stream_gateway.Map.{lookup, Distinct}
use market_stream_gateway.Map.Laws.{lookup-insert, lookup-remove}
use market_stream_gateway.Domain.Identity.{SubscriptionKey, key_order}
use market_stream_gateway.Domain.Event.{ProviderEvent, MarketEvent, provider_event_key}
use market_stream_gateway.Gateway.Registry.{Registry, RegistryError, SubscriptionChange, ClientId}
use market_stream_gateway.Gateway.Registry.Effects.{Outcome, Added}
use market_stream_gateway.Gateway.Hub.{
  Hub, ClientRoute, PublishError, new_route, route_keys, update_client_subscriptions,
}
use market_stream_gateway.Gateway.Hub.Publish as HubPublish
use market_stream_gateway.Gateway.Hub.Publish.{with_route, receive}
use market_stream_gateway.Gateway.Hub.Delivery.{delivered}
use market_stream_gateway.Api.Joint.{Phase, idle, switching, leaving, IsOpen, IsRouted, Agrees}
use mathlib.Core.Path.{subst₂}

module _ (old new : ClientId → List SubscriptionKey) (before after : ClientId → Option ClientRoute)
    (sessions : List (ClientId × Phase)) (c : ClientId)
    (same_keys : (d : ClientId) → d ≢ c → new d ≡ old d)
    (same_route : (d : ClientId) → d ≢ c → after d ≡ before d)
    (agrees : (d : ClientId) → Agrees (lookup d sessions) (old d) (before d)) where
  -- The others agree as they did.
  pub other-Agrees : (d : ClientId) → d ≢ c → Agrees (lookup d sessions) (new d) (after d)
  other-Agrees d ne =
      subst₂ (Agrees (lookup d sessions)) (sym (same_keys d ne)) (sym (same_route d ne)) (agrees d)

  pub insert-Agrees :
      (phase : Phase)
      → Agrees (some phase) (new c) (after c)
      → (d : ClientId) → Agrees (lookup d (Map.insert c phase sessions)) (new d) (after d)
  insert-Agrees phase h d = elim (Bool-cases (c == d)) [
    | inl e ↦
        (let same : c ≡ d = (nat_order.beq_iff c d).0 e in
          subst (λ x. Agrees (lookup x (Map.insert c phase sessions)) (new x) (after x)) same
            (subst (λ o. Agrees o (new c) (after c)) {x = some phase}
              (ground (arith, lookup-insert c c phase sessions)) h))
    | inr e ↦
        subst (λ o. Agrees o (new d) (after d)) {x = lookup d sessions}
          (ground (arith, e, lookup-insert c d phase sessions))
          (other-Agrees d (λ q. ground (arith, e, nat_order.beq_iff c d)))
  ]

  pub remove-Agrees :
      Distinct sessions
      → Agrees none (new c) (after c)
      → (d : ClientId) → Agrees (lookup d (Map.remove c sessions)) (new d) (after d)
  remove-Agrees distinct h d = elim (Bool-cases (c == d)) [
    | inl e ↦
        (let same : c ≡ d = (nat_order.beq_iff c d).0 e in
          subst (λ x. Agrees (lookup x (Map.remove c sessions)) (new x) (after x)) same
            (subst (λ o. Agrees o (new c) (after c)) {x = none}
              (ground (arith, lookup-remove c c sessions distinct)) h))
    | inr e ↦
        subst (λ o. Agrees o (new d) (after d)) {x = lookup d sessions}
          (ground (arith, e, lookup-remove c d sessions distinct))
          (other-Agrees d (λ q. ground (arith, e, nat_order.beq_iff c d)))
  ]

pub Outcome-Added :
    (r : Registry) (c : ClientId) (keys : List SubscriptionKey)
    (after : Registry × Result SubscriptionChange RegistryError) (change : SubscriptionChange)
    → Outcome r c keys after
    → after.1 ≡ ok change
    → Added r c keys after.0 change
Outcome-Added r c keys (r', err e) change o h = cc
Outcome-Added r c keys (r', ok change') change o h =
    let same : change' ≡ change = ground arith in subst (Added r c keys r') same o.0

pub IsRouted-IsOpen :
    (own : List SubscriptionKey) (o : Option ClientRoute) → IsRouted own o → IsOpen o
IsRouted-IsOpen own none h = elim h [ ]
IsRouted-IsOpen own (some route) h = h.0

pub Registered-true :
    (h : Hub) (c : ClientId) (after : Hub × Bool)
    → HubPublish.Registered h c after
    → after.1 ≡ true
    → (lookup c after.0.routes.clients ≡ some new_route)
      × ((d : ClientId) → d ≢ c → lookup d after.0.routes.clients ≡ lookup d h.routes.clients)
Registered-true h c (h', false) r e = cc
Registered-true h c (h', true) r e = (r.0, r.1)

pub lookup-update :
    (h : Hub) (c : ClientId) (keys : List SubscriptionKey) (route : ClientRoute)
    → lookup c h.routes.clients ≡ some route
    → (d : ClientId)
    → lookup d (update_client_subscriptions h c keys).0.routes.clients
      ≡ (if c == d then some (record route { subscriptions = keys }) else lookup d h.routes.clients)
unfolding update_client_subscriptions
lookup-update h c keys route e d =
    rw (e, update_client_subscriptions)
      (lookup-insert c d (record route { subscriptions = keys }) h.routes.clients)

-- An event leaves a route as it is, or treats it as `delivered` says.
pub lookup-publish :
    (h : Hub) (e : ProviderEvent) (after : Hub × Result MarketEvent PublishError)
    → HubPublish.Published h e after
    → (d : ClientId)
    → (lookup d after.0.routes.clients ≡ lookup d h.routes.clients)
      ⊎ ((event : MarketEvent) × (lookup d after.0.routes.clients
            ≡ delivered h.client_capacity event (lookup d h.routes.clients)))
lookup-publish h e (h', err x) p d = inl (ap (λ k. lookup d k.routes.clients) p.0)
lookup-publish h e (h', ok event) p d =
    elim (Bool-cases (contains (provider_event_key e) (route_keys h.routes d))) [
      | inl q ↦ inr (event, ground (arith, p.3 d, q))
      | inr q ↦ inl (ground (arith, p.3 d, q))
    ]

pub delivered-Agrees :
    (phase : Option Phase) (keys : List SubscriptionKey) (capacity : ℕ) (event : MarketEvent)
    (o : Option ClientRoute)
    → Agrees phase keys o
    → Agrees phase keys (delivered capacity event o)
unfolding delivered
delivered-Agrees none keys capacity event none h = h
delivered-Agrees none keys capacity event (some route) h = cc
delivered-Agrees (some (idle own)) keys capacity event none h = h
delivered-Agrees (some (idle own)) keys capacity event (some route) h =
    ground (arith, h, saturating_suc_pos route.lagged)
delivered-Agrees (some (switching own)) keys capacity event none h = h
delivered-Agrees (some (switching own)) keys capacity event (some route) h = ground (arith, h)
delivered-Agrees (some leaving) keys capacity event none h = h
delivered-Agrees (some leaving) keys capacity event (some route) h = cc

pub receive-kept :
    (route : ClientRoute) (queue : List MarketEvent)
    → route.queue ≡ queue
    → ((receive route).subscriptions ≡ route.subscriptions)
      × ((receive route).is_open ≡ route.is_open)
      × ((receive route).lagged ≡ route.lagged)
unfolding receive
receive-kept route [] e = ground arith
receive-kept route (x ∷ queue) e = ground arith

pub receive-Agrees :
    (phase : Option Phase) (keys : List SubscriptionKey) (route : ClientRoute)
    → Agrees phase keys (some route)
    → Agrees phase keys (some (receive route))
receive-Agrees none keys route h = cc
receive-Agrees (some (idle own)) keys route h =
    ground (arith, h, receive-kept route route.queue refl)
receive-Agrees (some (switching own)) keys route h =
    ground (arith, h, receive-kept route route.queue refl)
receive-Agrees (some leaving) keys route h = cc
