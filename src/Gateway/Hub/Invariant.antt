-- ===== src/Gateway/Hub/Invariant.antt =====
-- src/gateway.rs: what a `GatewayHub` keeps to, whatever its clients and the providers do.
use market_stream_gateway.Prelude.{
  ℕ, zero, suc, ◌+◌, ◌-◌, ◌≤◌, ◌<◌, ◌≡◌, refl, ap, sym, subst, ◌∙◌, true, not, ◌&&◌, List, [], ◌∷◌,
  ◌++◌, map, Option, none, some, arith, ltb, leb, length, length-append, Option-cases, Bool-cases,
  inl, inr, if◌then◌else◌, ◌==◌, nat_order, All, All-append, max_u64,
}
use market_stream_gateway.Set.{contains}
use market_stream_gateway.Set.Sorted.{IsSorted}
use market_stream_gateway.Map
use market_stream_gateway.Map.{lookup, Distinct}
use market_stream_gateway.Map.Laws.{lookup-insert, insert-Distinct, length-insert}
use market_stream_gateway.Domain.Identity.{SubscriptionKey, key_order}
use market_stream_gateway.Domain.Event.{Uuid, MarketEvent, ProviderEvent, into_market_event}
use market_stream_gateway.Domain.Payload.{is_some}
use market_stream_gateway.Gateway.Registry.{ClientId}
use market_stream_gateway.Gateway.Hub.{
  Hub, fresh_hub, keys_of, ClientRoute, new_route, route_keys, with_client_limit,
  try_register_client, remove_client, update_client_subscriptions, publish, remove_route,
}
use market_stream_gateway.Gateway.Hub.Mirror.{
  IsMirror, lookup-remove_route, length-remove_route, length-remove_route_drop,
  route_keys-remove_route, remove_route-IsMirror, rerouted-IsMirror,
}
use market_stream_gateway.Gateway.Hub.Delivery.{
  delivered, lookup-route_event, route_event-IsMirror, length-route_event,
}

abbrev pub sequence : MarketEvent → ℕ
sequence e = e.delivery_sequence

-- Every event of the queue has a sequence below `n`, and they ascend.
abbrev pub IsAscending : ℕ → List MarketEvent → Type 0
IsAscending n [] = Unit
IsAscending n (e ∷ es) =
    (sequence e < n) × All (λ e'. sequence e < sequence e') es × IsAscending n es

-- The numbers 1, 2, …, n.
abbrev pub numbers : ℕ → List ℕ
numbers zero = []
numbers (suc n) = numbers n ++ suc n ∷ []

-- A queue within its capacity, its events in the order of their sequences.
abbrev pub IsQueue : ℕ → ℕ → Option ClientRoute → Type 0
IsQueue capacity n none = Unit
IsQueue capacity n (some route) = (length route.queue ≤ capacity) × IsAscending n route.queue

pub record Inv (h : Hub) : Type 0 where
  pub mirror : IsMirror h.routes
  pub queues :
      (c : ClientId)
      → IsQueue h.client_capacity h.next_delivery_sequence (lookup c h.routes.clients)
  pub crowd : length h.routes.clients ≤ h.max_clients
  pub started : 0 < h.next_delivery_sequence
  pub logged : map sequence h.diagnostics ≡ numbers (h.next_delivery_sequence - 1)

fresh_hub-Inv :
    (epoch : Uuid) (capacity max_clients : ℕ) → Inv (fresh_hub epoch capacity max_clients)
unfolding lookup contains
fresh_hub-Inv epoch capacity max_clients = record {
  mirror = record {
    members = record { distinct = tt; sorted = λ k. tt; occupied = λ k. cc };
    distinct = tt;
    sorted = λ c. tt;
    mirror = λ k c. refl;
  };
  queues = λ c. tt;
  crowd = omega arith;
  started = omega arith;
  logged = refl;
}

pub with_client_limit-Inv :
    (epoch : Uuid) (capacity max_clients : ℕ) (h : Hub)
    → with_client_limit epoch capacity max_clients ≡ some h
    → Inv h
unfolding with_client_limit
with_client_limit-Inv epoch capacity max_clients h e =
    let same : fresh_hub epoch capacity max_clients ≡ h = ground arith in
    subst Inv same (fresh_hub-Inv epoch capacity max_clients)

numbers_next : (n : ℕ) → 0 < n → numbers (n + 1 - 1) ≡ numbers (n - 1) ++ n ∷ []
numbers_next zero h = absurd (omega arith)
numbers_next (suc n) h =
    let e : suc n + 1 - 1 ≡ suc n = omega arith in let f : suc n - 1 ≡ n = omega arith in rw (e, f)

IsAscending-mono : (m n : ℕ) (es : List MarketEvent) → m ≤ n → IsAscending m es → IsAscending n es
IsAscending-mono m n [] h a = tt
IsAscending-mono m n (e ∷ es) h a = (omega arith, a.1, IsAscending-mono m n es h a.2)

IsAscending-append :
    (n : ℕ) (es : List MarketEvent) (e : MarketEvent)
    → sequence e ≡ n
    → IsAscending n es
    → IsAscending (n + 1) (es ++ e ∷ [])
IsAscending-append n [] e h a = (omega arith, tt, tt)
IsAscending-append n (x ∷ es) e h a = (
  omega arith,
  All-append (λ y. sequence x < sequence y) es (e ∷ []) a.1 (omega arith, tt),
  IsAscending-append n es e h a.2,
)

IsQueue-mono :
    (capacity m n : ℕ) (o : Option ClientRoute)
    → m ≤ n
    → IsQueue capacity m o
    → IsQueue capacity n o
IsQueue-mono capacity m n none h q = tt
IsQueue-mono capacity m n (some route) h q = (q.0, IsAscending-mono m n route.queue h q.1)

delivered-IsQueue :
    (capacity n : ℕ) (event : MarketEvent) (o : Option ClientRoute)
    → sequence event ≡ n
    → IsQueue capacity n o
    → IsQueue capacity (n + 1) (delivered capacity event o)
unfolding delivered
delivered-IsQueue capacity n event none h q = tt
delivered-IsQueue capacity n event (some route) h q = ground (
  arith,
  IsAscending-append n route.queue event h q.1,
  IsAscending-mono n (n + 1) route.queue,
  length-append route.queue (event ∷ []),
)

map-append_one :
    (es : List MarketEvent) (e : MarketEvent)
    → map sequence (es ++ e ∷ []) ≡ map sequence es ++ sequence e ∷ []
map-append_one [] e = refl
map-append_one (x ∷ es) e = ap (◌∷◌ (sequence x)) (map-append_one es e)

module _ (h : Hub) (v : Inv h) where
  pub publish-Inv : (e : ProviderEvent) → Inv (publish h e).0
  unfolding publish into_market_event
  publish-Inv e = elim (Bool-cases (ltb h.next_delivery_sequence max_u64)) [
    | inr full ↦ rw full v
    | inl room ↦ rw room (record {
      mirror = route_event-IsMirror h.client_capacity h.routes event v.mirror;
      queues = λ c. rw (lookup-route_event h.client_capacity h.routes event v.mirror c) (
          ground (
            arith,
            delivered-IsQueue h.client_capacity h.next_delivery_sequence event
                (lookup c h.routes.clients) refl (v.queues c),
            IsQueue-mono h.client_capacity h.next_delivery_sequence (h.next_delivery_sequence + 1)
                (lookup c h.routes.clients) (omega arith) (v.queues c),
          ));
      crowd = omega (arith, v.crowd, length-route_event h.client_capacity h.routes event v.mirror);
      started = omega arith;
      logged =
          map-append_one h.diagnostics event
          ∙ ap (λ l. l ++ h.next_delivery_sequence ∷ []) v.logged
          ∙ sym (numbers_next h.next_delivery_sequence v.started);
    })
  ]
    where
      event : MarketEvent
      event = into_market_event e h.stream_epoch h.next_delivery_sequence

  pub remove_client-Inv : (c : ClientId) → Inv (remove_client h c)
  unfolding remove_client
  remove_client-Inv c = record {
    mirror = remove_route-IsMirror h.routes c true v.mirror;
    queues = λ d. rw (lookup-remove_route h.routes c true v.mirror d) (ground (arith, v.queues d));
    crowd = omega (arith, v.crowd, length-remove_route h.routes c true v.mirror);
    started = v.started;
    logged = v.logged;
  }

  pub update_client_subscriptions-Inv :
      (c : ClientId) (keys : List SubscriptionKey)
      → IsSorted keys
      → Inv (update_client_subscriptions h c keys).0
  unfolding update_client_subscriptions
  update_client_subscriptions-Inv c keys sorted = elim (Option-cases (lookup c h.routes.clients)) [
    | inl e ↦ rw (e, update_client_subscriptions) v
    | inr (route, e) ↦
        rw (e, update_client_subscriptions)
          (record {
            mirror = rerouted-IsMirror h.routes c route keys v.mirror e sorted;
            queues = λ d.
                rw (lookup-insert c d (record route { subscriptions = keys }) h.routes.clients)
                  (ground (arith, v.queues d, v.queues c));
            crowd = ground (
              arith,
              v.crowd,
              length-insert c (record route { subscriptions = keys }) h.routes.clients,
            );
            started = v.started;
            logged = v.logged;
          })
  ]

  pub try_register_client-Inv : (c : ClientId) → Inv (try_register_client h c).0
  unfolding try_register_client contains
  try_register_client-Inv c =
      elim (Bool-cases (
        not (is_some (lookup c h.routes.clients)) && leb h.max_clients (length h.routes.clients))) [
          | inl full ↦ rw full v
          | inr room ↦ rw room (record {
            mirror = record {
              members = cleaned.members;
              distinct = insert-Distinct c new_route _ cleaned.distinct;
              sorted = λ d. rw (keys_after d) (ground (arith, cleaned.sorted d));
              mirror = λ k d. rw (keys_after d) (
                  ground (
                    arith,
                    cleaned.mirror k d,
                    route_keys-remove_route h.routes c true v.mirror d,
                  ));
            };
            queues = λ d.
                rw (lookup-insert c d new_route (remove_route h.routes c true).clients)
                  (ground (arith, lookup-remove_route h.routes c true v.mirror d, v.queues d));
            crowd = ground (
              arith,
              room,
              v.crowd,
              length-insert c new_route (remove_route h.routes c true).clients,
              length-remove_route_drop h.routes c true v.mirror refl,
              lookup-remove_route h.routes c true v.mirror c,
            );
            started = v.started;
            logged = v.logged;
          })
        ]
    where
      cleaned : IsMirror (remove_route h.routes c true)
      cleaned = remove_route-IsMirror h.routes c true v.mirror

      keys_after :
          (d : ClientId)
          → keys_of (lookup d (Map.insert c new_route (remove_route h.routes c true).clients))
            ≡ (if c == d then [] else route_keys (remove_route h.routes c true) d)
      keys_after d =
          ground (arith, lookup-insert c d new_route (remove_route h.routes c true).clients)
