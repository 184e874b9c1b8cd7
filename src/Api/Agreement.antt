-- ===== src/Api/Agreement.antt =====
-- src/api.rs: each step of the sessions and the publishers keeps the sessions, the registry and the
-- hub in agreement.
use mathlib.Core.List.{Perm}
use market_stream_gateway.Prelude.{
  ℕ, ◌≡◌, inl, inr, refl, sym, ap, ◌∙◌, subst, true, List, [], none, some, arith, Bool-cases,
  Option-cases, ok, ◌==◌, nat_order,
}
use market_stream_gateway.Set.Sorted.{IsSorted}
use market_stream_gateway.Map
use market_stream_gateway.Map.{lookup, Distinct}
use market_stream_gateway.Map.Laws.{lookup-insert, insert-Distinct, remove-Distinct}
use market_stream_gateway.Domain.Identity.{Provider, SubscriptionKey, key_order}
use market_stream_gateway.Domain.Event.{ProviderEvent}
use market_stream_gateway.Gateway.Registry
use market_stream_gateway.Gateway.Registry.{
  Registry, RegistryError, SubscriptionChange, ClientId, client_keys, add, cleanup_client,
  with_provider_limits,
}
use market_stream_gateway.Gateway.Registry.Invariant.{Fits}
use market_stream_gateway.Gateway.Registry.Adding.{add-Inv}
use market_stream_gateway.Gateway.Registry.Removing.{remove-Inv, cleanup_client-Inv}
use market_stream_gateway.Gateway.Registry.Effects.{add-Outcome}
use market_stream_gateway.Gateway.Registry.Releases.{remove-Released, cleanup_client-Released}
use market_stream_gateway.Gateway.Hub.{
  ClientRoute, try_register_client, remove_client, update_client_subscriptions, publish,
}
use market_stream_gateway.Gateway.Hub.Invariant as HubInvariant
use market_stream_gateway.Gateway.Hub.Publish as HubPublish
use market_stream_gateway.Gateway.Hub.Publish.{with_route, receive}
use market_stream_gateway.Api.Joint.{
  Phase, idle, switching, leaving, World, IsOpen, IsRouted, Agrees, Inv,
}
use market_stream_gateway.Gateway.Hub.Mirror.{lookup-remove_route}
use market_stream_gateway.Api.Agrees.{
  insert-Agrees, remove-Agrees, Outcome-Added, IsRouted-IsOpen, Registered-true, lookup-update,
  lookup-publish, delivered-Agrees, receive-Agrees,
}

module _ (hash_order : List (Provider × ℕ) → List (Provider × ℕ))
    (perm : (t : List (Provider × ℕ)) → Perm (hash_order t) t) (s : World) (v : Inv s) where
  pub at_phase :
      (c : ClientId) (phase : Phase)
      → lookup c s.sessions ≡ some phase
      → Agrees (some phase) (client_keys s.registry c) (lookup c s.hub.routes.clients)
  at_phase c phase found =
      subst (λ o. Agrees o (client_keys s.registry c) (lookup c s.hub.routes.clients)) found
        (v.agrees c)

  pub joins-Inv :
      (c : ClientId)
      → lookup c s.sessions ≡ none
      → (try_register_client s.hub c).1 ≡ true
      → Inv (record s {
        hub = (try_register_client s.hub c).0;
        sessions = Map.insert c (idle []) s.sessions;
      })
  joins-Inv c gone joined =
      let (here, others) =
        Registered-true s.hub c (try_register_client s.hub c)
          (HubPublish.try_register_client-Registered s.hub c v.hub) joined in
      let before =
        subst (λ o. Agrees o (client_keys s.registry c) (lookup c s.hub.routes.clients)) gone
          (v.agrees c) in
      record {
        hub = HubInvariant.try_register_client-Inv s.hub v.hub c;
        registry = v.registry;
        distinct = insert-Distinct c (idle []) s.sessions v.distinct;
        agrees =
            insert-Agrees (client_keys s.registry) (client_keys s.registry)
              (λ d. lookup d s.hub.routes.clients)
              (λ d. lookup d (try_register_client s.hub c).0.routes.clients) s.sessions c
              (λ d ne. refl) others v.agrees (idle [])
              (before.0, subst (IsRouted []) (sym here) (refl, inl refl));
      }

  pub adds-Inv :
      (c : ClientId) (own keys : List SubscriptionKey) (change : SubscriptionChange)
      → lookup c s.sessions ≡ some (idle own)
      → Fits s.registry keys
      → (add hash_order s.registry c keys).1 ≡ ok change
      → Inv (record s {
        registry = (add hash_order s.registry c keys).0;
        sessions = Map.insert c (switching change.client_subscriptions) s.sessions;
      })
  adds-Inv c own keys change found fits accepted =
      let added =
        Outcome-Added s.registry c keys (add hash_order s.registry c keys) change
          (add-Outcome hash_order perm s.registry c keys v.registry fits) accepted in
      record {
        hub = v.hub;
        registry = add-Inv hash_order perm s.registry c keys v.registry fits;
        distinct = insert-Distinct c (switching change.client_subscriptions) s.sessions v.distinct;
        agrees =
            insert-Agrees (client_keys s.registry)
              (client_keys (add hash_order s.registry c keys).0)
              (λ d. lookup d s.hub.routes.clients) (λ d. lookup d s.hub.routes.clients) s.sessions c
              added.others (λ d ne. refl) v.agrees (switching change.client_subscriptions)
              (sym added.reported, IsRouted-IsOpen own _ (at_phase c (idle own) found).1);
      }

  pub removes-Inv :
      (c : ClientId) (own keys : List SubscriptionKey)
      → lookup c s.sessions ≡ some (idle own)
      → Inv (record s {
        registry = (Registry.remove s.registry c keys).0;
        sessions =
            Map.insert c
              (switching (Registry.remove s.registry c keys).1.client_subscriptions)
              s.sessions;
      })
  removes-Inv c own keys found =
      let released = remove-Released s.registry c keys v.registry in
      record {
        hub = v.hub;
        registry = remove-Inv s.registry c keys v.registry;
        distinct =
            insert-Distinct c (switching (Registry.remove s.registry c keys).1.client_subscriptions)
              s.sessions v.distinct;
        agrees =
            insert-Agrees (client_keys s.registry)
              (client_keys (Registry.remove s.registry c keys).0)
              (λ d. lookup d s.hub.routes.clients) (λ d. lookup d s.hub.routes.clients) s.sessions c
              released.others (λ d ne. refl) v.agrees
              (switching (Registry.remove s.registry c keys).1.client_subscriptions)
              (sym released.reported, IsRouted-IsOpen own _ (at_phase c (idle own) found).1);
      }

  pub leaves-Inv :
      (c : ClientId)
      → Inv (record s { hub = remove_client s.hub c; sessions = Map.insert c leaving s.sessions })
  unfolding remove_client
  leaves-Inv c = record {
    hub = HubInvariant.remove_client-Inv s.hub v.hub c;
    registry = v.registry;
    distinct = insert-Distinct c leaving s.sessions v.distinct;
    agrees =
        insert-Agrees (client_keys s.registry) (client_keys s.registry)
          (λ d. lookup d s.hub.routes.clients)
          (λ d. lookup d (remove_client s.hub c).routes.clients) s.sessions c (λ d ne. refl)
          (λ d ne.
            ground (
              arith,
              lookup-remove_route s.hub.routes c true v.hub.mirror d,
              nat_order.beq_iff c d,
            ))
          v.agrees leaving (ground (arith, lookup-remove_route s.hub.routes c true v.hub.mirror c));
  }

  pub cleans-Inv :
      (c : ClientId)
      → lookup c s.sessions ≡ some leaving
      → Inv (record s {
        registry = (cleanup_client s.registry c).0;
        sessions = Map.remove c s.sessions;
      })
  cleans-Inv c found =
      let (released, gone) = cleanup_client-Released s.registry c v.registry in
      record {
        hub = v.hub;
        registry = cleanup_client-Inv s.registry c v.registry;
        distinct = remove-Distinct c s.sessions v.distinct;
        agrees =
            remove-Agrees (client_keys s.registry) (client_keys (cleanup_client s.registry c).0)
              (λ d. lookup d s.hub.routes.clients) (λ d. lookup d s.hub.routes.clients) s.sessions c
              released.others (λ d ne. refl) v.agrees v.distinct
              (ground (arith, gone), at_phase c leaving found);
      }

  pub routes-Inv :
      (c : ClientId) (own : List SubscriptionKey)
      → lookup c s.sessions ≡ some (switching own)
      → Inv (record s {
        hub = (update_client_subscriptions s.hub c own).0;
        sessions = Map.insert c (idle own) s.sessions;
      })
  routes-Inv c own found =
      let (held, is_up) = at_phase c (switching own) found in
      let sorted : IsSorted own = subst IsSorted held (v.registry.sorted c) in
      elim (Option-cases (lookup c s.hub.routes.clients)) [
        | inl e ↦ absurd (subst IsOpen e is_up)
        | inr (route, e) ↦ record {
          hub = HubInvariant.update_client_subscriptions-Inv s.hub v.hub c own sorted;
          registry = v.registry;
          distinct = insert-Distinct c (idle own) s.sessions v.distinct;
          agrees =
              insert-Agrees (client_keys s.registry) (client_keys s.registry)
                (λ d. lookup d s.hub.routes.clients)
                (λ d. lookup d (update_client_subscriptions s.hub c own).0.routes.clients)
                s.sessions c (λ d ne. refl)
                (λ d ne. ground (arith, lookup-update s.hub c own route e d, nat_order.beq_iff c d))
                v.agrees (idle own)
                (
                  held,
                  subst (IsRouted own) {x = some (record route { subscriptions = own })}
                      (ground (arith, lookup-update s.hub c own route e c))
                      (subst IsOpen e is_up, inl refl),
                );
        }
      ]

  pub publishes-Inv : (e : ProviderEvent) → Inv (record s { hub = (publish s.hub e).0 })
  publishes-Inv e = record {
    hub = HubInvariant.publish-Inv s.hub v.hub e;
    registry = v.registry;
    distinct = v.distinct;
    agrees = λ d.
        elim (lookup-publish s.hub e (publish s.hub e) (HubPublish.publish-Published s.hub e v.hub)
          d) [
            | inl q ↦
                subst (Agrees (lookup d s.sessions) (client_keys s.registry d)) (sym q) (v.agrees d)
            | inr (event, q) ↦
                subst (Agrees (lookup d s.sessions) (client_keys s.registry d)) (sym q) (
                  delivered-Agrees (lookup d s.sessions) (client_keys s.registry d)
                    s.hub.client_capacity event _ (v.agrees d))
          ];
  }

  pub receives-Inv :
      (c : ClientId) (route : ClientRoute)
      → lookup c s.hub.routes.clients ≡ some route
      → Inv (record s { hub = with_route s.hub c (receive route) })
  receives-Inv c route found = record {
    hub = HubPublish.Step-Inv (HubPublish.receives c route found) v.hub;
    registry = v.registry;
    distinct = v.distinct;
    agrees = λ d. elim (Bool-cases (c == d)) [
      | inl e ↦
          (let same : c ≡ d = (nat_order.beq_iff c d).0 e in
            subst (Agrees (lookup d s.sessions) (client_keys s.registry d))
              {x = some (receive route)}
              (ground (arith, e, lookup-insert c d (receive route) s.hub.routes.clients))
              (receive-Agrees (lookup d s.sessions) (client_keys s.registry d) route (
                subst (Agrees (lookup d s.sessions) (client_keys s.registry d))
                  (ap (λ x. lookup x s.hub.routes.clients) (sym same) ∙ found) (v.agrees d))))
      | inr e ↦
          subst (Agrees (lookup d s.sessions) (client_keys s.registry d))
            {x = lookup d s.hub.routes.clients}
            (ground (arith, e, lookup-insert c d (receive route) s.hub.routes.clients)) (v.agrees d)
    ];
  }
