-- ===== src/Api/Ends.antt =====
-- src/api.rs: the beginning and the end of a session, as runs of steps.
use market_stream_gateway.Prelude.{
  ℕ, Bool, ◌≡◌, ◌∙◌, subst, true, false, List, [], none, some, arith, Bool-cases, inl, inr,
  if◌then◌else◌, nat_order,
}
use market_stream_gateway.Text.{Text}
use market_stream_gateway.Map
use market_stream_gateway.Map.{lookup}
use market_stream_gateway.Map.Laws.{lookup-insert, remove-insert, remove_absent}
use market_stream_gateway.Domain.Identity.{Provider, SubscriptionKey}
use market_stream_gateway.Domain.Event.{Uuid}
use market_stream_gateway.Gateway.Registry.{ClientId}
use market_stream_gateway.Gateway.Hub.{Hub, try_register_client}
use market_stream_gateway.Gateway.Hub.Invariant.{Inv}
use market_stream_gateway.Gateway.Hub.Publish.{Registered, try_register_client-Registered}
use market_stream_gateway.Api.Server.{AppState}
use market_stream_gateway.Api.Session.{join, cleanup_session, open_session}
use market_stream_gateway.Api.Joint.{Phase, World, idle, leaving, joins, leaves, cleans}
use market_stream_gateway.Api.Runs.{Steps, stop, and_then, world}

Registered-false :
    (h : Hub) (c : ClientId) (after : Hub × Bool)
    → Registered h c after
    → after.1 ≡ false
    → after.0 ≡ h
Registered-false h c (h', false) r e = r.0
Registered-false h c (h', true) r e = cc

module _ (hash_order : List (Provider × ℕ) → List (Provider × ℕ)) (c : ClientId) (state : AppState)
    (sessions : List (ClientId × Phase)) where
  -- The end of a session, of the hub first and then of the registry, is a run of steps after which
  -- there is no session.
  pub cleanup_session-Steps :
      (own : List SubscriptionKey)
      → lookup c sessions ≡ some (idle own)
      → Steps hash_order
          (world state sessions)
          (world (cleanup_session state c) (Map.remove c sessions))
  unfolding cleanup_session
  cleanup_session-Steps own found =
      subst (λ m. Steps hash_order (world state sessions) (world (cleanup_session state c) m))
        (remove-insert c leaving sessions)
        (and_then (and_then stop (leaves c own found))
          (cleans c (ground (arith, lookup-insert c c leaving sessions))))

Steps-append :
    (hash_order : List (Provider × ℕ) → List (Provider × ℕ)) {s s' s'' : World}
    → Steps hash_order s s'
    → Steps hash_order s' s''
    → Steps hash_order s s''
Steps-append hash_order h stop = h
Steps-append hash_order h (and_then k t) = and_then (Steps-append hash_order h k) t

begun :
    (hash_order : List (Provider × ℕ) → List (Provider × ℕ)) (c : ClientId) (state : AppState)
    (sessions : List (ClientId × Phase)) (sent : Bool)
    → lookup c sessions ≡ none
    → (try_register_client state.hub c).1 ≡ true
    → Steps hash_order (world state sessions) (
        world
          (if sent then join state c else cleanup_session (join state c) c)
          (if sent then Map.insert c (idle []) sessions else sessions))
begun hash_order c state sessions true gone e = and_then stop (joins c gone e)
begun hash_order c state sessions false gone e =
    let after : List (ClientId × Phase) = Map.insert c (idle []) sessions in
    Steps-append hash_order (and_then stop (joins c gone e)) (
      subst
        (λ m.
          Steps hash_order (world (join state c) after)
            (world (cleanup_session (join state c) c) m))
        (remove-insert c (idle []) sessions ∙ remove_absent c sessions gone)
        (cleanup_session-Steps hash_order c (join state c) after []
          (ground (arith, lookup-insert c c (idle []) sessions))))

-- On a hub that keeps its invariant, the beginning of a session of a new client is a run of steps
-- after which there is a session without a key, or, where the hub has no room or the first frame is
-- not sent, none.
pub open_session-Steps :
    (hash_order : List (Provider × ℕ) → List (Provider × ℕ)) (c : ClientId) (state : AppState)
    (sessions : List (ClientId × Phase)) (show_uuid : Uuid → Text) (sent : Bool)
    → Inv state.hub
    → lookup c sessions ≡ none
    → Steps hash_order (world state sessions) (
        world (open_session show_uuid state c sent).state (
          if (open_session show_uuid state c sent).goes_on
          then Map.insert c (idle []) sessions
          else sessions))
unfolding open_session
open_session-Steps hash_order c state sessions show_uuid sent v gone =
    elim (Bool-cases (try_register_client state.hub c).1) [
      | inr e ↦
          (let same =
              Registered-false state.hub c (try_register_client state.hub c)
                (try_register_client-Registered state.hub c v) e in
            rw (e, same, open_session) stop)
      | inl e ↦ rw (e, open_session) (begun hash_order c state sessions sent gone e)
    ]
