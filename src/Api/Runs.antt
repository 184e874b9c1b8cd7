-- ===== src/Api/Runs.antt =====
-- src/api.rs: what the functions of a session do to the shared state is a run of steps of the
-- session in Api.Joint.
use market_stream_gateway.Prelude.{
  ℕ, Bool, ◌≡◌, refl, sym, ap, ◌∙◌, subst, List, [], List-cases, none, some, arith, Bool-cases,
  Result-cases, Option-cases, inl, inr, Result, ok, nat_order, ltb, true,
}
use market_stream_gateway.Text.{Text, text, len}
use market_stream_gateway.Map
use market_stream_gateway.Map.{lookup}
use market_stream_gateway.Map.Laws.{insert-insert, insert_same, lookup-insert}
use market_stream_gateway.Domain.Identity.{Provider, SubscriptionKey}
use market_stream_gateway.Gateway.Hub.{ClientRoute}
use market_stream_gateway.Gateway.Registry
use market_stream_gateway.Gateway.Registry.{ClientId, add}
use market_stream_gateway.Gateway.Registry.Invariant.{Fits}
use market_stream_gateway.Api.Protocol.{ClientCommand}
use market_stream_gateway.Api.Server.{AppState}
use market_stream_gateway.Api.Commands.{Handled, acknowledge, apply_command, expand_subscriptions}
use market_stream_gateway.Api.Replies.{
  Replied, rejects, pongs, subscribes, unsubscribes, asked, apply_command-Replied,
}
use market_stream_gateway.Api.Session.{
  Category, text_frame, binary_frame, ping_frame, pong_frame, close_frame, Awaited, incoming, fed,
  lost, shutdown, Turn, quiet, received, parse_command, reject_client_command, handle_text_message,
  handle_client_message, session_turn,
}
use market_stream_gateway.Api.Joint.{
  Phase, idle, switching, World, Step, adds, removes, routes, receives,
}

-- The shared state and the sessions, as a world.
abbrev pub world : AppState → List (ClientId × Phase) → World
world state sessions = record {
  hub = state.hub;
  registry = state.subscriptions;
  sessions = sessions;
}

pub data Steps (hash_order : List (Provider × ℕ) → List (Provider × ℕ)) (s : World)
    : World → Type 0 where
  stop : Steps hash_order s s
  and_then :
      {s' s'' : World} → Steps hash_order s s' → Step hash_order s' s'' → Steps hash_order s s''

module _ (wide : ℕ → Bool) (hash_order : List (Provider × ℕ) → List (Provider × ℕ))
    (c : ClientId) where
  -- What leaves the hub, the registry and the session's set as they were is no step.
  unmoved :
      (s : World) (own : List SubscriptionKey)
      → lookup c s.sessions ≡ some (idle own)
      → Steps hash_order s (record s { sessions = Map.insert c (idle own) s.sessions })
  unmoved s own found =
      subst (λ m. Steps hash_order s (record s { sessions = m }))
        (sym (insert_same c (idle own) s.sessions found)) stop

  -- The two steps of an acknowledged command.
  switched :
      (state state' : AppState) (sessions : List (ClientId × Phase)) (id operation : Text)
      (keys now : List SubscriptionKey)
      → Steps hash_order
          (world state sessions)
          (world state' (Map.insert c (switching now) sessions))
      → Steps hash_order (world state sessions) (
          world
            (acknowledge wide state' c id operation keys now).state
            (Map.insert c (idle now) sessions))
  switched state state' sessions id operation keys now first =
      subst
        (λ m.
          Steps hash_order (world state sessions)
            (world (acknowledge wide state' c id operation keys now).state m))
        (insert-insert c (switching now) (idle now) sessions)
        (and_then first (routes c now (ground (arith, lookup-insert c c (switching now) sessions))))

  Replied-Steps :
      (state : AppState) (sessions : List (ClientId × Phase)) (command : ClientCommand)
      (own : List SubscriptionKey) (h : Handled)
      → lookup c sessions ≡ some (idle own)
      → ((keys : List SubscriptionKey)
          → expand_subscriptions wide (asked command) ≡ ok keys
          → Fits state.subscriptions keys)
      → Replied wide hash_order state c command own h
      → Steps hash_order
          (world state sessions)
          (world h.state (Map.insert c (idle h.subscriptions) sessions))
  Replied-Steps state sessions command own _ found fits (rejects code message why) =
      unmoved (world state sessions) own found
  Replied-Steps state sessions command own _ found fits (pongs id e good) =
      unmoved (world state sessions) own found
  Replied-Steps state sessions command own _ found fits
        (subscribes id requested keys change e good expanded allowed accepted) =
      switched state
        (record state { subscriptions = (add hash_order state.subscriptions c keys).0 }) sessions id
        (text "subscribe") keys change.client_subscriptions
        (and_then stop (
          adds c own keys change found
            (fits keys (ap (λ x. expand_subscriptions wide (asked x)) e ∙ expanded)) accepted))
  Replied-Steps state sessions command own _ found fits
        (unsubscribes id requested keys e good expanded) =
      switched state
        (record state { subscriptions = (Registry.remove state.subscriptions c keys).0 }) sessions
        id (text "unsubscribe") keys
        (Registry.remove state.subscriptions c keys).1.client_subscriptions
        (and_then stop (removes c own keys found))

  module _ (read : Text → Result ClientCommand Category) (state : AppState)
      (sessions : List (ClientId × Phase)) (own : List SubscriptionKey)
      (found : lookup c sessions ≡ some (idle own)) where
    -- The turn of a session, as a run of steps.
    abbrev pub IsRun : Turn → Type 0
    IsRun t =
        Steps hash_order (world state sessions)
          (world t.state (Map.insert c (idle t.subscriptions) sessions))

    text_message-IsRun :
        (body : Text) (sent : Bool)
        → ((command : ClientCommand) (keys : List SubscriptionKey)
            → read body ≡ ok command
            → expand_subscriptions wide (asked command) ≡ ok keys
            → Fits state.subscriptions keys)
        → IsRun (handle_text_message wide hash_order read state c body own sent)
    unfolding handle_text_message reject_client_command parse_command
    text_message-IsRun body sent fits = elim (Bool-cases (ltb state.max_command_bytes (len body))) [
      | inl e ↦ rw (e, handle_text_message) (unmoved (world state sessions) own found)
      | inr e ↦ elim (Result-cases (read body)) [
        | inl (category, q) ↦
            rw (e, q, handle_text_message) (unmoved (world state sessions) own found)
        | inr (command, q) ↦
            rw (e, q, handle_text_message)
              (Replied-Steps state sessions command own
                (apply_command wide hash_order state c command own) found
                (λ keys. fits command keys q)
                (apply_command-Replied wide hash_order state c own command))
      ]
    ]

    -- An event is taken from the session's queue.
    takes :
        (route : ClientRoute)
        → lookup c state.hub.routes.clients ≡ some route
        → IsRun (quiet (received state c route) own [] true)
    takes route there =
        subst (λ m. Steps hash_order (world state sessions) (world (received state c route) m))
          (sym (insert_same c (idle own) sessions found)) (and_then stop (receives c route there))

    -- What a turn of a session between commands does to the hub, the registry and the session's set
    -- is a run of the steps of sessions, where the counts fit a machine word.
    pub session_turn-IsRun :
        (awaited : Awaited) (sent : Bool)
        → ((body : Text) (command : ClientCommand) (keys : List SubscriptionKey)
            → awaited ≡ incoming (some (text_frame body))
            → read body ≡ ok command
            → expand_subscriptions wide (asked command) ≡ ok keys
            → Fits state.subscriptions keys)
        → IsRun (session_turn wide hash_order read state c awaited own sent)
    unfolding session_turn handle_client_message reject_client_command
    session_turn-IsRun (incoming none) sent fits = unmoved (world state sessions) own found
    session_turn-IsRun (incoming (some (text_frame body))) sent fits =
        text_message-IsRun body sent (λ command keys. fits body command keys refl)
    session_turn-IsRun (incoming (some binary_frame)) sent fits =
        unmoved (world state sessions) own found
    session_turn-IsRun (incoming (some (ping_frame payload))) sent fits =
        unmoved (world state sessions) own found
    session_turn-IsRun (incoming (some pong_frame)) sent fits =
        unmoved (world state sessions) own found
    session_turn-IsRun (incoming (some close_frame)) sent fits =
        unmoved (world state sessions) own found
    session_turn-IsRun fed sent fits = elim (Option-cases (lookup c state.hub.routes.clients)) [
      | inl none_there ↦ rw (none_there, session_turn) (unmoved (world state sessions) own found)
      | inr (route, there) ↦ elim (List-cases route.queue) [
        | inl empty ↦ rw (there, empty, session_turn) (unmoved (world state sessions) own found)
        | inr (e, rest, queued) ↦ rw (there, queued, session_turn) (takes route there)
      ]
    ]
    session_turn-IsRun (lost none) sent fits = unmoved (world state sessions) own found
    session_turn-IsRun (lost (some n)) sent fits = unmoved (world state sessions) own found
    session_turn-IsRun shutdown sent fits = unmoved (world state sessions) own found
