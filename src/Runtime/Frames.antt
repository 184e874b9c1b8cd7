-- ===== src/Runtime/Frames.antt =====
-- src/runtime.rs: what a connection does with a parsed frame, and which keys it serves. Metrics,
-- logs and the clock are left out; a demanded event is what moves the endpoint's last event time.
use market_stream_gateway.Prelude.{
  ℕ, ◌+◌, ◌≡◌, refl, Bool, true, false, ◌&&◌, ◌||◌, List, [], ◌∷◌, Option, none, some, arith,
  if◌then◌else◌, ◌==◌, keep, is_empty, Result, ok, err, Bool-cases, inl, inr,
}
use market_stream_gateway.Text.{Text}
use market_stream_gateway.Set.{contains}
use market_stream_gateway.Domain.Identity.{
  Provider, Channel, SubscriptionKey, provider_order, key_order,
}
use market_stream_gateway.Domain.Payload.{Decimals}
use market_stream_gateway.Domain.Event.{ProviderEvent, provider_event_key, validate_event}
use market_stream_gateway.Health.{EndpointKind, endpoint_order}
use market_stream_gateway.Gateway.Hub.{Hub, publish}
use market_stream_gateway.Runtime.Commands.{
  CommandState, CommandError, OutboundCommand, Done, acknowledge, enqueue, readiness_complete,
}

pub data Heartbeat : Type 0 where
  text_heartbeat : Text → Heartbeat
  web_socket_ping : List ℕ → Heartbeat

pub data ParsedFrame : Type 0 where
  events : List ProviderEvent → ParsedFrame
  acknowledgement : Text → ParsedFrame
  reply : Heartbeat → ParsedFrame
  pong ignored : ParsedFrame

pub data AdapterError : Type 0 where
  unsupported_endpoint : Provider → EndpointKind → AdapterError
  invalid_subscription : Provider → Text → AdapterError
  invalid_payload : Provider → Text → AdapterError
  command_rejected : Provider → Text → AdapterError
  discovery : Provider → Text → AdapterError

pub data ProcessedFrame : Type 0 where
  acknowledged : Text → ProcessedFrame
  demanded_market_event : ProcessedFrame
  replied : Heartbeat → ProcessedFrame
  other : ProcessedFrame

unfoldable pub filter_desired :
    Provider → (Channel → EndpointKind) → EndpointKind → List SubscriptionKey → List SubscriptionKey
filter_desired p endpoint_for endpoint snapshot =
    keep (λ k. k.provider == p && endpoint_for k.channel == endpoint) snapshot

-- `queue_subscription_diff`: the messages of the session for keys, queued.
unfoldable pub queue_subscription_diff :
    (List SubscriptionKey → Result (List OutboundCommand) AdapterError)
    → CommandState
    → List SubscriptionKey
    → CommandState × Result Done AdapterError
queue_subscription_diff messages s keys =
    if is_empty keys then (s, ok (ok tt)) else elim (messages keys) [
      | err e ↦ (s, err e)
      | ok commands ↦ let (s', done) = enqueue s commands in (s', ok done)
    ]

abbrev pub is_ok {ℓ κ} : {A : Type ℓ} {E : Type κ} → Result A E → Bool
is_ok (ok a) = true
is_ok (err e) = false

module _ {D : Type 0} (dec : Decimals D) where
  -- The loop over the events of a frame: those that fail their checks are dropped.
  unfoldable pub process_events : List SubscriptionKey → Hub → List ProviderEvent → Hub × Bool
  process_events desired hub [] = (hub, false)
  process_events desired hub (e ∷ es) = elim (is_ok (validate_event dec e)) [
    | false ↦ process_events desired hub es
    | true ↦
        let (hub', demanded) = process_events desired (publish hub e).0 es in
        (hub', contains (provider_event_key e) desired || demanded)
  ]

  -- `process_text` behind the parse of the session.
  unfoldable pub process_frame :
      List SubscriptionKey
      → Hub
      → Result ParsedFrame AdapterError
      → Hub × Result ProcessedFrame AdapterError
  process_frame desired hub (ok (events es)) =
      let (hub', demanded) = process_events desired hub es in
      (hub', ok (if demanded then demanded_market_event else other))
  process_frame desired hub (ok (acknowledgement id)) = (hub, ok (acknowledged id))
  process_frame desired hub (ok (reply h)) = (hub, ok (replied h))
  process_frame desired hub (ok pong) = (hub, ok other)
  process_frame desired hub (ok ignored) = (hub, ok other)
  process_frame desired hub (err (command_rejected p m)) = (hub, err (command_rejected p m))
  process_frame desired hub (err e) = (hub, ok other)

  -- The events of a list that pass their checks.
  abbrev pub valid_events : List ProviderEvent → List ProviderEvent
  valid_events es = keep (λ e. is_ok (validate_event dec e)) es

  -- Publication one after the other.
  abbrev pub publish_all : Hub → List ProviderEvent → Hub
  publish_all hub [] = hub
  publish_all hub (e ∷ es) = publish_all (publish hub e).0 es

  abbrev pub any_demanded : List SubscriptionKey → List ProviderEvent → Bool
  any_demanded desired [] = false
  any_demanded desired (e ∷ es) = contains (provider_event_key e) desired || any_demanded desired es

  -- The loop over the events of a frame publishes exactly those that pass their checks, in order,
  -- and reports a demanded event exactly when one of them has a desired key.
  pub process_events-eq :
      (desired : List SubscriptionKey) (es : List ProviderEvent) (hub : Hub)
      → process_events desired hub es
        ≡ (publish_all hub (valid_events es), any_demanded desired (valid_events es))
  unfolding process_events
  process_events-eq desired [] hub = refl
  process_events-eq desired (e ∷ es) hub = elim (Bool-cases (is_ok (validate_event dec e))) [
    | inl q ↦ ground (arith, q, process_events-eq desired es (publish hub e).0)
    | inr q ↦ ground (arith, q, process_events-eq desired es hub)
  ]

-- What the loop of a connection keeps besides its socket and timers.
pub record Progress : Type 0 where
  pub commands : CommandState
  pub is_live : Bool
  pub deadline : Option ℕ

-- `handle_processed_frame` at a time, and whether the frame was a demanded event.
unfoldable pub handle_processed_frame :
    ℕ → ℕ → Progress → ProcessedFrame → Progress × Result Bool CommandError
handle_processed_frame now timeout s (acknowledged id) =
    let (commands, done) = acknowledge s.commands id in
    elim done [
      | err e ↦ (record s { commands = commands }, err e)
      | ok _ ↦ (
        if readiness_complete commands
            then record { commands = commands; is_live = true; deadline = none }
            else record s { commands = commands; deadline = some (now + timeout) },
        ok false,
      )
    ]
handle_processed_frame now timeout s demanded_market_event = (s, ok true)
handle_processed_frame now timeout s (replied h) = (s, ok false)
handle_processed_frame now timeout s other = (s, ok false)
