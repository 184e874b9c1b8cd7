-- ===== src/Api/Session.antt =====
-- src/api.rs: a client's session: how it begins, what each thing it waits for does, how it ends.
-- Whether the socket takes a frame in time is an argument, `sent`; how the JSON library reads a
-- text is the parameter `read`.
use market_stream_gateway.Prelude.{
  ℕ, ◌+◌, ◌-◌, ltb, Bool, true, false, List, [], ◌∷◌, Option, none, some, if◌then◌else◌, Result, ok,
  err, nat_order,
}
use market_stream_gateway.Text.{Text, text, len}
use market_stream_gateway.Domain.Identity.{Provider, SubscriptionKey}
use market_stream_gateway.Domain.Event.{Uuid, MarketEvent, schema_version}
use market_stream_gateway.Gateway.Registry.{ClientId, cleanup_client}
use market_stream_gateway.Gateway.Hub.{ClientRoute, try_register_client, remove_client}
use market_stream_gateway.Gateway.Hub.Publish.{receive, with_route}
use market_stream_gateway.Map.{lookup}
use market_stream_gateway.Api.Protocol.{
  ClientCommand, ControlMessage, ErrorCode, gap, hello_message, error_message, limit_exceeded,
  invalid_command, invalid_json,
}
use market_stream_gateway.Api.Server.{AppState, count_rejected}
use market_stream_gateway.Api.Commands.{Handled, apply_command}

-- The kinds of a failure of `serde_json`, its `Category`.
pub data Category : Type 0 where
  io syntax data_error eof : Category

unfoldable pub parse_command : Result ClientCommand Category → Result ClientCommand ControlMessage
parse_command (ok command) = ok command
parse_command (err category) =
    let code : ErrorCode = elim category [
      | syntax ↦ invalid_json
      | eof ↦ invalid_json
      | io ↦ invalid_command
      | data_error ↦ invalid_command
    ] in
    err (error_message none code (text "invalid client command"))

-- What the socket hands over, and what it is given.
pub data Message : Type 0 where
  text_frame : Text → Message
  binary_frame : Message
  ping_frame : List ℕ → Message
  pong_frame : Message
  close_frame : Message

pub data Outgoing : Type 0 where
  control : ControlMessage → Outgoing
  event : MarketEvent → Outgoing
  pong_payload : List ℕ → Outgoing
  closing : Outgoing

-- After one thing: the shared state, the session's set, the frames tried, and whether it goes on.
pub record Turn : Type 0 where
  pub state : AppState
  pub subscriptions : List SubscriptionKey
  pub frames : List Outgoing
  pub goes_on : Bool

-- `reject_client_command`.
unfoldable pub reject_client_command :
    AppState → List SubscriptionKey → ControlMessage → Bool → Turn
reject_client_command state subscriptions failure sent = record {
  state = count_rejected state;
  subscriptions = subscriptions;
  frames = control failure ∷ [];
  goes_on = sent;
}

abbrev pub quiet : AppState → List SubscriptionKey → List Outgoing → Bool → Turn
quiet state subscriptions frames goes_on = record {
  state = state;
  subscriptions = subscriptions;
  frames = frames;
  goes_on = goes_on;
}

abbrev pub told : Handled → Bool → Turn
told h sent = quiet h.state h.subscriptions (control h.reply ∷ []) sent

-- The oldest event leaves the client's queue.
abbrev pub received : AppState → ClientId → ClientRoute → AppState
received state c route = record state { hub = with_route state.hub c (receive route) }

-- What `select!` waits for: a message or the end of the socket, the queue of events, a change of the number of lost events or its end, the shutdown.
pub data Awaited : Type 0 where
  incoming : Option Message → Awaited
  fed : Awaited
  lost : Option ℕ → Awaited
  shutdown : Awaited

module _ (wide : ℕ → Bool) (hash_order : List (Provider × ℕ) → List (Provider × ℕ))
    (read : Text → Result ClientCommand Category) where
  unfoldable pub handle_text_message :
      AppState → ClientId → Text → List SubscriptionKey → Bool → Turn
  handle_text_message state c body subscriptions sent =
      if ltb state.max_command_bytes (len body)
      then reject_client_command state subscriptions
          (error_message none limit_exceeded (text "command exceeds maximum size")) sent
      else elim (parse_command (read body)) [
        | err failure ↦ reject_client_command state subscriptions failure sent
        | ok command ↦ told (apply_command wide hash_order state c command subscriptions) sent
      ]

  unfoldable pub handle_client_message :
      AppState → ClientId → Message → List SubscriptionKey → Bool → Turn
  handle_client_message state c (text_frame body) subscriptions sent =
      handle_text_message state c body subscriptions sent
  handle_client_message state c (ping_frame payload) subscriptions sent =
      quiet state subscriptions (pong_payload payload ∷ []) sent
  handle_client_message state c pong_frame subscriptions sent = quiet state subscriptions [] true
  handle_client_message state c binary_frame subscriptions sent =
      reject_client_command state subscriptions
        (error_message none invalid_command (text "commands must be UTF-8 JSON text")) sent
  handle_client_message state c close_frame subscriptions sent = quiet state subscriptions [] false

  -- The feed ends when the client has no route; on an empty queue it is not ready.
  unfoldable pub session_turn : AppState → ClientId → Awaited → List SubscriptionKey → Bool → Turn
  session_turn state c (incoming none) subscriptions sent = quiet state subscriptions [] false
  session_turn state c (incoming (some message)) subscriptions sent =
      handle_client_message state c message subscriptions sent
  session_turn state c fed subscriptions sent = elim (lookup c state.hub.routes.clients) [
    | none ↦ quiet state subscriptions [] false
    | some route ↦ elim route.queue [
      | [] ↦ quiet state subscriptions [] true
      | e ∷ rest ↦ quiet (received state c route) subscriptions (event e ∷ []) sent
    ]
  ]
  session_turn state c (lost none) subscriptions sent = quiet state subscriptions [] false
  session_turn state c (lost (some dropped)) subscriptions sent =
      quiet
        (record state {
          metrics = record (state.metrics) {
            downstream_lagged = state.metrics.downstream_lagged + 1;
          };
        })
        subscriptions
        (control (
            gap schema_version dropped
              (text "downstream buffer overrun; reconnect and repair gaps"))
          ∷ [])
        false
  session_turn state c shutdown subscriptions sent = quiet state subscriptions (closing ∷ []) false

unfoldable pub cleanup_session : AppState → ClientId → AppState
cleanup_session state c = record state {
  hub = remove_client state.hub c;
  subscriptions = (cleanup_client state.subscriptions c).0;
  metrics = record (state.metrics) {
    downstream_connections = state.metrics.downstream_connections - 1;
  };
}

-- The frames of `reject_client_at_capacity`.
unfoldable pub reject_client_at_capacity : List Outgoing
reject_client_at_capacity =
    control (error_message none limit_exceeded (text "downstream client limit exceeded"))
    ∷ closing
    ∷ []

-- A registered client counts as connected.
abbrev pub join : AppState → ClientId → AppState
join state c = record state {
  hub = (try_register_client state.hub c).0;
  metrics = record (state.metrics) {
    downstream_connections = state.metrics.downstream_connections + 1;
  };
}

abbrev hello_frame : (Uuid → Text) → AppState → Outgoing
hello_frame show_uuid state = control (
    hello_message (show_uuid state.hub.stream_epoch)
      state.subscriptions.max_subscriptions_per_client state.subscriptions.provider_limits)

-- The head of `client_session`: the state when the loop begins or the session ends without one.
unfoldable pub open_session : (Uuid → Text) → AppState → ClientId → Bool → Turn
open_session show_uuid state c sent =
    if (try_register_client state.hub c).1
    then quiet (if sent then join state c else cleanup_session (join state c) c) []
        (hello_frame show_uuid (join state c) ∷ []) sent
    else quiet (record state { hub = (try_register_client state.hub c).0 }) []
        reject_client_at_capacity false
