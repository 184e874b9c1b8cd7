-- ===== src/Gateway/Hub.antt =====
-- src/gateway.rs: `GatewayHub`, which gives events their delivery sequence and routes them to the
-- bounded queues of the subscribed clients. The locks make each method one step on the state.
-- A tokio `mpsc` channel is the list of its waiting messages, a `watch` channel its current value,
-- and the broadcast channel of the diagnostics the list of all that was sent to it.
pub mod Routes
pub mod Mirror
pub mod Delivery
pub mod Invariant
pub mod Publish
use market_stream_gateway.Prelude.{
  ℕ, ◌+◌, ◌≡◌, Bool, true, false, not, ◌&&◌, List, [], ◌∷◌, ◌++◌, Option, none, some, ltb, leb,
  if◌then◌else◌, is_empty, length, Result, ok, err, saturating_suc, max_u64, Order, nat_order,
}
use market_stream_gateway.Set
use market_stream_gateway.Map
use market_stream_gateway.Map.{lookup, get_or, or_else}
use market_stream_gateway.Domain.Identity.{SubscriptionKey, key_order}
use market_stream_gateway.Domain.Payload.{is_some}
use market_stream_gateway.Domain.Event.{
  Uuid, MarketEvent, ProviderEvent, subscription_key, into_market_event,
}
use market_stream_gateway.Gateway.Registry.{ClientId}

-- `queue` and `open` are the receiver's end, `ClientFeed`.
pub record ClientRoute : Type 0 where
  pub queue : List MarketEvent
  pub is_open : Bool
  pub lagged : ℕ
  pub subscriptions : List SubscriptionKey

pub record RouteState : Type 0 where
  pub clients : List (ClientId × ClientRoute)
  pub clients_by_key : List (SubscriptionKey × List ClientId)

pub record Hub : Type 0 where
  pub stream_epoch : Uuid
  pub next_delivery_sequence : ℕ
  pub client_capacity : ℕ
  pub max_clients : ℕ
  pub routes : RouteState
  pub diagnostics : List MarketEvent

pub data PublishError : Type 0 where
  sequence_exhausted : PublishError

abbrev pub fresh_hub : Uuid → ℕ → ℕ → Hub
fresh_hub epoch capacity max_clients = record {
  stream_epoch = epoch;
  next_delivery_sequence = 1;
  client_capacity = capacity;
  max_clients = max_clients;
  routes = record { clients = []; clients_by_key = [] };
  diagnostics = [];
}

-- `none` where an assertion panics.
unfoldable pub with_client_limit : Uuid → ℕ → ℕ → Option Hub
with_client_limit epoch capacity max_clients =
    if ltb 0 capacity && ltb 0 max_clients
    then some (fresh_hub epoch capacity max_clients)
    else none

unfoldable pub receiver_count : Hub → ℕ
receiver_count h = length h.routes.clients

abbrev pub ids : SubscriptionKey → List (SubscriptionKey × List ClientId) → List ClientId
ids k by_key = get_or [] k by_key

abbrev pub keys_of : Option ClientRoute → List SubscriptionKey
keys_of none = []
keys_of (some route) = route.subscriptions

-- The keys routed to a client.
abbrev pub route_keys : RouteState → ClientId → List SubscriptionKey
route_keys s c = keys_of (lookup c s.clients)

unfoldable pub remove_key_route :
    ClientId
    → SubscriptionKey
    → List (SubscriptionKey × List ClientId)
    → List (SubscriptionKey × List ClientId)
remove_key_route c k by_key = elim (lookup k by_key) [
  | none ↦ by_key
  | some members ↦
      let left = Set.remove c members in
      if is_empty left then Map.remove k by_key else Map.insert k left by_key
]

unfoldable pub remove_key_routes :
    ClientId
    → List SubscriptionKey
    → List (SubscriptionKey × List ClientId)
    → List (SubscriptionKey × List ClientId)
remove_key_routes c [] by_key = by_key
remove_key_routes c (k ∷ keys) by_key = remove_key_routes c keys (remove_key_route c k by_key)

-- `entry(key).or_default().insert(client_id)` for each key.
unfoldable pub add_key_routes :
    ClientId
    → List SubscriptionKey
    → List (SubscriptionKey × List ClientId)
    → List (SubscriptionKey × List ClientId)
add_key_routes c [] by_key = by_key
add_key_routes c (k ∷ keys) by_key =
    add_key_routes c keys (Map.insert k (Set.insert c (ids k by_key)) by_key)

-- `mem::take` of the client's subscriptions.
unfoldable pub take_subscriptions :
    ClientId → List (ClientId × ClientRoute) → List (ClientId × ClientRoute)
take_subscriptions c clients = elim (lookup c clients) [
  | none ↦ clients
  | some route ↦ Map.insert c (record route { subscriptions = [] }) clients
]

unfoldable pub remove_route : RouteState → ClientId → Bool → RouteState
remove_route s c drop_client = record {
  clients =
      if drop_client
      then Map.remove c (take_subscriptions c s.clients)
      else take_subscriptions c s.clients;
  clients_by_key = remove_key_routes c (route_keys s c) s.clients_by_key;
}

abbrev pub new_route : ClientRoute
new_route = record { queue = []; is_open = true; lagged = 0; subscriptions = [] }

-- The new state, and whether the client was registered.
unfoldable pub try_register_client : Hub → ClientId → Hub × Bool
try_register_client h c =
    if not (is_some (lookup c h.routes.clients)) && leb h.max_clients (length h.routes.clients)
    then (h, false)
    else let s = remove_route h.routes c true in
      (record h { routes = record s { clients = Map.insert c new_route s.clients } }, true)

unfoldable pub remove_client : Hub → ClientId → Hub
remove_client h c = record h { routes = remove_route h.routes c true }

unfoldable pub update_client_subscriptions : Hub → ClientId → List SubscriptionKey → Hub × Bool
update_client_subscriptions h c keys = elim (lookup c h.routes.clients) [
  | none ↦ (h, false)
  | some route ↦
      let lost = Set.difference route.subscriptions keys in
      let won = Set.difference keys route.subscriptions in
      (
        record h {
          routes = record {
            clients = Map.insert c (record route { subscriptions = keys }) h.routes.clients;
            clients_by_key =
                add_key_routes c won (remove_key_routes c lost h.routes.clients_by_key);
          };
        },
        true,
      )
]

-- The clients while an event is handed out, and those to unroute afterwards.
pub record Sending : Type 0 where
  pub clients : List (ClientId × ClientRoute)
  pub lagged : List ClientId
  pub closed : List ClientId

-- `try_send`: a dropped receiver is told from a full queue.
unfoldable pub send_to : ℕ → MarketEvent → Sending → ClientId → Sending
send_to capacity event s c = elim (lookup c s.clients) [
  | none ↦ s
  | some route ↦
      if not route.is_open
      then record s { closed = s.closed ++ c ∷ [] }
      else if ltb (length route.queue) capacity
      then record s {
        clients = Map.insert c (record route { queue = route.queue ++ event ∷ [] }) s.clients;
      }
      else record s {
        clients = Map.insert c (record route { lagged = saturating_suc route.lagged }) s.clients;
        lagged = s.lagged ++ c ∷ [];
      }
]

unfoldable pub send_to_all : ℕ → MarketEvent → Sending → List ClientId → Sending
send_to_all capacity event s [] = s
send_to_all capacity event s (c ∷ cs) = send_to_all capacity event (send_to capacity event s c) cs

unfoldable pub remove_routes : RouteState → List ClientId → Bool → RouteState
remove_routes s [] drop_client = s
remove_routes s (c ∷ cs) drop_client = remove_routes (remove_route s c drop_client) cs drop_client

unfoldable pub route_event : ℕ → RouteState → MarketEvent → RouteState
route_event capacity s event =
    let start : Sending = record { clients = s.clients; lagged = []; closed = [] } in
    let sent = send_to_all capacity event start (ids (subscription_key event) s.clients_by_key) in
    let unlagged = remove_routes (record s { clients = sent.clients }) sent.lagged false in
    remove_routes unlagged sent.closed true

unfoldable pub publish : Hub → ProviderEvent → Hub × Result MarketEvent PublishError
publish h e =
    let event = into_market_event e h.stream_epoch h.next_delivery_sequence in
    if ltb h.next_delivery_sequence max_u64
    then (
      record h {
        next_delivery_sequence = h.next_delivery_sequence + 1;
        routes = route_event h.client_capacity h.routes event;
        diagnostics = h.diagnostics ++ event ∷ [];
      },
      ok event,
    )
    else (h, err sequence_exhausted)
