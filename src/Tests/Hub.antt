-- ===== src/Tests/Hub.antt =====
-- src/gateway.rs: a hub with one client, from its creation to a publication.
use market_stream_gateway.Prelude.{◌-◌, ◌≡◌, nat_order, refl, List, [], ◌∷◌, none, some, map}
use market_stream_gateway.Set.{contains}
use market_stream_gateway.Set.Sorted.{IsSorted}
use market_stream_gateway.Map.{lookup}
use market_stream_gateway.Domain.Identity.{
  SubscriptionKey, key_order, bybit, linear_perpetual, ticker,
}
use market_stream_gateway.Domain.Payload.{Ticker}
use market_stream_gateway.Domain.Payload
use market_stream_gateway.Domain.Event.{ProviderEvent}
use market_stream_gateway.Gateway.Hub.{
  Hub, fresh_hub, with_client_limit, ids, route_keys, try_register_client,
  update_client_subscriptions, publish,
}
use market_stream_gateway.Gateway.Hub.Invariant.{
  Inv, IsQueue, sequence, numbers, with_client_limit-Inv, try_register_client-Inv,
  update_client_subscriptions-Inv,
}
use market_stream_gateway.Gateway.Hub.Publish.{
  Published, Registered, Updated, Reach, fresh, next, registers, updates, publishes, Reach-mirror,
  Reach-delivery, publish-Published, try_register_client-Registered,
  update_client_subscriptions-Updated,
}

abbrev btc_ticker : SubscriptionKey
btc_ticker = record {
  provider = bybit;
  market = linear_perpetual;
  symbol = 66 ∷ 84 ∷ 67 ∷ [];
  channel = ticker;
}

abbrev one_key : List SubscriptionKey
one_key = btc_ticker ∷ []

abbrev one_price : ProviderEvent
one_price = record {
  connection_epoch = 5;
  provider = bybit;
  market = linear_perpetual;
  symbol = 66 ∷ 84 ∷ 67 ∷ [];
  exchange_time_ms = some 900;
  gateway_received_time_ms = 1000;
  source_sequence = none;
  payload = Payload.ticker (record {
    last = some (record { value = 49 ∷ []; observed_at_ms = 900 });
    mark = none;
    index = none;
    bid = none;
    ask = none;
    funding_rate = none;
    next_funding_time_ms = none;
  });
}

abbrev start : Hub
start = fresh_hub 1 2 3

start_lem : with_client_limit 1 2 3 ≡ some start
unfolding with_client_limit
start_lem = refl

start-Inv : Inv start
start-Inv = with_client_limit-Inv 1 2 3 start start_lem

abbrev joined : Hub
joined = (try_register_client start 7).0

joined-Inv : Inv joined
joined-Inv = try_register_client-Inv start start-Inv 7

one_key-IsSorted : IsSorted one_key
one_key-IsSorted = (tt, tt)

abbrev subscribed : Hub
subscribed = (update_client_subscriptions joined 7 one_key).0

subscribed-Inv : Inv subscribed
subscribed-Inv = update_client_subscriptions-Inv joined joined-Inv 7 one_key one_key-IsSorted

abbrev priced : Hub
priced = (publish subscribed one_price).0

priced-Reach : Reach 1 2 3 priced
priced-Reach =
    next (next (next (fresh start_lem) (registers 7)) (updates 7 one_key one_key-IsSorted))
      (publishes one_price)

try_register_client-Registered_example : Registered start 7 (try_register_client start 7)
try_register_client-Registered_example = try_register_client-Registered start 7 start-Inv

update_client_subscriptions-Updated_example :
    Updated joined 7 one_key (update_client_subscriptions joined 7 one_key)
update_client_subscriptions-Updated_example =
    update_client_subscriptions-Updated joined 7 one_key one_key-IsSorted joined-Inv

publish-Published_example : Published subscribed one_price (publish subscribed one_price)
publish-Published_example = publish-Published subscribed one_price subscribed-Inv

Reach-mirror_example :
    contains 7 (ids btc_ticker priced.routes.clients_by_key)
    ≡ contains btc_ticker (route_keys priced.routes 7)
Reach-mirror_example = Reach-mirror 1 2 3 priced priced-Reach btc_ticker 7

Reach-delivery_example :
    (map sequence priced.diagnostics ≡ numbers (priced.next_delivery_sequence - 1))
    × IsQueue priced.client_capacity priced.next_delivery_sequence (lookup 7 priced.routes.clients)
Reach-delivery_example = Reach-delivery 1 2 3 priced priced-Reach 7
