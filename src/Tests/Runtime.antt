-- ===== src/Tests/Runtime.antt =====
-- src/runtime.rs and src/health.rs: one endpoint, its backoff and its last acknowledgement.
use market_stream_gateway.Prelude.{
  ℕ, ◌≤◌, ◌≡◌, refl, true, false, [], ◌∷◌, none, some, arith, ok, pair_order, Option, ltb,
}
use market_stream_gateway.Set
use market_stream_gateway.Map
use market_stream_gateway.Map.{lookup}
use market_stream_gateway.Text.{Text}
use market_stream_gateway.Domain.Identity.{
  bybit, okx, provider_order, key_order, Channel, SubscriptionKey, linear_perpetual, ticker,
  candle_1m,
}
use market_stream_gateway.Health.{
  EndpointHealth, HealthRegistry, Endpoint, EndpointKind, endpoint_order, business, Changed,
  update-Changed, primary, public, live, new_health, update, readiness,
}
use market_stream_gateway.Set.{contains}
use market_stream_gateway.Domain.Payload
use market_stream_gateway.Domain.Payload.{Decimals}
use market_stream_gateway.Domain.Event.{ProviderEvent}
use market_stream_gateway.Gateway.Hub.{Hub, fresh_hub}
use market_stream_gateway.Runtime.Commands.{
  OutboundCommand, CommandState, no_commands, enqueue, pop_front, mark_sent, send_next,
}
use market_stream_gateway.Runtime.Commands.Invariant.{
  Inv, no_commands-Inv, enqueue-Inv, send_next-Inv,
}
use market_stream_gateway.Runtime.Commands.Progress.{remaining}
use market_stream_gateway.Runtime.Frames.{Progress, acknowledged, handle_processed_frame}
use market_stream_gateway.Runtime.Handling.{Handled, handle_processed_frame-Handled}
use market_stream_gateway.Runtime.Supervisor.{
  rotation, after_connection, WaitWithin, after_connection-WaitWithin,
}

abbrev bybit_primary : Endpoint
bybit_primary = (bybit, primary)

abbrev waiting_health : EndpointHealth
waiting_health = record (new_health bybit primary) { desired_subscriptions = 1 }

abbrev live_health : EndpointHealth
live_health = record (new_health bybit primary) { desired_subscriptions = 1; state = live }

abbrev ready_registry : HealthRegistry
ready_registry = (bybit_primary, live_health) ∷ []

abbrev waiting_registry : HealthRegistry
waiting_registry = (bybit_primary, waiting_health) ∷ []

ready_lem : readiness ready_registry ≡ true
unfolding readiness new_health
ready_lem = refl

found_lem : lookup bybit_primary ready_registry ≡ some live_health
unfolding lookup
found_lem = refl

waiting_lem : readiness waiting_registry ≡ false
unfolding readiness new_health
waiting_lem = refl

waiting-Distinct : Map.Distinct waiting_registry
unfolding lookup
waiting-Distinct = (refl, tt)

abbrev request : Text
request = 49 ∷ []

abbrev subscribe : OutboundCommand
subscribe = record { request_id = request; text = 123 ∷ []; expected_acknowledgements = 1 }

abbrev asked : CommandState
asked = (enqueue no_commands (subscribe ∷ [])).0

abbrev awaiting : Progress
awaiting = record { commands = (send_next asked).0; is_live = false; deadline = some 500 }

awaiting-Inv : Inv awaiting.commands
awaiting-Inv =
    send_next-Inv asked (enqueue-Inv (subscribe ∷ []) no_commands no_commands-Inv (omega arith, tt))

awaiting_one : remaining request awaiting.commands ≡ 1
unfolding enqueue send_next pop_front mark_sent Map.insert Map.lookup Set.contains
awaiting_one = refl

handle_processed_frame-Handled_example :
    Handled 600 1000 awaiting (handle_processed_frame 600 1000 awaiting (acknowledged request))
handle_processed_frame-Handled_example =
    handle_processed_frame-Handled 600 1000 awaiting request awaiting-Inv
      (omega (arith, awaiting_one))

after_connection-WaitWithin_example :
    WaitWithin 10 80 (after_connection 10 80 false (ok rotation) 40).0
    × (10 ≤ (after_connection 10 80 false (ok rotation) 40).1)
    × ((after_connection 10 80 false (ok rotation) 40).1 ≤ 80)
after_connection-WaitWithin_example =
    after_connection-WaitWithin 10 80 false (ok rotation) 40 (omega arith) (omega arith)

update-Changed_example :
    Changed ready_registry bybit_primary
      (λ h. record h { last_error = some request })
      (update ready_registry bybit_primary (λ h. record h { last_error = some request }))
update-Changed_example =
    update-Changed ready_registry bybit_primary (λ h. record h { last_error = some request })

abbrev okx_endpoint : Channel → EndpointKind
okx_endpoint ticker = public
okx_endpoint candle_1m = business

abbrev okx_ticker : SubscriptionKey
okx_ticker = record {
  provider = okx;
  market = linear_perpetual;
  symbol = 66 ∷ [];
  channel = ticker;
}

-- Numbers of one digit.
abbrev one_digit : Text → Option ℕ
one_digit (c ∷ []) = some c
one_digit _ = none

abbrev one_digits : Decimals ℕ
one_digits = record { from_str = one_digit; lt = ltb; zero = 48 }

abbrev okx_price : ProviderEvent
okx_price = record {
  connection_epoch = 5;
  provider = okx;
  market = linear_perpetual;
  symbol = 66 ∷ [];
  exchange_time_ms = some 900;
  gateway_received_time_ms = 1000;
  source_sequence = none;
  payload = Payload.ticker (record {
    last = some (record { value = 49 ∷ []; observed_at_ms = 900 });
    mark = none;
    index = none;
    bid = none;
    ask = none;
    funding_rate = none;
    next_funding_time_ms = none;
  });
}

abbrev new_hub : Hub
new_hub = fresh_hub 1 2 3
