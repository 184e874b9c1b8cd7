-- ===== src/Tests/Joint.antt =====
-- src/api.rs: one session from its beginning to its first routed subscription.
use mathlib.Core.List.{Perm}
use mathlib.Core.List.Perm
use market_stream_gateway.Prelude.{
  ℕ, ◌≡◌, refl, true, List, [], ◌∷◌, none, some, arith, ok, nat_order, saturating_suc,
}
use market_stream_gateway.Set
use market_stream_gateway.Set.{contains}
use market_stream_gateway.Map
use market_stream_gateway.Map.{lookup}
use market_stream_gateway.Domain.Identity.{
  Provider, SubscriptionKey, key_order, bybit, linear_perpetual, ticker,
}
use market_stream_gateway.Gateway.Limits.{uniform, limit_for}
use market_stream_gateway.Gateway.Registry.{
  SubscriptionChange, with_provider_limits, client_keys, add, first_exceeded, commit_add,
  count_up_all, count_up, count_desired, count_added, provider_totals, store,
}
use market_stream_gateway.Gateway.Registry.Invariant.{Fits}
use market_stream_gateway.Gateway.Hub.{
  fresh_hub, with_client_limit, ids, try_register_client, update_client_subscriptions, remove_route,
  take_subscriptions, remove_key_routes, add_key_routes,
}
use market_stream_gateway.Api.Joint.{
  World, idle, switching, Reach, fresh, next, joins, adds, routes, IsRouted,
}
use market_stream_gateway.Api.Reached.{Reach-session, Reach-absent, Reach-routed}

abbrev btc_ticker : SubscriptionKey
btc_ticker = record {
  provider = bybit;
  market = linear_perpetual;
  symbol = 66 ∷ 84 ∷ 67 ∷ [];
  channel = ticker;
}

abbrev one_key : List SubscriptionKey
one_key = btc_ticker ∷ []

abbrev as_stored : List (Provider × ℕ) → List (Provider × ℕ)
as_stored t = t

as_stored-Perm : (t : List (Provider × ℕ)) → Perm (as_stored t) t
as_stored-Perm t = Perm.refl t

abbrev empty : World
empty = record {
  hub = fresh_hub 1 2 3;
  registry = with_provider_limits 4 (uniform 5);
  sessions = [];
}

abbrev joined : World
joined = record empty {
  hub = (try_register_client empty.hub 7).0;
  sessions = Map.insert 7 (idle []) empty.sessions;
}

abbrev change : SubscriptionChange
change = record {
  added = one_key;
  removed = [];
  activated = one_key;
  deactivated = [];
  client_subscriptions = one_key;
}

abbrev added : World
added = record joined {
  registry = (add as_stored joined.registry 7 one_key).0;
  sessions = Map.insert 7 (switching one_key) joined.sessions;
}

abbrev routed : World
routed = record added {
  hub = (update_client_subscriptions added.hub 7 one_key).0;
  sessions = Map.insert 7 (idle one_key) added.sessions;
}

empty_lem : with_client_limit 1 2 3 ≡ some empty.hub
unfolding with_client_limit
empty_lem = refl

joins_lem : (try_register_client empty.hub 7).1 ≡ true
unfolding try_register_client lookup
joins_lem = refl

no_session : lookup 7 empty.sessions ≡ none
unfolding lookup
no_session = refl

joined_idle : lookup 7 joined.sessions ≡ some (idle [])
unfolding lookup Map.insert
joined_idle = refl

empty-Fits : Fits joined.registry one_key
unfolding with_provider_limits
empty-Fits = record { few_clients = omega arith; few_keys = omega arith }

accepted_lem : (add as_stored joined.registry 7 one_key).1 ≡ ok change
unfolding saturating_suc add first_exceeded commit_add count_up_all count_up provider_totals
    count_desired count_added store with_provider_limits uniform limit_for lookup Map.insert
    Set.insert Set.extend contains
accepted_lem = refl

added_switching : lookup 7 added.sessions ≡ some (switching one_key)
unfolding lookup Map.insert
added_switching = refl

routed_idle : lookup 7 routed.sessions ≡ some (idle one_key)
unfolding lookup Map.insert
routed_idle = refl

routed-Reach : Reach as_stored 1 2 3 4 (uniform 5) routed
routed-Reach =
    next
      (next (next (fresh empty_lem) (joins 7 no_session joins_lem))
        (adds 7 [] one_key change joined_idle empty-Fits accepted_lem))
      (routes 7 one_key added_switching)

routed_member : contains 7 (ids btc_ticker routed.hub.routes.clients_by_key) ≡ true
unfolding contains lookup Map.insert Set.insert try_register_client update_client_subscriptions
    remove_route take_subscriptions remove_key_routes add_key_routes Map.remove
routed_member = refl

no_other : lookup 8 routed.sessions ≡ none
unfolding lookup Map.insert
no_other = refl

Reach-session_example :
    (client_keys routed.registry 7 ≡ one_key)
    × ((k : SubscriptionKey)
        → contains k one_key ≡ true
        → contains k routed.registry.published ≡ true)
    × IsRouted one_key (lookup 7 routed.hub.routes.clients)
Reach-session_example =
    Reach-session as_stored as_stored-Perm 1 2 3 4 (uniform 5) routed routed-Reach 7 one_key
      routed_idle

Reach-absent_example :
    (client_keys routed.registry 8 ≡ []) × (lookup 8 routed.hub.routes.clients ≡ none)
Reach-absent_example =
    Reach-absent as_stored as_stored-Perm 1 2 3 4 (uniform 5) routed routed-Reach 8 no_other

Reach-routed_example :
    (contains btc_ticker one_key ≡ true) × (contains btc_ticker routed.registry.published ≡ true)
Reach-routed_example =
    Reach-routed as_stored as_stored-Perm 1 2 3 4 (uniform 5) routed routed-Reach 7 one_key
      btc_ticker routed_idle routed_member
