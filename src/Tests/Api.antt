-- ===== src/Tests/Api.antt =====
-- src/api.rs: one client's subscription, the readiness of the service, one history answer.
use mathlib.Core.List.{Perm}
use mathlib.Core.List.Perm
use market_stream_gateway.Prelude.{
  ℕ, ◌≡◌, ◌≢◌, ◌↔◌, refl, ap, sym, ◌∙◌, subst, true, List, [], ◌∷◌, none, some, arith, ok, Result,
  if◌then◌else◌, nat_order, All,
}
use market_stream_gateway.Set
use market_stream_gateway.Set.{contains, count}
use market_stream_gateway.Map
use market_stream_gateway.Map.{lookup}
use market_stream_gateway.Text.{
  Text, text, to_string, is_whitespace, is_ascii_alphanumeric, to_ascii_uppercase,
}
use market_stream_gateway.Domain.Identity.{
  Provider, SubscriptionKey, key_order, provider_order, bybit, linear_perpetual, ticker,
}
use market_stream_gateway.Domain.Symbol.{normalize_symbol, trim}
use market_stream_gateway.Domain.Subscription.{
  Subscription, into_keys, sort, sort_insert, dedup, dedup_from,
}
use market_stream_gateway.Domain.Event.{schema_version}
use market_stream_gateway.Gateway.Limits.{uniform, limit_for}
use market_stream_gateway.Gateway.Registry.{ClientId, with_provider_limits, client_keys}
use market_stream_gateway.Gateway.Registry.Invariant.{Fits, with_provider_limits-Inv}
use market_stream_gateway.Gateway.Registry.Effects.{IsWithinLimits}
use market_stream_gateway.Gateway.Hub.{fresh_hub, with_client_limit}
use market_stream_gateway.Gateway.Hub.Invariant.{with_client_limit-Inv}
use market_stream_gateway.Health.{readiness}
use market_stream_gateway.Catalog.Store.{ProviderSnapshot, is_enabled}
use market_stream_gateway.Api.Protocol.{ClientCommand, subscribe, ack}
use market_stream_gateway.Api.Server.{AppState}
use market_stream_gateway.Api.Commands.{apply_command, expand_subscriptions, expand_all}
use market_stream_gateway.Api.Replies.{IsAllowed, asked}
use market_stream_gateway.Api.Accepted.{apply_command-accepts}
use market_stream_gateway.Api.Session.{
  Category, Awaited, incoming, text_frame, session_turn, open_session,
}
use market_stream_gateway.Api.Joint.{Phase, idle}
use market_stream_gateway.Api.Runs.{Steps, world, session_turn-IsRun}
use market_stream_gateway.Api.Ends.{open_session-Steps}
use market_stream_gateway.Api.Requests.{service_readiness}
use market_stream_gateway.Api.Readiness.{service_readiness-ready}
use market_stream_gateway.Tests.Catalog.{
  no_wide, whole, btc, btc_instrument, btc_ticker, read_catalog, read-Reach, validated_lem,
}

abbrev as_stored : List (Provider × ℕ) → List (Provider × ℕ)
as_stored t = t

as_stored-Perm : (t : List (Provider × ℕ)) → Perm (as_stored t) t
as_stored-Perm t = Perm.refl t

abbrev state : AppState
state = record {
  hub = fresh_hub 1 2 3;
  subscriptions = with_provider_limits 4 (uniform 5);
  health = [];
  metrics = record {
    downstream_connections = 0;
    downstream_lagged = 0;
    downstream_commands_rejected = 0;
    history_requests = 0;
    history_failures = 0;
  };
  catalog = read_catalog;
  history_slots = 2;
  enabled_providers = bybit ∷ [];
  allowed_origins = [];
  max_command_bytes = 1024;
}

abbrev id : Text
id = 49 ∷ []

abbrev requested : List Subscription
requested =
    record { provider = bybit; market = linear_perpetual; symbol = btc; channels = ticker ∷ [] }
    ∷ []

abbrev one_key : List SubscriptionKey
one_key = btc_ticker ∷ []

abbrev command : ClientCommand
command = subscribe id requested

expanded_lem : expand_subscriptions no_wide requested ≡ ok one_key
unfolding expand_subscriptions expand_all into_keys sort sort_insert dedup dedup_from Set.extend
    Set.insert normalize_symbol trim is_whitespace is_ascii_alphanumeric to_ascii_uppercase
expanded_lem = refl

enabled_lem : contains bybit state.enabled_providers ≡ true
unfolding contains
enabled_lem = refl

All-IsAllowed : All (IsAllowed no_wide state) one_key
All-IsAllowed =
    (record { enabled = enabled_lem; instrument = btc_instrument; listed = validated_lem }, tt)

one-Fits : Fits state.subscriptions one_key
unfolding with_provider_limits
one-Fits = record { few_clients = omega arith; few_keys = omega arith }

within_lem : IsWithinLimits state.subscriptions 7 one_key
unfolding with_provider_limits lookup Set.extend Set.insert count uniform limit_for
within_lem = (omega arith, λ p. ground arith)

apply_command-accepts_example :
    ((apply_command no_wide as_stored state 7 command []).reply
      ≡ ack schema_version id (text "subscribe") one_key)
    × ((apply_command no_wide as_stored state 7 command []).subscriptions
        ≡ Set.extend (client_keys state.subscriptions 7) one_key)
    × (client_keys (apply_command no_wide as_stored state 7 command []).state.subscriptions 7
        ≡ Set.extend (client_keys state.subscriptions 7) one_key)
    × ((apply_command no_wide as_stored state 7 command []).state.subscriptions.desired
        ≡ Set.extend state.subscriptions.desired one_key)
    × ((d : ClientId)
        → d ≢ 7
        → client_keys (apply_command no_wide as_stored state 7 command []).state.subscriptions d
          ≡ client_keys state.subscriptions d)
apply_command-accepts_example =
    apply_command-accepts no_wide as_stored as_stored-Perm state 7 id requested one_key [] refl
      expanded_lem All-IsAllowed (with_provider_limits-Inv 4 (uniform 5)) one-Fits within_lem

abbrev read : Text → Result ClientCommand Category
read body = ok command

abbrev frame : Awaited
frame = incoming (some (text_frame (123 ∷ [])))

abbrev sessions : List (ClientId × Phase)
sessions = (7, idle []) ∷ []

session_found : lookup 7 sessions ≡ some (idle [])
unfolding lookup
session_found = refl

read-Fits :
    (body : Text) (c : ClientCommand) (keys : List SubscriptionKey)
    → frame ≡ incoming (some (text_frame body))
    → read body ≡ ok c
    → expand_subscriptions no_wide (asked c) ≡ ok keys
    → Fits state.subscriptions keys
read-Fits body c keys e q x =
    let same : command ≡ c = ground (arith, q) in
    let listed = sym expanded_lem ∙ ap (λ y. expand_subscriptions no_wide (asked y)) same ∙ x in
    let same_keys : one_key ≡ keys = ground (arith, listed) in
    subst (Fits state.subscriptions) same_keys one-Fits

session_turn-IsRun_example : Steps as_stored (world state sessions) (
    world (session_turn no_wide as_stored read state 7 frame [] true).state (
      Map.insert 7
        (idle (session_turn no_wide as_stored read state 7 frame [] true).subscriptions)
        sessions))
session_turn-IsRun_example =
    session_turn-IsRun no_wide as_stored 7 read state sessions [] session_found frame true read-Fits

abbrev no_sessions : List (ClientId × Phase)
no_sessions = []

no_session : lookup 7 no_sessions ≡ none
unfolding lookup
no_session = refl

hub_lem : with_client_limit 1 2 3 ≡ some state.hub
unfolding with_client_limit
hub_lem = refl

open_session-Steps_example : Steps as_stored (world state []) (
    world
      (open_session to_string state 7 true).state
      (if (open_session to_string state 7 true).goes_on then Map.insert 7 (idle []) [] else []))
open_session-Steps_example =
    open_session-Steps as_stored 7 state [] to_string true
      (with_client_limit-Inv 1 2 3 state.hub hub_lem) no_session

service_readiness-ready_example : ((service_readiness state).0 ≡ 200) ↔ (
    (readiness state.health ≡ true)
    × ((p : Provider)
        → is_enabled state.catalog.enabled_providers p ≡ true
        → (s : ProviderSnapshot) × (lookup p state.catalog.providers ≡ some s)
          × (s.instruments ≢ [])))
service_readiness-ready_example =
    service_readiness-ready whole no_wide (bybit ∷ []) state read-Reach
