-- ===== src/Api/Commands.antt =====
-- src/api.rs: what a command of a client does. A session's own set of subscriptions is threaded
-- with the shared state.
use market_stream_gateway.Prelude.{
  ℕ, ltb, Bool, not, ◌||◌, List, [], ◌∷◌, ◌++◌, Option, none, some, is_empty, if◌then◌else◌, Result,
  ok, err, ◌>>=◌, find,
}
use market_stream_gateway.Set
use market_stream_gateway.Set.{contains}
use market_stream_gateway.Text.{Text, text, len, to_string}
use market_stream_gateway.Domain.Identity.{
  Provider, SubscriptionKey, key_order, provider_order, provider_name,
}
use market_stream_gateway.Domain.Subscription.{Subscription, into_keys}
use market_stream_gateway.Domain.Symbol.{DomainError}
use market_stream_gateway.Domain.Event.{schema_version}
use market_stream_gateway.History.Request.{show_domain_error}
use market_stream_gateway.Gateway.Registry
use market_stream_gateway.Gateway.Registry.{
  ClientId, RegistryError, client_limit_exceeded, provider_limit_exceeded,
}
use market_stream_gateway.Gateway.Hub.{update_client_subscriptions}
use market_stream_gateway.Catalog.Instrument.{show_catalog_error}
use market_stream_gateway.Catalog.Store.{validate_subscription}
use market_stream_gateway.Api.Protocol.{
  ClientCommand, ControlMessage, request_id, invalid_command, limit_exceeded,
  unsupported_subscription, ack, pong,
}
use market_stream_gateway.Api.Server.{AppState, rejected_reply}

-- What a command leaves and answers.
pub record Handled : Type 0 where
  pub state : AppState
  pub subscriptions : List SubscriptionKey
  pub reply : ControlMessage

-- `MAX_REQUEST_ID_BYTES`.
abbrev pub max_request_id_bytes : ℕ
max_request_id_bytes = 128

abbrev pub refused : List SubscriptionKey → AppState × ControlMessage → Handled
refused subscriptions (state, reply) = record {
  state = state;
  subscriptions = subscriptions;
  reply = reply;
}

-- `Iterator::find_map` of the errors.
abbrev pub first_error {ℓ κ ι} :
    {A : Type ℓ} {B : Type κ} {E : Type ι} → (A → Result B E) → List A → Option E
first_error f [] = none
first_error f (x ∷ xs) = elim (f x) [ ok b ↦ first_error f xs | err e ↦ some e ]

unfoldable pub registry_error_reply : AppState → Text → RegistryError → AppState × ControlMessage
registry_error_reply state id (client_limit_exceeded limit requested) =
    rejected_reply state (some id) limit_exceeded (
      text "subscription limit exceeded: requested "
      ++ to_string requested
      ++ text ", maximum "
      ++ to_string limit)
registry_error_reply state id (provider_limit_exceeded p limit requested) =
    rejected_reply state (some id) limit_exceeded (
      provider_name p
      ++ text " subscription limit exceeded: requested "
      ++ to_string requested
      ++ text ", maximum "
      ++ to_string limit)

module _ (wide : ℕ → Bool) where
  -- The loop over the requested subscriptions.
  unfoldable pub expand_all :
      List SubscriptionKey → List Subscription → Result (List SubscriptionKey) DomainError
  expand_all keys [] = ok keys
  expand_all keys (s ∷ ss) = do
    expanded ← into_keys wide s
    expand_all (Set.extend keys expanded) ss

  unfoldable pub expand_subscriptions : List Subscription → Result (List SubscriptionKey) Text
  expand_subscriptions requested =
      if is_empty requested
      then err (text "subscriptions must not be empty")
      else elim (expand_all [] requested) [ ok keys ↦ ok keys | err e ↦ err (show_domain_error e) ]

  -- The keys, or what the refusal leaves and answers.
  unfoldable pub validated_subscription_keys :
      AppState
      → Text
      → List Subscription
      → Result (List SubscriptionKey) (AppState × ControlMessage)
  validated_subscription_keys state id requested = elim (expand_subscriptions requested) [
    | err message ↦ err (rejected_reply state (some id) invalid_command message)
    | ok keys ↦ elim (find (λ k. not (contains k.provider state.enabled_providers)) keys) [
      | some k ↦ err (
          rejected_reply state (some id) unsupported_subscription
            (provider_name k.provider ++ text " is disabled"))
      | none ↦ elim (first_error (validate_subscription wide state.catalog) keys) [
        | some e ↦
            err (rejected_reply state (some id) unsupported_subscription (show_catalog_error e))
        | none ↦ ok keys
      ]
    ]
  ]

  -- The session's set is what the registry reports, and goes to the hub.
  abbrev pub acknowledge :
      AppState → ClientId → Text → Text → List SubscriptionKey → List SubscriptionKey → Handled
  acknowledge state c id operation keys subscriptions = record {
    state = record state { hub = (update_client_subscriptions state.hub c subscriptions).0 };
    subscriptions = subscriptions;
    reply = ack schema_version id operation keys;
  }

  unfoldable pub unsubscribe :
      AppState → ClientId → Text → List Subscription → List SubscriptionKey → Handled
  unsubscribe state c id requested subscriptions = elim (expand_subscriptions requested) [
    | err message ↦ refused subscriptions (rejected_reply state (some id) invalid_command message)
    | ok keys ↦
        let removed = Registry.remove state.subscriptions c keys in
        acknowledge (record state { subscriptions = removed.0 }) c id (text "unsubscribe") keys
          removed.1.client_subscriptions
  ]

  module _ (hash_order : List (Provider × ℕ) → List (Provider × ℕ)) where
    unfoldable pub subscribe :
        AppState → ClientId → Text → List Subscription → List SubscriptionKey → Handled
    subscribe state c id requested subscriptions =
        elim (validated_subscription_keys state id requested) [
          | err reply ↦ refused subscriptions reply
          | ok keys ↦
              let added = Registry.add hash_order state.subscriptions c keys in
              let state' = record state { subscriptions = added.0 } in
              elim added.1 [
                | err e ↦ refused subscriptions (registry_error_reply state' id e)
                | ok change ↦
                    acknowledge state' c id (text "subscribe") keys change.client_subscriptions
              ]
        ]

    unfoldable pub apply_command :
        AppState → ClientId → ClientCommand → List SubscriptionKey → Handled
    apply_command state c command subscriptions =
        if is_empty (request_id command) || ltb max_request_id_bytes (len (request_id command))
        then refused subscriptions (
            rejected_reply state (some (request_id command)) invalid_command
              (text "request_id must contain between 1 and 128 bytes"))
        else elim command [
          | ClientCommand.ping id ↦ record {
            state = state;
            subscriptions = subscriptions;
            reply = pong schema_version id;
          }
          | ClientCommand.subscribe id requested ↦ subscribe state c id requested subscriptions
          | ClientCommand.unsubscribe id requested ↦ unsubscribe state c id requested subscriptions
        ]
