-- ===== src/Api/Replies.antt =====
-- src/api.rs: what `apply_command` leaves and answers, on every branch.
use market_stream_gateway.Prelude.{
  ℕ, Bool, ◌≡◌, ◌⊎◌, refl, true, false, not, List, [], ◌∷◌, ◌++◌, none, some, arith, Bool-cases,
  Result-cases, Option-cases, inl, inr, ok, err, All, is_empty, ◌||◌, ltb, find,
}
use market_stream_gateway.Set.{contains}
use market_stream_gateway.Text.{Text, text, len}
use market_stream_gateway.Domain.Identity.{
  Provider, SubscriptionKey, provider_name, key_order, provider_order,
}
use market_stream_gateway.Domain.Subscription.{Subscription}
use market_stream_gateway.Domain.Event.{schema_version}
use market_stream_gateway.Gateway.Hub.{update_client_subscriptions}
use market_stream_gateway.Gateway.Registry
use market_stream_gateway.Gateway.Registry.{
  Registry, ClientId, add, RegistryError, SubscriptionChange, client_limit_exceeded,
  provider_limit_exceeded,
}
use market_stream_gateway.Catalog.Instrument.{Instrument, CatalogError, show_catalog_error}
use market_stream_gateway.Catalog.Store.{validate_subscription}
use market_stream_gateway.Api.Protocol.{
  ClientCommand, subscribe, unsubscribe, ping, request_id, ErrorCode, invalid_command,
  unsupported_subscription, limit_exceeded, error_message, pong, ack,
}
use market_stream_gateway.Api.Server.{AppState, count_rejected, rejected_reply}
use market_stream_gateway.Api.Commands as Commands
use market_stream_gateway.Api.Commands.{
  Handled, apply_command, validated_subscription_keys, expand_subscriptions, registry_error_reply,
  first_error, refused,
}
use market_stream_gateway.Api.Searches.{find-eq-some, find-eq-none, first_error-eq-some}

-- A key that the configuration and the catalog allow.
pub record IsAllowed (wide : ℕ → Bool) (state : AppState) (k : SubscriptionKey) : Type 0 where
  pub enabled : contains k.provider state.enabled_providers ≡ true
  pub instrument : Instrument
  pub listed : validate_subscription wide state.catalog k ≡ ok instrument

-- A request id that is empty or has more than 128 bytes.
abbrev pub is_bad_id : Text → Bool
is_bad_id id = is_empty id || ltb 128 (len id)

abbrev pub is_subscribe : ClientCommand → Bool
is_subscribe (subscribe id requested) = true
is_subscribe _ = false

-- A command that names subscriptions.
abbrev pub is_request : ClientCommand → Bool
is_request (ping id) = false
is_request _ = true

-- What the command asks to subscribe to or to leave.
abbrev pub asked : ClientCommand → List Subscription
asked (subscribe id requested) = requested
asked (unsubscribe id requested) = requested
asked (ping id) = []

module _ (wide : ℕ → Bool) (hash_order : List (Provider × ℕ) → List (Provider × ℕ))
    (state : AppState) (c : ClientId) (command : ClientCommand) where
  -- Why a command is refused with a code.
  pub data Reason : ErrorCode → Type 0 where
    bad_id : is_bad_id (request_id command) ≡ true → Reason invalid_command
    malformed :
        is_bad_id (request_id command) ≡ false
        → is_request command ≡ true
        → (message : Text) → expand_subscriptions wide (asked command) ≡ err message
        → Reason invalid_command
    not_enabled :
        is_bad_id (request_id command) ≡ false
        → is_subscribe command ≡ true
        → (keys : List SubscriptionKey) (k : SubscriptionKey)
        → expand_subscriptions wide (asked command) ≡ ok keys
        → contains k keys ≡ true
        → contains k.provider state.enabled_providers ≡ false
        → Reason unsupported_subscription
    not_listed :
        is_bad_id (request_id command) ≡ false
        → is_subscribe command ≡ true
        → (keys : List SubscriptionKey) (k : SubscriptionKey) (e : CatalogError)
        → expand_subscriptions wide (asked command) ≡ ok keys
        → contains k keys ≡ true
        → validate_subscription wide state.catalog k ≡ err e
        → Reason unsupported_subscription
    over_limit :
        is_bad_id (request_id command) ≡ false
        → is_subscribe command ≡ true
        → (keys : List SubscriptionKey) (e : RegistryError)
        → expand_subscriptions wide (asked command) ≡ ok keys
        → (add hash_order state.subscriptions c keys).1 ≡ err e
        → Reason limit_exceeded

  -- What a command leaves and answers, for a session with the set `own`.
  pub data Replied (own : List SubscriptionKey) : Handled → Type 0 where
    rejects :
        (code : ErrorCode) (message : Text)
        → Reason code
        → Replied own (record {
          state = count_rejected state;
          subscriptions = own;
          reply = error_message (some (request_id command)) code message;
        })
    pongs :
        (id : Text)
        → command ≡ ping id
        → is_bad_id id ≡ false
        → Replied own
            (record { state = state; subscriptions = own; reply = pong schema_version id })
    subscribes :
        (id : Text) (requested : List Subscription) (keys : List SubscriptionKey)
        (change : SubscriptionChange)
        → command ≡ subscribe id requested
        → is_bad_id id ≡ false
        → expand_subscriptions wide requested ≡ ok keys
        → All (IsAllowed wide state) keys
        → (add hash_order state.subscriptions c keys).1 ≡ ok change
        → Replied own (record {
          state = record state {
            subscriptions = (add hash_order state.subscriptions c keys).0;
            hub = (update_client_subscriptions state.hub c change.client_subscriptions).0;
          };
          subscriptions = change.client_subscriptions;
          reply = ack schema_version id (text "subscribe") keys;
        })
    unsubscribes :
        (id : Text) (requested : List Subscription) (keys : List SubscriptionKey)
        → command ≡ unsubscribe id requested
        → is_bad_id id ≡ false
        → expand_subscriptions wide requested ≡ ok keys
        → Replied own (record {
          state = record state {
            subscriptions = (Registry.remove state.subscriptions c keys).0;
            hub =
                (update_client_subscriptions state.hub c
                  (Registry.remove state.subscriptions c keys).1.client_subscriptions).0;
          };
          subscriptions = (Registry.remove state.subscriptions c keys).1.client_subscriptions;
          reply = ack schema_version id (text "unsubscribe") keys;
        })

add-refused :
    (hash_order : List (Provider × ℕ) → List (Provider × ℕ)) (r : Registry) (c : ClientId)
    (keys : List SubscriptionKey) (e : RegistryError)
    → (add hash_order r c keys).1 ≡ err e
    → (add hash_order r c keys).0 ≡ r
unfolding add
add-refused hash_order r c keys e h = ground (arith, h)

registry_error_reply-message :
    (state : AppState) (id : Text) (e : RegistryError)
    → (message : Text) × (registry_error_reply state id e
        ≡ (count_rejected state, error_message (some id) limit_exceeded message))
unfolding registry_error_reply rejected_reply
registry_error_reply-message state id (client_limit_exceeded limit n) = (_, refl)
registry_error_reply-message state id (provider_limit_exceeded p limit n) = (_, refl)

IsAllowed-of_none :
    (wide : ℕ → Bool) (state : AppState) (keys : List SubscriptionKey)
    → All (λ k. not (contains k.provider state.enabled_providers) ≡ false) keys
    → first_error (validate_subscription wide state.catalog) keys ≡ none
    → All (IsAllowed wide state) keys
IsAllowed-of_none wide state [] on h = tt
IsAllowed-of_none wide state (k ∷ keys) on h =
    elim (Result-cases (validate_subscription wide state.catalog k)) [
      | inl (e, q) ↦ ground (arith, q, h)
      | inr (i, q) ↦ (
        record { enabled = ground (arith, on.0); instrument = i; listed = q },
        IsAllowed-of_none wide state keys on.1 (ground (arith, q, h)),
      )
    ]

module _ (wide : ℕ → Bool) (hash_order : List (Provider × ℕ) → List (Provider × ℕ))
    (state : AppState) (c : ClientId) (own : List SubscriptionKey) (id : Text)
    (requested : List Subscription) where
  unsubscribe-Replied :
      is_bad_id id ≡ false
      → Replied wide hash_order state c
          (unsubscribe id requested)
          own
          (Commands.unsubscribe wide state c id requested own)
  unfolding Commands.unsubscribe rejected_reply request_id
  unsubscribe-Replied good = elim (Result-cases (expand_subscriptions wide requested)) [
    | inl (message, e) ↦
        rw (e, Commands.unsubscribe)
          (rejects invalid_command message (malformed good refl message e))
    | inr (keys, e) ↦ rw (e, Commands.unsubscribe) (unsubscribes id requested keys refl good e)
  ]

  validated-cases :
      is_bad_id id ≡ false
      → ((code : ErrorCode) × (message : Text) × (validated_subscription_keys wide state id
              requested
            ≡ err (count_rejected state, error_message (some id) code message))
          × Reason wide hash_order state c (subscribe id requested) code)
        ⊎ ((keys : List SubscriptionKey) × (validated_subscription_keys wide state id requested
              ≡ ok keys)
            × (expand_subscriptions wide requested ≡ ok keys)
            × All (IsAllowed wide state) keys)
  unfolding validated_subscription_keys rejected_reply request_id
  validated-cases good = elim (Result-cases (expand_subscriptions wide requested)) [
    | inl (message, e) ↦ inl (
      invalid_command,
      message,
      rw (e, validated_subscription_keys) refl,
      malformed good refl message e,
    )
    | inr (keys, e) ↦
        elim (Option-cases (find (λ k. not (contains k.provider state.enabled_providers)) keys)) [
          | inr (k, q) ↦
              (let (there, off) = find-eq-some _ keys k q in
                inl (
                  unsupported_subscription,
                  provider_name k.provider ++ text " is disabled",
                  rw (e, q, validated_subscription_keys) refl,
                  not_enabled good refl keys k e there (ground (arith, off)),
                ))
          | inl q ↦
              elim (Option-cases (first_error (validate_subscription wide state.catalog) keys)) [
                | inr (x, z) ↦
                    (let (k, there, fails) = first_error-eq-some _ keys x z in
                      inl (
                        unsupported_subscription,
                        show_catalog_error x,
                        rw (e, q, z, validated_subscription_keys) refl,
                        not_listed good refl keys k x e there fails,
                      ))
                | inl z ↦ inr (
                  keys,
                  rw (e, q, z, validated_subscription_keys) refl,
                  e,
                  IsAllowed-of_none wide state keys (find-eq-none _ keys q) z,
                )
              ]
        ]
  ]

  subscribe-Replied :
      is_bad_id id ≡ false
      → Replied wide hash_order state c
          (subscribe id requested)
          own
          (Commands.subscribe wide hash_order state c id requested own)
  unfolding Commands.subscribe registry_error_reply rejected_reply request_id
  subscribe-Replied good = elim (validated-cases good) [
    | inl (code, message, e, why) ↦ rw (e, Commands.subscribe) (rejects code message why)
    | inr (keys, e, expanded, allowed) ↦
        elim (Result-cases (add hash_order state.subscriptions c keys).1) [
          | inr (change, z) ↦
              rw (e, z, Commands.subscribe)
                (subscribes id requested keys change refl good expanded allowed z)
          | inl (x, z) ↦
              (let same = add-refused hash_order state.subscriptions c keys x z in
                let (message, reply) = registry_error_reply-message state id x in
                rw (e, z, same, reply, Commands.subscribe)
                  (rejects limit_exceeded message (over_limit good refl keys x expanded z)))
        ]
  ]

module _ (wide : ℕ → Bool) (hash_order : List (Provider × ℕ) → List (Provider × ℕ))
    (state : AppState) (c : ClientId) (own : List SubscriptionKey) where
  pub apply_command-Replied :
      (command : ClientCommand)
      → Replied wide hash_order state c command own
          (apply_command wide hash_order state c command own)
  unfolding apply_command rejected_reply request_id
  apply_command-Replied (subscribe id requested) = elim (Bool-cases (is_bad_id id)) [
    | inl e ↦ rw (e, apply_command) (rejects invalid_command _ (bad_id e))
    | inr e ↦ rw (e, apply_command) (subscribe-Replied wide hash_order state c own id requested e)
  ]
  apply_command-Replied (unsubscribe id requested) = elim (Bool-cases (is_bad_id id)) [
    | inl e ↦ rw (e, apply_command) (rejects invalid_command _ (bad_id e))
    | inr e ↦ rw (e, apply_command) (unsubscribe-Replied wide hash_order state c own id requested e)
  ]
  apply_command-Replied (ping id) = elim (Bool-cases (is_bad_id id)) [
    | inl e ↦ rw (e, apply_command) (rejects invalid_command _ (bad_id e))
    | inr e ↦ rw (e, apply_command) (pongs id refl e)
  ]
