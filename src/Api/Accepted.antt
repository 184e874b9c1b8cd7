-- ===== src/Api/Accepted.antt =====
-- src/api.rs: which subscriptions are acknowledged, and to what effect.
use mathlib.Core.List.{Perm}
use mathlib.Core.Path.{ap₂}
use market_stream_gateway.Prelude.{
  ℕ, Bool, ◌≡◌, ◌≢◌, refl, sym, ap, ◌∙◌, subst, true, false, List, [], ◌∷◌, arith, Result, ok, err,
  All, is_empty, ◌||◌, ltb, Bool-cases, inl, inr,
}
use market_stream_gateway.Set
use market_stream_gateway.Set.{contains}
use market_stream_gateway.Text.{Text, text, len}
use market_stream_gateway.Domain.Identity.{Provider, SubscriptionKey, key_order, provider_order}
use market_stream_gateway.Domain.Subscription.{Subscription}
use market_stream_gateway.Domain.Event.{schema_version}
use market_stream_gateway.Gateway.Registry.{
  Registry, RegistryError, SubscriptionChange, ClientId, add, client_keys,
}
use market_stream_gateway.Gateway.Registry.Invariant.{Inv, Fits}
use market_stream_gateway.Gateway.Registry.Effects.{Outcome, Added, IsWithinLimits, add-Outcome}
use market_stream_gateway.Api.Protocol.{ClientCommand, ErrorCode, request_id, subscribe, ack}
use market_stream_gateway.Api.Server.{AppState}
use market_stream_gateway.Api.Commands.{
  Handled, apply_command, expand_subscriptions, max_request_id_bytes,
}
use market_stream_gateway.Api.Replies.{
  IsAllowed, Replied, Reason, rejects, pongs, subscribes, unsubscribes, bad_id, malformed,
  not_enabled, not_listed, over_limit, apply_command-Replied,
}

All-contains :
    (P : SubscriptionKey → Type 0) (keys : List SubscriptionKey) (k : SubscriptionKey)
    → All P keys
    → contains k keys ≡ true
    → P k
unfolding contains
All-contains P [] k h q = cc
All-contains P (j ∷ keys) k h q = elim (Bool-cases (key_order.beq j k)) [
  | inl e ↦ subst P ((key_order.beq_iff j k).0 e) h.0
  | inr e ↦ All-contains P keys k h.1 (ground (arith, q, e))
]

-- A registry accepts a request within its limits, with this effect.
accepts_within :
    (r : Registry) (c : ClientId) (keys : List SubscriptionKey)
    (after : Registry × Result SubscriptionChange RegistryError)
    → IsWithinLimits r c keys
    → Outcome r c keys after
    → (change : SubscriptionChange) × (after.1 ≡ ok change) × Added r c keys after.0 change
accepts_within r c keys (r', err e) w o = absurd (o.2 w)
accepts_within r c keys (r', ok change) w o = (change, refl, o.0)

module _ (wide : ℕ → Bool) (hash_order : List (Provider × ℕ) → List (Provider × ℕ))
    (state : AppState) (c : ClientId) (id : Text) (requested : List Subscription)
    (keys own : List SubscriptionKey)
    (good_id : (is_empty id || ltb max_request_id_bytes (len id)) ≡ false)
    (expanded : expand_subscriptions wide requested ≡ ok keys)
    (allowed : All (IsAllowed wide state) keys) (change : SubscriptionChange)
    (accepted : (add hash_order state.subscriptions c keys).1 ≡ ok change) where
  no-Reason : (code : ErrorCode) → Reason wide hash_order state c (subscribe id requested) code → ⊥
  unfolding request_id
  no-Reason _ (bad_id e) = ground (arith, e, good_id)
  no-Reason _ (malformed good named message e) = ground (arith, e, expanded)
  no-Reason _ (not_enabled good named ks k e there off) =
      let same : ks ≡ keys = ground (arith, e, expanded) in
      let a =
        All-contains (IsAllowed wide state) keys k allowed (ap (contains k) (sym same) ∙ there) in
      ground (arith, off, a.enabled)
  no-Reason _ (not_listed good named ks k x e there fails) =
      let same : ks ≡ keys = ground (arith, e, expanded) in
      let a =
        All-contains (IsAllowed wide state) keys k allowed (ap (contains k) (sym same) ∙ there) in
      ground (arith, fails, a.listed)
  no-Reason _ (over_limit good named ks x e over) =
      let same : ks ≡ keys = ground (arith, e, expanded) in
      let again = ap (λ m. (add hash_order state.subscriptions c m).1) (sym same) ∙ over in
      ground (arith, again, accepted)

  -- An acknowledgement of the keys, with the registry and the session's set as `add` leaves them.
  abbrev IsAcked : Handled → Type 0
  IsAcked h =
      (h.reply ≡ ack schema_version id (text "subscribe") keys)
      × (h.subscriptions ≡ change.client_subscriptions)
      × (h.state.subscriptions ≡ (add hash_order state.subscriptions c keys).0)

  Replied-IsAcked :
      (h : Handled) → Replied wide hash_order state c (subscribe id requested) own h → IsAcked h
  Replied-IsAcked _ (rejects code message why) = absurd (no-Reason code why)
  Replied-IsAcked _ (pongs id' e good') = cc
  Replied-IsAcked _ (unsubscribes id' requested' keys' e good' expanded') = cc
  Replied-IsAcked _ (subscribes id' requested' keys' change' e good' expanded' allowed' accepted') =
      let same_id : id ≡ id' = ground (arith, e) in
      let same_request : requested ≡ requested' = ground (arith, e) in
      let again = ap (expand_subscriptions wide) same_request ∙ expanded' in
      let same_keys : keys' ≡ keys = ground (arith, again, expanded) in
      let agreed =
        ap (λ m. (add hash_order state.subscriptions c m).1) (sym same_keys) ∙ accepted' in
      let same_change : change' ≡ change = ground (arith, agreed, accepted) in
      (
        ap₂ (λ i m. ack schema_version i (text "subscribe") m) (sym same_id) same_keys,
        ap (λ x. x.client_subscriptions) same_change,
        ap (λ m. (add hash_order state.subscriptions c m).0) same_keys,
      )

module _ (wide : ℕ → Bool) (hash_order : List (Provider × ℕ) → List (Provider × ℕ))
    (perm : (t : List (Provider × ℕ)) → Perm (hash_order t) t) (state : AppState) (c : ClientId)
    (id : Text) (requested : List Subscription) (keys own : List SubscriptionKey) where
  -- A command with a request id of 1 to 128 bytes that asks for keys which are all allowed, and
  -- within the client's and the providers' limits, on a registry that keeps its invariant and where
  -- the counts fit a machine word, is acknowledged with these keys, whatever the order in which the
  -- totals are visited. The registry then has the union of the client's keys and these keys, the
  -- session's set is that union, the desired set is joined with these keys, and the other clients'
  -- keys are as they were.
  pub apply_command-accepts :
      (is_empty id || ltb max_request_id_bytes (len id)) ≡ false
      → expand_subscriptions wide requested ≡ ok keys
      → All (IsAllowed wide state) keys
      → Inv state.subscriptions
      → Fits state.subscriptions keys
      → IsWithinLimits state.subscriptions c keys
      → let h = apply_command wide hash_order state c (subscribe id requested) own in
        (h.reply ≡ ack schema_version id (text "subscribe") keys)
        × (h.subscriptions ≡ Set.extend (client_keys state.subscriptions c) keys)
        × (client_keys h.state.subscriptions c
            ≡ Set.extend (client_keys state.subscriptions c) keys)
        × (h.state.subscriptions.desired ≡ Set.extend state.subscriptions.desired keys)
        × ((d : ClientId)
            → d ≢ c
            → client_keys h.state.subscriptions d ≡ client_keys state.subscriptions d)
  apply_command-accepts good_id expanded allowed v fits within =
      let r = state.subscriptions in
      let (change, accepted, added) =
        accepts_within r c keys (add hash_order r c keys) within
          (add-Outcome hash_order perm r c keys v fits) in
      let command : ClientCommand = subscribe id requested in
      let (reply, set, registry) =
        Replied-IsAcked wide hash_order state c id requested keys own good_id expanded allowed
          change accepted (apply_command wide hash_order state c command own)
          (apply_command-Replied wide hash_order state c own command) in
      (
        reply,
        set ∙ added.reported ∙ added.own,
        ap (λ x. client_keys x c) registry ∙ added.own,
        ap (λ x. x.desired) registry ∙ added.desired,
        λ d ne. ap (λ x. client_keys x d) registry ∙ added.others d ne,
      )
