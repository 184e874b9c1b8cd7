-- ===== src/Health.antt =====
-- src/health.rs: the health of the upstream endpoints and the readiness they add up to.
use market_stream_gateway.Prelude.{
  ℕ, ◌-◌, ◌≤◌, ◌<◌, ◌≡◌, ◌≢◌, ◌⊎◌, sym, ◌∙◌, subst, ◌++◌, ap, Bool, true, false, ◌&&◌, ◌||◌, List,
  [], ◌∷◌, Option, none, some, arith, ltb, eqb, if◌then◌else◌, Order, order_by, nat_order,
  pair_order, ◌==◌, ==_refl, eq_of_==, Option-cases, Bool-cases, inl, inr,
}
use market_stream_gateway.Text.{Text, text, len, len_utf8}
use market_stream_gateway.Map.{lookup, get_or, Distinct}
use market_stream_gateway.Map.Ordered.{insert_ordered, lookup-insert_ordered}
use market_stream_gateway.Domain.Identity.{Provider, provider_order}

-- src/providers/mod.rs
pub data EndpointKind : Type 0 where
  primary public business : EndpointKind

abbrev pub endpoint_rank : EndpointKind → ℕ
endpoint_rank primary = 0
endpoint_rank public = 1
endpoint_rank business = 2

pub endpoint_rank-injective : (a b : EndpointKind) → endpoint_rank a ≡ endpoint_rank b → a ≡ b
endpoint_rank-injective a b h = ground arith

instance abbrev pub endpoint_order : Order EndpointKind
endpoint_order = order_by endpoint_rank nat_order endpoint_rank-injective

unfoldable pub endpoint_name : EndpointKind → Text
endpoint_name primary = text "primary"
endpoint_name public = text "public"
endpoint_name business = text "business"

pub data ConnectionState : Type 0 where
  idle connecting live backoff stopped : ConnectionState

pub record EndpointHealth : Type 0 where
  pub provider : Provider
  pub endpoint : Text
  pub state : ConnectionState
  pub desired_subscriptions : ℕ
  pub reconnects : ℕ
  pub connection_epoch : Option ℕ
  pub connected_at_ms : Option ℕ
  pub last_event_at_ms : Option ℕ
  pub last_error : Option Text

unfoldable pub new_health : Provider → EndpointKind → EndpointHealth
new_health p e = record {
  provider = p;
  endpoint = endpoint_name e;
  state = idle;
  desired_subscriptions = 0;
  reconnects = 0;
  connection_epoch = none;
  connected_at_ms = none;
  last_event_at_ms = none;
  last_error = none;
}

abbrev pub Endpoint : Type 0
Endpoint = Provider × EndpointKind

abbrev pub HealthRegistry : Type 0
HealthRegistry = List (Endpoint × EndpointHealth)

-- `entry(...).or_insert_with(...)`.
abbrev pub health_of : HealthRegistry → Endpoint → EndpointHealth
health_of h k = get_or (new_health k.0 k.1) k h

unfoldable pub register : HealthRegistry → Endpoint → HealthRegistry
register h k = insert_ordered k (health_of h k) h

-- `String::truncate` at a byte: nothing where the byte is inside a character, as the call panics.
abbrev pub truncate : ℕ → Text → Option Text
truncate n [] = some []
truncate n (c ∷ s) =
    if eqb n 0
    then some []
    else if ltb n (len_utf8 c)
    then none
    else elim (truncate (n - len_utf8 c) s) [ none ↦ none | some t ↦ some (c ∷ t) ]

-- The entry with its error cut, and whether the cut panics, which leaves the error as it is.
abbrev pub cut_error : EndpointHealth → EndpointHealth × Bool
cut_error e = elim e.last_error [
  | none ↦ (e, false)
  | some message ↦ elim (truncate 500 message) [
    | none ↦ (e, true)
    | some t ↦ (record e { last_error = some t }, false)
  ]
]

-- The new state, and whether the call panics: the entry is changed in place, and the lock is
-- taken again after a panic.
unfoldable pub update :
    HealthRegistry → Endpoint → (EndpointHealth → EndpointHealth) → HealthRegistry × Bool
update h k change =
    let cut = cut_error (change (health_of h k)) in (insert_ordered k cut.0 h, cut.1)

abbrev pub is_live : ConnectionState → Bool
is_live live = true
is_live _ = false

abbrev pub is_satisfied : EndpointHealth → Bool
is_satisfied e = eqb e.desired_subscriptions 0 || is_live e.state

-- `ready` of `readiness`.
unfoldable pub readiness : HealthRegistry → Bool
readiness [] = true
readiness ((k, e) ∷ h) = is_satisfied e && readiness h

-- Where readiness is reported, every registered endpoint has no demand or is live.
pub readiness-is_satisfied :
    (h : HealthRegistry) (k : Endpoint) (e : EndpointHealth)
    → readiness h ≡ true
    → lookup k h ≡ some e
    → is_satisfied e ≡ true
unfolding readiness lookup
readiness-is_satisfied [] k e r l = ground arith
readiness-is_satisfied ((j, d) ∷ h) k e r l = ground (arith, readiness-is_satisfied h k e)

keys_differ :
    (k j : Endpoint) (h : HealthRegistry) (e : EndpointHealth)
    → lookup k h ≡ none
    → lookup j h ≡ some e
    → (k == j) ≡ false
keys_differ k j h e none_there there = elim (Bool-cases (k == j)) [
  | inl q ↦ absurd (ground (arith, none_there, there, ap (λ x. lookup x h) (eq_of_== k j q)))
  | inr q ↦ q
]

-- Where readiness is denied and each endpoint is registered once, some registered endpoint has
-- demand and is not live.
pub readiness_unsatisfied :
    (h : HealthRegistry)
    → Distinct h
    → readiness h ≡ false
    → (k : Endpoint) × (e : EndpointHealth) × (lookup k h ≡ some e) × (is_satisfied e ≡ false)
unfolding readiness lookup
readiness_unsatisfied [] d r = ground arith
readiness_unsatisfied ((k, e) ∷ h) d r = elim (Bool-cases (is_satisfied e)) [
  | inr bad ↦ (k, e, ground (arith, ==_refl k), bad)
  | inl good ↦
      (let rest = readiness_unsatisfied h d.1 (ground (arith, good)) in
        (
          rest.0,
          rest.1,
          ground (arith, rest.2, d.0, keys_differ k rest.0 h rest.1 d.0 rest.2),
          rest.3,
        ))
]

-- A text that is cut is whole, or its prefix of exactly the bytes asked for.
truncate-some :
    (n : ℕ) (s t : Text)
    → truncate n s ≡ some t
    → ((len s ≤ n) × (t ≡ s)) ⊎ ((rest : Text) × (s ≡ t ++ rest) × (n < len s) × (len t ≡ n))
truncate-some n [] t h = inl (omega arith, ground (arith, h))
truncate-some n (c ∷ s) t h = elim (Bool-cases (eqb n 0)) [
  | inl zero_left ↦
      (let empty : [] ≡ t = ground (arith, h, zero_left) in
        inr (
          c ∷ s,
          ap (λ x. x ++ c ∷ s) empty,
          ground (arith, zero_left),
          ap len (sym empty) ∙ ground (arith, zero_left),
        ))
  | inr more ↦ elim (Option-cases (truncate (n - len_utf8 c) s)) [
    | inl e ↦ ground (arith, e, h, more)
    | inr (r, e) ↦
        (let fits : len_utf8 c ≤ n = ground (arith, h, more) in
          let same : c ∷ r ≡ t = ground (arith, e, h, more, fits) in
          elim (truncate-some (n - len_utf8 c) s r e) [
            | inl whole ↦ inl (omega (arith, whole.0, fits), sym same ∙ ap (λ x. c ∷ x) whole.1)
            | inr (rest, split, over, exact) ↦ inr (
              rest,
              ap (λ x. c ∷ x) split ∙ ap (λ x. x ++ rest) same,
              omega (arith, over, fits),
              ap len (sym same) ∙ omega (arith, exact, fits),
            )
          ])
  ]
]

-- A text that cannot be cut is longer, and no prefix of it has exactly the bytes asked for.
truncate-none :
    (n : ℕ) (s : Text)
    → truncate n s ≡ none
    → (n < len s) × ((kept rest : Text) → s ≡ kept ++ rest → len kept ≢ n)
truncate-none n [] h = ground arith
truncate-none n (c ∷ s) h = elim (Bool-cases (ltb n (len_utf8 c))) [
  | inl inside ↦ (
    ground (arith, inside),
    λ kept rest e q.
        elim kept as (λ x. c ∷ s ≡ x ++ rest → len x ≡ n → ⊥) [
          | [] ↦ λ e' q'. ground (arith, h, q')
          | d ∷ ds ↦
              λ e' q'. (let same : c ≡ d = ground (arith, e') in ground (arith, inside, same, q'))
        ]
          e q,
  )
  | inr fits ↦
      (let below : truncate (n - len_utf8 c) s ≡ none = ground (arith, h, fits) in
        let rest = truncate-none (n - len_utf8 c) s below in
        (
          ground (arith, rest.0, fits),
          λ kept others e q.
              elim kept as (λ x. c ∷ s ≡ x ++ others → len x ≡ n → ⊥) [
                | [] ↦ λ e' q'. ground (arith, h, q')
                | d ∷ ds ↦ λ e' q'.
                    (let same : c ≡ d = ground (arith, e') in
                      rest.1 ds others (ground (arith, e')) (ground (arith, fits, same, q')))
              ]
                e q,
        ))
]

-- The entry stored for a changed one, and whether the call panics. Without an error, or with one of
-- at most 500 bytes, the changed entry; with a longer one, the changed entry with the first 500
-- bytes of it; and, where byte 500 is inside a character, the changed entry and a panic.
pub data Cut (d : EndpointHealth) : EndpointHealth → Bool → Type 0 where
  no_error : d.last_error ≡ none → Cut d d false
  fits : (message : Text) → d.last_error ≡ some message → len message ≤ 500 → Cut d d false
  cuts :
      (kept rest : Text)
      → d.last_error ≡ some (kept ++ rest)
      → 500 < len (kept ++ rest)
      → len kept ≡ 500
      → Cut d (record d { last_error = some kept }) false
  panics :
      (message : Text)
      → d.last_error ≡ some message
      → 500 < len message
      → ((kept rest : Text) → message ≡ kept ++ rest → len kept ≢ 500)
      → Cut d d true

Cut-of :
    (d : EndpointHealth) (after : EndpointHealth × Bool)
    → cut_error d ≡ after
    → Cut d after.0 after.1
    → Cut d (cut_error d).0 (cut_error d).1
Cut-of d after e = subst (λ x. Cut d x.0 x.1) (sym e)

cut_error-Cut : (d : EndpointHealth) → Cut d (cut_error d).0 (cut_error d).1
cut_error-Cut d = elim (Option-cases d.last_error) [
  | inl e ↦ Cut-of d (d, false) (ground (arith, e)) (no_error e)
  | inr (message, e) ↦ elim (Option-cases (truncate 500 message)) [
    | inl q ↦
        (let inside = truncate-none 500 message q in
          Cut-of d (d, true) (ground (arith, e, q)) (panics message e inside.0 inside.1))
    | inr (t, q) ↦
        (let cut : cut_error d ≡ (record d { last_error = some t }, false) = ground (arith, e, q) in
          elim (truncate-some 500 message t q) [
            | inl (short, same) ↦
                (let still : record d { last_error = some t } ≡ d =
                    ap (λ x. record d { last_error = x }) (ap some same ∙ sym e) in
                  Cut-of d (d, false) (cut ∙ ap (λ x. (x, false)) still) (fits message e short))
            | inr (rest, split, over, exact) ↦
                Cut-of d (record d { last_error = some t }, false) cut
                  (cuts t rest (e ∙ ap some split) (subst (λ x. 500 < len x) split over) exact)
          ])
  ]
]

-- What a change of one endpoint leaves.
abbrev pub Changed :
    HealthRegistry → Endpoint → (EndpointHealth → EndpointHealth) → HealthRegistry × Bool → Type 0
Changed h k change after =
    (e : EndpointHealth) × Cut (change (get_or (new_health k.0 k.1) k h)) e after.1
    × ((j : Endpoint) → lookup j after.0 ≡ (if k == j then some e else lookup j h))

-- `update` changes the health of an endpoint, new if there was none, and touches no other: the
-- entry is the changed one as it is without an error or with one of at most 500 bytes, and with the
-- first 500 bytes of a longer error; where byte 500 of a longer error is inside a character, the
-- call panics and the entry is the changed one with the whole error.
pub update-Changed :
    (h : HealthRegistry) (k : Endpoint) (change : EndpointHealth → EndpointHealth)
    → Changed h k change (update h k change)
unfolding update
update-Changed h k change =
    let cut = cut_error (change (health_of h k)) in
    (cut.0, cut_error-Cut (change (health_of h k)), λ j. lookup-insert_ordered k j cut.0 h)
