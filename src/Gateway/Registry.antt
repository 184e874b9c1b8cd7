-- ===== src/Gateway/Registry.antt =====
-- src/gateway.rs: `SubscriptionRegistry`. Every operation runs under the one lock, so it is one
-- step on the state. The watch channel is its current value and the number of values sent.
pub mod Tally
pub mod Up
pub mod Down
pub mod Totals
pub mod Invariant
pub mod Adding
pub mod Removing
pub mod Refusal
pub mod Effects
pub mod Releases
pub mod Runs
use market_stream_gateway.Prelude.{
  ℕ, ◌+◌, ◌-◌, ◌≡◌, Bool, true, false, not, List, [], ◌∷◌, ◌++◌, Option, none, some, ltb, eqb,
  if◌then◌else◌, is_empty, length, find, Result, ok, err, saturating_suc, max_u64, Order, nat_order,
}
use market_stream_gateway.Set
use market_stream_gateway.Map
use market_stream_gateway.Map.{lookup, get_or}
use market_stream_gateway.Domain.Identity.{Provider, SubscriptionKey, provider_order, key_order}
use market_stream_gateway.Gateway.Limits.{ProviderLimits, limit_for, uniform}

-- A UUID as a number.
abbrev pub ClientId : Type 0
ClientId = ℕ

pub record Registry : Type 0 where
  pub max_subscriptions_per_client : ℕ
  pub provider_limits : ProviderLimits
  pub clients : List (ClientId × List SubscriptionKey)
  pub reference_counts : List (SubscriptionKey × ℕ)
  pub desired : List SubscriptionKey
  pub published : List SubscriptionKey
  pub sends : ℕ

pub record SubscriptionChange : Type 0 where
  pub added : List SubscriptionKey
  pub removed : List SubscriptionKey
  pub activated : List SubscriptionKey
  pub deactivated : List SubscriptionKey
  pub client_subscriptions : List SubscriptionKey

pub data RegistryError : Type 0 where
  -- limit, requested
  client_limit_exceeded : ℕ → ℕ → RegistryError
  -- provider, limit, requested
  provider_limit_exceeded : Provider → ℕ → ℕ → RegistryError

unfoldable pub unchanged : List SubscriptionKey → SubscriptionChange
unchanged keys = record {
  added = [];
  removed = [];
  activated = [];
  deactivated = [];
  client_subscriptions = keys;
}

unfoldable pub desired_state_changed : SubscriptionChange → Bool
desired_state_changed c = if is_empty c.activated then not (is_empty c.deactivated) else true

unfoldable pub with_provider_limits : ℕ → ProviderLimits → Registry
with_provider_limits max limits = record {
  max_subscriptions_per_client = max;
  provider_limits = limits;
  clients = [];
  reference_counts = [];
  desired = [];
  published = [];
  sends = 0;
}

unfoldable pub with_provider_limit : ℕ → ℕ → Registry
with_provider_limit max limit = with_provider_limits max (uniform limit)

unfoldable pub new_registry : ℕ → Registry
new_registry max = with_provider_limit max max_u64

abbrev pub client_keys : Registry → ClientId → List SubscriptionKey
client_keys r c = get_or [] c r.clients

unfoldable pub reference_count : Registry → SubscriptionKey → ℕ
reference_count r k = get_or 0 k r.reference_counts

abbrev Totals : Type 0
Totals = List (Provider × ℕ)

-- The loop over `state.desired`.
unfoldable pub count_desired : Totals → List SubscriptionKey → Totals
count_desired totals [] = totals
count_desired totals (k ∷ keys) =
    count_desired (Map.insert k.provider (get_or 0 k.provider totals + 1) totals) keys

-- The loop over `added`: only a key that nobody holds yet counts.
unfoldable pub count_added : List (SubscriptionKey × ℕ) → Totals → List SubscriptionKey → Totals
count_added counts totals [] = totals
count_added counts totals (k ∷ keys) =
    count_added counts
      (elim (lookup k counts) [
        | some _ ↦ totals
        | none ↦ Map.insert k.provider (saturating_suc (get_or 0 k.provider totals)) totals
      ])
      keys

unfoldable pub provider_totals : Registry → List SubscriptionKey → Totals
provider_totals r added = count_added r.reference_counts (count_desired [] r.desired) added

-- The counts and the desired set while a loop runs over keys, and the keys whose count crossed
-- between zero and one so far.
pub record Counting : Type 0 where
  pub counts : List (SubscriptionKey × ℕ)
  pub wanted : List SubscriptionKey
  pub crossed : List SubscriptionKey

unfoldable pub count_up : Counting → SubscriptionKey → Counting
count_up s k =
    let n = saturating_suc (get_or 0 k s.counts) in
    if eqb n 1
    then record {
      counts = Map.insert k n s.counts;
      wanted = Set.insert k s.wanted;
      crossed = s.crossed ++ k ∷ [];
    }
    else record s { counts = Map.insert k n s.counts }

unfoldable pub count_up_all : Counting → List SubscriptionKey → Counting
count_up_all s [] = s
count_up_all s (k ∷ keys) = count_up_all (count_up s k) keys

unfoldable pub count_down : Counting → SubscriptionKey → Counting
count_down s k = elim (lookup k s.counts) [
  | none ↦ s
  | some n ↦ if ltb 1 n then record s { counts = Map.insert k (n - 1) s.counts } else record {
    counts = Map.remove k s.counts;
    wanted = Set.remove k s.wanted;
    crossed = s.crossed ++ k ∷ [];
  }
]

-- `decrement_references`.
unfoldable pub count_down_all : Counting → List SubscriptionKey → Counting
count_down_all s [] = s
count_down_all s (k ∷ keys) = count_down_all (count_down s k) keys

abbrev pub counting : Registry → Counting
counting r = record { counts = r.reference_counts; wanted = r.desired; crossed = [] }

-- The new counts, and `send_replace` of the desired set if a key crossed.
unfoldable pub store : Registry → List (ClientId × List SubscriptionKey) → Counting → Registry
store r clients s = record r {
  clients = clients;
  reference_counts = s.counts;
  desired = s.wanted;
  published = if is_empty s.crossed then r.published else s.wanted;
  sends = if is_empty s.crossed then r.sends else r.sends + 1;
}

-- The part of `add` behind its checks.
unfoldable pub commit_add :
    Registry → ClientId → List SubscriptionKey → Registry × SubscriptionChange
commit_add r c added =
    let clients = Map.insert c (Set.extend (client_keys r c) added) r.clients in
    let s = count_up_all (counting r) added in
    (
      store r clients s,
      record {
        added = added;
        removed = [];
        activated = s.crossed;
        deactivated = [];
        client_subscriptions = get_or [] c clients;
      },
    )

-- The client's keys are those left, and its entry goes when none are.
unfoldable pub leave :
    ClientId
    → List SubscriptionKey
    → List (ClientId × List SubscriptionKey)
    → List (ClientId × List SubscriptionKey)
leave c left clients =
    if is_empty left then Map.remove c (Map.insert c left clients) else Map.insert c left clients

unfoldable pub remove : Registry → ClientId → List SubscriptionKey → Registry × SubscriptionChange
remove r c keys =
    let existing = client_keys r c in
    let removed = Set.intersection (Set.from_list keys) existing in
    let left = Set.remove_all existing removed in
    let clients = leave c left r.clients in
    let s = count_down_all (counting r) removed in
    if is_empty removed then (r, unchanged existing) else (
      store r clients s,
      record {
        added = [];
        removed = removed;
        activated = [];
        deactivated = s.crossed;
        client_subscriptions = get_or [] c clients;
      },
    )

unfoldable pub cleanup_client : Registry → ClientId → Registry × SubscriptionChange
cleanup_client r c = elim (lookup c r.clients) [
  | none ↦ (r, unchanged [])
  | some removed ↦
      let s = count_down_all (counting r) removed in
      (
        store r (Map.remove c r.clients) s,
        record {
          added = [];
          removed = removed;
          activated = [];
          deactivated = s.crossed;
          client_subscriptions = [];
        },
      )
]

-- `provider_totals` is a `HashMap`: the order in which `find` visits it is `hash_order`.
module _ (hash_order : Totals → Totals) where
  unfoldable pub first_exceeded : Registry → List SubscriptionKey → Option (Provider × ℕ)
  first_exceeded r added =
      find (λ e. ltb (limit_for r.provider_limits e.0) e.1) (hash_order (provider_totals r added))

  unfoldable pub add :
      Registry
      → ClientId
      → List SubscriptionKey
      → Registry × Result SubscriptionChange RegistryError
  add r c keys =
      let existing = client_keys r c in
      let added = Set.difference (Set.from_list keys) existing in
      let requested = length existing + length added in
      let max = r.max_subscriptions_per_client in
      if ltb max requested
      then (r, err (client_limit_exceeded max requested))
      else if is_empty added
      then (r, ok (unchanged existing))
      else elim (first_exceeded r added) [
        | some (p, n) ↦ (r, err (provider_limit_exceeded p (limit_for r.provider_limits p) n))
        | none ↦ let (r', change) = commit_add r c added in (r', ok change)
      ]
