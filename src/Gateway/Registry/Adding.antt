-- ===== src/Gateway/Registry/Adding.antt =====
-- src/gateway.rs: `SubscriptionRegistry::add` keeps the invariant.
use mathlib.Core.List.{Perm}
use market_stream_gateway.Prelude.{
  ℕ, ◌+◌, ◌≤◌, ◌<◌, ◌≡◌, true, false, not, List, [], none, arith, ltb, ltb→le, bit, length,
  is_empty, max_u64, nat_order, Option-cases, Bool-cases, inl, inr, length-keep-le, if◌then◌else◌,
}
use market_stream_gateway.Set
use market_stream_gateway.Set.{contains, count}
use market_stream_gateway.Set.Laws.{
  contains-extend, contains-difference, contains-from_list, All-of_contains, length-extend-le,
}
use market_stream_gateway.Set.Sorted.{
  IsSorted, extend-IsSorted, keep-IsSorted, length-extend, set_ext,
}
use market_stream_gateway.Map
use market_stream_gateway.Map.{lookup, Distinct, total}
use market_stream_gateway.Map.Laws.{lookup-insert, insert-Distinct, total-insert}
use market_stream_gateway.Domain.Identity.{Provider, SubscriptionKey, key_order, provider_order}
use market_stream_gateway.Gateway.Limits.{limit_for}
use market_stream_gateway.Gateway.Registry.{
  add, Registry, Totals, Counting, ClientId, client_keys, reference_count, counting, count_up_all,
  store, commit_add, first_exceeded,
}
use market_stream_gateway.Gateway.Registry.Tally.{tally, IsSound}
use market_stream_gateway.Gateway.Registry.Up.{
  HasRoom, tally-count_up_all, wanted-count_up_all, crossed-count_up_all, count_up_all-IsSound,
}
use market_stream_gateway.Gateway.Registry.Totals.{
  of_provider, count-count_up_all, provider_totals_lem, first_exceeded-eq-none,
}
use market_stream_gateway.Gateway.Registry.Invariant.{Inv, Fits, holds, holders, holders-le}

-- The keys of the request that the client does not hold yet.
abbrev pub new_keys : Registry → ClientId → List SubscriptionKey → List SubscriptionKey
new_keys r c keys = Set.difference (Set.from_list keys) (client_keys r c)

module _ (r : Registry) (c : ClientId) (keys : List SubscriptionKey) (v : Inv r)
    (f : Fits r keys) where
  pub new_keys-IsSorted : IsSorted (new_keys r c keys)
  new_keys-IsSorted =
      keep-IsSorted (λ k. not (contains k (client_keys r c))) (Set.from_list keys)
        (extend-IsSorted [] keys tt)

  pub contains-new_keys :
      (k : SubscriptionKey)
      → contains k (new_keys r c keys)
        ≡ (if contains k (client_keys r c) then false else contains k keys)
  contains-new_keys k = ground (
    arith,
    contains-difference k (Set.from_list keys) (client_keys r c),
    contains-from_list k keys,
  )

  pub length-new_keys-le : length (new_keys r c keys) ≤ length keys
  length-new_keys-le = omega (
    arith,
    length-keep-le (λ k. not (contains k (client_keys r c))) (Set.from_list keys),
    length-extend-le [] keys,
  )

  pub new_keys-HasRoom : HasRoom (counting r) (new_keys r c keys)
  unfolding reference_count
  new_keys-HasRoom =
      All-of_contains (λ k. tally (counting r) k < max_u64) (new_keys r c keys)
        (λ k _. omega (arith, v.counted k, holders-le k r.clients, f.few_clients))

  abbrev pub grown : List SubscriptionKey
  grown = Set.extend (client_keys r c) (new_keys r c keys)

  abbrev pub counted_up : Counting
  counted_up = count_up_all (counting r) (new_keys r c keys)

  pub contains-grown :
      (k : SubscriptionKey)
      → contains k grown ≡ (if contains k (client_keys r c) then true else contains k keys)
  contains-grown k =
      ground (arith, contains-extend k (client_keys r c) (new_keys r c keys), contains-new_keys k)

  pub length-grown : length grown ≡ length (client_keys r c) + length (new_keys r c keys)
  length-grown =
      length-extend (client_keys r c) (new_keys r c keys) (v.sorted c) new_keys-IsSorted
        (All-of_contains _ (new_keys r c keys) (λ k m. ground (arith, contains-new_keys k)))

  pub tally-counted_up :
      (k : SubscriptionKey)
      → tally counted_up k ≡ reference_count r k + bit (contains k (new_keys r c keys))
  unfolding reference_count
  tally-counted_up k =
      tally-count_up_all (counting r) (new_keys r c keys) k new_keys-IsSorted new_keys-HasRoom

  pub wanted-counted_up :
      (k : SubscriptionKey) → contains k counted_up.wanted ≡ ltb 0 (tally counted_up k)
  unfolding reference_count
  wanted-counted_up k = ground (
    arith,
    wanted-count_up_all (counting r) (new_keys r c keys) k new_keys-IsSorted new_keys-HasRoom,
    tally-counted_up k,
    v.demand k,
  )

  pub counted_up-IsSound : IsSound counted_up
  counted_up-IsSound =
      count_up_all-IsSound (counting r) (new_keys r c keys) new_keys-IsSorted new_keys-HasRoom
        v.sound

  -- Nothing crossed: the desired set is what it was.
  pub wanted_of_none_crossed : counted_up.crossed ≡ [] → counted_up.wanted ≡ r.desired
  unfolding reference_count contains
  wanted_of_none_crossed h =
      set_ext counted_up.wanted r.desired counted_up-IsSound.sorted v.sound.sorted λ k. ground (
        arith,
        wanted-count_up_all (counting r) (new_keys r c keys) k new_keys-IsSorted new_keys-HasRoom,
        crossed-count_up_all (counting r) (new_keys r c keys) k new_keys-IsSorted new_keys-HasRoom,
      )

  pub holders-grown :
      (k : SubscriptionKey)
      → holders k (Map.insert c grown r.clients)
        ≡ holders k r.clients + bit (contains k (new_keys r c keys))
  unfolding contains
  holders-grown k =
      ground
        (arith, total-insert (holds k) c grown r.clients, contains-grown k, contains-new_keys k)

  module _ (some_new : is_empty (new_keys r c keys) ≡ false)
      (small : length (client_keys r c) + length (new_keys r c keys)
        ≤ r.max_subscriptions_per_client)
      (hash_order : Totals → Totals) (hash_perm : (t : Totals) → Perm (hash_order t) t)
      (allowed : first_exceeded hash_order r (new_keys r c keys) ≡ none) where
    pub within-counted_up :
        (p : Provider) → count (of_provider p) counted_up.wanted ≤ limit_for r.provider_limits p
    unfolding lookup reference_count
    within-counted_up p = omega (
      arith,
      count-count_up_all (counting r) p (new_keys r c keys) new_keys-IsSorted new_keys-HasRoom
          v.sound (λ k. v.demand k),
      provider_totals_lem r p (new_keys r c keys) v.sound
          (omega (arith, f.few_keys, length-new_keys-le)),
      first_exceeded-eq-none hash_order hash_perm r (new_keys r c keys) p allowed,
    )

    pub commit_add-Inv : Inv (commit_add r c (new_keys r c keys)).0
    unfolding commit_add store reference_count
    commit_add-Inv = record {
      distinct = insert-Distinct c grown r.clients v.distinct;
      sorted = λ d. ground (
        arith,
        lookup-insert c d grown r.clients,
        extend-IsSorted (client_keys r c) (new_keys r c keys) (v.sorted c),
        v.sorted d,
      );
      occupied = λ d. ground (arith, lookup-insert c d grown r.clients, v.occupied d, length-grown);
      sound = record {
        distinct = counted_up-IsSound.distinct;
        positive = counted_up-IsSound.positive;
        sorted = counted_up-IsSound.sorted;
      };
      counted = λ k. omega (arith, tally-counted_up k, holders-grown k, v.counted k);
      demand = wanted-counted_up;
      published = ground (arith, wanted_of_none_crossed, v.published);
      bounded = λ d. ground (arith, lookup-insert c d grown r.clients, length-grown, v.bounded d);
      within = within-counted_up;
    }

-- Whatever `add` answers, the invariant holds afterwards.
pub add-Inv :
    (hash_order : Totals → Totals)
    → ((t : Totals) → Perm (hash_order t) t)
    → (r : Registry) (c : ClientId) (keys : List SubscriptionKey) → Inv r
    → Fits r keys
    → Inv (add hash_order r c keys).0
unfolding add
add-Inv hash_order perm r c keys v f =
    elim (Bool-cases (ltb r.max_subscriptions_per_client requested)) [
      | inl e ↦ rw e v
      | inr small ↦ elim (Bool-cases (is_empty (new_keys r c keys))) [
        | inl e ↦ rw (small, e) v
        | inr some_new ↦ elim (Option-cases (first_exceeded hash_order r (new_keys r c keys))) [
          | inr (e, h) ↦ rw (small, some_new, h) v
          | inl allowed ↦
              rw (small, some_new, allowed)
                (commit_add-Inv r c keys v f some_new (ltb→le _ _ small) hash_order perm allowed)
        ]
      ]
    ]
  where
    requested : ℕ
    requested = length (client_keys r c) + length (new_keys r c keys)
