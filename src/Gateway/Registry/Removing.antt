-- ===== src/Gateway/Registry/Removing.antt =====
-- src/gateway.rs: `SubscriptionRegistry::remove` and `cleanup_client` keep the invariant.
use market_stream_gateway.Prelude.{
  ◌+◌, ◌≤◌, ◌<◌, ◌≡◌, ◌≢◌, Bool, true, not, ◌&&◌, List, [], ◌∷◌, none, some, arith, ltb, bit,
  length, is_empty, nat_order, Option-cases, Bool-cases, inl, inr, if◌then◌else◌, ◌==◌,
}
use market_stream_gateway.Set
use market_stream_gateway.Set.{contains, count}
use market_stream_gateway.Set.Laws.{contains-intersection, contains-from_list, All-of_contains}
use market_stream_gateway.Set.Sorted.{
  IsSorted, extend-IsSorted, keep-IsSorted, remove_all-IsSorted, contains-remove_all,
  length-remove_all-le, count-remove-le, set_ext,
}
use market_stream_gateway.Map
use market_stream_gateway.Map.{lookup, get_or, Distinct, total}
use market_stream_gateway.Map.Laws.{
  lookup-insert, lookup-remove, insert-Distinct, remove-Distinct, total-insert, total-remove,
}
use market_stream_gateway.Domain.Identity.{SubscriptionKey, key_order, provider_order}
use market_stream_gateway.Gateway.Registry.{
  Registry, Counting, ClientId, client_keys, reference_count, counting, count_down, count_down_all,
  store, leave, remove, cleanup_client,
}
use market_stream_gateway.Gateway.Registry.Tally.{tally, IsSound}
use market_stream_gateway.Gateway.Registry.Down.{
  AllHeld, tally-count_down_all, wanted-count_down_all, crossed-count_down_all,
  count_down_all-IsSound,
}
use market_stream_gateway.Gateway.Registry.Totals.{of_provider}
use market_stream_gateway.Gateway.Registry.Invariant.{Inv, holds, holders, holders-pos}

count-count_down-le :
    (p : SubscriptionKey → Bool) (s : Counting) (k : SubscriptionKey)
    → count p (count_down s k).wanted ≤ count p s.wanted
unfolding count_down
count-count_down-le p s k = ground (arith, count-remove-le p k s.wanted)

count-count_down_all-le :
    (p : SubscriptionKey → Bool) (s : Counting) (keys : List SubscriptionKey)
    → count p (count_down_all s keys).wanted ≤ count p s.wanted
unfolding count_down_all
count-count_down_all-le p s [] = omega arith
count-count_down_all-le p s (k ∷ keys) =
    omega (arith, count-count_down_all-le p (count_down s k) keys, count-count_down-le p s k)

-- The clients change so that exactly the keys in `gone`, all of them the client's, lose a holder.
module _ (r : Registry) (c : ClientId) (gone : List SubscriptionKey)
    (clients : List (ClientId × List SubscriptionKey)) (v : Inv r) (gone_sorted : IsSorted gone)
    (gone_held : (k : SubscriptionKey)
      → contains k gone ≡ true
      → contains k (client_keys r c) ≡ true)
    (clients_lem : (k : SubscriptionKey)
      → holders k clients + bit (contains k gone) ≡ holders k r.clients) where
  pub gone-AllHeld : AllHeld (counting r) gone
  unfolding reference_count
  gone-AllHeld =
      All-of_contains (λ k. 0 < tally (counting r) k) gone
        (λ k m. omega (arith, v.counted k, holders-pos r c k (gone_held k m)))

  abbrev pub counted_down : Counting
  counted_down = count_down_all (counting r) gone

  pub tally-counted_down :
      (k : SubscriptionKey) → tally counted_down k + bit (contains k gone) ≡ reference_count r k
  unfolding reference_count
  tally-counted_down k = tally-count_down_all (counting r) gone k gone_sorted gone-AllHeld v.sound

  pub counted_down-IsSound : IsSound counted_down
  counted_down-IsSound = count_down_all-IsSound (counting r) gone gone_sorted gone-AllHeld v.sound

  pub wanted-counted_down :
      (k : SubscriptionKey) → contains k counted_down.wanted ≡ ltb 0 (tally counted_down k)
  unfolding reference_count
  wanted-counted_down k = ground (
    arith,
    wanted-count_down_all (counting r) gone k gone_sorted gone-AllHeld v.sound,
    tally-counted_down k,
    v.demand k,
  )

  pub wanted_of_none_crossed : counted_down.crossed ≡ [] → counted_down.wanted ≡ r.desired
  unfolding reference_count contains
  wanted_of_none_crossed h =
      set_ext counted_down.wanted r.desired counted_down-IsSound.sorted v.sound.sorted λ k. ground (
        arith,
        wanted-count_down_all (counting r) gone k gone_sorted gone-AllHeld v.sound,
        crossed-count_down_all (counting r) gone k gone_sorted gone-AllHeld v.sound,
      )

  store-Inv :
      Distinct clients
      → ((d : ClientId) → IsSorted (get_or [] d clients))
      → ((d : ClientId) → lookup d clients ≢ some [])
      → ((d : ClientId) → length (get_or [] d clients) ≤ r.max_subscriptions_per_client)
      → Inv (store r clients counted_down)
  unfolding store reference_count
  store-Inv distinct sorted occupied bounded = record {
    distinct = distinct;
    sorted = sorted;
    occupied = occupied;
    sound = record {
      distinct = counted_down-IsSound.distinct;
      positive = counted_down-IsSound.positive;
      sorted = counted_down-IsSound.sorted;
    };
    counted = λ k. omega (arith, tally-counted_down k, clients_lem k, v.counted k);
    demand = wanted-counted_down;
    published = ground (arith, wanted_of_none_crossed, v.published);
    bounded = bounded;
    within =
        λ p. omega (arith, count-count_down_all-le (of_provider p) (counting r) gone, v.within p);
  }

module _ (c : ClientId) (left : List SubscriptionKey)
    (clients : List (ClientId × List SubscriptionKey)) (distinct : Distinct clients) where
  pub lookup-leave :
      (d : ClientId)
      → lookup d (leave c left clients)
        ≡ (if c == d then (if is_empty left then none else some left) else lookup d clients)
  unfolding leave
  lookup-leave d = ground (
    arith,
    lookup-insert c d left clients,
    lookup-remove c d (Map.insert c left clients) (insert-Distinct c left clients distinct),
  )

  pub leave-Distinct : Distinct (leave c left clients)
  unfolding leave
  leave-Distinct = ground (
    arith,
    insert-Distinct c left clients distinct,
    remove-Distinct c (Map.insert c left clients) (insert-Distinct c left clients distinct),
  )

  pub holders-leave :
      (k : SubscriptionKey)
      → holders k (leave c left clients) + holds k (get_or [] c clients)
        ≡ holders k clients + holds k left
  unfolding leave contains
  holders-leave k = ground (
    arith,
    total-insert (holds k) c left clients,
    total-remove (holds k) c (Map.insert c left clients),
    lookup-insert c c left clients,
  )

module _ (r : Registry) (c : ClientId) (keys : List SubscriptionKey) (v : Inv r) where
  abbrev pub dropped : List SubscriptionKey
  dropped = Set.intersection (Set.from_list keys) (client_keys r c)

  abbrev pub kept : List SubscriptionKey
  kept = Set.remove_all (client_keys r c) dropped

  pub contains-dropped :
      (k : SubscriptionKey) → contains k dropped ≡ (contains k keys && contains k (client_keys r c))
  contains-dropped k = ground (
    arith,
    contains-intersection k (Set.from_list keys) (client_keys r c),
    contains-from_list k keys,
  )

  pub contains-kept :
      (k : SubscriptionKey)
      → contains k kept ≡ (contains k (client_keys r c) && not (contains k keys))
  contains-kept k =
      ground
        (arith, contains-remove_all k (client_keys r c) dropped (v.sorted c), contains-dropped k)

  pub dropped-IsSorted : IsSorted dropped
  dropped-IsSorted =
      keep-IsSorted (λ k. contains k (client_keys r c)) (Set.from_list keys)
        (extend-IsSorted [] keys tt)

  remove_store-Inv : Inv (store r (leave c kept r.clients) (count_down_all (counting r) dropped))
  remove_store-Inv =
      store-Inv r c dropped (leave c kept r.clients) v dropped-IsSorted
        (λ k m. ground (arith, contains-dropped k))
        (λ k.
          ground (
            arith,
            holders-leave c kept r.clients v.distinct k,
            contains-dropped k,
            contains-kept k,
          ))
        (leave-Distinct c kept r.clients v.distinct)
        (λ d. ground (
          arith,
          lookup-leave c kept r.clients v.distinct d,
          remove_all-IsSorted (client_keys r c) dropped (v.sorted c),
          v.sorted d,
        ))
        (λ d. ground (arith, lookup-leave c kept r.clients v.distinct d, v.occupied d))
        (λ d. ground (
          arith,
          lookup-leave c kept r.clients v.distinct d,
          length-remove_all-le (client_keys r c) dropped,
          v.bounded c,
          v.bounded d,
        ))

  pub remove-Inv : Inv (remove r c keys).0
  unfolding remove
  remove-Inv = elim (Bool-cases (is_empty dropped)) [
    | inl e ↦ rw e v
    | inr e ↦ rw e remove_store-Inv
  ]

pub cleanup_client-Inv : (r : Registry) (c : ClientId) → Inv r → Inv (cleanup_client r c).0
unfolding cleanup_client
cleanup_client-Inv r c v = elim (Option-cases (lookup c r.clients)) [
  | inl e ↦ rw (e, cleanup_client) v
  | inr (gone, e) ↦
      rw (e, cleanup_client)
        (store-Inv r c gone (Map.remove c r.clients) v (ground (arith, v.sorted c))
          (λ k m. ground arith) (λ k. ground (arith, total-remove (holds k) c r.clients))
          (remove-Distinct c r.clients v.distinct)
          (λ d. ground (arith, lookup-remove c d r.clients v.distinct, v.sorted d))
          (λ d. ground (arith, lookup-remove c d r.clients v.distinct, v.occupied d))
          (λ d. ground (arith, lookup-remove c d r.clients v.distinct, v.bounded d)))
]
