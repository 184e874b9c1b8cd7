-- ===== src/Gateway/Registry/Releases.antt =====
-- src/gateway.rs: what `SubscriptionRegistry::remove` and `cleanup_client` do and report.
use market_stream_gateway.Prelude.{
  ◌+◌, ◌≡◌, ◌≢◌, refl, ap, subst, true, not, ◌&&◌, List, [], ◌∷◌, none, arith, eqb, bit, is_empty,
  Option-cases, Bool-cases, inl, inr, nat_order,
}
use market_stream_gateway.Set.{contains}
use market_stream_gateway.Map
use market_stream_gateway.Map.{lookup, get_or}
use market_stream_gateway.Map.Laws.{lookup-remove, total-remove}
use market_stream_gateway.Domain.Identity.{SubscriptionKey, key_order}
use market_stream_gateway.Gateway.Registry.{
  Registry, ClientId, client_keys, reference_count, counting, store, leave, remove, cleanup_client,
  unchanged, SubscriptionChange,
}
use market_stream_gateway.Gateway.Registry.Down.{
  AllHeld, crossed-count_down_all, wanted-count_down_all,
}
use market_stream_gateway.Gateway.Registry.Invariant.{Inv, holds, holders}
use market_stream_gateway.Gateway.Registry.Removing.{
  dropped, kept, contains-dropped, contains-kept, dropped-IsSorted, lookup-leave, gone-AllHeld,
  holders-leave,
}
use market_stream_gateway.Set.Sorted.{IsSorted}

eq_of_is_empty {ℓ} : {A : Type ℓ} (xs : List A) → is_empty xs ≡ true → xs ≡ []
eq_of_is_empty [] h = refl
eq_of_is_empty (x ∷ xs) h = cc

-- What it leaves and reports when a client gives keys up.
pub record Released (r : Registry) (c : ClientId) (keys : List SubscriptionKey) (r' : Registry)
    (change : SubscriptionChange) : Type 0 where
  pub own :
      (k : SubscriptionKey)
      → contains k (client_keys r' c) ≡ (contains k (client_keys r c) && not (contains k keys))
  pub others : (d : ClientId) → d ≢ c → client_keys r' d ≡ client_keys r d
  pub reported : change.client_subscriptions ≡ client_keys r' c
  pub removed :
      (k : SubscriptionKey)
      → contains k change.removed ≡ (contains k keys && contains k (client_keys r c))
  pub deactivated :
      (k : SubscriptionKey)
      → contains k change.deactivated ≡ (contains k change.removed && eqb (reference_count r k) 1)
  pub desired :
      (k : SubscriptionKey)
      → contains k r'.desired ≡ (contains k r.desired && not (contains k change.deactivated))

module _ (r : Registry) (c : ClientId) (keys : List SubscriptionKey) (v : Inv r) where
  none_dropped : dropped r c keys v ≡ [] → Released r c keys r (unchanged (client_keys r c))
  unfolding unchanged contains
  none_dropped h = record {
    own = λ k. ground (arith, contains-dropped r c keys v k, ap (contains k) h);
    others = λ d ne. refl;
    reported = refl;
    removed = λ k. ground (arith, contains-dropped r c keys v k, ap (contains k) h);
    deactivated = λ k. refl;
    desired = λ k. ground arith;
  }

  all_held :
      (k : SubscriptionKey)
      → contains k (dropped r c keys v) ≡ true
      → contains k (client_keys r c) ≡ true
  all_held k m = ground (arith, contains-dropped r c keys v k)

  holders-left :
      (k : SubscriptionKey)
      → holders k (leave c (kept r c keys v) r.clients) + bit (contains k (dropped r c keys v))
        ≡ holders k r.clients
  holders-left k = ground (
    arith,
    holders-leave c (kept r c keys v) r.clients v.distinct k,
    contains-dropped r c keys v k,
    contains-kept r c keys v k,
  )

  -- On a registry that keeps its invariant, `remove` takes from the client exactly the requested
  -- keys it holds, leaves the other clients alone, deactivates the keys whose count was one, and
  -- takes just those from the desired set.
  pub remove-Released : Released r c keys (remove r c keys).0 (remove r c keys).1
  unfolding remove store reference_count contains
  remove-Released = elim (Bool-cases (is_empty (dropped r c keys v))) [
    | inl e ↦ rw e (none_dropped (eq_of_is_empty _ e))
    | inr e ↦ rw e (record {
      own = λ k. ground (
        arith,
        lookup-leave c (kept r c keys v) r.clients v.distinct c,
        contains-kept r c keys v k,
      );
      others = λ d ne. ground (arith, lookup-leave c (kept r c keys v) r.clients v.distinct d);
      reported = refl;
      removed = contains-dropped r c keys v;
      deactivated = λ k.
          crossed-count_down_all (counting r) (dropped r c keys v) k (dropped-IsSorted r c keys v)
            all_counted v.sound;
      desired = λ k. ground (
        arith,
        wanted-count_down_all (counting r) (dropped r c keys v) k (dropped-IsSorted r c keys v)
            all_counted v.sound,
        crossed-count_down_all (counting r) (dropped r c keys v) k (dropped-IsSorted r c keys v)
            all_counted v.sound,
      );
    })
  ]
    where
      all_counted : AllHeld (counting r) (dropped r c keys v)
      all_counted =
          gone-AllHeld r c (dropped r c keys v) (leave c (kept r c keys v) r.clients) v
            (dropped-IsSorted r c keys v) all_held holders-left

-- On a registry that keeps its invariant, `cleanup_client` releases all the keys of the client as
-- `remove` would, and the client has no entry any more.
pub cleanup_client-Released :
    (r : Registry) (c : ClientId)
    → Inv r
    → Released r c (client_keys r c) (cleanup_client r c).0 (cleanup_client r c).1
      × (lookup c (cleanup_client r c).0.clients ≡ none)
unfolding cleanup_client store reference_count contains unchanged
cleanup_client-Released r c v = elim (Option-cases (lookup c r.clients)) [
  | inl e ↦
      rw (e, cleanup_client)
        (
          record {
            own = λ k. ground arith;
            others = λ d ne. refl;
            reported = ground arith;
            removed = λ k. refl;
            deactivated = λ k. refl;
            desired = λ k. ground arith;
          },
          e,
        )
  | inr (gone, e) ↦
      let own : client_keys r c ≡ gone = ground arith in
      let gone_sorted : IsSorted gone = subst IsSorted own (v.sorted c) in
      let all_counted : AllHeld (counting r) gone =
        gone-AllHeld r c gone (Map.remove c r.clients) v gone_sorted (λ k m. ground arith)
          (λ k. ground (arith, total-remove (holds k) c r.clients)) in
      rw (e, cleanup_client)
        (
          record {
            own = λ k. ground (arith, lookup-remove c c r.clients v.distinct);
            others = λ d ne. ground (arith, lookup-remove c d r.clients v.distinct);
            reported = ground (arith, lookup-remove c c r.clients v.distinct);
            removed = λ k. ground arith;
            deactivated =
                λ k. crossed-count_down_all (counting r) gone k gone_sorted all_counted v.sound;
            desired = λ k. ground (
              arith,
              wanted-count_down_all (counting r) gone k gone_sorted all_counted v.sound,
              crossed-count_down_all (counting r) gone k gone_sorted all_counted v.sound,
            );
          },
          ground (arith, lookup-remove c c r.clients v.distinct),
        )
]
