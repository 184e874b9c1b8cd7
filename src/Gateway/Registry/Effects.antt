-- ===== src/Gateway/Registry/Effects.antt =====
-- src/gateway.rs: what `SubscriptionRegistry::add` answers and does, on every branch.
use mathlib.Core.List.{Perm}
use market_stream_gateway.Prelude.{
  ℕ, ◌+◌, ◌≤◌, ◌<◌, ◌≡◌, ◌≢◌, refl, sym, ap, subst, ◌∙◌, true, false, not, ◌&&◌, List, [], ◌∷◌,
  none, arith, ltb, ltb→lt, ltb→le, length, is_empty, Option-cases, Bool-cases, inl, inr, Result,
  ok, err, nat_order,
}
use market_stream_gateway.Set
use market_stream_gateway.Set.{contains, extend, count}
use market_stream_gateway.Map.Laws.{lookup-insert}
use market_stream_gateway.Domain.Identity.{Provider, SubscriptionKey, key_order, provider_order}
use market_stream_gateway.Gateway.Limits.{limit_for}
use market_stream_gateway.Gateway.Registry.{
  Registry, Totals, ClientId, client_keys, reference_count, counting, count_up_all, first_exceeded,
  add, commit_add, store, unchanged, SubscriptionChange, RegistryError, client_limit_exceeded,
  provider_limit_exceeded,
}
use market_stream_gateway.Gateway.Registry.Up.{crossed-count_up_all}
use market_stream_gateway.Gateway.Registry.Totals.{of_provider, first_exceeded-eq-none}
use market_stream_gateway.Gateway.Registry.Invariant.{Inv, Fits, holders-pos}
use market_stream_gateway.Gateway.Registry.Adding.{
  new_keys, new_keys-IsSorted, new_keys-HasRoom, contains-new_keys, grown,
}
use market_stream_gateway.Gateway.Registry.Refusal.{
  grown_lem, wanted-counted_up_lem, length-union, get_or-provider_totals, first_exceeded-eq-some,
}

eq_of_is_empty {ℓ} : {A : Type ℓ} (xs : List A) → is_empty xs ≡ true → xs ≡ []
eq_of_is_empty [] h = refl
eq_of_is_empty (x ∷ xs) h = cc

-- The union of a client's keys and the request stays within the client's limit, and the union of
-- all the desired keys and the request within that of each provider.
abbrev pub IsWithinLimits : Registry → ClientId → List SubscriptionKey → Type 0
IsWithinLimits r c keys =
    (length (Set.extend (client_keys r c) keys) ≤ r.max_subscriptions_per_client)
    × ((p : Provider)
        → count (of_provider p) (Set.extend r.desired keys) ≤ limit_for r.provider_limits p)

-- The error names a limit of the registry, and the size beyond it that the request asks for.
abbrev pub Explains : Registry → ClientId → List SubscriptionKey → RegistryError → Type 0
Explains r c keys (client_limit_exceeded limit n) =
    (limit ≡ r.max_subscriptions_per_client)
    × (n ≡ length (Set.extend (client_keys r c) keys))
    × (limit < n)
Explains r c keys (provider_limit_exceeded p limit n) =
    (limit ≡ limit_for r.provider_limits p)
    × (n ≡ count (of_provider p) (Set.extend r.desired keys))
    × (limit < n)

-- What an accepted request leaves and reports.
pub record Added (r : Registry) (c : ClientId) (keys : List SubscriptionKey) (r' : Registry)
    (change : SubscriptionChange) : Type 0 where
  pub own : client_keys r' c ≡ Set.extend (client_keys r c) keys
  pub others : (d : ClientId) → d ≢ c → client_keys r' d ≡ client_keys r d
  pub desired : r'.desired ≡ Set.extend r.desired keys
  pub reported : change.client_subscriptions ≡ client_keys r' c
  pub added :
      (k : SubscriptionKey)
      → contains k change.added ≡ (contains k keys && not (contains k (client_keys r c)))
  pub activated :
      (k : SubscriptionKey)
      → contains k change.activated ≡ (contains k keys && not (contains k r.desired))

abbrev pub Outcome :
    Registry
    → ClientId
    → List SubscriptionKey
    → Registry × Result SubscriptionChange RegistryError
    → Type 0
Outcome r c keys (r', err e) = (r' ≡ r) × Explains r c keys e × (IsWithinLimits r c keys → ⊥)
Outcome r c keys (r', ok change) = Added r c keys r' change × IsWithinLimits r c keys

module _ (hash_order : Totals → Totals) (perm : (t : Totals) → Perm (hash_order t) t) (r : Registry)
    (c : ClientId) (keys : List SubscriptionKey) (v : Inv r) (f : Fits r keys) where
  within_of_none :
      first_exceeded hash_order r (new_keys r c keys) ≡ none
      → (p : Provider)
      → count (of_provider p) (Set.extend r.desired keys) ≤ limit_for r.provider_limits p
  within_of_none h p = omega (
    arith,
    first_exceeded-eq-none hash_order perm r (new_keys r c keys) p h,
    get_or-provider_totals r c keys v f p,
  )

  nothing_new : new_keys r c keys ≡ [] → Added r c keys r (unchanged (client_keys r c))
  unfolding contains unchanged extend count_up_all reference_count
  nothing_new h = record {
    own = sym (ap (Set.extend (client_keys r c)) h) ∙ grown_lem r c keys v f;
    others = λ d ne. refl;
    desired =
        sym (ap (λ n. (count_up_all (counting r) n).wanted) h) ∙ wanted-counted_up_lem r c keys v f;
    reported = refl;
    added = λ k. ground (arith, contains-new_keys r c keys v f k, ap (contains k) h);
    activated = λ k. ground (
      arith,
      contains-new_keys r c keys v f k,
      ap (contains k) h,
      v.demand k,
      v.counted k,
      holders-pos r c k,
    );
  }

  all_new :
      Added r c keys (commit_add r c (new_keys r c keys)).0 (commit_add r c (new_keys r c keys)).1
  unfolding commit_add store contains reference_count
  all_new = record {
    own = ground (arith, lookup-insert c c (grown r c keys v f) r.clients, grown_lem r c keys v f);
    others = λ d ne. ground (arith, lookup-insert c d (grown r c keys v f) r.clients);
    desired = wanted-counted_up_lem r c keys v f;
    reported = refl;
    added = λ k. ground (arith, contains-new_keys r c keys v f k);
    activated = λ k. ground (
      arith,
      crossed-count_up_all (counting r) (new_keys r c keys) k (new_keys-IsSorted r c keys v f)
          (new_keys-HasRoom r c keys v f),
      contains-new_keys r c keys v f k,
      v.demand k,
      v.counted k,
      holders-pos r c k,
    );
  }

  -- Given a registry that keeps its invariant and a request whose counts fit a machine word, on
  -- every branch of `add`: an accepted request was within the client's and every provider's limit
  -- and took full effect; a refused one was not, left the registry as it was, and names a limit
  -- that it breaks with the size it asked for. The order in which the totals are visited does not
  -- matter.
  pub add-Outcome : Outcome r c keys (add hash_order r c keys)
  unfolding add
  add-Outcome = elim (Bool-cases (ltb r.max_subscriptions_per_client requested)) [
    | inl over ↦ rw over (
      refl,
      (refl, sym (length-union r c keys v f), ltb→lt _ _ over),
      (λ w. absurd (omega (arith, w.0, length-union r c keys v f, ltb→lt _ _ over))),
    )
    | inr small ↦ elim (Bool-cases (is_empty (new_keys r c keys))) [
      | inl none_new ↦
          rw (small, none_new)
            (let a = nothing_new (eq_of_is_empty _ none_new) in
              (
                a,
                (
                  fits small,
                  (λ p.
                      subst (λ d. count (of_provider p) d ≤ limit_for r.provider_limits p) a.desired
                        (v.within p)),
                ),
              ))
      | inr some_new ↦ elim (Option-cases (first_exceeded hash_order r (new_keys r c keys))) [
        | inr ((p, n), h) ↦
            let (e, more) = first_exceeded-eq-some r c keys v f hash_order perm p n h in
            rw (small, some_new, h) (refl, (refl, e, more), (λ w. absurd (omega (arith, w.1 p))))
        | inl allowed ↦
            rw (small, some_new, allowed) (all_new, (fits small, within_of_none allowed))
      ]
    ]
  ]
    where
      requested : ℕ
      requested = length (client_keys r c) + length (new_keys r c keys)

      fits :
          ltb r.max_subscriptions_per_client requested ≡ false
          → length (Set.extend (client_keys r c) keys) ≤ r.max_subscriptions_per_client
      fits small = omega (arith, length-union r c keys v f, ltb→le _ _ small)
