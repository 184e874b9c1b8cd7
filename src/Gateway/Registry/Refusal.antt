-- ===== src/Gateway/Registry/Refusal.antt =====
-- src/gateway.rs: when `SubscriptionRegistry::add` refuses a request, and with which numbers.
use mathlib.Core.List.{
  Mem, Perm, not-mem-nil, mem-cons_self, mem-cons_of_mem, eq-or-mem_of_mem-cons,
}
use mathlib.Core.List.Perm
use mathlib.Core.Logic.Or
use market_stream_gateway.Prelude.{
  ℕ, ◌+◌, ◌<◌, ◌≡◌, Bool, true, List, [], ◌∷◌, Option, some, arith, ltb→lt, length, Option-cases,
  Bool-cases, inl, inr, find, saturating_suc,
}
use market_stream_gateway.Set
use market_stream_gateway.Set.{contains, count}
use market_stream_gateway.Set.Laws.{contains-extend}
use market_stream_gateway.Set.Sorted.{extend-IsSorted, set_ext}
use market_stream_gateway.Map
use market_stream_gateway.Map.{lookup, get_or, Distinct}
use market_stream_gateway.Map.Laws.{insert-Distinct}
use market_stream_gateway.Domain.Identity.{Provider, SubscriptionKey, key_order, provider_order}
use market_stream_gateway.Gateway.Limits.{limit_for}
use market_stream_gateway.Gateway.Registry.{
  Registry, Totals, ClientId, client_keys, reference_count, counting, count_desired, count_added,
  provider_totals, first_exceeded,
}
use market_stream_gateway.Gateway.Registry.Up.{wanted-count_up_all}
use market_stream_gateway.Gateway.Registry.Totals.{
  of_provider, count-count_up_all, provider_totals_lem,
}
use market_stream_gateway.Gateway.Registry.Invariant.{Inv, Fits, holders-pos}
use market_stream_gateway.Gateway.Registry.Adding.{
  new_keys, new_keys-IsSorted, new_keys-HasRoom, length-new_keys-le, contains-new_keys, counted_up,
  counted_up-IsSound, grown, contains-grown, length-grown,
}

count_desired-Distinct :
    (t : Totals) (keys : List SubscriptionKey) → Distinct t → Distinct (count_desired t keys)
unfolding count_desired
count_desired-Distinct t [] d = d
count_desired-Distinct t (k ∷ keys) d =
    count_desired-Distinct (Map.insert k.provider (get_or 0 k.provider t + 1) t) keys
      (insert-Distinct k.provider _ t d)

count_added-Distinct :
    (counts : List (SubscriptionKey × ℕ)) (t : Totals) (keys : List SubscriptionKey)
    → Distinct t
    → Distinct (count_added counts t keys)
unfolding count_added
count_added-Distinct counts t [] d = d
count_added-Distinct counts t (k ∷ keys) d = elim (Option-cases (lookup k counts)) [
  | inr (n, e) ↦ rw (e, count_added) (count_added-Distinct counts t keys d)
  | inl e ↦
      rw (e, count_added)
        (count_added-Distinct counts
          (Map.insert k.provider (saturating_suc (get_or 0 k.provider t)) t) keys
          (insert-Distinct k.provider _ t d))
]

provider_totals-Distinct :
    (r : Registry) (added : List SubscriptionKey) → Distinct (provider_totals r added)
unfolding provider_totals
provider_totals-Distinct r added =
    count_added-Distinct r.reference_counts (count_desired [] r.desired) added
      (count_desired-Distinct [] r.desired tt)

find-eq-some {ℓ} :
    {A : Type ℓ} (f : A → Bool) (x : A) (xs : List A) → find f xs ≡ some x → Mem x xs × (f x ≡ true)
find-eq-some f x [] h = cc
find-eq-some f x (y ∷ xs) h = elim (Bool-cases (f y)) [
  | inl e ↦ let same : y ≡ x = ground arith in (rw same mem-cons_self, rw (← same) e)
  | inr e ↦ let (m, t) = find-eq-some f x xs (ground arith) in (mem-cons_of_mem y m, t)
]

Option-ℕ-set : IsSet (Option ℕ)
Option-ℕ-set = hlevel

lookup_of_mem :
    (p : Provider) (n : ℕ) (t : Totals) → Distinct t → Mem (p, n) t → lookup p t ≡ some n
unfolding lookup
lookup_of_mem p n [] d m = absurd (not-mem-nil m)
lookup_of_mem p n ((q, v) ∷ t) d m =
    Or.elim (Option-ℕ-set _ _) (eq-or-mem_of_mem-cons m) (λ e. ground arith)
      (λ h. let later = lookup_of_mem p n t d.1 h in ground (arith, provider_order.beq_iff q p))

module _ (r : Registry) (c : ClientId) (keys : List SubscriptionKey) (v : Inv r)
    (f : Fits r keys) where
  -- The client's set after an accepted request is the union of its set and the request,
  pub grown_lem : grown r c keys v f ≡ Set.extend (client_keys r c) keys
  grown_lem =
      set_ext _ _ (extend-IsSorted (client_keys r c) (new_keys r c keys) (v.sorted c))
        (extend-IsSorted (client_keys r c) keys (v.sorted c))
        λ k. ground (arith, contains-grown r c keys v f k, contains-extend k (client_keys r c) keys)

  -- and the desired set is the union of the desired set and the request.
  pub wanted-counted_up_lem : (counted_up r c keys v f).wanted ≡ Set.extend r.desired keys
  unfolding reference_count
  wanted-counted_up_lem =
      set_ext _ _ (counted_up-IsSound r c keys v f).sorted
        (extend-IsSorted r.desired keys v.sound.sorted)
        λ k. ground (
          arith,
          wanted-count_up_all (counting r) (new_keys r c keys) k (new_keys-IsSorted r c keys v f)
              (new_keys-HasRoom r c keys v f),
          contains-new_keys r c keys v f k,
          contains-extend k r.desired keys,
          v.demand k,
          v.counted k,
          holders-pos r c k,
        )

  pub length-union :
      length (Set.extend (client_keys r c) keys)
      ≡ length (client_keys r c) + length (new_keys r c keys)
  length-union = rw (← grown_lem) (length-grown r c keys v f)

  pub get_or-provider_totals :
      (p : Provider)
      → get_or 0 p (provider_totals r (new_keys r c keys))
        ≡ count (of_provider p) (Set.extend r.desired keys)
  unfolding reference_count
  get_or-provider_totals p = rw (← wanted-counted_up_lem) (
      omega (
        arith,
        count-count_up_all (counting r) p (new_keys r c keys) (new_keys-IsSorted r c keys v f)
            (new_keys-HasRoom r c keys v f) v.sound (λ k. v.demand k),
        provider_totals_lem r p (new_keys r c keys) v.sound
            (omega (arith, f.few_keys, length-new_keys-le r c keys v f)),
      ))

  -- A total that is found to exceed is that of the union, and does exceed its ceiling.
  pub first_exceeded-eq-some :
      (hash_order : Totals → Totals)
      → ((t : Totals) → Perm (hash_order t) t)
      → (p : Provider) (n : ℕ) → first_exceeded hash_order r (new_keys r c keys) ≡ some (p, n)
      → (n ≡ count (of_provider p) (Set.extend r.desired keys))
        × (limit_for r.provider_limits p < n)
  unfolding first_exceeded
  first_exceeded-eq-some hash_order perm p n h =
      let (m, t) = find-eq-some _ (p, n) (hash_order totals) h in
      let e : lookup p totals ≡ some n =
        lookup_of_mem p n totals (provider_totals-Distinct r (new_keys r c keys))
          ((Perm.mem_iff (perm totals)).0 m) in
      (ground (arith, e, get_or-provider_totals p), ltb→lt _ _ t)
    where
      totals : Totals
      totals = provider_totals r (new_keys r c keys)
