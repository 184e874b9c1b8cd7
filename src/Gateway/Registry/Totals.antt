-- ===== src/Gateway/Registry/Totals.antt =====
-- src/gateway.rs: the provider totals that `add` checks, against the desired set that it makes.
use mathlib.Core.List.{
  Mem, Perm, not-mem-nil, mem-cons_self, mem-cons_of_mem, eq-or-mem_of_mem-cons,
}
use mathlib.Core.List.Perm
use mathlib.Core.Bool.{Bool-set}
use mathlib.Core.Logic.Or
use market_stream_gateway.Prelude.{
  ℕ, ◌+◌, ◌≤◌, ◌<◌, ◌≡◌, refl, inl, inr, Bool, true, false, ◌&&◌, List, [], ◌∷◌, none, some, arith,
  ltb, ltb→le, eqb, bit, ◌==◌, lt-ne, Bool-cases, Option-cases, length, find, saturating_suc,
  saturating_suc_lem, max_u64,
}
use market_stream_gateway.Set.{contains, count}
use market_stream_gateway.Set.Sorted.{Above, IsSorted, count-insert}
use market_stream_gateway.Map
use market_stream_gateway.Map.{lookup, get_or}
use market_stream_gateway.Map.Laws.{lookup-insert}
use market_stream_gateway.Domain.Identity.{Provider, SubscriptionKey, key_order, provider_order}
use market_stream_gateway.Gateway.Limits.{limit_for}
use market_stream_gateway.Gateway.Registry.{
  Totals, Registry, Counting, count_desired, count_added, provider_totals, first_exceeded, count_up,
  count_up_all, counting,
}
use market_stream_gateway.Gateway.Registry.Tally.{tally, IsSound}
use market_stream_gateway.Gateway.Registry.Up.{
  HasRoom, HasRoom-count_up, tally-count_up, wanted-count_up, count_up-IsSound,
}

-- Is the key one of the provider?
abbrev pub of_provider : Provider → SubscriptionKey → Bool
of_provider p k = k.provider == p

-- The keys of a provider that have no holder yet.
abbrev pub newly : Counting → Provider → List SubscriptionKey → ℕ
newly s p [] = 0
newly s p (k ∷ keys) = bit (of_provider p k && eqb (tally s k) 0) + newly s p keys

pub count_desired_lem :
    (p : Provider) (t : Totals) (keys : List SubscriptionKey)
    → get_or 0 p (count_desired t keys) ≡ get_or 0 p t + count (of_provider p) keys
unfolding count_desired count
count_desired_lem p t [] = omega arith
count_desired_lem p t (k ∷ keys) = ground (
  arith,
  count_desired_lem p (Map.insert k.provider (get_or 0 k.provider t + 1) t) keys,
  lookup-insert k.provider p (get_or 0 k.provider t + 1) t,
  provider_order.beq_iff k.provider p,
)

count_added_lem :
    (s : Counting) (p : Provider) (t : Totals) (keys : List SubscriptionKey)
    → IsSound s
    → ((q : Provider) → get_or 0 q t + length keys ≤ max_u64)
    → get_or 0 p (count_added s.counts t keys) ≡ get_or 0 p t + newly s p keys
unfolding count_added
count_added_lem s p t [] v r = omega arith
count_added_lem s p t (k ∷ keys) v r = elim (Option-cases (lookup k s.counts)) [
  | inr (n, e) ↦
      rw (e, count_added)
        (ground (arith, e, v.positive k, count_added_lem s p t keys v (λ q. omega (arith, r q))))
  | inl e ↦
      rw (e, count_added)
        (ground (
          arith,
          e,
          count_added_lem s p (Map.insert k.provider (saturating_suc (get_or 0 k.provider t)) t)
              keys v
              (λ q. ground (
                arith,
                r q,
                lookup-insert k.provider q (saturating_suc (get_or 0 k.provider t)) t,
                saturating_suc_lem (get_or 0 k.provider t),
                provider_order.beq_iff k.provider q,
              )),
          lookup-insert k.provider p (saturating_suc (get_or 0 k.provider t)) t,
          saturating_suc_lem (get_or 0 k.provider t),
          r k.provider,
          provider_order.beq_iff k.provider p,
        ))
]

-- The desired set holds exactly the keys with a holder.
abbrev pub IsDemand : Counting → Type 0
IsDemand s = (j : SubscriptionKey) → contains j s.wanted ≡ ltb 0 (tally s j)

count_up-IsDemand :
    (s : Counting) (k : SubscriptionKey)
    → tally s k < max_u64
    → IsDemand s
    → IsDemand (count_up s k)
count_up-IsDemand s k h d j =
    ground (arith, d j, tally-count_up s k h j, wanted-count_up s k h j, key_order.beq_iff k j)

newly-count_up :
    (s : Counting) (p : Provider) (k : SubscriptionKey) (keys : List SubscriptionKey)
    → tally s k < max_u64
    → Above k keys
    → newly (count_up s k) p keys ≡ newly s p keys
newly-count_up s p k [] h a = refl
newly-count_up s p k (j ∷ keys) h a =
    ground (arith, newly-count_up s p k keys h a.1, tally-count_up s k h j, lt-ne k j a.0)

count-count_up :
    (s : Counting) (p : Provider) (k : SubscriptionKey)
    → tally s k < max_u64
    → IsSound s
    → IsDemand s
    → count (of_provider p) (count_up s k).wanted
      ≡ count (of_provider p) s.wanted + bit (of_provider p k && eqb (tally s k) 0)
unfolding count_up
count-count_up s p k h v d = ground (
  arith,
  d k,
  saturating_suc_lem (get_or 0 k s.counts) h,
  count-insert (of_provider p) k s.wanted v.sorted,
)

-- The loop over the added keys brings in the keys without a holder, provider by provider.
pub count-count_up_all :
    (s : Counting) (p : Provider) (keys : List SubscriptionKey)
    → IsSorted keys
    → HasRoom s keys
    → IsSound s
    → IsDemand s
    → count (of_provider p) (count_up_all s keys).wanted
      ≡ count (of_provider p) s.wanted + newly s p keys
unfolding count_up_all
count-count_up_all s p [] h r v d = omega arith
count-count_up_all s p (k ∷ keys) h r v d = omega (
  arith,
  count-count_up_all (count_up s k) p keys h.1 (HasRoom-count_up s k keys r.0 h.0 r.1)
      (count_up-IsSound s k r.0 v) (count_up-IsDemand s k r.0 d),
  newly-count_up s p k keys r.0 h.0,
  count-count_up s p k r.0 v d,
)

count-le-length :
    (p : Provider) (keys : List SubscriptionKey) → count (of_provider p) keys ≤ length keys
unfolding count
count-le-length p [] = omega arith
count-le-length p (k ∷ keys) = ground (arith, count-le-length p keys)

-- So the totals that are checked are the sizes that the desired set would have.
pub provider_totals_lem :
    (r : Registry) (p : Provider) (added : List SubscriptionKey)
    → IsSound (counting r)
    → length r.desired + length added ≤ max_u64
    → get_or 0 p (provider_totals r added)
      ≡ count (of_provider p) r.desired + newly (counting r) p added
unfolding provider_totals lookup
provider_totals_lem r p added v fits = omega (
  arith,
  count_added_lem (counting r) p (count_desired [] r.desired) added v
      (λ q. omega (arith, count_desired_lem q [] r.desired, count-le-length q r.desired)),
  count_desired_lem p [] r.desired,
)

mem_of_lookup : (p : Provider) (t : Totals) (n : ℕ) → lookup p t ≡ some n → Mem (p, n) t
unfolding lookup
mem_of_lookup p [] n h = cc
mem_of_lookup p ((q, v) ∷ t) n h = elim (Bool-cases (q == p)) [
  | inl e ↦ rw (same e) mem-cons_self
  | inr e ↦ mem-cons_of_mem (q, v) (mem_of_lookup p t n (ground arith))
]
  where
    same : (q == p) ≡ true → ◌≡◌ {A = Provider × ℕ} (p, n) (q, v)
    same e = ground (arith, provider_order.beq_iff q p)

find-eq-none {ℓ} :
    {A : Type ℓ} (f : A → Bool) (x : A) (xs : List A) → find f xs ≡ none → Mem x xs → f x ≡ false
find-eq-none f x [] h m = absurd (not-mem-nil m)
find-eq-none f x (y ∷ xs) h m =
    Or.elim (Bool-set _ _) (eq-or-mem_of_mem-cons m) (λ e. rw e (ground arith))
      (find-eq-none f x xs (ground arith))

-- Where no total is found to exceed its ceiling, none does, whatever order the map has.
pub first_exceeded-eq-none :
    (hash_order : Totals → Totals)
    → ((t : Totals) → Perm (hash_order t) t)
    → (r : Registry) (added : List SubscriptionKey) (p : Provider)
    → first_exceeded hash_order r added ≡ none
    → get_or 0 p (provider_totals r added) ≤ limit_for r.provider_limits p
unfolding first_exceeded
first_exceeded-eq-none hash_order perm r added p h =
    elim (Option-cases (lookup p (provider_totals r added))) [
      | inl e ↦ rw e (omega arith)
      | inr (n, e) ↦ rw e (
          ltb→le _ _ (
            find-eq-none _ (p, n) (hash_order (provider_totals r added)) h
              ((Perm.mem_iff (perm (provider_totals r added))).1 (mem_of_lookup p _ n e))))
    ]
