-- ===== src/Gateway/Registry/Down.antt =====
-- src/gateway.rs: what `decrement_references` does to the counts, the desired set and the list of
-- keys whose last holder went.
use market_stream_gateway.Prelude.{
  ◌+◌, ◌-◌, ◌<◌, ◌≡◌, not, ◌&&◌, ◌||◌, List, [], ◌∷◌, arith, eqb, bit, All, ◌==◌, lt-ne,
}
use market_stream_gateway.Set.{contains}
use market_stream_gateway.Set.Laws.{contains-append}
use market_stream_gateway.Set.Sorted.{
  Above, IsSorted, remove-IsSorted, contains-remove, contains-Above,
}
use market_stream_gateway.Map.{get_or}
use market_stream_gateway.Map.Laws.{lookup-insert, lookup-remove, insert-Distinct, remove-Distinct}
use market_stream_gateway.Domain.Identity.{SubscriptionKey, key_order}
use market_stream_gateway.Gateway.Registry.{Counting, count_down, count_down_all}
use market_stream_gateway.Gateway.Registry.Tally.{tally, IsSound}

module _ (s : Counting) (k : SubscriptionKey) (held : 0 < tally s k) (v : IsSound s) where
  tally-count_down : (j : SubscriptionKey) → tally (count_down s k) j + bit (k == j) ≡ tally s j
  unfolding count_down
  tally-count_down j = ground (
    arith,
    lookup-insert k j (get_or 0 k s.counts - 1) s.counts,
    lookup-remove k j s.counts v.distinct,
    key_order.beq_iff k j,
  )

  wanted-count_down :
      (j : SubscriptionKey)
      → contains j (count_down s k).wanted
        ≡ (contains j s.wanted && not (k == j && eqb (tally s k) 1))
  unfolding count_down
  wanted-count_down j = ground (arith, contains-remove k j s.wanted v.sorted)

  crossed-count_down :
      (j : SubscriptionKey)
      → contains j (count_down s k).crossed
        ≡ (contains j s.crossed || (k == j && eqb (tally s k) 1))
  unfolding count_down contains
  crossed-count_down j = ground (arith, contains-append j s.crossed (k ∷ []))

  count_down-IsSound : IsSound (count_down s k)
  unfolding count_down
  count_down-IsSound = record {
    distinct = ground (
      arith,
      insert-Distinct k (get_or 0 k s.counts - 1) s.counts v.distinct,
      remove-Distinct k s.counts v.distinct,
      v.distinct,
    );
    positive = λ j. ground (
      arith,
      lookup-insert k j (get_or 0 k s.counts - 1) s.counts,
      lookup-remove k j s.counts v.distinct,
      v.positive j,
    );
    sorted = ground (arith, remove-IsSorted k s.wanted v.sorted, v.sorted);
  }

abbrev pub AllHeld : Counting → List SubscriptionKey → Type 0
AllHeld s = All (λ k. 0 < tally s k)

AllHeld-count_down :
    (s : Counting) (k : SubscriptionKey) (keys : List SubscriptionKey)
    → 0 < tally s k
    → IsSound s
    → Above k keys
    → AllHeld s keys
    → AllHeld (count_down s k) keys
AllHeld-count_down s k [] h v a r = tt
AllHeld-count_down s k (j ∷ keys) h v a r = (
  ground (arith, tally-count_down s k h v j, lt-ne k j a.0),
  AllHeld-count_down s k keys h v a.1 r.1,
)

-- The loop over a set of held keys takes one holder from each of its members.
pub tally-count_down_all :
    (s : Counting) (keys : List SubscriptionKey) (j : SubscriptionKey)
    → IsSorted keys
    → AllHeld s keys
    → IsSound s
    → tally (count_down_all s keys) j + bit (contains j keys) ≡ tally s j
unfolding count_down_all contains
tally-count_down_all s [] j h r v = omega arith
tally-count_down_all s (k ∷ keys) j h r v = ground (
  arith,
  tally-count_down_all (count_down s k) keys j h.1 (AllHeld-count_down s k keys r.0 v h.0 r.1)
      (count_down-IsSound s k r.0 v),
  tally-count_down s k r.0 v j,
  contains-Above k keys h.0,
  key_order.beq_iff k j,
)

-- It takes from the desired set exactly the members with one holder,
pub wanted-count_down_all :
    (s : Counting) (keys : List SubscriptionKey) (j : SubscriptionKey)
    → IsSorted keys
    → AllHeld s keys
    → IsSound s
    → contains j (count_down_all s keys).wanted
      ≡ (contains j s.wanted && not (contains j keys && eqb (tally s j) 1))
unfolding count_down_all contains
wanted-count_down_all s [] j h r v = ground arith
wanted-count_down_all s (k ∷ keys) j h r v = ground (
  arith,
  wanted-count_down_all (count_down s k) keys j h.1 (AllHeld-count_down s k keys r.0 v h.0 r.1)
      (count_down-IsSound s k r.0 v),
  tally-count_down s k r.0 v j,
  wanted-count_down s k r.0 v j,
  contains-Above k keys h.0,
  key_order.beq_iff k j,
)

-- and lists exactly these as crossed.
pub crossed-count_down_all :
    (s : Counting) (keys : List SubscriptionKey) (j : SubscriptionKey)
    → IsSorted keys
    → AllHeld s keys
    → IsSound s
    → contains j (count_down_all s keys).crossed
      ≡ (contains j s.crossed || (contains j keys && eqb (tally s j) 1))
unfolding count_down_all contains
crossed-count_down_all s [] j h r v = ground arith
crossed-count_down_all s (k ∷ keys) j h r v = ground (
  arith,
  crossed-count_down_all (count_down s k) keys j h.1 (AllHeld-count_down s k keys r.0 v h.0 r.1)
      (count_down-IsSound s k r.0 v),
  tally-count_down s k r.0 v j,
  crossed-count_down s k r.0 v j,
  contains-Above k keys h.0,
  key_order.beq_iff k j,
)

pub count_down_all-IsSound :
    (s : Counting) (keys : List SubscriptionKey)
    → IsSorted keys
    → AllHeld s keys
    → IsSound s
    → IsSound (count_down_all s keys)
unfolding count_down_all
count_down_all-IsSound s [] h r v = v
count_down_all-IsSound s (k ∷ keys) h r v =
    count_down_all-IsSound (count_down s k) keys h.1 (AllHeld-count_down s k keys r.0 v h.0 r.1)
      (count_down-IsSound s k r.0 v)
