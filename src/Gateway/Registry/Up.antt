-- ===== src/Gateway/Registry/Up.antt =====
-- src/gateway.rs: what the loop of `add` over the added keys does to the counts, the desired set
-- and the list of keys whose count went from zero to one.
use market_stream_gateway.Prelude.{
  ◌+◌, ◌<◌, ◌≡◌, ◌&&◌, ◌||◌, List, [], ◌∷◌, arith, eqb, bit, All, ◌==◌, lt-ne, saturating_suc,
  saturating_suc_lem, max_u64,
}
use market_stream_gateway.Set.{contains}
use market_stream_gateway.Set.Laws.{contains-insert, contains-append}
use market_stream_gateway.Set.Sorted.{Above, IsSorted, insert-IsSorted, contains-Above}
use market_stream_gateway.Map.{get_or}
use market_stream_gateway.Map.Laws.{lookup-insert, insert-Distinct}
use market_stream_gateway.Domain.Identity.{SubscriptionKey, key_order}
use market_stream_gateway.Gateway.Registry.{Counting, count_up, count_up_all}
use market_stream_gateway.Gateway.Registry.Tally.{tally, IsSound}

module _ (s : Counting) (k : SubscriptionKey) (room : tally s k < max_u64) where
  pub tally-count_up : (j : SubscriptionKey) → tally (count_up s k) j ≡ tally s j + bit (k == j)
  unfolding count_up
  tally-count_up j = ground (
    arith,
    lookup-insert k j (saturating_suc (get_or 0 k s.counts)) s.counts,
    saturating_suc_lem (get_or 0 k s.counts) room,
    key_order.beq_iff k j,
  )

  pub wanted-count_up :
      (j : SubscriptionKey)
      → contains j (count_up s k).wanted ≡ (contains j s.wanted || (k == j && eqb (tally s k) 0))
  unfolding count_up
  wanted-count_up j =
      ground (arith, contains-insert k j s.wanted, saturating_suc_lem (get_or 0 k s.counts) room)

  pub crossed-count_up :
      (j : SubscriptionKey)
      → contains j (count_up s k).crossed ≡ (contains j s.crossed || (k == j && eqb (tally s k) 0))
  unfolding count_up contains
  crossed-count_up j =
      ground
        (arith, contains-append j s.crossed (k ∷ []), saturating_suc_lem (get_or 0 k s.counts) room)

  pub count_up-IsSound : IsSound s → IsSound (count_up s k)
  unfolding count_up
  count_up-IsSound v = record {
    distinct =
        ground
          (arith, insert-Distinct k (saturating_suc (get_or 0 k s.counts)) s.counts v.distinct);
    positive = λ j. ground (
      arith,
      lookup-insert k j (saturating_suc (get_or 0 k s.counts)) s.counts,
      saturating_suc_lem (get_or 0 k s.counts) room,
      v.positive j,
    );
    sorted = ground (arith, insert-IsSorted k s.wanted v.sorted);
  }

abbrev pub HasRoom : Counting → List SubscriptionKey → Type 0
HasRoom s = All (λ k. tally s k < max_u64)

pub HasRoom-count_up :
    (s : Counting) (k : SubscriptionKey) (keys : List SubscriptionKey)
    → tally s k < max_u64
    → Above k keys
    → HasRoom s keys
    → HasRoom (count_up s k) keys
HasRoom-count_up s k [] h a r = tt
HasRoom-count_up s k (j ∷ keys) h a r =
    (ground (arith, tally-count_up s k h j, lt-ne k j a.0), HasRoom-count_up s k keys h a.1 r.1)

-- The loop over a set of keys counts each of its members once.
pub tally-count_up_all :
    (s : Counting) (keys : List SubscriptionKey) (j : SubscriptionKey)
    → IsSorted keys
    → HasRoom s keys
    → tally (count_up_all s keys) j ≡ tally s j + bit (contains j keys)
unfolding count_up_all contains
tally-count_up_all s [] j h r = omega arith
tally-count_up_all s (k ∷ keys) j h r = ground (
  arith,
  tally-count_up_all (count_up s k) keys j h.1 (HasRoom-count_up s k keys r.0 h.0 r.1),
  tally-count_up s k r.0 j,
  contains-Above k keys h.0,
  key_order.beq_iff k j,
)

-- It adds to the desired set exactly the members that nobody held,
pub wanted-count_up_all :
    (s : Counting) (keys : List SubscriptionKey) (j : SubscriptionKey)
    → IsSorted keys
    → HasRoom s keys
    → contains j (count_up_all s keys).wanted
      ≡ (contains j s.wanted || (contains j keys && eqb (tally s j) 0))
unfolding count_up_all contains
wanted-count_up_all s [] j h r = ground arith
wanted-count_up_all s (k ∷ keys) j h r = ground (
  arith,
  wanted-count_up_all (count_up s k) keys j h.1 (HasRoom-count_up s k keys r.0 h.0 r.1),
  tally-count_up s k r.0 j,
  wanted-count_up s k r.0 j,
  contains-Above k keys h.0,
  key_order.beq_iff k j,
)

-- and lists exactly these as crossed.
pub crossed-count_up_all :
    (s : Counting) (keys : List SubscriptionKey) (j : SubscriptionKey)
    → IsSorted keys
    → HasRoom s keys
    → contains j (count_up_all s keys).crossed
      ≡ (contains j s.crossed || (contains j keys && eqb (tally s j) 0))
unfolding count_up_all contains
crossed-count_up_all s [] j h r = ground arith
crossed-count_up_all s (k ∷ keys) j h r = ground (
  arith,
  crossed-count_up_all (count_up s k) keys j h.1 (HasRoom-count_up s k keys r.0 h.0 r.1),
  tally-count_up s k r.0 j,
  crossed-count_up s k r.0 j,
  contains-Above k keys h.0,
  key_order.beq_iff k j,
)

pub count_up_all-IsSound :
    (s : Counting) (keys : List SubscriptionKey)
    → IsSorted keys
    → HasRoom s keys
    → IsSound s
    → IsSound (count_up_all s keys)
unfolding count_up_all
count_up_all-IsSound s [] h r v = v
count_up_all-IsSound s (k ∷ keys) h r v =
    count_up_all-IsSound (count_up s k) keys h.1 (HasRoom-count_up s k keys r.0 h.0 r.1)
      (count_up-IsSound s k r.0 v)
