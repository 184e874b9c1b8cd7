-- ===== src/Gateway/Hub/Routes.antt =====
-- src/gateway.rs: the two maps of a `RouteState` mirror each other.
use market_stream_gateway.Prelude.{
  ◌≡◌, ◌≢◌, not, ◌&&◌, ◌||◌, List, [], ◌∷◌, some, arith, ◌==◌, nat_order,
}
use market_stream_gateway.Set
use market_stream_gateway.Set.{contains}
use market_stream_gateway.Set.Laws.{contains-insert}
use market_stream_gateway.Set.Sorted.{IsSorted, insert-IsSorted, remove-IsSorted, contains-remove}
use market_stream_gateway.Map
use market_stream_gateway.Map.{lookup, get_or, Distinct}
use market_stream_gateway.Map.Laws.{lookup-insert, lookup-remove, insert-Distinct, remove-Distinct}
use market_stream_gateway.Domain.Identity.{SubscriptionKey, key_order}
use market_stream_gateway.Gateway.Registry.{ClientId}
use market_stream_gateway.Gateway.Hub.{ids, remove_key_route, remove_key_routes, add_key_routes}

abbrev pub Members : Type 0
Members = List (SubscriptionKey × List ClientId)

-- The member sets are well formed, and none is kept empty.
pub record IsSound (m : Members) : Type 0 where
  pub distinct : Distinct m
  pub sorted : (k : SubscriptionKey) → IsSorted (ids k m)
  pub occupied : (k : SubscriptionKey) → lookup k m ≢ some []

module _ (c : ClientId) (k : SubscriptionKey) (m : Members) (v : IsSound m) where
  ids-remove_key_route :
      (j : SubscriptionKey) (d : ClientId)
      → contains d (ids j (remove_key_route c k m))
        ≡ (contains d (ids j m) && not (k == j && c == d))
  unfolding remove_key_route contains
  ids-remove_key_route j d = ground (
    arith,
    lookup-remove k j m v.distinct,
    lookup-insert k j (Set.remove c (ids k m)) m,
    contains-remove c d (ids k m) (v.sorted k),
    key_order.beq_iff k j,
  )

  remove_key_route-IsSound : IsSound (remove_key_route c k m)
  unfolding remove_key_route
  remove_key_route-IsSound = record {
    distinct = ground (
      arith,
      v.distinct,
      remove-Distinct k m v.distinct,
      insert-Distinct k (Set.remove c (ids k m)) m v.distinct,
    );
    sorted = λ j. ground (
      arith,
      lookup-remove k j m v.distinct,
      lookup-insert k j (Set.remove c (ids k m)) m,
      remove-IsSorted c (ids k m) (v.sorted k),
      v.sorted j,
    );
    occupied = λ j. ground (
      arith,
      lookup-remove k j m v.distinct,
      lookup-insert k j (Set.remove c (ids k m)) m,
      v.occupied j,
    );
  }

pub remove_key_routes-IsSound :
    (c : ClientId) (keys : List SubscriptionKey) (m : Members)
    → IsSound m
    → IsSound (remove_key_routes c keys m)
unfolding remove_key_routes
remove_key_routes-IsSound c [] m v = v
remove_key_routes-IsSound c (k ∷ keys) m v =
    remove_key_routes-IsSound c keys (remove_key_route c k m) (remove_key_route-IsSound c k m v)

-- The client leaves the member sets of exactly the given keys.
pub ids-remove_key_routes :
    (c : ClientId) (keys : List SubscriptionKey) (m : Members) (j : SubscriptionKey) (d : ClientId)
    → IsSound m
    → contains d (ids j (remove_key_routes c keys m))
      ≡ (contains d (ids j m) && not (contains j keys && c == d))
unfolding remove_key_routes contains
ids-remove_key_routes c [] m j d v = ground arith
ids-remove_key_routes c (k ∷ keys) m j d v = ground (
  arith,
  ids-remove_key_routes c keys (remove_key_route c k m) j d (remove_key_route-IsSound c k m v),
  ids-remove_key_route c k m v j d,
)

insert-ne-nil : (c : ClientId) (s : List ClientId) → Set.insert c s ≢ []
unfolding Set.insert
insert-ne-nil c [] = cc
insert-ne-nil c (x ∷ s) = ground arith

add_key_route-IsSound :
    (c : ClientId) (k : SubscriptionKey) (m : Members)
    → IsSound m
    → IsSound (Map.insert k (Set.insert c (ids k m)) m)
add_key_route-IsSound c k m v = record {
  distinct = insert-Distinct k (Set.insert c (ids k m)) m v.distinct;
  sorted = λ j. ground (
    arith,
    lookup-insert k j (Set.insert c (ids k m)) m,
    insert-IsSorted c (ids k m) (v.sorted k),
    v.sorted j,
  );
  occupied = λ j. ground (
    arith,
    lookup-insert k j (Set.insert c (ids k m)) m,
    insert-ne-nil c (ids k m),
    v.occupied j,
  );
}

pub add_key_routes-IsSound :
    (c : ClientId) (keys : List SubscriptionKey) (m : Members)
    → IsSound m
    → IsSound (add_key_routes c keys m)
unfolding add_key_routes
add_key_routes-IsSound c [] m v = v
add_key_routes-IsSound c (k ∷ keys) m v =
    add_key_routes-IsSound c keys (Map.insert k (Set.insert c (ids k m)) m)
      (add_key_route-IsSound c k m v)

-- The client joins the member sets of exactly the given keys.
pub ids-add_key_routes :
    (c : ClientId) (keys : List SubscriptionKey) (m : Members) (j : SubscriptionKey) (d : ClientId)
    → contains d (ids j (add_key_routes c keys m))
      ≡ (contains d (ids j m) || (contains j keys && c == d))
unfolding add_key_routes contains
ids-add_key_routes c [] m j d = ground arith
ids-add_key_routes c (k ∷ keys) m j d = ground (
  arith,
  ids-add_key_routes c keys (Map.insert k (Set.insert c (ids k m)) m) j d,
  lookup-insert k j (Set.insert c (ids k m)) m,
  contains-insert c d (ids k m),
  key_order.beq_iff k j,
)
