-- ===== src/Map/Ordered.antt =====
-- `BTreeMap` where the order of its entries is seen: an association list that ascends by its keys.
use mathlib.Core.Path.{ap₂}
use market_stream_gateway.Prelude.{
  ◌≡◌, refl, true, List, [], ◌∷◌, none, some, arith, Order, ◌==◌, ==_refl, if◌then◌else◌, All,
  All-map,
}
use market_stream_gateway.Map.{lookup, Distinct}

module _ {ℓ κ} {K : Type ℓ} {V : Type κ} ⦃o : Order K⦄ where
  -- `map.insert(k, v)`, the old value given up.
  unfoldable pub insert_ordered : K → V → List (K × V) → List (K × V)
  insert_ordered k v [] = (k, v) ∷ []
  insert_ordered k v ((j, w) ∷ m) =
      if j == k
      then (j, v) ∷ m
      else if o.lt k j
      then (k, v) ∷ (j, w) ∷ m
      else (j, w) ∷ insert_ordered k v m

  -- Every key of the map is greater than `k`.
  abbrev pub Above : K → List (K × V) → Type 0
  Above k = All (λ e. o.lt k e.0 ≡ true)

  abbrev pub IsAscending : List (K × V) → Type 0
  IsAscending [] = Unit
  IsAscending ((k, v) ∷ m) = Above k m × IsAscending m

  pub lookup-insert_ordered :
      (key other : K) (value : V) (entries : List (K × V))
      → lookup other (insert_ordered key value entries)
        ≡ (if key == other then some value else lookup other entries)
  unfolding lookup insert_ordered
  lookup-insert_ordered key other value [] = ground arith
  lookup-insert_ordered key other value ((here, old) ∷ entries) = ground (
    arith,
    lookup-insert_ordered key other value entries,
    o.beq_iff here other,
    o.beq_iff here key,
    o.beq_iff key other,
  )

  lookup-Above : (k : K) (m : List (K × V)) → Above k m → lookup k m ≡ none
  unfolding lookup
  lookup-Above k [] h = refl
  lookup-Above k ((j, w) ∷ m) h = ground (arith, lookup-Above k m h.1, o.beq_iff j k, o.lt_irrefl k)

  pub IsAscending-Distinct : (m : List (K × V)) → IsAscending m → Distinct m
  IsAscending-Distinct [] h = tt
  IsAscending-Distinct ((k, v) ∷ m) h = (lookup-Above k m h.0, IsAscending-Distinct m h.1)

  Above-trans : (a b : K) (m : List (K × V)) → o.lt a b ≡ true → Above b m → Above a m
  Above-trans a b m h k = All-map (λ e. o.lt_trans a b e.0 h) m k

  pub insert_ordered-All :
      (P : K × V → Type 0) (k : K) (v : V) (m : List (K × V))
      → ((j : K) → j ≡ k → P (j, v))
      → All P m
      → All P (insert_ordered k v m)
  unfolding insert_ordered
  insert_ordered-All P k v [] same h = (same k refl, tt)
  insert_ordered-All P k v ((j, w) ∷ m) same h =
      ground (arith, insert_ordered-All P k v m same h.1, o.beq_iff j k, same j, same k refl)

  pub insert_ordered-IsAscending :
      (k : K) (v : V) (m : List (K × V)) → IsAscending m → IsAscending (insert_ordered k v m)
  unfolding insert_ordered
  insert_ordered-IsAscending k v [] h = (tt, tt)
  insert_ordered-IsAscending k v ((j, w) ∷ m) h = ground (
    arith,
    insert_ordered-IsAscending k v m h.1,
    Above-trans k j m,
    insert_ordered-All (λ e. o.lt j e.0 ≡ true) k v m,
    o.lt_total k j,
    o.beq_iff j k,
    o.beq_iff k j,
  )

  -- Two ascending maps with the same lookups have the same first key,
  same_key :
      (j k : K) (v w : V) (m n : List (K × V))
      → Above j m
      → Above k n
      → ((a : K) → lookup a ((j, v) ∷ m) ≡ lookup a ((k, w) ∷ n))
      → j ≡ k
  unfolding lookup
  same_key j k v w m n hm hn e = ground (
    arith,
    e j,
    e k,
    o.beq_iff j k,
    o.beq_iff k j,
    o.beq_iff j j,
    o.beq_iff k k,
    o.lt_total j k,
    lookup-Above j n,
    lookup-Above k m,
    Above-trans j k n,
    Above-trans k j m,
  )

  same_value :
      (j k : K) (v w : V) (m n : List (K × V))
      → j ≡ k
      → lookup j ((j, v) ∷ m) ≡ lookup j ((k, w) ∷ n)
      → v ≡ w
  unfolding lookup
  same_value j k v w m n q e = ground (arith, e, q, ==_refl j, o.beq_iff k j)

  same_rest :
      (j k : K) (v w : V) (m n : List (K × V))
      → j ≡ k
      → Above j m
      → Above k n
      → ((a : K) → lookup a ((j, v) ∷ m) ≡ lookup a ((k, w) ∷ n))
      → (a : K) → lookup a m ≡ lookup a n
  unfolding lookup
  same_rest j k v w m n q hm hn e a =
      ground (arith, q, e a, o.beq_iff j a, o.beq_iff k a, lookup-Above j m hm, lookup-Above k n hn)

  -- and so they are the same list.
  pub ascending_ext :
      (m n : List (K × V))
      → IsAscending m
      → IsAscending n
      → ((a : K) → lookup a m ≡ lookup a n)
      → m ≡ n
  unfolding lookup
  ascending_ext [] [] hm hn e = refl
  ascending_ext [] ((k, w) ∷ n) hm hn e = ground (arith, e k, ==_refl k)
  ascending_ext ((j, v) ∷ m) [] hm hn e = ground (arith, e j, ==_refl j)
  ascending_ext ((j, v) ∷ m) ((k, w) ∷ n) hm hn e =
      let q = same_key j k v w m n hm.0 hn.0 e in
      ap₂ ◌∷◌ (ap₂ (λ x y. (x, y)) q (same_value j k v w m n q (e j)))
        (ascending_ext m n hm.1 hn.1 (same_rest j k v w m n q hm.0 hn.0 e))
