-- ===== src/Map/Laws.antt =====
-- What a lookup and a sum over the values give after each operation of a map.
use market_stream_gateway.Prelude.{
  ℕ, ◌+◌, ◌≤◌, ◌≡◌, refl, List, [], ◌∷◌, none, some, arith, Order, ◌==◌, if◌then◌else◌, length,
}
use market_stream_gateway.Map.{lookup, insert, remove, Distinct, total, weight, missing}

module _ {ℓ κ} {K : Type ℓ} {V : Type κ} ⦃o : Order K⦄ where
  pub lookup-insert :
      (key other : K) (value : V) (entries : List (K × V))
      → lookup other (insert key value entries)
        ≡ (if key == other then some value else lookup other entries)
  unfolding lookup insert
  lookup-insert key other value [] = ground arith
  lookup-insert key other value ((here, old) ∷ entries) = ground (
    arith,
    lookup-insert key other value entries,
    o.beq_iff here other,
    o.beq_iff here key,
    o.beq_iff key other,
  )

  pub lookup-remove :
      (k j : K) (m : List (K × V))
      → Distinct m
      → lookup j (remove k m) ≡ (if k == j then none else lookup j m)
  unfolding lookup remove
  lookup-remove k j [] d = ground arith
  lookup-remove k j ((i, w) ∷ m) d =
      ground (arith, o.beq_iff k j, o.beq_iff i k, o.beq_iff i j, lookup-remove k j m d.1)

  pub insert-Distinct : (k : K) (v : V) (m : List (K × V)) → Distinct m → Distinct (insert k v m)
  unfolding insert lookup
  insert-Distinct k v [] d = (refl, tt)
  insert-Distinct k v ((i, w) ∷ m) d =
      ground (arith, insert-Distinct k v m d.1, lookup-insert k i v m, o.beq_iff i k, o.beq_iff k i)

  pub remove-Distinct : (k : K) (m : List (K × V)) → Distinct m → Distinct (remove k m)
  unfolding remove
  remove-Distinct k [] d = tt
  remove-Distinct k ((i, w) ∷ m) d =
      ground (arith, remove-Distinct k m d.1, lookup-remove k i m d.1)

  pub total-insert :
      (f : V → ℕ) (k : K) (v : V) (m : List (K × V))
      → total f (insert k v m) + weight f (lookup k m) ≡ total f m + f v
  unfolding total insert lookup
  total-insert f k v [] = omega arith
  total-insert f k v ((i, w) ∷ m) = ground (arith, total-insert f k v m)

  pub total-remove :
      (f : V → ℕ) (k : K) (m : List (K × V))
      → total f (remove k m) + weight f (lookup k m) ≡ total f m
  unfolding total remove lookup
  total-remove f k [] = omega arith
  total-remove f k ((i, w) ∷ m) = ground (arith, total-remove f k m)

  -- One entry weighs no more than all.
  pub weight-le-total : (f : V → ℕ) (k : K) (m : List (K × V)) → weight f (lookup k m) ≤ total f m
  weight-le-total f k m = omega (arith, total-remove f k m)

  pub length-insert :
      (k : K) (v : V) (m : List (K × V)) → length (insert k v m) ≡ length m + missing (lookup k m)
  unfolding insert lookup
  length-insert k v [] = omega arith
  length-insert k v ((i, w) ∷ m) = ground (arith, length-insert k v m)

  pub length-remove :
      (k : K) (m : List (K × V)) → length (remove k m) + 1 ≡ length m + missing (lookup k m)
  unfolding remove lookup
  length-remove k [] = omega arith
  length-remove k ((i, w) ∷ m) = ground (arith, length-remove k m)

  -- A second insertion of a key replaces the first.
  pub insert-insert :
      (k : K) (v w : V) (m : List (K × V)) → insert k w (insert k v m) ≡ insert k w m
  unfolding insert
  insert-insert k v w [] = ground (arith, o.beq_iff k k)
  insert-insert k v w ((j, u) ∷ m) = ground (arith, insert-insert k v w m)

  pub insert_same : (k : K) (v : V) (m : List (K × V)) → lookup k m ≡ some v → insert k v m ≡ m
  unfolding insert lookup
  insert_same k v [] h = cc
  insert_same k v ((j, u) ∷ m) h = ground (arith, insert_same k v m)

  pub remove-insert : (k : K) (v : V) (m : List (K × V)) → remove k (insert k v m) ≡ remove k m
  unfolding insert remove
  remove-insert k v [] = ground (arith, o.beq_iff k k)
  remove-insert k v ((j, u) ∷ m) = ground (arith, remove-insert k v m)

  pub remove_absent : (k : K) (m : List (K × V)) → lookup k m ≡ none → remove k m ≡ m
  unfolding remove lookup
  remove_absent k [] h = refl
  remove_absent k ((j, u) ∷ m) h = ground (arith, h, remove_absent k m)
