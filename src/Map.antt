-- ===== src/Map.antt =====
-- `HashMap` and `BTreeMap` of the standard library, as association lists. The order of the entries
-- is the order of insertion where the program does not see it; Map/Ordered.antt keeps the order of
-- the keys where it does.
pub mod Laws
pub mod Ordered
use market_stream_gateway.Prelude.{
  ℕ, ◌+◌, ◌≡◌, List, [], ◌∷◌, Option, none, some, Order, ◌==◌, if◌then◌else◌,
}

module _ {κ} {V : Type κ} where
  -- `copied().unwrap_or(d)`, `unwrap_or_default()`.
  abbrev pub or_else : V → Option V → V
  or_else d none = d
  or_else d (some v) = v

  -- 1 for a key that is not there.
  abbrev pub missing : Option V → ℕ
  missing none = 1
  missing (some v) = 0

  -- A weight of a value that may be missing.
  abbrev pub weight : (V → ℕ) → Option V → ℕ
  weight w none = 0
  weight w (some v) = w v

module _ {ℓ κ} {K : Type ℓ} {V : Type κ} ⦃o : Order K⦄ where
  unfoldable pub lookup : (key : K) (entries : List (K × V)) → Option V
  lookup key [] = none
  lookup key ((here, value) ∷ entries) = if here == key then some value else lookup key entries

  -- `map.insert(k, v)`, the old value given up.
  unfoldable pub insert : K → V → List (K × V) → List (K × V)
  insert key value [] = (key, value) ∷ []
  insert key value ((here, old) ∷ entries) =
      if here == key then (here, value) ∷ entries else (here, old) ∷ insert key value entries

  unfoldable pub remove : K → List (K × V) → List (K × V)
  remove k [] = []
  remove k ((j, w) ∷ m) = if j == k then m else (j, w) ∷ remove k m

  abbrev pub get_or : V → K → List (K × V) → V
  get_or d k m = or_else d (lookup k m)

  -- No key stands twice.
  abbrev pub Distinct : List (K × V) → Type κ
  Distinct [] = Unit
  Distinct ((k, v) ∷ m) = (lookup k m ≡ none) × Distinct m

  -- A weight of the values, summed over the map.
  unfoldable pub total : (V → ℕ) → List (K × V) → ℕ
  total w [] = 0
  total w ((k, v) ∷ m) = w v + total w m
