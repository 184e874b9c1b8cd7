-- ===== src/Set.antt =====
-- `BTreeSet` of the standard library, as the list of its elements in ascending order.
pub mod Laws
pub mod Sorted
use market_stream_gateway.Prelude.{
  ℕ, ◌+◌, bit, Bool, true, false, not, ◌&&◌, ◌||◌, List, [], ◌∷◌, Order, ◌==◌, if◌then◌else◌, keep,
}

module _ {ℓ} {A : Type ℓ} ⦃o : Order A⦄ where
  unfoldable pub contains : A → List A → Bool
  contains a [] = false
  contains a (x ∷ xs) = x == a || contains a xs

  unfoldable pub insert : A → List A → List A
  insert a [] = a ∷ []
  insert a (x ∷ xs) = if o.lt a x then a ∷ x ∷ xs else if x == a then x ∷ xs else x ∷ insert a xs

  unfoldable pub remove : A → List A → List A
  remove a [] = []
  remove a (x ∷ xs) = if x == a then xs else x ∷ remove a xs

  -- `Extend::extend`, element by element.
  unfoldable pub extend : List A → List A → List A
  extend s [] = s
  extend s (x ∷ xs) = extend (insert x s) xs

  -- `collect::<BTreeSet<_>>()`.
  abbrev pub from_list : List A → List A
  from_list xs = extend [] xs

  -- `for key in keys { set.remove(key) }`.
  unfoldable pub remove_all : List A → List A → List A
  remove_all s [] = s
  remove_all s (x ∷ xs) = remove_all (remove x s) xs

  -- `a.difference(b)`: what `a` has and `b` has not, in order.
  abbrev pub difference : List A → List A → List A
  difference xs ys = keep (λ x. not (contains x ys)) xs

  -- `a.intersection(b)`.
  abbrev pub intersection : List A → List A → List A
  intersection xs ys = keep (λ x. contains x ys) xs

-- How many elements pass a test.
module _ {ℓ} {A : Type ℓ} where
  unfoldable pub count : (A → Bool) → List A → ℕ
  count p [] = 0
  count p (x ∷ xs) = bit (p x) + count p xs
