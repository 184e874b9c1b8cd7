-- ===== src/Set/Laws.antt =====
-- What membership is after each operation of a set.
use market_stream_gateway.Prelude.{
  ◌≡◌, refl, inl, inr, Bool, false, not, ◌&&◌, ◌||◌, List, [], ◌∷◌, ◌++◌, arith, Order, ◌==◌,
  ==_refl, eq_of_==, keep, Bool-cases, All, length, suc, ◌+◌, ◌≤◌, true,
}
use market_stream_gateway.Set.{contains, insert, extend, from_list, difference, intersection}

module _ {ℓ} {A : Type ℓ} ⦃o : Order A⦄ where
  pub contains-insert : (a b : A) (s : List A) → contains b (insert a s) ≡ (a == b || contains b s)
  unfolding contains insert
  contains-insert a b [] = refl
  contains-insert a b (x ∷ s) =
      ground (arith, contains-insert a b s, o.beq_iff x a, o.beq_iff a b, o.beq_iff x b)

  pub contains-extend :
      (b : A) (s xs : List A) → contains b (extend s xs) ≡ (contains b xs || contains b s)
  unfolding contains extend
  contains-extend b s [] = refl
  contains-extend b s (x ∷ xs) =
      ground (arith, contains-extend b (insert x s) xs, contains-insert x b s)

  -- A test that reads only the element keeps exactly the members that pass it.
  pub contains-keep :
      (p : A → Bool) (a : A) (s : List A) → contains a (keep p s) ≡ (contains a s && p a)
  unfolding contains
  contains-keep p a [] = refl
  contains-keep p a (x ∷ s) = elim (Bool-cases (x == a)) [
    | inl e ↦ rw (← eq_of_== x a e) (ground (arith, ==_refl x, contains-keep p x s))
    | inr e ↦ ground (arith, contains-keep p a s)
  ]

  pub contains-difference :
      (a : A) (xs ys : List A)
      → contains a (difference xs ys) ≡ (contains a xs && not (contains a ys))
  contains-difference a xs ys = contains-keep (λ x. not (contains x ys)) a xs

  pub contains-intersection :
      (a : A) (xs ys : List A) → contains a (intersection xs ys) ≡ (contains a xs && contains a ys)
  contains-intersection a xs ys = contains-keep (λ x. contains x ys) a xs

  pub contains-from_list : (a : A) (xs : List A) → contains a (from_list xs) ≡ contains a xs
  unfolding contains
  contains-from_list a xs = ground (arith, contains-extend a [] xs)

  pub is_empty_of_none : (s : List A) → ((a : A) → contains a s ≡ false) → s ≡ []
  unfolding contains
  is_empty_of_none [] h = refl
  is_empty_of_none (x ∷ s) h = ground (arith, h x, ==_refl x)

  pub contains-append :
      (a : A) (xs ys : List A) → contains a (xs ++ ys) ≡ (contains a xs || contains a ys)
  unfolding contains
  contains-append a [] ys = refl
  contains-append a (x ∷ xs) ys = ground (arith, contains-append a xs ys)

  -- A predicate of every member holds of every element.
  pub All-of_contains {κ} :
      (P : A → Type κ) (s : List A) → ((a : A) → contains a s ≡ true → P a) → All P s
  unfolding contains
  All-of_contains P [] h = tt
  All-of_contains P (x ∷ s) h =
      (h x (ground (arith, ==_refl x)), All-of_contains P s (λ a m. h a (ground arith)))

  pub length-insert-le : (a : A) (s : List A) → length (insert a s) ≤ suc (length s)
  unfolding insert
  length-insert-le a [] = omega arith
  length-insert-le a (x ∷ s) = ground (arith, length-insert-le a s)

  pub length-extend-le : (s xs : List A) → length (extend s xs) ≤ length s + length xs
  unfolding extend
  length-extend-le s [] = omega arith
  length-extend-le s (x ∷ xs) =
      omega (arith, length-extend-le (insert x s) xs, length-insert-le x s)
