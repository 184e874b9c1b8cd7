-- ===== src/Set/Sorted.antt =====
-- The representation invariant of a set: its list ascends strictly, so no element stands twice.
use mathlib.Core.Path.{ap₂}
use market_stream_gateway.Prelude.{
  ◌+◌, ◌≤◌, ◌≡◌, refl, Bool, true, false, not, ◌&&◌, List, [], ◌∷◌, arith, Order, ◌==◌, ==_refl,
  lt-ne, if◌then◌else◌, keep, All, All-map, All-keep, length, bit,
}
use market_stream_gateway.Set.{contains, insert, remove, extend, remove_all, count}
use market_stream_gateway.Set.Laws.{contains-insert}

module _ {ℓ} {A : Type ℓ} ⦃o : Order A⦄ where
  -- Every element of the list is greater than `a`.
  abbrev pub Above : A → List A → Type 0
  Above a = All (λ x. o.lt a x ≡ true)

  abbrev pub IsSorted : List A → Type 0
  IsSorted [] = Unit
  IsSorted (x ∷ xs) = Above x xs × IsSorted xs

  pub contains-Above : (a : A) (s : List A) → Above a s → contains a s ≡ false
  unfolding contains
  contains-Above a [] h = refl
  contains-Above a (x ∷ s) h = ground (arith, contains-Above a s h.1, o.beq_iff x a, o.lt_irrefl a)

  Above-trans : (a b : A) (s : List A) → o.lt a b ≡ true → Above b s → Above a s
  Above-trans a b s h k = All-map (λ x. o.lt_trans a b x h) s k

  Above-insert : (a b : A) (s : List A) → o.lt a b ≡ true → Above a s → Above a (insert b s)
  unfolding insert
  Above-insert a b [] h k = (h, tt)
  Above-insert a b (x ∷ s) h k = ground (arith, Above-insert a b s h k.1)

  pub insert-IsSorted : (a : A) (s : List A) → IsSorted s → IsSorted (insert a s)
  unfolding insert
  insert-IsSorted a [] h = (tt, tt)
  insert-IsSorted a (x ∷ s) h = ground (
    arith,
    insert-IsSorted a s h.1,
    Above-trans a x s,
    Above-insert x a s,
    o.lt_total a x,
    o.beq_iff x a,
    o.beq_iff a x,
  )

  Above-remove : (a b : A) (s : List A) → Above a s → Above a (remove b s)
  unfolding remove
  Above-remove a b [] h = tt
  Above-remove a b (x ∷ s) h = ground (arith, Above-remove a b s h.1)

  pub remove-IsSorted : (a : A) (s : List A) → IsSorted s → IsSorted (remove a s)
  unfolding remove
  remove-IsSorted a [] h = tt
  remove-IsSorted a (x ∷ s) h = ground (arith, remove-IsSorted a s h.1, Above-remove x a s h.0)

  pub extend-IsSorted : (s xs : List A) → IsSorted s → IsSorted (extend s xs)
  unfolding extend
  extend-IsSorted s [] h = h
  extend-IsSorted s (x ∷ xs) h = extend-IsSorted (insert x s) xs (insert-IsSorted x s h)

  pub remove_all-IsSorted : (s xs : List A) → IsSorted s → IsSorted (remove_all s xs)
  unfolding remove_all
  remove_all-IsSorted s [] h = h
  remove_all-IsSorted s (x ∷ xs) h = remove_all-IsSorted (remove x s) xs (remove-IsSorted x s h)

  pub keep-IsSorted : (p : A → Bool) (s : List A) → IsSorted s → IsSorted (keep p s)
  keep-IsSorted p [] h = tt
  keep-IsSorted p (x ∷ s) h =
      ground (arith, keep-IsSorted p s h.1, All-keep (λ y. o.lt x y ≡ true) p s h.0)

  pub contains-remove :
      (a b : A) (s : List A) → IsSorted s → contains b (remove a s) ≡ (contains b s && not (a == b))
  unfolding contains remove
  contains-remove a b [] h = refl
  contains-remove a b (x ∷ s) h = ground (
    arith,
    contains-remove a b s h.1,
    contains-Above x s h.0,
    o.beq_iff x a,
    o.beq_iff a b,
    o.beq_iff x b,
  )

  pub contains-remove_all :
      (b : A) (s xs : List A)
      → IsSorted s
      → contains b (remove_all s xs) ≡ (contains b s && not (contains b xs))
  unfolding contains remove_all
  contains-remove_all b s [] h = ground arith
  contains-remove_all b s (x ∷ xs) h = ground (
    arith,
    contains-remove_all b (remove x s) xs (remove-IsSorted x s h),
    contains-remove x b s h,
  )

  pub length-insert :
      (a : A) (s : List A) → IsSorted s → length (insert a s) ≡ length s + bit (not (contains a s))
  unfolding contains insert
  length-insert a [] h = omega arith
  length-insert a (x ∷ s) h = ground (
    arith,
    length-insert a s h.1,
    contains-Above a s,
    Above-trans a x s,
    o.beq_iff x a,
    o.lt_irrefl a,
  )

  pub count-insert :
      (p : A → Bool) (a : A) (s : List A)
      → IsSorted s
      → count p (insert a s) ≡ count p s + (if contains a s then 0 else bit (p a))
  unfolding contains insert count
  count-insert p a [] h = omega arith
  count-insert p a (x ∷ s) h = ground (
    arith,
    count-insert p a s h.1,
    contains-Above a s,
    Above-trans a x s,
    o.beq_iff x a,
    o.lt_irrefl a,
  )

  pub count-remove-le : (p : A → Bool) (a : A) (s : List A) → count p (remove a s) ≤ count p s
  unfolding remove count
  count-remove-le p a [] = omega arith
  count-remove-le p a (x ∷ s) = ground (arith, count-remove-le p a s)

  pub length-remove-le : (a : A) (s : List A) → length (remove a s) ≤ length s
  unfolding remove
  length-remove-le a [] = omega arith
  length-remove-le a (x ∷ s) = ground (arith, length-remove-le a s)

  pub length-remove_all-le : (s xs : List A) → length (remove_all s xs) ≤ length s
  unfolding remove_all
  length-remove_all-le s [] = omega arith
  length-remove_all-le s (x ∷ xs) =
      omega (arith, length-remove_all-le (remove x s) xs, length-remove-le x s)

  -- Elements that are new and distinct all count.
  pub length-extend :
      (s xs : List A)
      → IsSorted s
      → IsSorted xs
      → All (λ x. contains x s ≡ false) xs
      → length (extend s xs) ≡ length s + length xs
  unfolding extend
  length-extend s [] hs hx new = omega arith
  length-extend s (x ∷ xs) hs hx new = omega (
    arith,
    length-extend (insert x s) xs (insert-IsSorted x s hs) hx.1 (still xs hx.0 new.1),
    length-insert x s hs,
    (let e : bit (not (contains x s)) ≡ 1 = rw new.0 in e),
  )
    where
      still :
          (ys : List A)
          → Above x ys
          → All (λ y. contains y s ≡ false) ys
          → All (λ y. contains y (insert x s) ≡ false) ys
      still [] a n = tt
      still (y ∷ ys) a n =
          (ground (arith, contains-insert x y s, lt-ne x y a.0, n.0), still ys a.1 n.1)

  -- Two sets with the same members have the same first element,
  same_head :
      (x y : A) (s t : List A)
      → Above x s
      → Above y t
      → ((a : A) → contains a (x ∷ s) ≡ contains a (y ∷ t))
      → x ≡ y
  unfolding contains
  same_head x y s t hs ht e = ground (
    arith,
    e x,
    e y,
    o.beq_iff x y,
    o.beq_iff y x,
    o.beq_iff x x,
    o.beq_iff y y,
    o.lt_total x y,
    contains-Above x t,
    contains-Above y s,
    Above-trans x y t,
    Above-trans y x s,
  )

  -- and so they are the same list.
  pub set_ext :
      (s t : List A) → IsSorted s → IsSorted t → ((a : A) → contains a s ≡ contains a t) → s ≡ t
  unfolding contains
  set_ext [] [] hs ht e = refl
  set_ext [] (y ∷ t) hs ht e = ground (arith, e y, ==_refl y)
  set_ext (x ∷ s) [] hs ht e = ground (arith, e x, ==_refl x)
  set_ext (x ∷ s) (y ∷ t) hs ht e =
      let first = same_head x y s t hs.0 ht.0 e in
      ap₂ ◌∷◌ first (
        set_ext s t hs.1 ht.1 λ a. ground (
          arith,
          first,
          e a,
          o.beq_iff x a,
          o.beq_iff y a,
          contains-Above x s hs.0,
          contains-Above y t ht.0,
        ))
