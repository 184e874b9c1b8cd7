-- ===== src/Api/Searches.antt =====
-- src/api.rs: what `find` and `find_map` over keys find.
use market_stream_gateway.Prelude.{
  Bool, ◌≡◌, sym, ap, ◌∙◌, true, false, List, [], ◌∷◌, none, some, arith, Bool-cases, Result-cases,
  inl, inr, Result, err, All, find, ==_refl, Order,
}
use market_stream_gateway.Set.{contains}
use market_stream_gateway.Api.Commands.{first_error}

module _ {A : Type 0} ⦃o : Order A⦄ where
  contains-head : (a : A) (others : List A) → contains a (a ∷ others) ≡ true
  unfolding contains
  contains-head a others = ground (arith, ==_refl a)

  contains-tail :
      (a b : A) (others : List A) → contains a others ≡ true → contains a (b ∷ others) ≡ true
  unfolding contains
  contains-tail a b others h = ground (arith, h)

  pub find-eq-some :
      (p : A → Bool) (all : List A) (a : A)
      → find p all ≡ some a
      → (contains a all ≡ true) × (p a ≡ true)
  find-eq-some p [] a h = cc
  find-eq-some p (b ∷ others) a h = elim (Bool-cases (p b)) [
    | inl e ↦
        (let same : b ≡ a = ground (arith, e) in
          (
            ap (λ x. contains x (b ∷ others)) (sym same) ∙ contains-head b others,
            ap p (sym same) ∙ e,
          ))
    | inr e ↦
        (let (there, passes) = find-eq-some p others a (ground (arith, e)) in
          (contains-tail a b others there, passes))
  ]

  pub find-eq-none : (p : A → Bool) (all : List A) → find p all ≡ none → All (λ a. p a ≡ false) all
  find-eq-none p [] h = tt
  find-eq-none p (a ∷ others) h = elim (Bool-cases (p a)) [
    | inl e ↦ ground (arith, e)
    | inr e ↦ (e, find-eq-none p others (ground (arith, e)))
  ]

  pub first_error-eq-some :
      {B E : Type 0} (f : A → Result B E) (all : List A) (e : E)
      → first_error f all ≡ some e
      → (a : A) × (contains a all ≡ true) × (f a ≡ err e)
  first_error-eq-some f [] e h = cc
  first_error-eq-some f (a ∷ others) e h = elim (Result-cases (f a)) [
    | inl (x, q) ↦
        (let same : x ≡ e = ground (arith, q, h) in (a, contains-head a others, q ∙ ap err same))
    | inr (i, q) ↦
        (let (b, there, fails) = first_error-eq-some f others e (ground (arith, q, h)) in
          (b, contains-tail b a others there, fails))
  ]
