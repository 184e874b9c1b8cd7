-- ===== src/Prelude/Ordered.antt =====
-- The derived `Eq` and `Ord` of the program's key types, as an interface with its laws: numbers,
-- tuples and texts compare lexicographically, and a record compares as the tuple of its fields.
use Prim.Native.Nat.{ℕ}
use mathlib.Core.Path.{◌≡◌, refl, ap}
use mathlib.Core.Logic.{◌↔◌}
use mathlib.Core.Bool.{Bool, true, false, ◌&&◌, ◌||◌}
use mathlib.Core.List.{List, [], ◌∷◌}
use native.Mathlib.Omega.{arith}
use market_stream_gateway.Prelude.Tests.{ltb, eqb, eqb_iff}

pub record Order {ℓ} (A : Type ℓ) : Type ℓ where
  pub beq : A → A → Bool
  pub lt : A → A → Bool
  pub beq_iff : (a b : A) → (beq a b ≡ true) ↔ (a ≡ b)
  pub lt_irrefl : (a : A) → lt a a ≡ false
  pub lt_trans : (a b c : A) → lt a b ≡ true → lt b c ≡ true → lt a c ≡ true
  pub lt_total : (a b : A) → lt a b ≡ false → beq a b ≡ false → lt b a ≡ true

infix 50 ◌==◌
abbrev pub ◌==◌ {ℓ} : {A : Type ℓ} ⦃o : Order A⦄ → A → A → Bool
◌==◌ ⦃o⦄ = o.beq

module _ {ℓ} {A : Type ℓ} ⦃o : Order A⦄ where
  pub ==_refl : (a : A) → (a == a) ≡ true
  ==_refl a = (o.beq_iff a a).1 refl

  pub eq_of_== : (a b : A) → (a == b) ≡ true → a ≡ b
  eq_of_== a b h = (o.beq_iff a b).0 h

  pub ==_comm : (a b : A) → (a == b) ≡ (b == a)
  ==_comm a b = ground (arith, o.beq_iff a b, o.beq_iff b a)

  pub lt-ne : (a b : A) → o.lt a b ≡ true → (a == b) ≡ false
  lt-ne a b h = ground (arith, o.beq_iff a b, o.lt_irrefl a)

pub nat_lt_trans : (a b c : ℕ) → ltb a b ≡ true → ltb b c ≡ true → ltb a c ≡ true
nat_lt_trans a b c h k = ground arith

pub nat_lt_irrefl : (a : ℕ) → ltb a a ≡ false
nat_lt_irrefl a = ground arith

pub nat_lt_total : (a b : ℕ) → ltb a b ≡ false → eqb a b ≡ false → ltb b a ≡ true
nat_lt_total a b h k = ground arith

instance abbrev pub nat_order : Order ℕ
nat_order = record {
  beq = eqb;
  lt = ltb;
  beq_iff = eqb_iff;
  lt_irrefl = nat_lt_irrefl;
  lt_trans = nat_lt_trans;
  lt_total = nat_lt_total;
}

module _ {ℓ κ} {A : Type ℓ} {B : Type κ} ⦃a : Order A⦄ ⦃b : Order B⦄ where
  abbrev pub pair_beq : A × B → A × B → Bool
  pair_beq x y = a.beq x.0 y.0 && b.beq x.1 y.1

  abbrev pub pair_lt : A × B → A × B → Bool
  pair_lt x y = a.lt x.0 y.0 || (a.beq x.0 y.0 && b.lt x.1 y.1)

  pub pair_beq_iff : (x y : A × B) → (pair_beq x y ≡ true) ↔ (x ≡ y)
  pair_beq_iff x y = ground (arith, a.beq_iff x.0 y.0, b.beq_iff x.1 y.1)

  pub pair_lt_irrefl : (x : A × B) → pair_lt x x ≡ false
  pair_lt_irrefl x = ground (arith, a.lt_irrefl x.0, b.lt_irrefl x.1)

  pub pair_lt_trans : (x y z : A × B) → pair_lt x y ≡ true → pair_lt y z ≡ true → pair_lt x z ≡ true
  pair_lt_trans x y z h k = ground (
    arith,
    a.lt_trans x.0 y.0 z.0,
    b.lt_trans x.1 y.1 z.1,
    a.beq_iff x.0 y.0,
    a.beq_iff y.0 z.0,
    a.beq_iff x.0 z.0,
  )

  pub pair_lt_total :
      (x y : A × B) → pair_lt x y ≡ false → pair_beq x y ≡ false → pair_lt y x ≡ true
  pair_lt_total x y h k =
      ground (arith, a.lt_total x.0 y.0, b.lt_total x.1 y.1, a.beq_iff x.0 y.0, a.beq_iff y.0 x.0)

  instance abbrev pub pair_order : Order (A × B)
  pair_order = record {
    beq = pair_beq;
    lt = pair_lt;
    beq_iff = pair_beq_iff;
    lt_irrefl = pair_lt_irrefl;
    lt_trans = pair_lt_trans;
    lt_total = pair_lt_total;
  }

-- Texts are the lists of their code points: UTF-8 keeps the order of code points.
abbrev pub text_beq : List ℕ → List ℕ → Bool
text_beq [] [] = true
text_beq [] (y ∷ ys) = false
text_beq (x ∷ xs) [] = false
text_beq (x ∷ xs) (y ∷ ys) = eqb x y && text_beq xs ys

abbrev pub text_lt : List ℕ → List ℕ → Bool
text_lt [] [] = false
text_lt [] (y ∷ ys) = true
text_lt (x ∷ xs) [] = false
text_lt (x ∷ xs) (y ∷ ys) = ltb x y || (eqb x y && text_lt xs ys)

pub text_beq_iff : (xs ys : List ℕ) → (text_beq xs ys ≡ true) ↔ (xs ≡ ys)
text_beq_iff [] [] = ground arith
text_beq_iff [] (y ∷ ys) = ground arith
text_beq_iff (x ∷ xs) [] = ground arith
text_beq_iff (x ∷ xs) (y ∷ ys) = ground (arith, text_beq_iff xs ys)

pub text_lt_irrefl : (xs : List ℕ) → text_lt xs xs ≡ false
text_lt_irrefl [] = refl
text_lt_irrefl (x ∷ xs) = ground (arith, text_lt_irrefl xs)

pub text_lt_trans :
    (xs ys zs : List ℕ) → text_lt xs ys ≡ true → text_lt ys zs ≡ true → text_lt xs zs ≡ true
text_lt_trans [] [] zs h k = k
text_lt_trans [] (y ∷ ys) [] h k = k
text_lt_trans [] (y ∷ ys) (z ∷ zs) h k = refl
text_lt_trans (x ∷ xs) [] zs h k = cc
text_lt_trans (x ∷ xs) (y ∷ ys) [] h k = k
text_lt_trans (x ∷ xs) (y ∷ ys) (z ∷ zs) h k = ground (arith, text_lt_trans xs ys zs)

pub text_lt_total :
    (xs ys : List ℕ) → text_lt xs ys ≡ false → text_beq xs ys ≡ false → text_lt ys xs ≡ true
text_lt_total [] [] h k = cc
text_lt_total [] (y ∷ ys) h k = cc
text_lt_total (x ∷ xs) [] h k = refl
text_lt_total (x ∷ xs) (y ∷ ys) h k = ground (arith, text_lt_total xs ys)

instance abbrev pub text_order : Order (List ℕ)
text_order = record {
  beq = text_beq;
  lt = text_lt;
  beq_iff = text_beq_iff;
  lt_irrefl = text_lt_irrefl;
  lt_trans = text_lt_trans;
  lt_total = text_lt_total;
}

-- The order of a type that an injection carries into an ordered one.
module _ {ℓ κ} {A : Type ℓ} {B : Type κ} (f : A → B) where
  abbrev pub order_by : Order B → ((a b : A) → f a ≡ f b → a ≡ b) → Order A
  order_by o injective = record {
    beq = λ a b. o.beq (f a) (f b);
    lt = λ a b. o.lt (f a) (f b);
    beq_iff = λ a b.
        (λ h. injective a b ((o.beq_iff (f a) (f b)).0 h), λ e. (o.beq_iff (f a) (f b)).1 (ap f e));
    lt_irrefl = λ a. o.lt_irrefl (f a);
    lt_trans = λ a b c. o.lt_trans (f a) (f b) (f c);
    lt_total = λ a b. o.lt_total (f a) (f b);
  }
