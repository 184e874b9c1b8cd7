-- ===== src/Prelude/Results.antt =====
-- `Result<A, E>` with `?` as `do`, and the saturating arithmetic of `usize` and `u64`.
use Prim.Native.Nat.{ℕ, ◌+◌, ◌<◌}
use mathlib.Core.Path.{◌≡◌, refl}
use mathlib.Core.Bool.{Bool, true, false}
use mathlib.Core.Logic.{◌⊎◌, inl, inr}
use native.Mathlib.Omega.{arith}
use market_stream_gateway.Prelude.Tests.{ltb, if◌then◌else◌}

pub data Result {ℓ κ} (A : Type ℓ) (E : Type κ) : Type (ℓ ⊔ κ) where
  ok : A → Result A E
  err : E → Result A E

-- `?` with what follows it, on a value and on `()`.
infixl 5 ◌>>=◌ ◌>>◌
abbrev pub ◌>>=◌ {ℓ κ ι} :
    {E : Type ι} {A : Type ℓ} {B : Type κ} → Result A E → (next : A → Result B E) → Result B E
err failure >>= next = err failure
ok value >>= next = next value

abbrev pub ◌>>◌ {ℓ ι} :
    {E : Type ι} {B : Type ℓ} → Result (Unit {0}) E → (next : Result B E) → Result B E
done >> next = done >>= (λ u. next)

-- `if test { return Err(e) }`.
abbrev pub refuse_if {ι} : {E : Type ι} (test : Bool) (failure : E) → Result (Unit {0}) E
refuse_if false failure = ok tt
refuse_if true failure = err failure

-- A chain that gives a value gave one at its first link.
pub >>=-eq-ok {ℓ κ ι} :
    {A : Type ℓ} {B : Type κ} {E : Type ι} (first : Result A E) (next : A → Result B E) {last : B}
    → (first >>= next) ≡ ok last
    → (value : A) × (first ≡ ok value) × (next value ≡ ok last)
>>=-eq-ok (err failure) next h = cc
>>=-eq-ok (ok value) next h = (value, refl, h)

pub refuse_if-eq-ok {ι} :
    {E : Type ι} (b : Bool) (e : E) {u : Unit {0}} → refuse_if b e ≡ ok u → b ≡ false
refuse_if-eq-ok true e h = cc
refuse_if-eq-ok false e h = refl

-- `u64::MAX`, which is `usize::MAX` on the 64-bit targets of the build.
abbrev pub max_u64 : ℕ
max_u64 = 0xffff_ffff_ffff_ffff

pub refuse_if->>-eq-ok {ℓ ι} :
    {E : Type ι} {B : Type ℓ} (b : Bool) (e : E) (next : Result B E) {last : B}
    → (refuse_if b e >> next) ≡ ok last
    → next ≡ ok last
refuse_if->>-eq-ok true e next h = cc
refuse_if->>-eq-ok false e next h = h

-- `n.saturating_add(1)`.
unfoldable pub saturating_suc : ℕ → ℕ
saturating_suc n = if ltb n max_u64 then n + 1 else max_u64

pub saturating_suc_lem : (n : ℕ) → n < max_u64 → saturating_suc n ≡ n + 1
unfolding saturating_suc
saturating_suc_lem n h = ground arith

pub Result-cases {ℓ κ} :
    {A : Type ℓ} {E : Type κ} (r : Result A E) → ((e : E) × (r ≡ err e)) ⊎ ((a : A) × (r ≡ ok a))
Result-cases (err e) = inl (e, refl)
Result-cases (ok a) = inr (a, refl)

pub saturating_suc_pos : (n : ℕ) → 0 < saturating_suc n
unfolding saturating_suc
saturating_suc_pos n = ground arith
