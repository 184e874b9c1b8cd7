-- ===== src/Gateway/Limits.antt =====
-- src/gateway.rs: `ProviderLimits`.
use market_stream_gateway.Prelude.{ℕ, min, ◌≤◌, ◌≡◌, refl, List, [], ◌∷◌, Option, none, some, arith}
use market_stream_gateway.Map.{lookup, get_or, or_else}
use market_stream_gateway.Domain.Identity.{Provider, provider_order}

pub record ProviderLimits : Type 0 where
  pub limits : List (Provider × ℕ)
  pub fallback : ℕ

unfoldable pub uniform : ℕ → ProviderLimits
uniform limit = record { limits = []; fallback = limit }

abbrev pub cap_all : ℕ → List (Provider × ℕ) → List (Provider × ℕ)
cap_all ceiling [] = []
cap_all ceiling ((p, n) ∷ m) = (p, min n ceiling) ∷ cap_all ceiling m

unfoldable pub capped_at : ProviderLimits → ℕ → ProviderLimits
capped_at l ceiling = record {
  limits = cap_all ceiling l.limits;
  fallback = min l.fallback ceiling;
}

unfoldable pub limit_for : ProviderLimits → Provider → ℕ
limit_for l p = get_or l.fallback p l.limits

-- `Iterator::min` over the values.
abbrev pub min_of : List (Provider × ℕ) → Option ℕ
min_of [] = none
min_of ((p, n) ∷ m) = elim (min_of m) [ none ↦ some n | some k ↦ some (min n k) ]

unfoldable pub minimum : ProviderLimits → ℕ
minimum l = or_else l.fallback (min_of l.limits)

-- There is a number, and it is at most `n`.
abbrev AtMost : ℕ → Option ℕ → Type 0
AtMost n none = ⊥
AtMost n (some k) = k ≤ n

min_of-AtMost :
    (p : Provider) (m : List (Provider × ℕ)) (n : ℕ) → lookup p m ≡ some n → AtMost n (min_of m)
unfolding lookup
min_of-AtMost p [] n h = cc
min_of-AtMost p ((q, v) ∷ m) n h = ground (arith, min_of-AtMost p m n)

-- The uniform ceiling of the `hello` frame is at most the ceiling of every provider that has one of
-- its own.
pub minimum-le-limit_for :
    (l : ProviderLimits) (p : Provider) (n : ℕ)
    → lookup p l.limits ≡ some n
    → minimum l ≤ limit_for l p
unfolding minimum limit_for
minimum-le-limit_for l p n h = ground (arith, min_of-AtMost p l.limits n h)

lookup-cap_all :
    (c : ℕ) (p : Provider) (m : List (Provider × ℕ))
    → lookup p (cap_all c m) ≡ elim (lookup p m) [ none ↦ none | some n ↦ some (min n c) ]
unfolding lookup
lookup-cap_all c p [] = refl
lookup-cap_all c p ((q, v) ∷ m) = ground (arith, lookup-cap_all c p m)

-- The ceiling of a provider after `capped_at` is the smaller of its ceiling before and the cap.
pub limit_for-capped_at :
    (l : ProviderLimits) (c : ℕ) (p : Provider)
    → limit_for (capped_at l c) p ≡ min (limit_for l p) c
unfolding limit_for capped_at
limit_for-capped_at l c p = ground (arith, lookup-cap_all c p l.limits)
