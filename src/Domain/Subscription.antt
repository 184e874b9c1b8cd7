-- ===== src/Domain/Subscription.antt =====
-- src/domain.rs: a client's subscription and its expansion into keys.
use market_stream_gateway.Prelude.{
  ℕ, Bool, List, [], ◌∷◌, map, Order, ◌==◌, if◌then◌else◌, is_empty, Result, ok, ◌>>=◌, ◌>>◌,
  refuse_if,
}
use market_stream_gateway.Text.{Text}
use market_stream_gateway.Domain.Identity.{
  Provider, MarketKind, Channel, SubscriptionKey, channel_order,
}
use market_stream_gateway.Domain.Symbol.{DomainError, no_channels, normalize_symbol}

pub record Subscription : Type 0 where
  pub provider : Provider
  pub market : MarketKind
  pub symbol : Text
  pub channels : List Channel

module _ {ℓ} {A : Type ℓ} ⦃o : Order A⦄ where
  -- `sort_unstable`, of values that equality cannot tell apart.
  unfoldable pub sort_insert : A → List A → List A
  sort_insert a [] = a ∷ []
  sort_insert a (x ∷ xs) = if o.lt x a then x ∷ sort_insert a xs else a ∷ x ∷ xs

  unfoldable pub sort : List A → List A
  sort [] = []
  sort (x ∷ xs) = sort_insert x (sort xs)

  -- `Vec::dedup`, behind a kept element.
  unfoldable pub dedup_from : A → List A → List A
  dedup_from x [] = []
  dedup_from x (y ∷ ys) = if y == x then dedup_from x ys else y ∷ dedup_from y ys

  unfoldable pub dedup : List A → List A
  unfolding dedup_from
  dedup [] = []
  dedup (x ∷ xs) = x ∷ dedup_from x xs

module _ (wide : ℕ → Bool) where
  -- `SubscriptionKey::new`.
  unfoldable pub new_key :
      Provider → MarketKind → Text → Channel → Result SubscriptionKey DomainError
  new_key p m s c = do
    symbol ← normalize_symbol wide s
    ok (record { provider = p; market = m; symbol = symbol; channel = c })

  -- `Subscription::into_keys`.
  unfoldable pub into_keys : Subscription → Result (List SubscriptionKey) DomainError
  into_keys sub = do
    refuse_if (is_empty sub.channels) no_channels
    symbol ← normalize_symbol wide sub.symbol
    ok (
        map
          (λ c. record {
            provider = sub.provider;
            market = sub.market;
            symbol = symbol;
            channel = c;
          })
          (dedup (sort sub.channels)))
