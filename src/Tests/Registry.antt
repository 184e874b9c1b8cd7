-- ===== src/Tests/Registry.antt =====
-- src/gateway.rs: the registry on two keys and two clients.
use mathlib.Core.List.{Perm}
use mathlib.Core.List.Perm
use market_stream_gateway.Prelude.{
  ℕ, ◌≤◌, ◌≡◌, nat_order, refl, List, [], ◌∷◌, some, arith, length, ltb,
}
use market_stream_gateway.Set.{contains, count}
use market_stream_gateway.Map.{lookup}
use market_stream_gateway.Domain.Identity.{
  Provider, SubscriptionKey, provider_order, key_order, bybit, okx, linear_perpetual, ticker,
  candle_1m,
}
use market_stream_gateway.Gateway.Limits.{ProviderLimits, limit_for}
use market_stream_gateway.Gateway.Registry.{
  Registry, with_provider_limits, client_keys, reference_count, add, remove,
}
use market_stream_gateway.Gateway.Registry.Totals.{of_provider}
use market_stream_gateway.Gateway.Registry.Invariant.{Inv, Fits, holders, with_provider_limits-Inv}
use market_stream_gateway.Gateway.Registry.Adding.{add-Inv}
use market_stream_gateway.Gateway.Registry.Effects.{Outcome, add-Outcome}
use market_stream_gateway.Gateway.Registry.Releases.{Released, remove-Released}
use market_stream_gateway.Gateway.Registry.Runs.{
  Reach, fresh, next, adds, Reach-demand, Reach-limits,
}

abbrev bybit_ticker : SubscriptionKey
bybit_ticker = record {
  provider = bybit;
  market = linear_perpetual;
  symbol = 66 ∷ 84 ∷ 67 ∷ [];
  channel = ticker;
}

abbrev okx_candle : SubscriptionKey
okx_candle = record {
  provider = okx;
  market = linear_perpetual;
  symbol = 69 ∷ 84 ∷ 72 ∷ [];
  channel = candle_1m;
}

abbrev two_keys : List SubscriptionKey
two_keys = okx_candle ∷ bybit_ticker ∷ []

abbrev two_limits : ProviderLimits
two_limits = record { limits = (okx, 3) ∷ []; fallback = 9 }

abbrev as_stored : List (Provider × ℕ) → List (Provider × ℕ)
as_stored t = t

as_stored-Perm : (t : List (Provider × ℕ)) → Perm (as_stored t) t
as_stored-Perm t = Perm.refl t

abbrev empty : Registry
empty = with_provider_limits 2 two_limits

empty-Inv : Inv empty
empty-Inv = with_provider_limits-Inv 2 two_limits

empty-Fits : Fits empty two_keys
unfolding with_provider_limits
empty-Fits = record { few_clients = omega arith; few_keys = omega arith }

abbrev filled : Registry
filled = (add as_stored empty 7 two_keys).0

filled-Inv : Inv filled
filled-Inv = add-Inv as_stored as_stored-Perm empty 7 two_keys empty-Inv empty-Fits

filled-Reach : Reach as_stored 2 two_limits filled
filled-Reach = next fresh (adds 7 two_keys empty-Fits)

add-Outcome_example : Outcome empty 7 two_keys (add as_stored empty 7 two_keys)
add-Outcome_example = add-Outcome as_stored as_stored-Perm empty 7 two_keys empty-Inv empty-Fits

remove-Released_example :
    Released filled 7
      (okx_candle ∷ [])
      (remove filled 7 (okx_candle ∷ [])).0
      (remove filled 7 (okx_candle ∷ [])).1
remove-Released_example = remove-Released filled 7 (okx_candle ∷ []) filled-Inv

Reach-demand_example :
    (reference_count filled okx_candle ≡ holders okx_candle filled.clients)
    × (contains okx_candle filled.published ≡ ltb 0 (holders okx_candle filled.clients))
Reach-demand_example =
    Reach-demand as_stored as_stored-Perm 2 two_limits filled okx_candle filled-Reach

Reach-limits_example :
    (length (client_keys filled 7) ≤ 2)
    × (count (of_provider okx) filled.published ≤ limit_for two_limits okx)
Reach-limits_example = Reach-limits as_stored as_stored-Perm 2 two_limits filled 7 okx filled-Reach

okx_limit : lookup okx two_limits.limits ≡ some 3
unfolding lookup
okx_limit = refl
