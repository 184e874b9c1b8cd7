-- ===== src/Gateway/Registry/Tally.antt =====
-- src/gateway.rs: the state of the counting loops in `add` and `decrement_references`.
use market_stream_gateway.Prelude.{ℕ, ◌≢◌, some}
use market_stream_gateway.Set.Sorted.{IsSorted}
use market_stream_gateway.Map.{lookup, get_or, Distinct}
use market_stream_gateway.Domain.Identity.{SubscriptionKey, key_order}
use market_stream_gateway.Gateway.Registry.{Counting}

abbrev pub tally : Counting → SubscriptionKey → ℕ
tally s k = get_or 0 k s.counts

-- The maps and sets of the state are well formed, and no key is kept at a count of zero.
pub record IsSound (s : Counting) : Type 0 where
  pub distinct : Distinct s.counts
  pub positive : (k : SubscriptionKey) → lookup k s.counts ≢ some 0
  pub sorted : IsSorted s.wanted
