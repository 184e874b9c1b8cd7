-- ===== src/Domain/Identity.antt =====
-- src/domain.rs: providers, markets, channels and the identity of one subscription, with the
-- derived order of their fields.
use market_stream_gateway.Prelude.{
  ℕ, ◌≡◌, refl, ◌++◌, Order, order_by, nat_order, pair_order, text_order, arith,
}
use market_stream_gateway.Text.{Text, text}

pub data Provider : Type 0 where
  bybit binance okx kucoin mexc bingx : Provider

pub data MarketKind : Type 0 where
  linear_perpetual : MarketKind

pub data Channel : Type 0 where
  ticker candle_1m : Channel

pub record SubscriptionKey : Type 0 where
  pub provider : Provider
  pub market : MarketKind
  pub symbol : Text
  pub channel : Channel

-- The discriminants, by which the derived order compares.
abbrev pub provider_rank : Provider → ℕ
provider_rank bybit = 0
provider_rank binance = 1
provider_rank okx = 2
provider_rank kucoin = 3
provider_rank mexc = 4
provider_rank bingx = 5

abbrev pub market_rank : MarketKind → ℕ
market_rank linear_perpetual = 0

abbrev pub channel_rank : Channel → ℕ
channel_rank ticker = 0
channel_rank candle_1m = 1

pub provider_rank-injective : (a b : Provider) → provider_rank a ≡ provider_rank b → a ≡ b
provider_rank-injective a b h = ground arith

pub channel_rank-injective : (a b : Channel) → channel_rank a ≡ channel_rank b → a ≡ b
channel_rank-injective a b h = ground arith

pub market_rank-injective : (a b : MarketKind) → market_rank a ≡ market_rank b → a ≡ b
market_rank-injective linear_perpetual linear_perpetual h = refl

instance abbrev pub provider_order : Order Provider
provider_order = order_by provider_rank nat_order provider_rank-injective

instance abbrev pub market_order : Order MarketKind
market_order = order_by market_rank nat_order market_rank-injective

instance abbrev pub channel_order : Order Channel
channel_order = order_by channel_rank nat_order channel_rank-injective

-- A key as the tuple of its fields, in the order of declaration.
abbrev pub fields : SubscriptionKey → ℕ × (ℕ × (Text × ℕ))
fields k = (provider_rank k.provider, (market_rank k.market, (k.symbol, channel_rank k.channel)))

pub fields-injective : (a b : SubscriptionKey) → fields a ≡ fields b → a ≡ b
fields-injective a b h = ground (
  arith,
  provider_rank-injective a.provider b.provider,
  market_rank-injective a.market b.market,
  channel_rank-injective a.channel b.channel,
)

instance abbrev pub key_order : Order SubscriptionKey
key_order = order_by fields pair_order fields-injective

-- `impl Display`.
unfoldable pub provider_name : Provider → Text
provider_name bybit = text "bybit"
provider_name binance = text "binance"
provider_name okx = text "okx"
provider_name kucoin = text "kucoin"
provider_name mexc = text "mexc"
provider_name bingx = text "bingx"

unfoldable pub market_name : MarketKind → Text
market_name linear_perpetual = text "linear_perpetual"

unfoldable pub channel_name : Channel → Text
channel_name ticker = text "ticker"
channel_name candle_1m = text "candle_1m"

-- `format!("{provider}:{market}:{symbol}")`, as `SubscriptionKey::instrument_id` and
-- `ProviderEvent::into_market_event` write it.
unfoldable pub instrument_id : Provider → MarketKind → Text → Text
unfolding provider_name market_name
instrument_id p m s = provider_name p ++ text ":" ++ market_name m ++ text ":" ++ s
