-- ===== src/Domain/Event.antt =====
-- src/domain.rs: events, as an adapter makes them and as the hub publishes them.
use market_stream_gateway.Prelude.{ℕ, Option, eqb, ◌>>◌, refuse_if}
use market_stream_gateway.Text.{Text, text}
use market_stream_gateway.Domain.Identity.{Provider, MarketKind, SubscriptionKey, instrument_id}
use market_stream_gateway.Domain.Symbol.{invalid_market_data}
use market_stream_gateway.Domain.Payload.{
  MarketPayload, Decimals, Checked, payload_channel, validate_payload,
}

-- UUIDs as numbers.
abbrev pub Uuid : Type 0
Uuid = ℕ

pub record SourceSequence : Type 0 where
  pub first : Option Text
  pub last : Option Text
  pub previous : Option Text

pub record MarketEvent : Type 0 where
  pub schema_version : ℕ
  pub stream_epoch : Uuid
  pub delivery_sequence : ℕ
  pub connection_epoch : Uuid
  pub instrument_id : Text
  pub provider : Provider
  pub market : MarketKind
  pub symbol : Text
  pub exchange_time_ms : Option ℕ
  pub gateway_received_time_ms : ℕ
  pub source_sequence : Option SourceSequence
  pub payload : MarketPayload

pub record ProviderEvent : Type 0 where
  pub connection_epoch : Uuid
  pub provider : Provider
  pub market : MarketKind
  pub symbol : Text
  pub exchange_time_ms : Option ℕ
  pub gateway_received_time_ms : ℕ
  pub source_sequence : Option SourceSequence
  pub payload : MarketPayload

-- `SCHEMA_VERSION`.
abbrev pub schema_version : ℕ
schema_version = 1

-- `MarketEvent::subscription_key`.
unfoldable pub subscription_key : MarketEvent → SubscriptionKey
subscription_key e = record {
  provider = e.provider;
  market = e.market;
  symbol = e.symbol;
  channel = payload_channel e.payload;
}

-- The key that `process_text` looks up for a parsed event.
unfoldable pub provider_event_key : ProviderEvent → SubscriptionKey
provider_event_key e = record {
  provider = e.provider;
  market = e.market;
  symbol = e.symbol;
  channel = payload_channel e.payload;
}

unfoldable pub into_market_event : ProviderEvent → Uuid → ℕ → MarketEvent
into_market_event e stream_epoch delivery_sequence = record {
  schema_version = schema_version;
  stream_epoch = stream_epoch;
  delivery_sequence = delivery_sequence;
  connection_epoch = e.connection_epoch;
  instrument_id = instrument_id e.provider e.market e.symbol;
  provider = e.provider;
  market = e.market;
  symbol = e.symbol;
  exchange_time_ms = e.exchange_time_ms;
  gateway_received_time_ms = e.gateway_received_time_ms;
  source_sequence = e.source_sequence;
  payload = e.payload;
}

-- `ProviderEvent::validate`.
unfoldable pub validate_event : {D : Type 0} → Decimals D → ProviderEvent → Checked
validate_event dec e = do
  refuse_if (eqb e.gateway_received_time_ms 0)
      (invalid_market_data (text "gateway receive timestamp must be positive"))
  validate_payload dec e.payload
