-- ===== src/Api/Protocol.antt =====
-- src/protocol.rs: the commands of a client and the frames it is sent.
use market_stream_gateway.Prelude.{ℕ, List, Option}
use market_stream_gateway.Text.{Text}
use market_stream_gateway.Domain.Identity.{SubscriptionKey}
use market_stream_gateway.Domain.Subscription.{Subscription}
use market_stream_gateway.Domain.Event.{schema_version}
use market_stream_gateway.Gateway.Limits.{ProviderLimits, minimum}

pub data ClientCommand : Type 0 where
  subscribe : (request_id : Text) (subscriptions : List Subscription) → ClientCommand
  unsubscribe : (request_id : Text) (subscriptions : List Subscription) → ClientCommand
  ping : (request_id : Text) → ClientCommand

-- `ClientCommand::request_id`.
unfoldable pub request_id : ClientCommand → Text
request_id (subscribe id s) = id
request_id (unsubscribe id s) = id
request_id (ping id) = id

pub data ErrorCode : Type 0 where
  invalid_json invalid_command limit_exceeded unsupported_subscription lagged internal : ErrorCode

-- Each frame begins with the schema version.
pub data ControlMessage : Type 0 where
  hello :
      (version : ℕ) (stream_epoch : Text) (max_subscriptions max_provider_subscriptions : ℕ)
      → ControlMessage
  ack :
      (version : ℕ) (request_id operation : Text) (subscriptions : List SubscriptionKey)
      → ControlMessage
  error :
      (version : ℕ) (request_id : Option Text) (code : ErrorCode) (message : Text) → ControlMessage
  pong : (version : ℕ) (request_id : Text) → ControlMessage
  gap : (version dropped_messages : ℕ) (message : Text) → ControlMessage

-- `ControlMessage::hello`.
unfoldable pub hello_message : Text → ℕ → ProviderLimits → ControlMessage
hello_message epoch max limits = hello schema_version epoch max (minimum limits)

-- `ControlMessage::error`.
unfoldable pub error_message : Option Text → ErrorCode → Text → ControlMessage
error_message id code message = error schema_version id code message
