-- ===== src/Api/Server.antt =====
-- src/api.rs: the state that the sessions share, and how they refuse a command.
use market_stream_gateway.Prelude.{ℕ, ◌+◌, List, Option}
use market_stream_gateway.Text.{Text}
use market_stream_gateway.Domain.Identity.{Provider}
use market_stream_gateway.Gateway.Registry.{Registry}
use market_stream_gateway.Gateway.Hub.{Hub}
use market_stream_gateway.Catalog.Store.{Catalog}
use market_stream_gateway.Health.{HealthRegistry}
use market_stream_gateway.Api.Protocol.{ControlMessage, ErrorCode, error_message}

-- The counters and gauges of `Metrics` that the sessions and requests move.
pub record Counters : Type 0 where
  pub downstream_connections : ℕ
  pub downstream_lagged : ℕ
  pub downstream_commands_rejected : ℕ
  pub history_requests : ℕ
  pub history_failures : ℕ

pub record AppState : Type 0 where
  pub hub : Hub
  pub subscriptions : Registry
  pub health : HealthRegistry
  pub metrics : Counters
  pub catalog : Catalog
  -- Permits left of the semaphore.
  pub history_slots : ℕ
  pub enabled_providers : List Provider
  pub allowed_origins : List Text
  pub max_command_bytes : ℕ

-- `state.metrics.downstream_commands_rejected.inc()`.
abbrev pub count_rejected : AppState → AppState
count_rejected state = record state {
  metrics = record (state.metrics) {
    downstream_commands_rejected = state.metrics.downstream_commands_rejected + 1;
  };
}

unfoldable pub rejected_reply :
    AppState → Option Text → ErrorCode → Text → AppState × ControlMessage
rejected_reply state id code message = (count_rejected state, error_message id code message)
