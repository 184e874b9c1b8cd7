-- ===== src/Runtime/Supervisor.antt =====
-- src/runtime.rs: what `supervise_endpoint` keeps between two connections: the backoff, in
-- nanoseconds, and the health of the endpoint. `saturating_mul` stops at `Duration::MAX`, which no
-- largest backoff exceeds, so the `min` that follows hides it.
use market_stream_gateway.Prelude.{
  ℕ, ◌*◌, ◌≤◌, Bool, Option, none, some, arith, if◌then◌else◌, min, Result, ok, err, saturating_suc,
}
use market_stream_gateway.Text.{Text, text}
use market_stream_gateway.Health.{EndpointHealth, idle, connecting, backoff, stopped}

pub data ConnectionExit : Type 0 where
  no_demand rotation : ConnectionExit

unfoldable pub on_connecting : EndpointHealth → EndpointHealth
on_connecting h = record h {
  state = connecting;
  connection_epoch = none;
  connected_at_ms = none;
  last_event_at_ms = none;
  last_error = none;
}

unfoldable pub on_disconnected : Text → EndpointHealth → EndpointHealth
on_disconnected error h = record h {
  state = backoff;
  reconnects = saturating_suc h.reconnects;
  connection_epoch = none;
  connected_at_ms = none;
  last_event_at_ms = none;
  last_error = some error;
}

unfoldable pub on_stopped : EndpointHealth → EndpointHealth
on_stopped h = record h {
  state = stopped;
  connection_epoch = none;
  connected_at_ms = none;
  last_event_at_ms = none;
}

unfoldable pub on_idle : EndpointHealth → EndpointHealth
on_idle h = record h {
  state = idle;
  connection_epoch = none;
  connected_at_ms = none;
  last_event_at_ms = none;
  last_error = none;
}

module _ (backoff_min backoff_max : ℕ) where
  -- After a connection: the longest wait, if there is one, and the next backoff. `stable` tells
  -- whether the connection lasted.
  unfoldable pub after_connection : Bool → Result ConnectionExit Text → ℕ → Option ℕ × ℕ
  after_connection stable (ok no_demand) current = (none, backoff_min)
  after_connection stable (ok rotation) current =
      let base = if stable then backoff_min else current in (some base, min (base * 2) backoff_max)
  after_connection stable (err e) current =
      let base = if stable then backoff_min else current in (some base, min (base * 2) backoff_max)

  -- What is recorded of a connection that did not end for want of demand.
  unfoldable pub disconnect_reason : Result ConnectionExit Text → Option Text
  disconnect_reason (ok no_demand) = none
  disconnect_reason (ok rotation) = some (text "planned connection rotation")
  disconnect_reason (err e) = some e

  abbrev pub WaitWithin : Option ℕ → Type 0
  WaitWithin none = Unit
  WaitWithin (some n) = (backoff_min ≤ n) × (n ≤ backoff_max)

  -- From a backoff within the configured bounds, whatever the connection ended with, the longest
  -- wait and the next backoff are within those bounds.
  pub after_connection-WaitWithin :
      (stable : Bool) (exit : Result ConnectionExit Text) (current : ℕ)
      → backoff_min ≤ current
      → current ≤ backoff_max
      → WaitWithin (after_connection stable exit current).0
        × (backoff_min ≤ (after_connection stable exit current).1)
        × ((after_connection stable exit current).1 ≤ backoff_max)
  unfolding after_connection
  after_connection-WaitWithin stable (ok no_demand) current low high = ground arith
  after_connection-WaitWithin stable (ok rotation) current low high = ground arith
  after_connection-WaitWithin stable (err e) current low high = ground arith
