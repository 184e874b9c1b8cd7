-- ===== src/Runtime/Handling.antt =====
-- src/runtime.rs: what acknowledgements do to the readiness of a connection, and which keys an
-- endpoint serves.
use market_stream_gateway.Prelude.{
  ℕ, ◌+◌, ◌<◌, ◌≡◌, Bool, false, ◌&&◌, ◌||◌, List, none, some, arith, eqb, if◌then◌else◌, ◌==◌,
  Result, ok,
}
use market_stream_gateway.Text.{Text}
use market_stream_gateway.Set.{contains}
use market_stream_gateway.Set.Laws.{contains-keep}
use market_stream_gateway.Domain.Identity.{
  Provider, Channel, SubscriptionKey, provider_order, key_order,
}
use market_stream_gateway.Health.{EndpointKind, endpoint_order}
use market_stream_gateway.Runtime.Commands.{CommandError, acknowledge}
use market_stream_gateway.Runtime.Commands.Invariant.{Inv, acknowledge-Inv}
use market_stream_gateway.Runtime.Commands.Progress.{
  work, remaining, acknowledge-Acknowledged, readiness_complete-work,
}
use market_stream_gateway.Runtime.Frames.{
  Progress, acknowledged, handle_processed_frame, filter_desired,
}

pub record Handled (now timeout : ℕ) (s : Progress) (o : Progress × Result Bool CommandError)
    : Type 0 where
  pub succeeds : o.1 ≡ ok false
  pub works : work o.0.commands + 1 ≡ work s.commands
  pub is_live : o.0.is_live ≡ (s.is_live || eqb (work s.commands) 1)
  pub deadline : o.0.deadline ≡ (if eqb (work s.commands) 1 then none else some (now + timeout))

-- On a connection whose command state keeps its invariant, an awaited acknowledgement succeeds and
-- takes one from the work left; the connection is live from then on, and its acknowledgement
-- deadline cleared, exactly when that was the last of the work, and otherwise the deadline starts
-- anew.
pub handle_processed_frame-Handled :
    (now timeout : ℕ) (s : Progress) (id : Text)
    → Inv s.commands
    → 0 < remaining id s.commands
    → Handled now timeout s (handle_processed_frame now timeout s (acknowledged id))
unfolding handle_processed_frame
handle_processed_frame-Handled now timeout s id v h =
    let done = acknowledge-Acknowledged s.commands id v in
    let succeeds = done.expected h in
    let works = done.works h in
    let ready =
      readiness_complete-work (acknowledge s.commands id).0 (acknowledge-Inv s.commands v id) in
    record {
      succeeds = ground (arith, succeeds);
      works = ground (arith, succeeds, works);
      is_live = ground (arith, succeeds, works, ready);
      deadline = ground (arith, succeeds, works, ready);
    }

-- An endpoint serves exactly the desired keys of its provider whose channel belongs to it.
pub filter_desired-contains :
    (p : Provider) (endpoint_for : Channel → EndpointKind) (endpoint : EndpointKind)
    (snapshot : List SubscriptionKey) (k : SubscriptionKey)
    → contains k (filter_desired p endpoint_for endpoint snapshot)
      ≡ (contains k snapshot && (k.provider == p && endpoint_for k.channel == endpoint))
unfolding filter_desired
filter_desired-contains p endpoint_for endpoint snapshot k =
    contains-keep (λ j. j.provider == p && endpoint_for j.channel == endpoint) k snapshot
