-- ===== src/Runtime/Commands.antt =====
-- src/runtime.rs: `CommandState`, the outbound commands of one connection. A method that fails
-- leaves what it changed before: state and result are returned side by side.
pub mod Invariant
pub mod Progress
use market_stream_gateway.Prelude.{
  ℕ, ◌+◌, ◌-◌, ◌%◌, ◌≡◌, Bool, true, false, not, ◌&&◌, List, [], ◌∷◌, ◌++◌, Option, none, some, eqb,
  if◌then◌else◌, is_empty, Result, ok, err, text_order, max_u64, map,
}
use market_stream_gateway.Text.{Text}
use market_stream_gateway.Set
use market_stream_gateway.Map
use market_stream_gateway.Map.{lookup}

-- src/providers/mod.rs; the queued command of the runtime has the same fields.
pub record OutboundCommand : Type 0 where
  pub request_id : Text
  pub text : Text
  pub expected_acknowledgements : ℕ

-- `pending` holds the acknowledgements that remain, by request id.
pub record CommandState : Type 0 where
  pub queued : List OutboundCommand
  pub pending : List (Text × ℕ)
  pub known_request_ids : List Text

pub data CommandError : Type 0 where
  invalid_outbound_command : CommandError
  duplicate_outbound_request_id : Text → CommandError
  unexpected_acknowledgement : Text → CommandError

abbrev pub Done : Type 0
Done = Result (Unit {0}) CommandError

abbrev pub no_commands : CommandState
no_commands = record { queued = []; pending = []; known_request_ids = [] }

unfoldable pub enqueue : CommandState → List OutboundCommand → CommandState × Done
enqueue s [] = (s, ok tt)
enqueue s (c ∷ commands) =
    let rest =
      enqueue
        (record s {
          queued = s.queued ++ c ∷ [];
          known_request_ids = Set.insert c.request_id s.known_request_ids;
        })
        commands in
    if is_empty c.request_id
    then (s, err invalid_outbound_command)
    else if Set.contains c.request_id s.known_request_ids
    then (s, err (duplicate_outbound_request_id c.request_id))
    else rest

unfoldable pub has_queued : CommandState → Bool
has_queued s = not (is_empty s.queued)

unfoldable pub pop_front : CommandState → Option (OutboundCommand × CommandState)
pop_front s = elim s.queued [ [] ↦ none | c ∷ rest ↦ some (c, record s { queued = rest }) ]

unfoldable pub mark_sent : CommandState → Text → ℕ → CommandState × Done
mark_sent s id expected =
    if eqb expected 0
    then (record s { known_request_ids = Set.remove id s.known_request_ids }, ok tt)
    else (
      record s { pending = Map.insert id expected s.pending },
      elim (lookup id s.pending) [ none ↦ ok tt | some _ ↦ err (duplicate_outbound_request_id id) ],
    )

-- `n -= 1` on a `usize`, as a release build computes it.
abbrev pub wrapping_pred : ℕ → ℕ
wrapping_pred n = (n + max_u64) % (max_u64 + 1)

unfoldable pub acknowledge : CommandState → Text → CommandState × Done
acknowledge s id = elim (lookup id s.pending) [
  | none ↦ (s, err (unexpected_acknowledgement id))
  | some remaining ↦
      if eqb (wrapping_pred remaining) 0
      then (
        record s {
          pending = Map.remove id s.pending;
          known_request_ids = Set.remove id s.known_request_ids;
        },
        ok tt,
      )
      else (record s { pending = Map.insert id (wrapping_pred remaining) s.pending }, ok tt)
]

unfoldable pub readiness_complete : CommandState → Bool
readiness_complete s = is_empty s.queued && is_empty s.pending

-- One tick of the command pacer, `pop_front` and `mark_sent`, where the write succeeds.
unfoldable pub send_next : CommandState → CommandState × Done
send_next s = elim (pop_front s) [
  | none ↦ (s, ok tt)
  | some (c, rest) ↦ mark_sent rest c.request_id c.expected_acknowledgements
]
