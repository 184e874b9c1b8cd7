-- ===== src/Tests/Commands.antt =====
-- src/runtime.rs: a connection that asks for one subscription and waits for two acknowledgements.
use market_stream_gateway.Prelude.{◌≤◌, ◌≡◌, refl, true, [], ◌∷◌, arith, eqb, text_order}
use market_stream_gateway.Set
use market_stream_gateway.Map
use market_stream_gateway.Text.{Text}
use market_stream_gateway.Runtime.Commands.{
  OutboundCommand, CommandState, no_commands, enqueue, has_queued, pop_front, mark_sent, send_next,
  acknowledge, readiness_complete,
}
use market_stream_gateway.Runtime.Commands.Invariant.{
  Inv, no_commands-Inv, enqueue-Inv, send_next-Inv,
}
use market_stream_gateway.Runtime.Commands.Progress.{
  work, remaining, Acknowledged, Turns, send, acknowledged, still, turn, acknowledge-Acknowledged,
  Turns-readiness,
}

abbrev id : Text
id = 49 ∷ []

abbrev command : OutboundCommand
command = record { request_id = id; text = 123 ∷ []; expected_acknowledgements = 2 }

abbrev waiting : CommandState
waiting = (enqueue no_commands (command ∷ [])).0

waiting-Inv : Inv waiting
waiting-Inv = enqueue-Inv (command ∷ []) no_commands no_commands-Inv (omega arith, tt)

abbrev sent : CommandState
sent = (send_next waiting).0

sent-Inv : Inv sent
sent-Inv = send_next-Inv waiting waiting-Inv

sent-remaining : remaining id sent ≡ 2
unfolding enqueue send_next pop_front mark_sent Map.insert Map.lookup Set.contains
sent-remaining = refl

waiting_queued : has_queued waiting ≡ true
unfolding enqueue has_queued Set.contains
waiting_queued = refl

two-Turns : Turns 2 waiting (acknowledge sent id).0
two-Turns =
    turn (send waiting waiting_queued)
      (turn (acknowledged sent id (omega (arith, sent-remaining))) (still (acknowledge sent id).0))

acknowledge-Acknowledged_example : Acknowledged sent id (acknowledge sent id)
acknowledge-Acknowledged_example = acknowledge-Acknowledged sent id sent-Inv

Turns-readiness_example :
    (2 ≤ work waiting) × (readiness_complete (acknowledge sent id).0 ≡ eqb 2 (work waiting))
Turns-readiness_example = Turns-readiness 2 waiting (acknowledge sent id).0 waiting-Inv two-Turns
