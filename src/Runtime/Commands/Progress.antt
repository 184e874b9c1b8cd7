-- ===== src/Runtime/Commands/Progress.antt =====
-- src/runtime.rs: what each `CommandState` method gives, and how many sends and acknowledgements
-- stand between a state and its readiness.
use market_stream_gateway.Prelude.{
  ℕ, suc, ◌+◌, ◌≤◌, ◌<◌, ◌≡◌, ◌≢◌, refl, ap, ◌∙◌, Bool, true, false, not, ◌&&◌, ◌||◌, List, [], ◌∷◌,
  ◌++◌, none, some, arith, eqb, ==_refl, Option-cases, Bool-cases, List-cases, inl, inr, is_empty,
  length, ok, err, text_order,
}
use market_stream_gateway.Text.{Text}
use market_stream_gateway.Set
use market_stream_gateway.Set.{contains}
use market_stream_gateway.Set.Laws.{contains-insert}
use market_stream_gateway.Map.{lookup, total, weight}
use market_stream_gateway.Map.Laws.{lookup-insert, lookup-remove, total-insert, total-remove}
use market_stream_gateway.Runtime.Commands.{
  OutboundCommand, CommandState, Done, enqueue, has_queued, pop_front, mark_sent, acknowledge,
  readiness_complete, send_next, wrapping_pred, unexpected_acknowledgement,
}
use market_stream_gateway.Runtime.Commands.Invariant.{
  Inv, in_queue, send_next-Inv, acknowledge-Inv, sent-ok, wrapping_pred_lem,
}

-- The acknowledgements that queued commands will ask for.
abbrev pub queued_acknowledgements : List OutboundCommand → ℕ
queued_acknowledgements [] = 0
queued_acknowledgements (c ∷ cs) = c.expected_acknowledgements + queued_acknowledgements cs

-- What is left to do: commands to send, and acknowledgements to receive for all commands.
abbrev pub work : CommandState → ℕ
work s = length s.queued + queued_acknowledgements s.queued + total (λ n. n) s.pending

-- Are the request ids present, new, and all different?
abbrev pub acceptable : List Text → List OutboundCommand → Bool
acceptable known [] = true
acceptable known (c ∷ cs) =
    not (is_empty c.request_id)
    && not (contains c.request_id known)
    && not (in_queue c.request_id cs)
    && acceptable known cs

acceptable-insert :
    (id : Text) (known : List Text) (cs : List OutboundCommand)
    → acceptable (Set.insert id known) cs ≡ (acceptable known cs && not (in_queue id cs))
acceptable-insert id known [] = ground arith
acceptable-insert id known (c ∷ cs) = ground (
  arith,
  acceptable-insert id known cs,
  contains-insert id c.request_id known,
  text_order.beq_iff id c.request_id,
  text_order.beq_iff c.request_id id,
)

pub record Enqueued (s : CommandState) (cs : List OutboundCommand) (o : CommandState × Done)
    : Type 0 where
  pub accepts : acceptable s.known_request_ids cs ≡ true → o.1 ≡ ok tt
  pub rejects : acceptable s.known_request_ids cs ≡ false → o.1 ≢ ok tt
  pub appends : o.1 ≡ ok tt → o.0.queued ≡ s.queued ++ cs
  pub keeps : o.0.pending ≡ s.pending

append_assoc : (xs ys zs : List OutboundCommand) → (xs ++ ys) ++ zs ≡ xs ++ (ys ++ zs)
append_assoc [] ys zs = refl
append_assoc (x ∷ xs) ys zs = ap (λ r. x ∷ r) (append_assoc xs ys zs)

append-nil : (xs : List OutboundCommand) → xs ≡ xs ++ []
append-nil [] = refl
append-nil (x ∷ xs) = ap (λ r. x ∷ r) (append-nil xs)

-- `enqueue` succeeds exactly on commands whose request ids are present, unknown so far and all
-- different, and then appends them to the queue in order; it never touches what is pending.
pub enqueue-Enqueued : (cs : List OutboundCommand) (s : CommandState) → Enqueued s cs (enqueue s cs)
unfolding enqueue
enqueue-Enqueued [] s = record {
  accepts = λ h. refl;
  rejects = λ h. ground arith;
  appends = λ h. append-nil s.queued;
  keeps = refl;
}
enqueue-Enqueued (c ∷ cs) s =
    let next = enqueue-Enqueued cs (record s {
      queued = s.queued ++ c ∷ [];
      known_request_ids = Set.insert c.request_id s.known_request_ids;
    }) in
    let fresh = acceptable-insert c.request_id s.known_request_ids cs in
    elim (Bool-cases (is_empty c.request_id)) [
      | inl e ↦
          rw (e, enqueue)
            (record {
              accepts = λ h. ground (arith, e);
              rejects = λ h. ground arith;
              appends = λ h. ground arith;
              keeps = refl;
            })
      | inr e ↦ elim (Bool-cases (contains c.request_id s.known_request_ids)) [
        | inl k ↦
            rw (e, k, enqueue)
              (record {
                accepts = λ h. ground (arith, e, k);
                rejects = λ h. ground arith;
                appends = λ h. ground arith;
                keeps = refl;
              })
        | inr k ↦
            rw (e, k, enqueue)
              (record {
                accepts = λ h. next.accepts (ground (arith, fresh, e, k));
                rejects = λ h. next.rejects (ground (arith, fresh, e, k));
                appends = λ h. next.appends h ∙ append_assoc s.queued (c ∷ []) cs;
                keeps = next.keeps;
              })
      ]
    ]

-- No acknowledgement is owed on an empty map, and some are on any other.
zero_total :
    (m : List (Text × ℕ))
    → ((id : Text) (n : ℕ) → lookup id m ≡ some n → 0 < n)
    → eqb (total (λ n. n) m) 0 ≡ is_empty m
unfolding total lookup
zero_total [] h = refl
zero_total ((id, n) ∷ m) h = ground (arith, h id n, ==_refl id)

-- On command state that keeps its invariant, the connection is ready exactly when no command is
-- left to send and no acknowledgement to receive.
pub readiness_complete-work : (s : CommandState) → Inv s → readiness_complete s ≡ eqb (work s) 0
unfolding readiness_complete
readiness_complete-work s v = elim (List-cases s.queued) [
  | inl e ↦
      rw (e, readiness_complete)
        (ground (arith, zero_total s.pending (λ id n h. (v.awaited id n h).0)))
  | inr (c, rest, e) ↦ rw (e, readiness_complete) (ground arith)
]

mark_sent-total :
    (s : CommandState) (id : Text) (n : ℕ)
    → lookup id s.pending ≡ none
    → total (λ k. k) (mark_sent s id n).0.pending ≡ total (λ k. k) s.pending + n
unfolding mark_sent
mark_sent-total s id n e =
    ground (arith, total-insert (λ k. k) id n s.pending, ap (weight (λ k. k)) e)

mark_sent-queued : (s : CommandState) (id : Text) (n : ℕ) → (mark_sent s id n).0.queued ≡ s.queued
unfolding mark_sent
mark_sent-queued s id n = ground arith

pub record Sent (s : CommandState) (o : CommandState × Done) : Type 0 where
  pub succeeds : o.1 ≡ ok tt
  pub works : has_queued s ≡ true → work o.0 + 1 ≡ work s
  pub rests : has_queued s ≡ false → o.0 ≡ s

-- On command state that keeps its invariant, a tick of the command pacer never fails: it sends the
-- first queued command, which is one unit of the work left, or changes nothing when no command is
-- queued.
pub send_next-Sent : (s : CommandState) → Inv s → Sent s (send_next s)
unfolding send_next pop_front has_queued
send_next-Sent s v = elim (List-cases s.queued) [
  | inl e ↦
      rw (e, send_next, pop_front)
        (record {
          succeeds = refl;
          works = λ h. ground (arith, e);
          rests = λ h. ap (λ q. record s { queued = q }) e;
        })
  | inr (c, rest, e) ↦
      rw (e, send_next, pop_front)
        (record {
          succeeds = sent-ok s c rest v e;
          works = λ h. ground (
            arith,
            mark_sent-total (record s { queued = rest }) c.request_id c.expected_acknowledgements
                (v.apart c.request_id (
                  ap (in_queue c.request_id) e
                  ∙ ap (λ b. b || in_queue c.request_id rest) (==_refl c.request_id))),
            ap length (
                mark_sent-queued (record s { queued = rest }) c.request_id
                  c.expected_acknowledgements),
            ap queued_acknowledgements (
                mark_sent-queued (record s { queued = rest }) c.request_id
                  c.expected_acknowledgements),
            ap length e,
            ap queued_acknowledgements e,
          );
          rests = λ h. ground (arith, e);
        })
]

-- The acknowledgements that an id still waits for.
abbrev pub remaining : Text → CommandState → ℕ
remaining id s = weight (λ n. n) (lookup id s.pending)

pub record Acknowledged (s : CommandState) (id : Text) (o : CommandState × Done) : Type 0 where
  pub expected : 0 < remaining id s → o.1 ≡ ok tt
  pub unexpected : remaining id s ≡ 0 → o ≡ (s, err (unexpected_acknowledgement id))
  pub counts : 0 < remaining id s → remaining id o.0 + 1 ≡ remaining id s
  pub others : (j : Text) → j ≢ id → remaining j o.0 ≡ remaining j s
  pub works : 0 < remaining id s → work o.0 + 1 ≡ work s

-- On command state that keeps its invariant, an acknowledgement of an id that waits for one
-- succeeds, takes one from what that id waits for and from the work left, and touches no other id;
-- one of any other id is refused as unexpected and changes nothing.
pub acknowledge-Acknowledged :
    (s : CommandState) (id : Text) → Inv s → Acknowledged s id (acknowledge s id)
unfolding acknowledge
acknowledge-Acknowledged s id v = elim (Option-cases (lookup id s.pending)) [
  | inl e ↦
      rw (e, acknowledge)
        (record {
          expected = λ h. ground (arith, e);
          unexpected = λ h. refl;
          counts = λ h. ground (arith, e);
          others = λ j h. refl;
          works = λ h. ground (arith, e);
        })
  | inr (n, e) ↦ elim (Bool-cases (eqb (wrapping_pred n) 0)) [
    | inl last ↦
        rw (e, acknowledge)
          (rw last (record {
            expected = λ h. refl;
            unexpected = λ h. ground (arith, e, v.awaited id n e);
            counts = λ h. ground (
              arith,
              e,
              wrapping_pred_lem n (v.awaited id n e).0 (v.awaited id n e).1,
              lookup-remove id id s.pending v.distinct,
              ==_refl id,
            );
            others = λ j h.
                ground (arith, lookup-remove id j s.pending v.distinct, text_order.beq_iff id j);
            works = λ h. ground (
              arith,
              e,
              wrapping_pred_lem n (v.awaited id n e).0 (v.awaited id n e).1,
              total-remove (λ k. k) id s.pending,
            );
          }))
    | inr more ↦
        rw (e, acknowledge)
          (rw more (record {
            expected = λ h. refl;
            unexpected = λ h. ground (arith, e, v.awaited id n e);
            counts = λ h. ground (
              arith,
              e,
              wrapping_pred_lem n (v.awaited id n e).0 (v.awaited id n e).1,
              lookup-insert id id (wrapping_pred n) s.pending,
              ==_refl id,
            );
            others = λ j h.
                ground
                  (arith, lookup-insert id j (wrapping_pred n) s.pending, text_order.beq_iff id j);
            works = λ h. ground (
              arith,
              e,
              wrapping_pred_lem n (v.awaited id n e).0 (v.awaited id n e).1,
              total-insert (λ k. k) id (wrapping_pred n) s.pending,
            );
          }))
  ]
]

-- What the loop of a connection does to the commands while no new ones come.
pub data Turn : CommandState → CommandState → Type 0 where
  send : (s : CommandState) → has_queued s ≡ true → Turn s (send_next s).0
  acknowledged : (s : CommandState) (id : Text) → 0 < remaining id s → Turn s (acknowledge s id).0

pub data Turns : ℕ → CommandState → CommandState → Type 0 where
  still : (s : CommandState) → Turns 0 s s
  turn : {n : ℕ} {s t u : CommandState} → Turn s t → Turns n t u → Turns (suc n) s u

Turn-Inv : (s t : CommandState) → Turn s t → Inv s → Inv t × (work t + 1 ≡ work s)
Turn-Inv _ _ (send s h) v = (send_next-Inv s v, (send_next-Sent s v).works h)
Turn-Inv _ _ (acknowledged s id h) v =
    (acknowledge-Inv s v id, (acknowledge-Acknowledged s id v).works h)

Turns-Inv : (n : ℕ) (s t : CommandState) → Turns n s t → Inv s → Inv t × (n + work t ≡ work s)
Turns-Inv _ _ _ (still s) v = (v, omega arith)
Turns-Inv _ _ _ (turn {n} {s} {t} {u} h rest) v =
    let first = Turn-Inv s t h v in
    let more = Turns-Inv n t u rest first.0 in (more.0, omega (arith, first.1, more.1))

-- From command state that keeps its invariant, any sequence of sends and awaited acknowledgements
-- has at most `work` turns, and the state is ready with turn number `work` and no earlier.
pub Turns-readiness :
    (n : ℕ) (s t : CommandState)
    → Inv s
    → Turns n s t
    → (n ≤ work s) × (readiness_complete t ≡ eqb n (work s))
Turns-readiness n s t v h =
    let end = Turns-Inv n s t h v in
    (omega (arith, end.1), ground (arith, end.1, readiness_complete-work t end.0))

-- A state that is not ready has a turn to take.
pub next-Turn :
    (s : CommandState) → Inv s → readiness_complete s ≡ false → (t : CommandState) × Turn s t
unfolding readiness_complete has_queued lookup
next-Turn s v h = elim (Bool-cases (has_queued s)) [
  | inl q ↦ ((send_next s).0, send s q)
  | inr q ↦ elim (List-cases s.pending) [
    | inl e ↦ absurd (ground (arith, q, h, ap is_empty e))
    | inr ((id, n), rest, e) ↦ (
      (acknowledge s id).0,
      acknowledged s id (ground (arith, v.awaited id n, ap (lookup id) e, ==_refl id)),
    )
  ]
]
