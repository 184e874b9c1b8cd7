-- ===== src/Runtime/Commands/Invariant.antt =====
-- src/runtime.rs: the known request ids of a `CommandState` are those queued or pending, each once.
use market_stream_gateway.Prelude.{
  ℕ, ◌+◌, ◌≤◌, ◌<◌, ◌≡◌, refl, ap, Bool, true, false, ◌||◌, List, [], ◌∷◌, ◌++◌, none, some, arith,
  eqb, ◌==◌, ==_refl, Option-cases, Bool-cases, List-cases, subst, ◌∙◌, inl, inr, is_empty, ok,
  text_order, max_u64,
}
use market_stream_gateway.Text.{Text}
use market_stream_gateway.Set
use market_stream_gateway.Set.{contains}
use market_stream_gateway.Set.Laws.{contains-insert}
use market_stream_gateway.Set.Sorted.{IsSorted, insert-IsSorted, remove-IsSorted, contains-remove}
use market_stream_gateway.Map
use market_stream_gateway.Map.{lookup, Distinct, total}
use market_stream_gateway.Map.Laws.{lookup-insert, lookup-remove, insert-Distinct, remove-Distinct}
use market_stream_gateway.Domain.Payload.{is_some}
use market_stream_gateway.Runtime.Commands.{
  OutboundCommand, CommandState, no_commands, enqueue, pop_front, mark_sent, acknowledge, send_next,
  wrapping_pred,
}

-- Is a command with the id in the queue?
abbrev pub in_queue : Text → List OutboundCommand → Bool
in_queue id [] = false
in_queue id (c ∷ cs) = c.request_id == id || in_queue id cs

abbrev pub Unique : List OutboundCommand → Type 0
Unique [] = Unit
Unique (c ∷ cs) = (in_queue c.request_id cs ≡ false) × Unique cs

-- The counts are machine words.
abbrev pub Fits : List OutboundCommand → Type 0
Fits [] = Unit
Fits (c ∷ cs) = (c.expected_acknowledgements ≤ max_u64) × Fits cs

pub record Inv (s : CommandState) : Type 0 where
  pub unique : Unique s.queued
  pub fits : Fits s.queued
  pub distinct : Distinct s.pending
  pub sorted : IsSorted s.known_request_ids
  pub apart : (id : Text) → in_queue id s.queued ≡ true → lookup id s.pending ≡ none
  pub known :
      (id : Text)
      → contains id s.known_request_ids ≡ (in_queue id s.queued || is_some (lookup id s.pending))
  -- Acknowledgements that remain are at least one, and fit the machine word.
  pub awaited : (id : Text) (n : ℕ) → lookup id s.pending ≡ some n → (0 < n) × (n ≤ max_u64)

pub no_commands-Inv : Inv no_commands
unfolding contains lookup
no_commands-Inv = record {
  unique = tt;
  fits = tt;
  distinct = tt;
  sorted = tt;
  apart = λ id h. refl;
  known = λ id. refl;
  awaited = λ id n h. cc;
}

in_queue-append :
    (id : Text) (cs : List OutboundCommand) (c : OutboundCommand)
    → in_queue id (cs ++ c ∷ []) ≡ (in_queue id cs || c.request_id == id)
in_queue-append id [] c = ground arith
in_queue-append id (x ∷ cs) c = ground (arith, in_queue-append id cs c)

Unique-append :
    (cs : List OutboundCommand) (c : OutboundCommand)
    → Unique cs
    → in_queue c.request_id cs ≡ false
    → Unique (cs ++ c ∷ [])
Unique-append [] c u h = (refl, tt)
Unique-append (x ∷ cs) c u h = (
  ground (
    arith,
    in_queue-append x.request_id cs c,
    text_order.beq_iff x.request_id c.request_id,
    text_order.beq_iff c.request_id x.request_id,
  ),
  Unique-append cs c u.1 (ground arith),
)

Fits-append :
    (cs : List OutboundCommand) (c : OutboundCommand)
    → Fits cs
    → c.expected_acknowledgements ≤ max_u64
    → Fits (cs ++ c ∷ [])
Fits-append [] c f h = (h, tt)
Fits-append (x ∷ cs) c f h = (f.0, Fits-append cs c f.1 h)

pub wrapping_pred_lem : (n : ℕ) → 0 < n → n ≤ max_u64 → wrapping_pred n + 1 ≡ n
wrapping_pred_lem n low high = omega arith

module _ (s : CommandState) (v : Inv s) where
  pub push-Inv :
      (c : OutboundCommand)
      → contains c.request_id s.known_request_ids ≡ false
      → c.expected_acknowledgements ≤ max_u64
      → Inv (record s {
        queued = s.queued ++ c ∷ [];
        known_request_ids = Set.insert c.request_id s.known_request_ids;
      })
  push-Inv c new fit = record {
    unique = Unique-append s.queued c v.unique (ground (arith, v.known c.request_id));
    fits = Fits-append s.queued c v.fits fit;
    distinct = v.distinct;
    sorted = insert-IsSorted c.request_id s.known_request_ids v.sorted;
    apart = λ id h. ground (
      arith,
      in_queue-append id s.queued c,
      v.apart id,
      v.known id,
      text_order.beq_iff c.request_id id,
    );
    known = λ id. ground (
      arith,
      in_queue-append id s.queued c,
      contains-insert c.request_id id s.known_request_ids,
      v.known id,
    );
    awaited = v.awaited;
  }

  -- Forgetting an id that nothing holds but an entry of `pending`.
  last-Inv :
      (id : Text) (n : ℕ)
      → lookup id s.pending ≡ some n
      → Inv (record s {
        pending = Map.remove id s.pending;
        known_request_ids = Set.remove id s.known_request_ids;
      })
  last-Inv id n e = record {
    unique = v.unique;
    fits = v.fits;
    distinct = remove-Distinct id s.pending v.distinct;
    sorted = remove-IsSorted id s.known_request_ids v.sorted;
    apart = λ j h. ground (arith, lookup-remove id j s.pending v.distinct, v.apart j);
    known = λ j. ground (
      arith,
      lookup-remove id j s.pending v.distinct,
      contains-remove id j s.known_request_ids v.sorted,
      v.known j,
      v.apart j,
      e,
      text_order.beq_iff id j,
    );
    awaited = λ j m h. ground (arith, lookup-remove id j s.pending v.distinct, v.awaited j m);
  }

  -- A new count for an id that is no longer queued.
  await-Inv :
      (id : Text) (n : ℕ)
      → in_queue id s.queued ≡ false
      → contains id s.known_request_ids ≡ true
      → 0 < n
      → n ≤ max_u64
      → Inv (record s { pending = Map.insert id n s.pending })
  await-Inv id n free known low high = record {
    unique = v.unique;
    fits = v.fits;
    distinct = insert-Distinct id n s.pending v.distinct;
    sorted = v.sorted;
    apart =
        λ j h. ground (arith, lookup-insert id j n s.pending, v.apart j, text_order.beq_iff id j);
    known = λ j. ground (arith, lookup-insert id j n s.pending, v.known j, text_order.beq_iff id j);
    awaited = λ j m h. ground (arith, lookup-insert id j n s.pending, v.awaited j m);
  }

  pub acknowledge-Inv : (id : Text) → Inv (acknowledge s id).0
  unfolding acknowledge
  acknowledge-Inv id = elim (Option-cases (lookup id s.pending)) [
    | inl e ↦ rw (e, acknowledge) v
    | inr (n, e) ↦ elim (Bool-cases (eqb (wrapping_pred n) 0)) [
      | inl last ↦ rw (e, acknowledge) (rw last (last-Inv id n e))
      | inr more ↦
          rw (e, acknowledge)
            (rw more (
              await-Inv id (wrapping_pred n) (ground (arith, v.apart id))
                (ground (arith, v.known id))
                (ground (arith, wrapping_pred_lem n (v.awaited id n e).0 (v.awaited id n e).1))
                (ground (arith, wrapping_pred_lem n (v.awaited id n e).0 (v.awaited id n e).1))))
    ]
  ]

module _ (s : CommandState) (c : OutboundCommand) (rest : List OutboundCommand) (v : Inv s)
    (e : s.queued ≡ c ∷ rest) where
  -- The first command is known and not pending, and is not queued again.
  first_lem :
      (contains c.request_id s.known_request_ids ≡ true)
      × (lookup c.request_id s.pending ≡ none)
      × (in_queue c.request_id rest ≡ false)
      × Unique rest
      × (c.expected_acknowledgements ≤ max_u64)
      × Fits rest
  first_lem =
      let here : in_queue c.request_id s.queued ≡ true =
        ap (in_queue c.request_id) e
        ∙ ap (λ b. b || in_queue c.request_id rest) (==_refl c.request_id) in
      let unique : Unique (c ∷ rest) = subst Unique e v.unique in
      let fits : Fits (c ∷ rest) = subst Fits e v.fits in
      (
        ground (arith, v.known c.request_id, here),
        v.apart c.request_id here,
        unique.0,
        unique.1,
        fits.0,
        fits.1,
      )

  released-Inv :
      Inv (record s {
        queued = rest;
        known_request_ids = Set.remove c.request_id s.known_request_ids;
      })
  released-Inv = record {
    unique = first_lem.3;
    fits = first_lem.5;
    distinct = v.distinct;
    sorted = remove-IsSorted c.request_id s.known_request_ids v.sorted;
    apart = λ j h. ground (arith, ap (in_queue j) e, v.apart j);
    known = λ j. ground (
      arith,
      ap (in_queue j) e,
      contains-remove c.request_id j s.known_request_ids v.sorted,
      v.known j,
      first_lem,
      text_order.beq_iff c.request_id j,
    );
    awaited = v.awaited;
  }

  awaited-Inv :
      0 < c.expected_acknowledgements
      → Inv (record s {
        queued = rest;
        pending = Map.insert c.request_id c.expected_acknowledgements s.pending;
      })
  awaited-Inv low = record {
    unique = first_lem.3;
    fits = first_lem.5;
    distinct = insert-Distinct c.request_id c.expected_acknowledgements s.pending v.distinct;
    sorted = v.sorted;
    apart = λ j h. ground (
      arith,
      ap (in_queue j) e,
      lookup-insert c.request_id j c.expected_acknowledgements s.pending,
      v.apart j,
      first_lem,
      text_order.beq_iff c.request_id j,
    );
    known = λ j. ground (
      arith,
      ap (in_queue j) e,
      lookup-insert c.request_id j c.expected_acknowledgements s.pending,
      v.known j,
      text_order.beq_iff c.request_id j,
    );
    awaited = λ j m h. ground (
      arith,
      lookup-insert c.request_id j c.expected_acknowledgements s.pending,
      v.awaited j m,
      first_lem,
    );
  }

  pub sent-Inv :
      Inv (mark_sent (record s { queued = rest }) c.request_id c.expected_acknowledgements).0
  unfolding mark_sent
  sent-Inv = elim (Bool-cases (eqb c.expected_acknowledgements 0)) [
    | inl z ↦ rw (z, mark_sent) released-Inv
    | inr p ↦ rw (p, mark_sent) (awaited-Inv (ground arith))
  ]

  pub sent-ok :
      (mark_sent (record s { queued = rest }) c.request_id c.expected_acknowledgements).1 ≡ ok tt
  unfolding mark_sent
  sent-ok = ground (arith, first_lem)

pub send_next-Inv : (s : CommandState) → Inv s → Inv (send_next s).0
unfolding send_next pop_front
send_next-Inv s v = elim (List-cases s.queued) [
  | inl e ↦ rw (e, send_next, pop_front) v
  | inr (c, rest, e) ↦ rw (e, send_next, pop_front) (sent-Inv s c rest v e)
]

pub enqueue-Inv :
    (cs : List OutboundCommand) (s : CommandState) → Inv s → Fits cs → Inv (enqueue s cs).0
unfolding enqueue
enqueue-Inv [] s v f = v
enqueue-Inv (c ∷ cs) s v f = elim (Bool-cases (is_empty c.request_id)) [
  | inl e ↦ rw (e, enqueue) v
  | inr e ↦ elim (Bool-cases (contains c.request_id s.known_request_ids)) [
    | inl k ↦ rw (e, k, enqueue) v
    | inr k ↦ rw (e, k, enqueue) (enqueue-Inv cs _ (push-Inv s v c k f.0) f.1)
  ]
]
