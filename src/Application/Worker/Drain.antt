-- ===== src/Application/Worker/Drain.antt =====
-- `OrderedWorker._drain` and `run`: the loop over the batches of the queue, group by group.
use rolebot_hse.Base.{
  ℕ, ◌+◌, String, Bool, true, false, Option, none, some, List, [], ◌∷◌, ◌++◌, ◌==◌, ◌!=◌, string_eq,
  mem, keep_if, if◌then◌else◌,
}
use rolebot_hse.Base.Order.{nat_order}
use rolebot_hse.Base.Sort.{sort_by}
use rolebot_hse.Errors.{Result, ok, err, Error}
use rolebot_hse.Domain.Enums.{Operation, operation_eq}
use rolebot_hse.Domain.Command.{queue_group_id}
use rolebot_hse.Application.Worker.{QueueEnvelope, World, Services}
use rolebot_hse.Application.Worker.Handle.{handle}

-- What a call of `receive` comes to: a batch, which may be empty, an exception, or the end of the
-- time that the run has.
pub data Poll : Type 0 where
  batch : List QueueEnvelope → Poll
  raised : Error → Poll
  expired : Poll

-- The variables of the loop. `attempts` records the commands that were handled, in order, and
-- whether the handling returned; a command that is skipped leaves no attempt.
pub record Loop (S : Type 0) : Type 0 where
  pub world : World S
  pub pending_receipts : List String
  pub failed_groups : List String
  pub processed : ℕ
  pub retryable_error : Option Error
  pub attempts : List (QueueEnvelope × Bool)

abbrev pub group_of : QueueEnvelope → String
group_of raw = queue_group_id raw.command

-- `envelopes.sort(key=...)`: False is smaller than True.
abbrev pub is_background : QueueEnvelope → ℕ
is_background raw = if raw.command.operation == Operation.sync_profile then 1 else 0

unfoldable pub in_order : List QueueEnvelope → List QueueEnvelope
in_order envelopes = sort_by is_background envelopes

-- `pending_receipts.add` for each envelope of a batch
unfoldable pub add_receipts : List QueueEnvelope → List String → List String
add_receipts [] pending = pending
add_receipts (raw ∷ rest) pending =
    add_receipts rest
      (if mem raw.receipt_handle pending then pending else raw.receipt_handle ∷ pending)

-- `if retryable_error is None: retryable_error = exc`
abbrev pub first_error : Option Error → Error → Option Error
first_error none e = some e
first_error (some d) e = some d

module _ {S : Type 0} (services : Services S) where
  abbrev pub conclude : QueueEnvelope → Loop S → Result (Unit {0}) × World S → Loop S
  conclude raw l (ok _, w) = record l {
    world = w;
    pending_receipts = keep_if (λ r. r != raw.receipt_handle) l.pending_receipts;
    processed = l.processed + 1;
    attempts = l.attempts ++ (raw, true) ∷ [];
  }
  conclude raw l (err e, w) = record l {
    world = w;
    failed_groups = group_of raw ∷ l.failed_groups;
    retryable_error = first_error l.retryable_error e;
    attempts = l.attempts ++ (raw, false) ∷ [];
  }

  -- The body of the loop over a batch.
  unfoldable pub serve_one : QueueEnvelope → Loop S → Loop S
  unfolding handle
  serve_one raw l =
      if mem (group_of raw) l.failed_groups then l else conclude raw l (handle services raw l.world)

  unfoldable pub serve : List QueueEnvelope → Loop S → Loop S
  unfolding serve_one
  serve [] l = l
  serve (raw ∷ rest) l = serve rest (serve_one raw l)

  abbrev pub with_receipts : List QueueEnvelope → Loop S → Loop S
  with_receipts envelopes l = record l {
    pending_receipts = add_receipts envelopes l.pending_receipts;
  }

  abbrev pub outcome : Loop S → Result ℕ
  outcome l = elim l.retryable_error [ some e ↦ err e | none ↦ ok l.processed ]

  -- `_drain`, over what the calls of `receive` come to, in order. Where these end, the time is up.
  unfoldable pub drain : List Poll → Loop S → Result ℕ × Loop S
  unfolding serve in_order add_receipts
  drain [] l = (outcome l, l)
  drain (Poll.batch [] ∷ polls) l = (outcome l, l)
  drain (Poll.batch (raw ∷ rest) ∷ polls) l =
      drain polls (serve (in_order (raw ∷ rest)) (with_receipts (raw ∷ rest) l))
  drain (Poll.raised e ∷ polls) l = (err e, l)
  drain (Poll.expired ∷ polls) l = (err Error.runtime_error, l)

  abbrev pub first_loop : World S → Loop S
  first_loop w = record {
    world = w;
    pending_receipts = [];
    failed_groups = [];
    processed = 0;
    retryable_error = none;
    attempts = [];
  }

  -- `run`: the last part is the receipts that the `finally` releases, each of which may fail.
  unfoldable pub run : List Poll → World S → Result ℕ × (Loop S × List String)
  unfolding drain
  run polls w = let r = drain polls (first_loop w) in (r.0, (r.1, r.1.pending_receipts))
