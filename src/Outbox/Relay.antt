-- ===== src/Outbox/Relay.antt =====
-- internal/outbox/outbox.go: Enqueue, ProcessBatch and drain.
use go_api_scaffolding.Common.{
  ℕ, zero, suc, ◌+◌, Bool, true, false, ◌||◌, Bytes, List, [], ◌∷◌, ◌++◌, Option, none, some,
  length, ltb, ◌==◌, if◌then◌else◌,
}
use go_api_scaffolding.Errors.{
  canceled, Error, rejected, wrap, is, join_all, Result, ok, err, panic,
}
use go_api_scaffolding.Json.{Json}
use go_api_scaffolding.Db.{OutboxMessage, Session, M, pure, ◌>>=◌, ◌>>◌}
use go_api_scaffolding.Db.Queries.Outbox.{
  enqueue_outbox_message, fetch_unpublished_outbox, mark_outbox_published, record_outbox_failure,
}
use go_api_scaffolding.Tx.{within_tx}
use go_api_scaffolding.Outbox.Text.{storable_error}

pub record Message : Type 0 where
  pub id : ℕ
  pub aggregate_id : Bytes
  pub event_type : Bytes
  pub payload : Json

-- What Publish does with a message. A rejection comes with its text and with what ctx.Err() then
-- says: nothing, or the error of a context that has ended.
pub data Outcome : Type 0 where
  accepted : Outcome
  declined : Bytes → Option Error → Outcome
  panicked : Outcome

abbrev pub Publisher : Type 0
Publisher = Message → Outcome

unfoldable pub enqueue : Bytes → Bytes → Json → M (Unit {0})
enqueue aggregate_id event_type payload = enqueue_outbox_message aggregate_id event_type payload

abbrev pub message_of : OutboxMessage → Message
message_of row = record {
  id = row.id;
  aggregate_id = row.aggregate_id;
  event_type = row.event_type;
  payload = row.payload;
}

-- What a batch has done so far: the ids to mark, and the rejections.
abbrev pub Progress : Type 0
Progress = List ℕ × List Error

-- One round of the loop, by what the publisher did; `rest` are the rounds that follow. What the
-- publisher accepted stays accepted, whatever becomes of the transaction.
abbrev pub settle : Outcome → ℕ → (Progress → M Progress) → Progress → M Progress
settle accepted id rest (ids, failures) s =
    rest (ids ++ id ∷ [], failures) (record s { sent = id ∷ s.sent })
settle (declined msg (some e)) id rest (ids, failures) s = (err e, s)
settle (declined msg none) id rest (ids, failures) s =
    (record_outbox_failure (storable_error msg) id >>= λ attempts.
    rest (ids, failures ++ wrap "publish outbox message" (rejected msg) ∷ []))
      s
settle panicked id rest progress s = (panic, s)

unfoldable pub publish_rows : Publisher → List OutboxMessage → Progress → M Progress
publish_rows publisher [] progress = pure progress
publish_rows publisher (row ∷ rows) progress =
    settle (publisher (message_of row)) row.id (publish_rows publisher rows) progress

-- The ids are marked if there are any.
abbrev pub mark : Progress → M (ℕ × List Error)
mark ([], failures) = pure (0, failures)
mark (id ∷ ids, failures) = mark_outbox_published (id ∷ ids) >> pure (length (id ∷ ids), failures)

unfoldable pub batch : Publisher → ℕ → M (ℕ × List Error)
batch publisher batch_size = do
  rows ← fetch_unpublished_outbox batch_size
  progress ← publish_rows publisher rows ([], [])
  mark progress

-- The count and the error that ProcessBatch returns. A cancelled context is no error.
abbrev pub report : Result (ℕ × List Error) → Result (ℕ × Option Error)
report (ok (published, failures)) = ok (published, join_all failures)
report (err e) = if is e canceled then ok (0, none) else ok (0, some e)
report panic = panic

unfoldable pub process_batch : Publisher → ℕ → M (ℕ × Option Error)
process_batch publisher batch_size s =
    let (r, s') = within_tx (batch publisher batch_size) s in (report r, s')

-- Whether the loop of `drain` goes on after a batch.
abbrev pub goes_on : ℕ → ℕ × Option Error → Bool
goes_on batch_size (n, some e) = false
goes_on batch_size (n, none) = if n == 0 || ltb n batch_size then false else true

abbrev pub Drained : Type 0
Drained = Option (Result ℕ × Session)

-- The end of a round, by what the batch answered; `rest` is the loop with a greater total.
abbrev pub after_batch : ℕ → ℕ → Session → (ℕ → Drained) → Result (ℕ × Option Error) → Drained
after_batch batch_size total s rest (ok (n, e)) = elim (goes_on batch_size (n, e)) [
  | true ↦ rest (total + n)
  | false ↦ some (ok (total + n), s)
]
after_batch batch_size total s rest (err e) = some (err e, s)
after_batch batch_size total s rest panic = some (panic, s)

-- drain: batches until one is not full, fails or publishes nothing, while the context lives. In
-- each round `alive` tells whether it does. None stands for a loop that is still running when the
-- fuel is used up; the result is the number of messages published.
unfoldable pub drain : ℕ → Publisher → ℕ → (ℕ → Bool) → ℕ → Session → Drained
drain zero publisher batch_size alive total s = none
drain (suc fuel) publisher batch_size alive total s =
    let (r, s') = process_batch publisher batch_size s in
    if alive fuel
    then after_batch batch_size total s' (λ n. drain fuel publisher batch_size alive n s') r
    else some (ok total, s)
