-- ===== src/Examples/Workers.antt =====
-- The theorems on the outbox and on the redaction of logs at concrete runs.
use go_api_scaffolding.Common.{
  Bytes, All, ◌≢◌, ◌≤◌, true, length, ltb, ℕ, ◌-◌, ◌≡◌, refl, inl, inr, false, codes, List, [], ◌∷◌,
  Option, none, some, arith, if◌then◌else◌, ◌==◌, ◌++◌,
}
use go_api_scaffolding.Json.{str}
use go_api_scaffolding.Db.{Db, OutboxMessage, Session, clean, lost}
use go_api_scaffolding.Outbox.Relay.{accepted, declined, Publisher, process_batch, drain}
use go_api_scaffolding.Outbox.Purge.{purge_published}
use go_api_scaffolding.Outbox.Laws.Steps.{Honest}
use go_api_scaffolding.Outbox.Laws.Marks.{process_batch-Honest}
use go_api_scaffolding.Outbox.Laws.Purging.{Ends, purge_published_lem}
use go_api_scaffolding.Outbox.Laws.Draining.{Ends as Drained, drain-Ends}
use go_api_scaffolding.Outbox.Text.{storable_error, max_error_bytes}
use go_api_scaffolding.Outbox.Laws.Storable.{is_utf8, storable_error_lem}
use go_api_scaffolding.Redact.{
  text, group, Attrs, nil, attr, Call, with_attrs_call, with_group_call, new_redacting_handler,
  handle, add_attrs, redact,
}
use go_api_scaffolding.Redact.Laws.Values.{HasNoEmpty}
use go_api_scaffolding.Redact.Laws.Calls.{AreSafe, derive, handle-AreSafe, handle-add_attrs}
use go_api_scaffolding.Errors.{ok, err, cause, failed}
use go_api_scaffolding.Reaper.{Task}
use go_api_scaffolding.Examples.Data.{session, no_rows_db}

abbrev message : ℕ → Option ℕ → OutboxMessage
message id published_at = record {
  id = id;
  aggregate_id = 1 ∷ [];
  event_type = codes "widget.created";
  payload = str [];
  created_at = 0;
  published_at = published_at;
  attempts = 0;
  last_error = none;
  next_attempt_at = 0;
}

abbrev three : Db
three = record no_rows_db { outbox = message 1 (some 3) ∷ message 2 none ∷ message 3 none ∷ [] }

-- One message was published long ago, two are due, and a statement of the batch loses its answer.
abbrev backlog : Session
backlog = record (session three 100 (clean ∷ clean ∷ clean ∷ lost ∷ [])) { sent = 1 ∷ [] }

-- A publisher that turns every second message down.
abbrev picky : Publisher
picky m = if m.id == 2 then accepted else declined (codes "no") none

process_batch-Honest_example :
    Honest (process_batch picky 10 backlog).1.sent (process_batch picky 10 backlog).1.db
process_batch-Honest_example =
    process_batch-Honest picky 10 backlog (inr refl, (inl refl, (inl refl, tt)))

purge_published_lem_example : Ends (backlog.now - 50) 0 backlog (purge_published 4 50 backlog)
purge_published_lem_example = purge_published_lem 4 50 backlog (omega arith)

abbrev calls : List Call
calls = with_attrs_call (attr (codes "a") (text []) nil) ∷ with_group_call (codes "secrets") ∷ []

handle-AreSafe_example : AreSafe false (
    (derive new_redacting_handler calls).next
    ++ (with_attrs_call
          (handle (derive new_redacting_handler calls) (attr (codes "b") (text (codes "x")) nil))
        ∷ []))
handle-AreSafe_example = handle-AreSafe calls (attr (codes "b") (text (codes "x")) nil)

abbrev plain_attrs : Attrs
plain_attrs =
    attr (codes "id") (text (codes "x"))
      (attr (codes "who") (group (attr (codes "name") (text []) nil)) nil)

handle-add_attrs_example :
    handle new_redacting_handler plain_attrs ≡ add_attrs (redact new_redacting_handler) plain_attrs
unfolding HasNoEmpty
handle-add_attrs_example = handle-add_attrs new_redacting_handler plain_attrs (refl, tt, tt)

-- The first task always fails.
abbrev tasks : List Task
tasks =
    record { name = codes "a"; run = λ s. (err (cause failed), s) }
    ∷ record { name = codes "b"; run = λ s. (ok 1, record s { now = 7 }) }
    ∷ []

drain-Ends_example : Drained (drain 3 picky 10 (λ round. ltb round 9) 0 backlog)
drain-Ends_example = drain-Ends 3 picky 10 (λ round. ltb round 9) 0 backlog (omega arith)

-- A NUL, a byte that begins no rune, and a bracket.
abbrev garbled : Bytes
garbled = 0 ∷ 0xc3 ∷ 40 ∷ []

storable_error_lem_example :
    All (λ c. c ≢ 0) (storable_error garbled)
    × (length (storable_error garbled) ≤ max_error_bytes)
    × (is_utf8 0 (storable_error garbled) ≡ true)
storable_error_lem_example = storable_error_lem garbled
