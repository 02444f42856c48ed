-- ===== src/Db/Queries/Outbox.antt =====
-- internal/gen/db/queries.sql.go: the statements on the table outbox_messages.
use go_api_scaffolding.Common.{
  ℕ, suc, ◌+◌, ◌*◌, ◌^◌, Bool, true, false, not, ◌&&◌, Bytes, List, [], ◌∷◌, ◌++◌, Option, none,
  some, leb, ltb, ◌==◌, take, any, keep, find, sort_by,
}
use Prim.Native.Nat.{min}
use go_api_scaffolding.Errors.{ok}
use go_api_scaffolding.Json.{Json}
use go_api_scaffolding.Db.{OutboxMessage, Session, M, statement}
use go_api_scaffolding.Db.Queries.{one_row, update_where, deleted_rows, drop_where}

abbrev pub new_message : Bytes → Bytes → Json → Session → OutboxMessage
new_message aggregate_id event_type payload s = record {
  id = s.db.sequence;
  aggregate_id = aggregate_id;
  event_type = event_type;
  payload = payload;
  created_at = s.now;
  published_at = none;
  attempts = 0;
  last_error = none;
  next_attempt_at = s.now;
}

abbrev pub run_enqueue_outbox_message : Bytes → Bytes → Json → M (Unit {0})
run_enqueue_outbox_message aggregate_id event_type payload s = (
  ok tt,
  record s {
    db = record s.db {
      outbox = s.db.outbox ++ new_message aggregate_id event_type payload s ∷ [];
      sequence = suc s.db.sequence;
    };
  },
)

unfoldable pub enqueue_outbox_message : Bytes → Bytes → Json → M (Unit {0})
enqueue_outbox_message aggregate_id event_type payload =
    statement (run_enqueue_outbox_message aggregate_id event_type payload)

abbrev pub is_unpublished : OutboxMessage → Bool
is_unpublished m = elim (m.published_at) [ none ↦ true | some t ↦ false ]

abbrev pub is_due : ℕ → OutboxMessage → Bool
is_due now m = is_unpublished m && leb m.next_attempt_at now

abbrev pub by_id : OutboxMessage → OutboxMessage → Bool
by_id m n = ltb m.id n.id

-- FOR UPDATE SKIP LOCKED passes over the rows that another transaction holds.
abbrev pub run_fetch_unpublished_outbox : ℕ → M (List OutboxMessage)
run_fetch_unpublished_outbox limit s =
    let free = λ (m : OutboxMessage). is_due s.now m && not (s.locked m.id) in
    (ok (take limit (sort_by by_id (keep free s.db.outbox))), s)

unfoldable pub fetch_unpublished_outbox : ℕ → M (List OutboxMessage)
fetch_unpublished_outbox limit = statement (run_fetch_unpublished_outbox limit)

abbrev pub member : List ℕ → ℕ → Bool
member ids id = any (λ i. i == id) ids

abbrev pub run_mark_outbox_published : List ℕ → M (Unit {0})
run_mark_outbox_published ids s =
    let mark = λ (m : OutboxMessage). record m { published_at = some s.now } in
    let rows = update_where (λ m. member ids m.id) mark s.db.outbox in
    (ok tt, record s { db = record s.db { outbox = rows } })

unfoldable pub mark_outbox_published : List ℕ → M (Unit {0})
mark_outbox_published ids = statement (run_mark_outbox_published ids)

-- The backoff in microseconds: 2 ^ least(attempts + 1, 12) seconds, at most one hour.
unfoldable pub backoff : ℕ → ℕ
backoff attempts = min (2 ^ min (attempts + 1) 12 * 1000000) 3600000000

abbrev pub refused : Bytes → ℕ → OutboxMessage → OutboxMessage
refused last_error now m = record m {
  attempts = m.attempts + 1;
  last_error = some last_error;
  next_attempt_at = now + backoff m.attempts;
}

abbrev pub has_number : ℕ → OutboxMessage → Bool
has_number id m = m.id == id

abbrev pub attempts_of : Option OutboxMessage → Option ℕ
attempts_of none = none
attempts_of (some m) = some m.attempts

abbrev pub run_record_outbox_failure : Bytes → ℕ → M ℕ
run_record_outbox_failure last_error id s =
    let rows = update_where (has_number id) (refused last_error s.now) s.db.outbox in
    (
      one_row (attempts_of (find (has_number id) rows)),
      record s { db = record s.db { outbox = rows } },
    )

unfoldable pub record_outbox_failure : Bytes → ℕ → M ℕ
record_outbox_failure last_error id = statement (run_record_outbox_failure last_error id)

abbrev pub is_published_before : ℕ → OutboxMessage → Bool
is_published_before t m = elim (m.published_at) [ none ↦ false | some p ↦ ltb p t ]

abbrev pub run_delete_published_outbox_before : ℕ → ℕ → M ℕ
run_delete_published_outbox_before t max_rows s = (
  ok (min max_rows (deleted_rows (is_published_before t) s.db.outbox)),
  record s {
    db = record s.db { outbox = drop_where max_rows (is_published_before t) s.db.outbox };
  },
)

unfoldable pub delete_published_outbox_before : ℕ → ℕ → M ℕ
delete_published_outbox_before t max_rows =
    statement (run_delete_published_outbox_before t max_rows)
