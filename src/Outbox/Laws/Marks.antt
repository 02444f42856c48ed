-- ===== src/Outbox/Laws/Marks.antt =====
-- A row is marked published only after the publisher accepted its message.
use go_api_scaffolding.Common.{ℕ}
use go_api_scaffolding.Errors.{Result, ok, err, panic}
use go_api_scaffolding.Db.{Session, M, Fault, clean, lost, broken, next_fault}
use go_api_scaffolding.Db.Queries.Laws.{All-map_weaken}
use go_api_scaffolding.Tx.{within_tx, commit, finish, begin, rollback}
use go_api_scaffolding.Db.Statements.{started}
use go_api_scaffolding.Outbox.Relay.{Publisher, batch, process_batch}
use go_api_scaffolding.Outbox.Laws.Steps.{Honest, Step, IsHonest-grows, batch-Step}

-- A transaction steps as its body does, also when it rolls back.
within_tx-Step :
    {A : Type 0} (body : M A) (s : Session)
    → Step (started s) (body (started s)).1
    → Step s (within_tx body s).1
unfolding within_tx
within_tx-Step {A} body s step = begun (next_fault s.faults)
  where
    rolled : (t : Session) → Step (started s) t → Step s (rollback s.db t)
    rolled t step = record {
      grows = step.grows;
      honest = λ h. All-map_weaken _ _ s.db.outbox (IsHonest-grows s.sent t.sent step.grows) h;
    }

    committed :
        (f : Fault) (a : A) (t : Session)
        → Step (started s) t
        → Step s (commit s.db a f (started t)).1
    committed clean a t step = record { grows = step.grows; honest = step.honest }
    committed lost a t step = record { grows = step.grows; honest = step.honest }
    committed broken a t step = record { grows = step.grows; honest = (rolled t step).honest }

    finished : (r : Result A) (t : Session) → Step (started s) t → Step s (finish s.db r t).1
    finished (ok a) t step = committed (next_fault t.faults) a t step
    finished (err e) t step = rolled t step
    finished panic t step = rolled t step

    begun : (f : Fault) → Step s (begin f body (started s)).1
    begun clean = finished (body (started s)).0 (body (started s)).1 step
    begun lost = record { grows = λ i h. h; honest = λ h. h }
    begun broken = record { grows = λ i h. h; honest = λ h. h }

process_batch-Step :
    (publisher : Publisher) (batch_size : ℕ) (s : Session)
    → Step s (process_batch publisher batch_size s).1
unfolding process_batch
process_batch-Step publisher batch_size s =
    within_tx-Step (batch publisher batch_size) s (batch-Step publisher batch_size (started s))

-- Whatever fails, a batch marks no message that the publisher has not accepted: if every row that
-- is marked published was accepted before the batch, so is every such row after it.
pub process_batch-Honest :
    (publisher : Publisher) (batch_size : ℕ) (s : Session)
    → Honest s.sent s.db
    → Honest
        (process_batch publisher batch_size s).1.sent
        (process_batch publisher batch_size s).1.db
process_batch-Honest publisher batch_size s h = (process_batch-Step publisher batch_size s).honest h
