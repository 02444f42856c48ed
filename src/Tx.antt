-- ===== src/Tx.antt =====
-- internal/platform/database/database.go: WithinTx.
pub mod Laws
use go_api_scaffolding.Errors.{failed, cause, wrap, Result, ok, err, panic}
use go_api_scaffolding.Db.{Db, Session, M, Fault, clean, lost, broken, next_fault, later_faults}

-- tx.Rollback: the tables are those at the start of the transaction.
abbrev pub rollback : Db → Session → Session
rollback start s = record s { db = start }

-- tx.Commit. A failed commit rolls back; when its answer is lost the changes stay.
abbrev pub commit {ℓ} : {A : Type ℓ} → Db → A → Fault → Session → Result A × Session
commit start a clean s = (ok a, s)
commit start a lost s = (err (cause failed), s)
commit start a broken s = (err (cause failed), rollback start s)

-- The deferred function and the commit, by the result of the body.
abbrev pub finish {ℓ} : {A : Type ℓ} → Db → Result A → Session → Result A × Session
finish start (ok a) s =
    commit start a (next_fault s.faults) (record s { faults = later_faults s.faults })
finish start (err e) s = (err e, rollback start s)
finish start panic s = (panic, rollback start s)

-- The body runs only if the transaction could begin.
abbrev pub begin {ℓ} : {A : Type ℓ} → Fault → M A → M A
begin clean body s = let (r, s') = body s in finish s.db r s'
begin _ body s = (err (wrap "begin transaction" (cause failed)), s)

unfoldable pub within_tx {ℓ} : {A : Type ℓ} → M A → M A
within_tx body s = begin (next_fault s.faults) body (record s { faults = later_faults s.faults })
