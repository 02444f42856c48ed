-- ===== src/Tx/Laws.antt =====
-- What a transaction of Tx leaves behind, for every body and every failure.
use go_api_scaffolding.Common.{◌≡◌, ◌⊎◌, arith}
use go_api_scaffolding.Errors.{Error, ok, err}
use go_api_scaffolding.Db.{Session, M, clean, next_fault}
use go_api_scaffolding.Db.Statements.{started}
use go_api_scaffolding.Tx.{within_tx}

module _ {ℓ} {A : Type ℓ} (body : M A) (s : Session) where
  -- A transaction that answers ok ran its body to its end, and left the body's tables.
  pub within_tx_ok :
      (a : A)
      → (within_tx body s).0 ≡ ok a
      → ((body (started s)).0 ≡ ok a) × ((within_tx body s).1.db ≡ (body (started s)).1.db)
  unfolding within_tx
  within_tx_ok a h = ground arith

  -- An error of the body reaches the caller as it is, and nothing is kept.
  pub within_tx_err :
      (e : Error)
      → next_fault s.faults ≡ clean
      → (body (started s)).0 ≡ err e
      → ((within_tx body s).0 ≡ err e) × ((within_tx body s).1.db ≡ s.db)
  unfolding within_tx
  within_tx_err e h k = ground arith

  -- The tables are those before the transaction, or those that its body left when it succeeded.
  pub within_tx_atomic :
      ((within_tx body s).1.db ≡ s.db)
      ⊎ ((a : A) × ((body (started s)).0 ≡ ok a)
          × ((within_tx body s).1.db ≡ (body (started s)).1.db))
  unfolding within_tx
  within_tx_atomic = ground arith
