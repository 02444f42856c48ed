-- ===== src/Db/Statements.antt =====
-- What one statement does to its session.
use go_api_scaffolding.Common.{◌≡◌, refl, ap, ◌⊎◌, arith}
use go_api_scaffolding.Errors.{Result, ok, err, panic}
use go_api_scaffolding.Db.{Session, M, later_faults, statement, continue, ◌>>=◌}

-- The session that a statement, or the body of a transaction, runs in.
abbrev pub started : Session → Session
started s = record s { faults = later_faults s.faults }

module _ {ℓ} {A : Type ℓ} (m : M A) (s : Session) where
  pub statement_effect : ((statement m s).1 ≡ started s) ⊎ ((statement m s).1 ≡ (m (started s)).1)
  unfolding statement
  statement_effect = ground arith

  pub statement_ok :
      (a : A)
      → (statement m s).0 ≡ ok a
      → ((m (started s)).0 ≡ ok a) × ((statement m s).1 ≡ (m (started s)).1)
  unfolding statement
  statement_ok a h = ground arith

-- Inversion of a chain that ends well.
pub bind_ok {ℓ κ} :
    {A : Type ℓ} {B : Type κ} (m : M A) (f : A → M B) (s : Session) {b : B}
    → ((m >>= f) s).0 ≡ ok b
    → (a : A) × ((m s).0 ≡ ok a) × ((m >>= f) s ≡ f a (m s).1)
bind_ok {A = A} {B = B} m f s {b} h = go (m s).0 refl
  where
    go : (r : Result A) → (m s).0 ≡ r → (a : A) × ((m s).0 ≡ ok a) × ((m >>= f) s ≡ f a (m s).1)
    go (ok a) e = (a, e, rw e)
    go (err x) e = cc (ap (λ (r : Result A). continue f r (m s).1) e)
    go panic e = cc (ap (λ (r : Result A). continue f r (m s).1) e)
