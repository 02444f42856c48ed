-- ===== src/Db.antt =====
-- The database: the rows of internal/gen/db/models.go, the tables of migrations/*.sql, and the
-- session in which statements run. Every statement may fail, and a failed one may still have taken
-- effect: the session holds what happens to each statement, so theorems range over all failures.
pub mod Queries
pub mod Statements
use go_api_scaffolding.Common.{ℕ, Bool, Bytes, List, [], ◌∷◌, Option}
use go_api_scaffolding.Errors.{failed, Error, cause, Result, ok, err, panic}
use go_api_scaffolding.Json.{Json}

-- A uuid.UUID is its canonical text, a time.Time a number of microseconds.
pub record Widget : Type 0 where
  pub id : Bytes
  pub name : Bytes
  pub description : Bytes
  pub status : Bytes
  pub created_at : ℕ
  pub updated_at : ℕ

pub record OutboxMessage : Type 0 where
  pub id : ℕ
  pub aggregate_id : Bytes
  pub event_type : Bytes
  pub payload : Json
  pub created_at : ℕ
  pub published_at : Option ℕ
  pub attempts : ℕ
  pub last_error : Option Bytes
  pub next_attempt_at : ℕ

pub record IdempotencyKey : Type 0 where
  pub key : Bytes
  pub request_hash : Bytes
  pub response_status : ℕ
  pub response_body : Json
  pub created_at : ℕ
  pub expires_at : ℕ

-- The tables, in order of insertion, and the identity sequence of outbox_messages.
pub record Db : Type 0 where
  pub widgets : List Widget
  pub outbox : List OutboxMessage
  pub keys : List IdempotencyKey
  pub sequence : ℕ

-- What happens to a statement: it runs, it fails, or it runs and its answer is lost.
pub data Fault : Type 0 where
  clean lost broken : Fault

-- `faults` are what happens to the next statements; after its end every statement runs. `uuids`
-- is gen_random_uuid(), `locked` tells the outbox rows that other transactions hold, and `sent`
-- lists the messages that the publisher has accepted, the last one first.
pub record Session : Type 0 where
  pub db : Db
  pub now : ℕ
  pub faults : List Fault
  pub uuids : ℕ → Bytes
  pub drawn : ℕ
  pub locked : ℕ → Bool
  pub sent : List ℕ

abbrev pub M {ℓ} : Type ℓ → Type ℓ
M A = Session → Result A × Session

module _ {ℓ} {A : Type ℓ} where
  abbrev pub pure : A → M A
  pure a s = (ok a, s)

  abbrev pub fail : Error → M A
  fail e s = (err e, s)

abbrev pub continue {ℓ κ} :
    {A : Type ℓ} {B : Type κ} → (A → M B) → Result A → Session → Result B × Session
continue f (ok a) s = f a s
continue f (err e) s = (err e, s)
continue f panic s = (panic, s)

infixl 5 ◌>>=◌ ◌>>◌
abbrev pub ◌>>=◌ {ℓ κ} : {A : Type ℓ} {B : Type κ} → M A → (A → M B) → M B
◌>>=◌ m f s = let (r, s') = m s in continue f r s'

abbrev pub ◌>>◌ {ℓ κ} : {A : Type ℓ} {B : Type κ} → M A → M B → M B
m >> k = m >>= λ _. k

abbrev pub next_fault : List Fault → Fault
next_fault [] = clean
next_fault (f ∷ fs) = f

abbrev pub later_faults : List Fault → List Fault
later_faults [] = []
later_faults (f ∷ fs) = fs

-- What a statement answers, for what happens to it. A broken statement changes nothing.
abbrev pub answer {ℓ} : {A : Type ℓ} → Fault → Session → Result A × Session → Result A × Session
answer clean s (r, s') = (r, s')
answer lost s (r, s') = (err (cause failed), s')
answer broken s (r, s') = (err (cause failed), s)

-- One statement sent to the server.
unfoldable pub statement {ℓ} : {A : Type ℓ} → M A → M A
statement m s =
    let s' = record s { faults = later_faults s.faults } in answer (next_fault s.faults) s' (m s')

abbrev pub crash {ℓ} : {A : Type ℓ} → M A
crash s = (panic, s)

abbrev pub caught {ℓ} : {A : Type ℓ} → Result A → Session → Result (Result A) × Session
caught (ok a) t = (ok (ok a), t)
caught (err e) t = (ok (err e), t)
caught panic t = (panic, t)

-- A call whose error the caller looks at, as by `if err != nil { ... }`. A panic goes on.
abbrev pub attempt {ℓ} : {A : Type ℓ} → M A → M (Result A)
attempt m s = let (r, s') = m s in caught r s'
