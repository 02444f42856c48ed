-- ===== src/Db/Queries.antt =====
-- internal/gen/db/queries.sql.go: what the statements share. The children hold the statements of
-- each table, on the tables of a session; now() is the session's time, the start of the transaction.
pub mod Widgets
pub mod Outbox
pub mod Keys
pub mod Laws
use go_api_scaffolding.Common.{
  ℕ, zero, suc, Bool, not, List, [], ◌∷◌, Option, none, some, if◌then◌else◌, length, keep,
}
use go_api_scaffolding.Errors.{no_rows, cause, Result, ok, err}

-- A query for one row: pgx.ErrNoRows when there is none.
abbrev pub one_row {ℓ} : {A : Type ℓ} → Option A → Result A
one_row none = err (cause no_rows)
one_row (some a) = ok a

-- The rows of a table after an UPDATE of those that pass the test.
abbrev pub update_where {ℓ} : {A : Type ℓ} → (A → Bool) → (A → A) → List A → List A
update_where p f [] = []
update_where p f (x ∷ xs) = (if p x then f x else x) ∷ update_where p f xs

-- The rows that a DELETE leaves, and their number as RowsAffected gives it.
abbrev pub deleted_rows {ℓ} : {A : Type ℓ} → (A → Bool) → List A → ℕ
deleted_rows p xs = length (keep p xs)

abbrev pub rows_left {ℓ} : {A : Type ℓ} → (A → Bool) → List A → List A
rows_left p xs = keep (λ x. not (p x)) xs

-- A DELETE of the first `n` rows that pass. (The subquery has no order: any rows would do.)
abbrev pub drop_where {ℓ} : {A : Type ℓ} → ℕ → (A → Bool) → List A → List A
drop_where n p [] = []
drop_where zero p (x ∷ xs) = x ∷ xs
drop_where (suc n) p (x ∷ xs) = if p x then drop_where n p xs else x ∷ drop_where (suc n) p xs
