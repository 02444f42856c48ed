-- ===== src/Db/Queries/Keys.antt =====
-- internal/gen/db/queries.sql.go: the statements on the table idempotency_keys.
use go_api_scaffolding.Common.{
  ℕ, Bool, not, ◌&&◌, Bytes, List, [], ◌∷◌, ◌++◌, Option, none, some, if◌then◌else◌, ltb, same,
  find,
}
use go_api_scaffolding.Errors.{ok}
use go_api_scaffolding.Json.{Json}
use go_api_scaffolding.Db.{IdempotencyKey, M, statement}
use go_api_scaffolding.Db.Queries.{one_row, update_where, deleted_rows, rows_left}

abbrev pub has_key : Bytes → IdempotencyKey → Bool
has_key key k = same k.key key

abbrev pub is_live : ℕ → IdempotencyKey → Bool
is_live now k = ltb now k.expires_at

abbrev pub run_get_idempotency_key : Bytes → M IdempotencyKey
run_get_idempotency_key key s =
    (one_row (find (λ k. has_key key k && is_live s.now k) s.db.keys), s)

unfoldable pub get_idempotency_key : Bytes → M IdempotencyKey
get_idempotency_key key = statement (run_get_idempotency_key key)

abbrev pub run_purge_expired_idempotency_keys : M ℕ
run_purge_expired_idempotency_keys s =
    let expired = λ (k : IdempotencyKey). not (is_live s.now k) in
    (
      ok (deleted_rows expired s.db.keys),
      record s { db = record s.db { keys = rows_left expired s.db.keys } },
    )

unfoldable pub purge_expired_idempotency_keys : M ℕ
purge_expired_idempotency_keys = statement run_purge_expired_idempotency_keys

pub record PutIdempotencyKeyParams : Type 0 where
  pub key : Bytes
  pub request_hash : Bytes
  pub response_status : ℕ
  pub response_body : Json
  pub expires_at : ℕ

abbrev pub new_key : PutIdempotencyKeyParams → ℕ → IdempotencyKey
new_key arg now = record {
  key = arg.key;
  request_hash = arg.request_hash;
  response_status = arg.response_status;
  response_body = arg.response_body;
  created_at = now;
  expires_at = arg.expires_at;
}

abbrev pub overwritten : PutIdempotencyKeyParams → IdempotencyKey → IdempotencyKey
overwritten arg k = record k {
  request_hash = arg.request_hash;
  response_status = arg.response_status;
  response_body = arg.response_body;
  expires_at = arg.expires_at;
}

-- The rows and the number of rows affected, by the row that holds the key already.
abbrev pub put_key :
    PutIdempotencyKeyParams
    → ℕ
    → List IdempotencyKey
    → Option IdempotencyKey
    → ℕ × List IdempotencyKey
put_key arg now keys none = (1, keys ++ new_key arg now ∷ [])
put_key arg now keys (some k) =
    if is_live now k then (0, keys) else (1, update_where (has_key arg.key) (overwritten arg) keys)

abbrev pub run_put_idempotency_key : PutIdempotencyKeyParams → M ℕ
run_put_idempotency_key arg s =
    let (rows, keys) = put_key arg s.now s.db.keys (find (has_key arg.key) s.db.keys) in
    (ok rows, record s { db = record s.db { keys = keys } })

unfoldable pub put_idempotency_key : PutIdempotencyKeyParams → M ℕ
put_idempotency_key arg = statement (run_put_idempotency_key arg)
