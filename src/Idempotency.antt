-- ===== src/Idempotency.antt =====
-- internal/idempotency/idempotency.go: stored responses and request fingerprints. The digest
-- (sha256, printed by hex) is a parameter.
pub mod Laws
use go_api_scaffolding.Common.{
  ℕ, zero, suc, ◌/◌, ◌%◌, Bytes, List, [], ◌∷◌, ◌++◌, Option, none, some, length, same,
  if◌then◌else◌,
}
use go_api_scaffolding.Errors.{no_rows, conflict, cause, wrap, is, Result, ok, err, panic}
use go_api_scaffolding.Json.{Json}
use go_api_scaffolding.Db.{IdempotencyKey, M}
use go_api_scaffolding.Db.Queries.Keys.{get_idempotency_key, purge_expired_idempotency_keys}

-- A previously stored response.
pub record Record : Type 0 where
  pub status : ℕ
  pub body : Json

-- The last `width` bytes of a number, the highest first: binary.BigEndian.PutUint64 at width 8.
unfoldable pub big_endian : ℕ → ℕ → Bytes
big_endian zero n = []
big_endian (suc width) n = big_endian width (n / 256) ++ n % 256 ∷ []

-- What Hash writes to the digest: each part behind its length.
unfoldable pub frame : List Bytes → Bytes
frame [] = []
frame (p ∷ ps) = big_endian 8 (length p) ++ (p ++ frame ps)

abbrev pub Digest : Type 0
Digest = Bytes → Bytes

unfoldable pub hash : Digest → List Bytes → Bytes
hash digest parts = digest (frame parts)

-- Lookup, by what the query answered.
abbrev pub found : Bytes → Result IdempotencyKey → Result (Option Record)
found request_hash (ok row) =
    if same row.request_hash request_hash
    then ok (some (record { status = row.response_status; body = row.response_body }))
    else err (cause conflict)
found request_hash (err e) = if is e no_rows then ok none else err (wrap "lookup idempotency key" e)
found request_hash panic = panic

unfoldable pub lookup : Bytes → Bytes → M (Option Record)
lookup key request_hash s = let (r, s') = get_idempotency_key key s in (found request_hash r, s')

abbrev pub purged : Result ℕ → Result ℕ
purged (ok n) = ok n
purged (err e) = err (wrap "purge expired idempotency keys" e)
purged panic = panic

unfoldable pub purge_expired : M ℕ
purge_expired s = let (r, s') = purge_expired_idempotency_keys s in (purged r, s')
