-- ===== src/Widgets/Store.antt =====
-- internal/modules/widget/store.go and CreateIdempotent of idempotent.go: each change and its event
-- in one transaction.
use go_api_scaffolding.Common.{ℕ, zero, suc, ◌+◌, Bytes, String, codes, List, if◌then◌else◌}
use go_api_scaffolding.Errors.{
  Cause, no_rows, not_found, reserved, Error, cause, wrap, is, Result, ok, err, panic,
}
use go_api_scaffolding.Json.{Json, str, obj, end, member}
use go_api_scaffolding.Db.{Widget, Session, M, pure, fail, ◌>>=◌, ◌>>◌}
use go_api_scaffolding.Db.Queries.Widgets.{
  count_widgets, create_widget, get_widget, list_widgets, update_widget, delete_widget,
}
use go_api_scaffolding.Db.Queries.Keys.{PutIdempotencyKeyParams, put_idempotency_key}
use go_api_scaffolding.Tx.{within_tx}
use go_api_scaffolding.Outbox.Relay.{enqueue}
use go_api_scaffolding.Widgets.Input.{Input, to_api_widget}

-- IdempotencyClaim; the time to live in microseconds
pub record IdempotencyClaim : Type 0 where
  pub key : Bytes
  pub hash : Bytes
  pub ttl : ℕ

-- How an operation turns the error of its transaction into its own.
abbrev pub translate {ℓ} : {A : Type ℓ} → (Error → Error) → Result A × Session → Result A × Session
translate f (ok a, s) = (ok a, s)
translate f (err e, s) = (err (f e), s)
translate f (panic, s) = (panic, s)

-- A missing row is ErrNotFound, any other error is wrapped.
abbrev pub missing : Cause → String → Error → Error
missing c prefix e = if is e c then cause not_found else wrap prefix e

unfoldable pub enqueue_widget_event : Bytes → Widget → M (Unit {0})
unfolding enqueue
enqueue_widget_event event_type w = enqueue w.id event_type (to_api_widget w)

-- insert, within a transaction
unfoldable pub insert : Input → M Widget
insert i = do
  created ← create_widget i.name i.description i.status
  enqueue_widget_event (codes "widget.created") created
  pure created

unfoldable pub create : Input → M Widget
create i s = translate (wrap "create widget") (within_tx (insert i) s)

unfoldable pub get : Bytes → M Widget
get id s = translate (missing no_rows "get widget") (get_widget id s)

abbrev pub wrapped {ℓ} : {A : Type ℓ} → String → M A → M A
wrapped prefix m s = translate (wrap prefix) (m s)

unfoldable pub snapshot : ℕ → ℕ → M (List Widget × ℕ)
snapshot limit offset = do
  items ← wrapped "list widgets" (list_widgets limit offset)
  total ← wrapped "count widgets" count_widgets
  pure (items, total)

-- pgx.BeginTxFunc of a read-only transaction begins, runs and ends like WithinTx.
unfoldable pub list : ℕ → ℕ → M (List Widget × ℕ)
list limit offset = within_tx (snapshot limit offset)

unfoldable pub replace : Bytes → Input → M Widget
replace id i = do
  updated ← update_widget id i.name i.description i.status
  enqueue_widget_event (codes "widget.updated") updated
  pure updated

unfoldable pub update : Bytes → Input → M Widget
update id i s = translate (missing no_rows "update widget") (within_tx (replace id i) s)

-- Only the identity of a deleted widget goes into its event.
abbrev pub deleted_payload : Bytes → Json
deleted_payload id = obj (member "id" (str id) end)

abbrev pub record_deletion : Bytes → ℕ → M (Unit {0})
record_deletion id zero = fail (cause not_found)
record_deletion id (suc n) = enqueue id (codes "widget.deleted") (deleted_payload id)

unfoldable pub remove : Bytes → M (Unit {0})
unfolding enqueue
remove id = do rows ← delete_widget id; record_deletion id rows

unfoldable pub delete : Bytes → M (Unit {0})
delete id s = translate (missing not_found "delete widget") (within_tx (remove id) s)

-- The parameters of the statement that claims the key.
abbrev pub claim_params : IdempotencyClaim → Widget → ℕ → PutIdempotencyKeyParams
claim_params claim created now = record {
  key = claim.key;
  request_hash = claim.hash;
  response_status = 201;
  response_body = to_api_widget created;
  expires_at = now + claim.ttl;
}

abbrev pub claimed : Widget → ℕ → M Widget
claimed created zero = fail (cause reserved)
claimed created (suc n) = pure created

-- time.Now() is the session's time.
unfoldable pub put_claim : IdempotencyClaim → Widget → M ℕ
put_claim claim created s = put_idempotency_key (claim_params claim created s.now) s

unfoldable pub insert_claimed : Input → IdempotencyClaim → M Widget
insert_claimed i claim = do created ← insert i; rows ← put_claim claim created; claimed created rows

abbrev pub claim_error : Error → Error
claim_error e = if is e reserved then cause reserved else wrap "create widget" e

unfoldable pub create_idempotent : Input → IdempotencyClaim → M Widget
create_idempotent i claim s = translate claim_error (within_tx (insert_claimed i claim) s)
