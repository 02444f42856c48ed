-- ===== src/Examples/Widgets.antt =====
-- The theorems on widgets and stored responses at concrete runs.
use go_api_scaffolding.Common.{
  ◌≡◌, true, refl, ◌⊎◌, codes, [], ◌∷◌, none, some, same, arith, if◌then◌else◌,
}
use go_api_scaffolding.Errors.{ok}
use go_api_scaffolding.Db.{Widget, Session, IdempotencyKey, statement}
use go_api_scaffolding.Db.Queries.Widgets
use go_api_scaffolding.Db.Queries.Widgets.{has_id, newer}
use go_api_scaffolding.Db.Queries.Outbox.{enqueue_outbox_message}
use go_api_scaffolding.Db.Queries.Keys.{put_idempotency_key}
use go_api_scaffolding.Http.{Request, Writer, fresh, content}
use go_api_scaffolding.Tx.{within_tx}
use go_api_scaffolding.Auth.Principal.{has_permission}
use go_api_scaffolding.Idempotency.Laws.{frame-injective}
use go_api_scaffolding.Widgets.Store
use go_api_scaffolding.Widgets.Store.{
  create, update, delete, get, list, insert, insert_claimed, claim_params, enqueue_widget_event,
  put_claim, replace, remove, snapshot,
}
use go_api_scaffolding.Widgets.Idempotent.{create_idempotent, idempotency_row_key, claim_of, replay}
use go_api_scaffolding.Widgets.Handlers.{create_widget, update_widget, delete_widget, read_all}
use go_api_scaffolding.Problems.{status_problem}
use go_api_scaffolding.Widgets.Laws.Authorization.{writes_forbidden, Refused, is_decoded, is_input}
use go_api_scaffolding.Widgets.Laws.Changes.{created, after_create, create_atomic}
use go_api_scaffolding.Widgets.Laws.Claims.{
  after_claim, IsFree, Holds, lookup_row, create_idempotent_ok, create_idempotent_atomic, Claimed,
  create_idempotent_reserved,
}
use go_api_scaffolding.Widgets.Laws.Reading.{get-create}
use go_api_scaffolding.Widgets.Laws.Replay.{
  IsKeyed, SameAnswer, stored, create_idempotent-replays, create_idempotent-retry,
}
use go_api_scaffolding.Widgets.Laws.RowKey.{idempotency_row_key-injective}
use go_api_scaffolding.Examples.Data.{
  digest, handler, session, start, faulty, gear, editor, reader, request, claim, live_key, with_key,
}

editor-IsKeyed : IsKeyed editor (codes "k")
unfolding has_permission go_api_scaffolding.Auth.Principal.role_permissions same
editor-IsKeyed = record { permitted = refl; subject = λ h. cc; short = omega arith }

-- A session whose tables are those after the first request, a little later.
abbrev later : Session
later =
    session
      (create_idempotent digest 500 (request none (content [])) fresh editor gear [] (codes "k")
        start).1.db
      1200 []

create_idempotent-retry_example :
    (a : Writer) × (b : Writer) × ((create_idempotent digest 500
        (request none (content []))
        fresh
        editor
        gear
        []
        (codes "k")
        start).0
      ≡ ok a)
    × ((create_idempotent digest 500
          (request none (content []))
          fresh
          editor
          gear
          []
          (codes "k")
          later).0
        ≡ ok b)
    × SameAnswer b a
    × ((create_idempotent digest 500
          (request none (content []))
          fresh
          editor
          gear
          []
          (codes "k")
          later).1.db
        ≡ later.db)
create_idempotent-retry_example =
    create_idempotent-retry digest 500 (request none (content [])) editor gear [] (codes "k") start
      later editor-IsKeyed refl refl refl (λ h. cc) refl refl (omega arith)

create_atomic_example :
    ((create gear faulty).1.db ≡ faulty.db) ⊎ ((create gear faulty).1.db ≡ after_create gear faulty)
create_atomic_example = create_atomic gear faulty

abbrev refused_request : Request
refused_request = request (some reader) (content (1 ∷ []))

writes_forbidden_example :
    Refused
      (is_decoded handler (read_all refused_request.body))
      start
      (create_widget handler refused_request fresh start)
    × Refused
        (is_input (handler.decode_next refused_request.body))
        start
        (update_widget handler (2 ∷ []) refused_request fresh start)
    × Refused true start (delete_widget (2 ∷ []) refused_request fresh start)
unfolding has_permission go_api_scaffolding.Auth.Principal.role_permissions
    go_api_scaffolding.Auth.Middleware.principal_from same
writes_forbidden_example =
    writes_forbidden handler refused_request fresh start (2 ∷ []) refl refl (λ e. cc)

get-create_example : (get (created gear start).id (create gear start).1).0 ≡ ok (created gear start)
unfolding create within_tx insert Widgets.create_widget enqueue_widget_event enqueue_outbox_message
    statement
get-create_example = get-create gear start (created gear start) refl refl

create_idempotent_ok_example :
    (created gear start ≡ created gear start)
    × ((Store.create_idempotent gear claim start).1.db ≡ after_claim gear claim start)
    × IsFree claim.key start.now start.db.keys
    × ((k : IdempotencyKey) × (lookup_row claim.key 1499
            (Store.create_idempotent gear claim start).1.db.keys
          ≡ some k)
        × Holds (claim_params claim (created gear start) start.now) k)
unfolding Store.create_idempotent within_tx insert_claimed insert Widgets.create_widget
    enqueue_widget_event enqueue_outbox_message put_claim put_idempotency_key statement
create_idempotent_ok_example =
    create_idempotent_ok gear claim start (created gear start) 1499 refl (omega arith)

create_idempotent_atomic_example :
    ((Store.create_idempotent gear claim faulty).1.db ≡ faulty.db)
    ⊎ Claimed gear claim faulty 1499 (Store.create_idempotent gear claim faulty).1
create_idempotent_atomic_example = create_idempotent_atomic gear claim faulty 1499 (omega arith)

create_idempotent_reserved_example :
    ((Store.create_idempotent gear claim with_key).1.db ≡ with_key.db)
    × ¬ ((w : Widget) × ((Store.create_idempotent gear claim with_key).0 ≡ ok w))
unfolding same
create_idempotent_reserved_example =
    create_idempotent_reserved gear claim with_key live_key refl refl

create_idempotent-replays_example :
    ((create_idempotent digest 500
        (request none (content []))
        fresh
        editor
        gear
        []
        (codes "k")
        with_key).1.db
      ≡ with_key.db)
    × ((create_idempotent digest 500
          (request none (content []))
          fresh
          editor
          gear
          []
          (codes "k")
          with_key).0
        ≡ ok (
            if same
              (codes "alice")
              (claim_of digest 500 (request none (content [])) editor [] (codes "k")).hash
            then replay (stored live_key) fresh
            else status_problem 409 "idempotency key already used for a different request"
                (request none (content []))
                fresh))
unfolding idempotency_row_key same
create_idempotent-replays_example =
    create_idempotent-replays digest 500 (request none (content [])) fresh editor gear []
      (codes "k") with_key live_key editor-IsKeyed refl refl

idempotency_row_key-injective_example : (codes "a:b" ≡ codes "a:b") × (codes "c" ≡ codes "c")
idempotency_row_key-injective_example =
    idempotency_row_key-injective (codes "a:b") (codes "a:b") (codes "c") (codes "c") refl

frame-injective_example : codes "ab" ∷ [] ∷ [] ≡ codes "ab" ∷ [] ∷ []
frame-injective_example =
    frame-injective (codes "ab" ∷ [] ∷ []) (codes "ab" ∷ [] ∷ []) (omega arith, (omega arith, tt))
      (omega arith, (omega arith, tt)) refl
