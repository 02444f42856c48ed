-- ===== src/Widgets/Laws/Replay.antt =====
-- A retry of a create that carries an Idempotency-Key is answered by the stored response.
use go_api_scaffolding.Common.{
  ℕ, ◌+◌, ◌≡◌, ◌≢◌, ◌≤◌, ◌<◌, refl, true, false, Bytes, [], ◌∷◌, length, none, some, same, same_iff,
  arith, if◌then◌else◌, ap, ◌∙◌, any,
}
use go_api_scaffolding.Errors.{ok}
use go_api_scaffolding.Db.{Widget, IdempotencyKey, Db, Session, statement, later_faults}
use go_api_scaffolding.Db.Queries.Keys.{get_idempotency_key}
use go_api_scaffolding.Http.{Request, Writer, fresh, values, set_header}
use go_api_scaffolding.Problems.{status_problem}
use go_api_scaffolding.Auth.Principal.{Principal, has_permission, permission_write}
use go_api_scaffolding.Idempotency.{Record, Digest, lookup}
use go_api_scaffolding.Widgets.Input.{Input, to_api_widget}
use go_api_scaffolding.Widgets.Store.{IdempotencyClaim}
use go_api_scaffolding.Widgets.Store
use go_api_scaffolding.Widgets.Service
use go_api_scaffolding.Widgets.Responses.{write_created, write_json, location}
use go_api_scaffolding.Widgets.Idempotent.{
  create_idempotent, claim_of, replay, set_location, maybe_replay, max_idempotency_key_len,
}
use go_api_scaffolding.Db.Queries.Widgets.{has_id}
use go_api_scaffolding.Widgets.Laws.Changes.{created}
use go_api_scaffolding.Widgets.Laws.Claims.{
  lookup_row, Holds, create_idempotent_ok, lookup_row-none, create_idempotent_succeeds,
}

-- A request that may be served by a stored response: its caller may write and has a subject, and
-- its key is not too long.
pub record IsKeyed (actor : Principal) (key : Bytes) : Type 0 where
  pub permitted : has_permission actor permission_write ≡ true
  pub subject : actor.subject ≢ []
  pub short : length key ≤ max_idempotency_key_len

-- The response that is stored in a row.
abbrev pub stored : IdempotencyKey → Record
stored k = record { status = k.response_status; body = k.response_body }

-- For a caller who may write and has a subject, with a key of at most 255 bytes: where a live row
-- holds the key of the request and no statement fails, the tables stay as they are; a row with the
-- request's fingerprint is replayed, and a row of another request is a conflict (409).
pub create_idempotent-replays :
    (digest : Digest) (ttl : ℕ) (r : Request) (w : Writer) (actor : Principal) (i : Input)
    (body key : Bytes) (s : Session) (k : IdempotencyKey)
    → IsKeyed actor key
    → s.faults ≡ []
    → lookup_row (claim_of digest ttl r actor body key).key s.now s.db.keys ≡ some k
    → ((create_idempotent digest ttl r w actor i body key s).1.db ≡ s.db)
      × ((create_idempotent digest ttl r w actor i body key s).0
          ≡ ok (
              if same k.request_hash (claim_of digest ttl r actor body key).hash
              then replay (stored k) w
              else status_problem 409 "idempotency key already used for a different request" r w))
unfolding create_idempotent maybe_replay lookup get_idempotency_key statement
create_idempotent-replays digest ttl r w actor i body key s k keyed clean_run row =
    (ground (arith, same_iff actor.subject []), ground (arith, same_iff actor.subject []))

module _ (digest : Digest) (ttl : ℕ) (r : Request) (actor : Principal) (i : Input)
    (body key : Bytes) where
  abbrev the_claim : IdempotencyClaim
  the_claim = claim_of digest ttl r actor body key

  -- The first request creates the widget and answers it.
  first_create :
      (w : Writer) (s : Session)
      → IsKeyed actor key
      → s.faults ≡ []
      → lookup_row the_claim.key s.now s.db.keys ≡ none
      → any (has_id (created i s).id) s.db.widgets ≡ false
      → ((create_idempotent digest ttl r w actor i body key s).0
          ≡ ok (write_created (created i s) w))
        × ((create_idempotent digest ttl r w actor i body key s).1.db
            ≡ (Store.create_idempotent i the_claim s).1.db)
  unfolding create_idempotent maybe_replay lookup get_idempotency_key statement
      Service.create_idempotent
  first_create w s keyed clean_run free fresh_id =
      let (made, later) =
        create_idempotent_succeeds i the_claim s clean_run
          (lookup_row-none the_claim.key s.now s.db.keys free) fresh_id in
      let same_session : record s { faults = later_faults s.faults } ≡ s = ground arith in
      (ground (arith, same_iff actor.subject []), ground (arith, same_iff actor.subject []))

set_location-named :
    (id : Bytes) (w : Writer) → id ≢ [] → set_location id w ≡ set_header "Location" (location id) w
set_location-named [] w named = absurd (named refl)
set_location-named (c ∷ id) w named = refl

-- What a client sees of two answers: the status, the document, and the Location.
abbrev pub SameAnswer : Writer → Writer → Type 0
SameAnswer a b =
    (a.status ≡ b.status)
    × (a.body ≡ b.body)
    × (values "Location" a.headers ≡ values "Location" b.headers)

replay_lem :
    (x : Widget)
    → x.id ≢ []
    → SameAnswer
        (replay (record { status = 201; body = to_api_widget x }) fresh)
        (write_created x fresh)
unfolding replay write_created write_json to_api_widget
replay_lem x named =
    (rw (set_location-named x.id _ named) refl, refl, rw (set_location-named x.id _ named) refl)

replayed_row :
    (claim : IdempotencyClaim) (x : Widget) (now : ℕ) (k : IdempotencyKey) (w other : Writer)
    → Holds (Store.claim_params claim x now) k
    → (if same k.request_hash claim.hash then replay (stored k) w else other)
      ≡ replay (record { status = 201; body = to_api_widget x }) w
replayed_row claim x now k w other holds = ground (arith, same_iff k.request_hash claim.hash)

-- A retry is safe, for a caller who may write and has a subject, with a key of at most 255 bytes. The
-- first request, where its key is free, its new widget's id is not empty and no row's, and no statement
-- fails, creates a widget and answers it. The same request again, on the tables that the first one has
-- left, before the time to live has passed and where no statement fails, changes no table, so no second
-- widget and no second event are made, and its answer has the status, the document and the Location of
-- the first one.
pub create_idempotent-retry :
    (digest : Digest) (ttl : ℕ) (r : Request) (actor : Principal) (i : Input) (body key : Bytes)
    (s t : Session)
    → IsKeyed actor key
    → s.faults ≡ []
    → lookup_row (claim_of digest ttl r actor body key).key s.now s.db.keys ≡ none
    → any (has_id (created i s).id) s.db.widgets ≡ false
    → (created i s).id ≢ []
    → t.faults ≡ []
    → t.db ≡ (create_idempotent digest ttl r fresh actor i body key s).1.db
    → t.now < s.now + ttl
    → (a b : Writer) × ((create_idempotent digest ttl r fresh actor i body key s).0 ≡ ok a)
      × ((create_idempotent digest ttl r fresh actor i body key t).0 ≡ ok b)
      × SameAnswer b a
      × ((create_idempotent digest ttl r fresh actor i body key t).1.db ≡ t.db)
create_idempotent-retry digest ttl r actor i body key s t keyed clean_s free fresh_id named clean_t
      tables lt =
    let claim = claim_of digest ttl r actor body key in
    let (answer, stored_db) =
      first_create digest ttl r actor i body key fresh s keyed clean_s free fresh_id in
    let (made, _) =
      create_idempotent_succeeds i claim s clean_s (lookup_row-none claim.key s.now s.db.keys free)
        fresh_id in
    let (w_eq, after, is_free, row) = create_idempotent_ok i claim s (created i s) t.now made lt in
    let (k, found_k, holds) = row in
    let keys_eq : t.db.keys ≡ (Store.create_idempotent i claim s).1.db.keys =
      ap (λ (d : Db). d.keys) (tables ∙ stored_db) in
    let found_t = ap (lookup_row claim.key t.now) keys_eq ∙ found_k in
    let (kept, replied) =
      create_idempotent-replays digest ttl r fresh actor i body key t k keyed clean_t found_t in
    (
      write_created (created i s) fresh,
      replay (record { status = 201; body = to_api_widget (created i s) }) fresh,
      answer,
      replied ∙ ap ok (replayed_row claim (created i s) s.now k fresh _ holds),
      replay_lem (created i s) named,
      kept,
    )
