-- ===== src/Widgets/Laws/Claims.antt =====
-- What a create with an Idempotency-Key stores.
use go_api_scaffolding.Common.{
  ℕ, zero, suc, ◌+◌, ◌≡◌, ◌≢◌, ◌<◌, refl, ◌⊎◌, inl, inr, true, false, ◌&&◌, Bool-cases, same_sound,
  same_refl, Option-cases, Bytes, List, [], ◌∷◌, ◌++◌, find, any, Option, none, some, arith, ap,
  ◌∙◌,
}
use go_api_scaffolding.Errors.{ok}
use go_api_scaffolding.Db.{Widget, IdempotencyKey, Db, Session, statement}
use go_api_scaffolding.Db.Statements.{started}
use go_api_scaffolding.Db.Queries.{update_where}
use go_api_scaffolding.Db.Queries.Keys.{
  PutIdempotencyKeyParams, put_key, put_idempotency_key, has_key, is_live, new_key, overwritten,
}
use go_api_scaffolding.Db.Queries.Widgets.{create_widget, has_id}
use go_api_scaffolding.Db.Queries.Outbox.{enqueue_outbox_message}
use go_api_scaffolding.Tx.{within_tx}
use go_api_scaffolding.Tx.Laws.{within_tx_ok}
use go_api_scaffolding.Widgets.Input.{Input}
use go_api_scaffolding.Widgets.Store.{
  IdempotencyClaim, claim_params, put_claim, insert, enqueue_widget_event, insert_claimed,
  create_idempotent, claim_error,
}
use go_api_scaffolding.Widgets.Laws.Changes.{created, after_create, translate_ok, tables_atomic}

-- The row of a key, as a later lookup at that time sees it.
abbrev pub lookup_row : Bytes → ℕ → List IdempotencyKey → Option IdempotencyKey
lookup_row key now keys = find (λ k. has_key key k && is_live now k) keys

-- The row holds what was put.
abbrev pub Holds : PutIdempotencyKeyParams → IdempotencyKey → Type 0
Holds arg k =
    (k.key ≡ arg.key)
    × (k.request_hash ≡ arg.request_hash)
    × (k.response_status ≡ arg.response_status)
    × (k.response_body ≡ arg.response_body)
    × (k.expires_at ≡ arg.expires_at)

-- A row that was just put is found until it expires.
lookup_row-append :
    (arg : PutIdempotencyKeyParams) (now later : ℕ) (keys : List IdempotencyKey)
    → find (has_key arg.key) keys ≡ none
    → later < arg.expires_at
    → (k : IdempotencyKey) × (lookup_row arg.key later (keys ++ new_key arg now ∷ []) ≡ some k)
      × Holds arg k
lookup_row-append arg now later [] absent lt =
    (new_key arg now, ground (arith, same_refl arg.key), (refl, refl, refl, refl, refl))
lookup_row-append arg now later (x ∷ keys) absent lt = elim (Bool-cases (has_key arg.key x)) [
  | inl hit ↦ cc (rw hit at absent)
  | inr miss ↦
      let (k, e, h) = lookup_row-append arg now later keys (rw miss at absent) lt in
      (k, rw miss e, h)
]

lookup_row-overwrite :
    (arg : PutIdempotencyKeyParams) (later : ℕ) (keys : List IdempotencyKey) (old : IdempotencyKey)
    → find (has_key arg.key) keys ≡ some old
    → later < arg.expires_at
    → (k : IdempotencyKey) × (lookup_row arg.key later
          (update_where (has_key arg.key) (overwritten arg) keys)
        ≡ some k)
      × Holds arg k
lookup_row-overwrite arg later [] old found lt = cc
lookup_row-overwrite arg later (x ∷ keys) old found lt = elim (Bool-cases (has_key arg.key x)) [
  | inl hit ↦ (
    overwritten arg x,
    ground (arith, hit),
    (same_sound x.key arg.key hit, refl, refl, refl, refl),
  )
  | inr miss ↦
      let (k, e, h) = lookup_row-overwrite arg later keys old (rw miss at found) lt in
      (k, ground (arith, miss, e), h)
]

-- The key is free: no row holds it, or the one that does has expired.
abbrev pub IsFree : Bytes → ℕ → List IdempotencyKey → Type 0
IsFree key now keys =
    (find (has_key key) keys ≡ none)
    ⊎ ((k : IdempotencyKey) × (find (has_key key) keys ≡ some k) × (is_live now k ≡ false))

put_key_ok :
    (arg : PutIdempotencyKeyParams) (now later : ℕ) (keys : List IdempotencyKey)
    → (put_key arg now keys (find (has_key arg.key) keys)).0 ≢ 0
    → later < arg.expires_at
    → IsFree arg.key now keys
      × ((k : IdempotencyKey) × (lookup_row arg.key later
              (put_key arg now keys (find (has_key arg.key) keys)).1
            ≡ some k)
          × Holds arg k)
put_key_ok arg now later keys put lt = elim (Option-cases (find (has_key arg.key) keys)) [
  | inl absent ↦ (inl absent, rw absent (lookup_row-append arg now later keys absent lt))
  | inr (old, found) ↦ elim (Bool-cases (is_live now old)) [
    | inl live ↦ absurd ((rw (found, live) at put) refl)
    | inr dead ↦ (
      inr (old, found, dead),
      rw (found, dead) (lookup_row-overwrite arg later keys old found lt),
    )
  ]
]

-- The tables that a claiming create leaves.
abbrev pub after_claim : Input → IdempotencyClaim → Session → Db
after_claim i claim s = record (after_create i s) {
  keys =
      (put_key (claim_params claim (created i s) s.now) s.now s.db.keys
        (find (has_key claim.key) s.db.keys)).1;
}

abbrev put_rows : Input → IdempotencyClaim → Session → ℕ
put_rows i claim s =
    (put_key (claim_params claim (created i s) s.now) s.now s.db.keys
      (find (has_key claim.key) s.db.keys)).0

insert_claimed_ok :
    (i : Input) (claim : IdempotencyClaim) (s : Session) (w : Widget)
    → (insert_claimed i claim s).0 ≡ ok w
    → (w ≡ created i s)
      × ((insert_claimed i claim s).1.db ≡ after_claim i claim s)
      × (put_rows i claim s ≢ 0)
unfolding insert_claimed insert create_widget enqueue_widget_event enqueue_outbox_message put_claim
    put_idempotency_key statement
insert_claimed_ok i claim s w h = (ground arith, ground arith, ground arith)

-- A create that claims its key and answers a widget found the key free; it has added the widget
-- and its event, as a create without a key does, and until the claim's time to live has passed a
-- lookup of the key finds the fingerprint of the request, status 201 and the widget's document.
pub create_idempotent_ok :
    (i : Input) (claim : IdempotencyClaim) (s : Session) (w : Widget) (later : ℕ)
    → (create_idempotent i claim s).0 ≡ ok w
    → later < s.now + claim.ttl
    → (w ≡ created i s)
      × ((create_idempotent i claim s).1.db ≡ after_claim i claim s)
      × IsFree claim.key s.now s.db.keys
      × ((k : IdempotencyKey) × (lookup_row claim.key later (create_idempotent i claim s).1.db.keys
            ≡ some k)
          × Holds (claim_params claim w s.now) k)
unfolding create_idempotent
create_idempotent_ok i claim s w later h lt =
    let (in_tx, same_session) =
      translate_ok claim_error (within_tx (insert_claimed i claim) s) w h in
    let (in_body, tables) = within_tx_ok (insert_claimed i claim) s w in_tx in
    let (made, after, put) = insert_claimed_ok i claim (started s) w in_body in
    let all = ap (λ (t : Session). t.db) same_session ∙ (tables ∙ after) in
    let (free, row) =
      put_key_ok (claim_params claim (created i s) s.now) s.now later s.db.keys put lt in
    (made, all, free, rw (all, made) row)

-- The claim is stored: the key was free, and a lookup at a later time finds the row that was put.
abbrev pub Claimed : Input → IdempotencyClaim → Session → ℕ → Session → Type 0
Claimed i claim s later t =
    (t.db ≡ after_claim i claim s)
    × IsFree claim.key s.now s.db.keys
    × ((k : IdempotencyKey) × (lookup_row claim.key later t.db.keys ≡ some k)
        × Holds (claim_params claim (created i s) s.now) k)

-- A claim that finds the key taken leaves nothing behind.
create_idempotent-kept :
    (i : Input) (claim : IdempotencyClaim) (s : Session)
    → put_rows i claim s ≡ 0
    → (create_idempotent i claim s).1.db ≡ s.db
unfolding create_idempotent
create_idempotent-kept i claim s taken =
    elim (tables_atomic claim_error (insert_claimed i claim) s s.db
      (λ w h. absurd ((insert_claimed_ok i claim (started s) w h).2 taken))) [
        | inl kept ↦ kept
        | inr kept ↦ kept
      ]

after_claim-Claimed :
    (i : Input) (claim : IdempotencyClaim) (s : Session) (later : ℕ)
    → put_rows i claim s ≢ 0
    → later < s.now + claim.ttl
    → (t : Session) → t.db ≡ after_claim i claim s
    → Claimed i claim s later t
after_claim-Claimed i claim s later put lt t tables =
    let (free, row) =
      put_key_ok (claim_params claim (created i s) s.now) s.now later s.db.keys put lt in
    (tables, free, rw tables row)

-- Whatever fails, a claiming create leaves the tables as they were; or the key was free, the widget,
-- its event and the row of the claim are added together, and until the claim's time to live has passed
-- a lookup of the key finds the fingerprint of the request, status 201 and the widget's document.
pub create_idempotent_atomic :
    (i : Input) (claim : IdempotencyClaim) (s : Session) (later : ℕ)
    → later < s.now + claim.ttl
    → ((create_idempotent i claim s).1.db ≡ s.db)
      ⊎ Claimed i claim s later (create_idempotent i claim s).1
unfolding create_idempotent
create_idempotent_atomic i claim s later lt = by_rows (put_rows i claim s) refl
  where
    by_rows :
        (n : ℕ)
        → put_rows i claim s ≡ n
        → ((create_idempotent i claim s).1.db ≡ s.db)
          ⊎ Claimed i claim s later (create_idempotent i claim s).1
    by_rows zero e = inl (create_idempotent-kept i claim s e)
    by_rows (suc n) e =
        elim (tables_atomic claim_error (insert_claimed i claim) s (after_claim i claim s)
          (λ w h. (insert_claimed_ok i claim (started s) w h).1)) [
            | inl kept ↦ inl kept
            | inr tables ↦ inr (
                after_claim-Claimed i claim s later (λ z. omega (arith, e, z)) lt
                  (create_idempotent i claim s).1 tables)
          ]

reserved_rows :
    (i : Input) (claim : IdempotencyClaim) (s : Session) (k : IdempotencyKey)
    → find (has_key claim.key) s.db.keys ≡ some k
    → is_live s.now k ≡ true
    → put_rows i claim s ≡ 0
reserved_rows i claim s k found live = ground arith

-- While another request's claim of the key lives, a claiming create changes nothing and answers no
-- widget.
pub create_idempotent_reserved :
    (i : Input) (claim : IdempotencyClaim) (s : Session) (k : IdempotencyKey)
    → find (has_key claim.key) s.db.keys ≡ some k
    → is_live s.now k ≡ true
    → ((create_idempotent i claim s).1.db ≡ s.db)
      × ¬ ((w : Widget) × ((create_idempotent i claim s).0 ≡ ok w))
unfolding create_idempotent
create_idempotent_reserved i claim s k found live = (
  create_idempotent-kept i claim s taken,
  λ (w, h).
      let (in_tx, same_session) =
        translate_ok claim_error (within_tx (insert_claimed i claim) s) w h in
      let (in_body, tables) = within_tx_ok (insert_claimed i claim) s w in_tx in
      (insert_claimed_ok i claim (started s) w in_body).2 taken,
)
  where
    taken : put_rows i claim s ≡ 0
    taken = reserved_rows i claim s k found live

pub lookup_row-none :
    (key : Bytes) (now : ℕ) (keys : List IdempotencyKey)
    → lookup_row key now keys ≡ none
    → IsFree key now keys
lookup_row-none key now [] h = inl refl
lookup_row-none key now (x ∷ keys) h = elim (Bool-cases (has_key key x)) [
  | inl hit ↦ inr (x, rw hit, ground arith)
  | inr miss ↦ free_cons (lookup_row-none key now keys (rw miss at h)) miss
]
  where
    free_cons : IsFree key now keys → has_key key x ≡ false → IsFree key now (x ∷ keys)
    free_cons (inl absent) miss = inl (rw miss absent)
    free_cons (inr (k, found, dead)) miss = inr (k, rw miss found, dead)

put_rows_free :
    (i : Input) (claim : IdempotencyClaim) (s : Session)
    → IsFree claim.key s.now s.db.keys
    → put_rows i claim s ≡ 1
put_rows_free i claim s (inl absent) = ground arith
put_rows_free i claim s (inr (k, found, dead)) = ground arith

-- Where no statement fails, the key is free and no row has the new id, a claiming create answers
-- the new widget.
pub create_idempotent_succeeds :
    (i : Input) (claim : IdempotencyClaim) (s : Session)
    → s.faults ≡ []
    → IsFree claim.key s.now s.db.keys
    → any (has_id (created i s).id) s.db.widgets ≡ false
    → ((create_idempotent i claim s).0 ≡ ok (created i s))
      × ((create_idempotent i claim s).1.faults ≡ [])
unfolding create_idempotent within_tx insert_claimed insert create_widget enqueue_widget_event
    enqueue_outbox_message put_claim put_idempotency_key statement
create_idempotent_succeeds i claim s clean_run free fresh_id =
    let rows = put_rows_free i claim s free in (ground arith, ground arith)
