-- ===== src/Outbox/Laws/Steps.antt =====
-- What the steps of a batch do to the rows that are marked and to the messages accepted.
use go_api_scaffolding.Common.{
  ℕ, ◌≡◌, refl, subst, true, Bytes, List, [], ◌∷◌, ◌++◌, none, some, length, All, All-append, arith,
  inl, inr, ◌⊎◌,
}
use go_api_scaffolding.Errors.{Error, wrap, rejected, ok_injective, Result, ok, err, panic}
use go_api_scaffolding.Db.{OutboxMessage, Db, Session, M, pure, statement, continue, ◌>>=◌}
use go_api_scaffolding.Db.Queries.Laws.{All-update_where, All-map_weaken}
use go_api_scaffolding.Db.Queries.Outbox.{
  run_fetch_unpublished_outbox, run_mark_outbox_published, run_record_outbox_failure,
  is_unpublished, member, fetch_unpublished_outbox, mark_outbox_published, record_outbox_failure,
  refused, has_number,
}
use go_api_scaffolding.Db.Statements.{started, statement_effect}
use go_api_scaffolding.Outbox.Text.{storable_error}
use go_api_scaffolding.Outbox.Relay.{
  Outcome, accepted, declined, panicked, Publisher, message_of, Progress, settle, publish_rows,
  mark, batch,
}

-- A row that is marked published is one whose message the publisher accepted.
abbrev pub IsHonest : List ℕ → OutboxMessage → Type 0
IsHonest sent m = (is_unpublished m ≡ true) ⊎ (member sent m.id ≡ true)

abbrev pub Honest : List ℕ → Db → Type 0
Honest sent db = All (IsHonest sent) db.outbox

-- The ids that a batch is going to mark were accepted.
abbrev pub Accepted : List ℕ → List ℕ → Type 0
Accepted sent ids = All (λ i. member sent i ≡ true) ids

Accepted-member :
    (sent ids : List ℕ) (i : ℕ) → Accepted sent ids → member ids i ≡ true → member sent i ≡ true
Accepted-member sent [] i a h = cc
Accepted-member sent (j ∷ ids) i (a, rest) h = ground (arith, Accepted-member sent ids i rest)

-- What a call does to honesty: accepted messages stay accepted, and honest tables stay honest.
pub record Step (s t : Session) : Type 0 where
  pub grows : (i : ℕ) → member s.sent i ≡ true → member t.sent i ≡ true
  pub honest : Honest s.sent s.db → Honest t.sent t.db

Step-refl : {s : Session} → Step s s
Step-refl = record { grows = λ i h. h; honest = λ h. h }

Step-trans : {s t u : Session} → Step s t → Step t u → Step s u
Step-trans a b = record {
  grows = λ i h. b.grows i (a.grows i h);
  honest = λ h. b.honest (a.honest h);
}

pub IsHonest-grows :
    (s t : List ℕ)
    → ((i : ℕ) → member s i ≡ true → member t i ≡ true)
    → (m : OutboxMessage) → IsHonest s m
    → IsHonest t m
IsHonest-grows s t grow m (inl waiting) = inl waiting
IsHonest-grows s t grow m (inr was) = inr (grow m.id was)

-- A statement that changes only the outbox rows, and keeps them honest.
statement-Step :
    {A : Type 0} (m : M A) (s : Session)
    → Step (started s) (m (started s)).1
    → Step s (statement m s).1
statement-Step m s step = elim (statement_effect m s) [
  | inl same_session ↦ rw same_session (record { grows = λ i h. h; honest = λ h. h })
  | inr ran ↦ rw ran (record { grows = step.grows; honest = step.honest })
]

fetch-Step : (limit : ℕ) (s : Session) → Step s (fetch_unpublished_outbox limit s).1
unfolding fetch_unpublished_outbox
fetch-Step limit s =
    statement-Step (run_fetch_unpublished_outbox limit) s
      (record { grows = λ i h. h; honest = λ h. h })

IsHonest-refused :
    (sent : List ℕ) (msg : Bytes) (now : ℕ) (m : OutboxMessage)
    → IsHonest sent m
    → IsHonest sent (refused msg now m)
IsHonest-refused sent msg now m h = h

record-Step : (msg : Bytes) (id : ℕ) (s : Session) → Step s (record_outbox_failure msg id s).1
unfolding record_outbox_failure
record-Step msg id s = statement-Step (run_record_outbox_failure msg id) s (record {
  grows = λ i h. h;
  honest = λ h.
      All-update_where (IsHonest s.sent) (IsHonest s.sent) (has_number id) (refused msg s.now)
        s.db.outbox (λ m k _. k) (λ m k _. k) h;
})

mark-Step :
    (ids : List ℕ) (s : Session) → Accepted s.sent ids → Step s (mark_outbox_published ids s).1
unfolding mark_outbox_published
mark-Step ids s a = statement-Step (run_mark_outbox_published ids) s (record {
  grows = λ i h. h;
  honest = λ h.
      All-update_where (IsHonest s.sent) (IsHonest s.sent) (λ m. member ids m.id)
        (λ m. record m { published_at = some s.now }) s.db.outbox
        (λ m k hit. inr (Accepted-member s.sent ids m.id a hit)) (λ m k _. k) h;
})

Accepted-grows :
    (s t : List ℕ) (ids : List ℕ)
    → ((i : ℕ) → member s i ≡ true → member t i ≡ true)
    → Accepted s ids
    → Accepted t ids
Accepted-grows s t ids grow a = All-map_weaken _ _ ids (λ i h. grow i h) a

-- What the loop over the rows leaves: a step, and ids that were accepted.
pub record Published (s : Session) (r : Result Progress × Session) : Type 0 where
  pub step : Step s r.1
  pub ids : (p : Progress) → r.0 ≡ ok p → Accepted r.1.sent p.0

Published-trans :
    {s t : Session} {r : Result Progress × Session} → Step s t → Published t r → Published s r
Published-trans a b = record { step = Step-trans a b.step; ids = b.ids }

-- The message of a row was accepted.
accept-Step : (id : ℕ) (s : Session) → Step s (record s { sent = id ∷ s.sent })
accept-Step id s = record {
  grows = λ i h. ground arith;
  honest = λ h.
      All-map_weaken _ _ s.db.outbox
        (λ m k. IsHonest-grows s.sent (id ∷ s.sent) (λ i q. ground arith) m k) h;
}

continue-Published :
    {s : Session} (r : Result ℕ) (t : Session) (k : M Progress)
    → Step s t
    → Published t (k t)
    → Published s (continue (λ _. k) r t)
continue-Published (ok n) t k step p = Published-trans step p
continue-Published (err e) t k step p = record { step = step; ids = λ q h. cc }
continue-Published panic t k step p = record { step = step; ids = λ q h. cc }

settle-Published :
    (o : Outcome) (id : ℕ) (rest : Progress → M Progress) (p : Progress) (s : Session)
    → ((q : Progress) (t : Session) → Accepted t.sent q.0 → Published t (rest q t))
    → Accepted s.sent p.0
    → Published s (settle o id rest p s)
settle-Published accepted id rest (ids, failures) s ih a = Published-trans (accept-Step id s) (
    ih (ids ++ id ∷ [], failures) (record s { sent = id ∷ s.sent })
      (All-append _ ids (id ∷ [])
        (Accepted-grows s.sent (id ∷ s.sent) ids (accept-Step id s).grows a) (ground arith, tt)))
settle-Published (declined msg (some e)) id rest (ids, failures) s ih a = record {
  step = Step-refl;
  ids = λ q h. cc;
}
settle-Published (declined msg none) id rest (ids, failures) s ih a =
    let (r, t) = record_outbox_failure (storable_error msg) id s in
    let step = record-Step (storable_error msg) id s in
    let next : Progress = (ids, failures ++ wrap "publish outbox message" (rejected msg) ∷ []) in
    continue-Published r t (rest next) step
      (ih next t (Accepted-grows s.sent t.sent ids step.grows a))
settle-Published panicked id rest (ids, failures) s ih a = record {
  step = Step-refl;
  ids = λ q h. cc;
}

publish_rows-Published :
    (publisher : Publisher) (rows : List OutboxMessage) (p : Progress) (s : Session)
    → Accepted s.sent p.0
    → Published s (publish_rows publisher rows p s)
unfolding publish_rows
publish_rows-Published publisher [] p s a = record {
  step = Step-refl;
  ids = λ q e. subst (λ (z : Progress). Accepted s.sent z.0) (ok_injective e) a;
}
publish_rows-Published publisher (row ∷ rows) p s a =
    settle-Published (publisher (message_of row)) row.id (publish_rows publisher rows) p s
      (publish_rows-Published publisher rows) a

mark-Progress-Step : (p : Progress) (s : Session) → Accepted s.sent p.0 → Step s (mark p s).1
mark-Progress-Step ([], failures) s a = Step-refl
mark-Progress-Step (id ∷ ids, failures) s a =
    let (r, t) = mark_outbox_published (id ∷ ids) s in go r t (mark-Step (id ∷ ids) s a)
  where
    go :
        (r : Result (Unit {0})) (t : Session)
        → Step s t
        → Step s (continue {B = ℕ × List Error} (λ _. pure (length (id ∷ ids), failures)) r t).1
    go (ok u) t step = step
    go (err e) t step = step
    go panic t step = step

-- Either the rows are published and marked, or the batch ends before.
pub batch-Step :
    (publisher : Publisher) (batch_size : ℕ) (s : Session) → Step s (batch publisher batch_size s).1
unfolding batch
batch-Step publisher batch_size s =
    let (r, t) = fetch_unpublished_outbox batch_size s in fetched r t (fetch-Step batch_size s)
  where
    marked :
        (r : Result Progress) (t : Session)
        → Step s t
        → ((p : Progress) → r ≡ ok p → Accepted t.sent p.0)
        → Step s (continue mark r t).1
    marked (ok p) t step ids = Step-trans step (mark-Progress-Step p t (ids p refl))
    marked (err e) t step ids = step
    marked panic t step ids = step

    fetched :
        (r : Result (List OutboxMessage)) (t : Session)
        → Step s t
        → Step s (continue (λ rows. publish_rows publisher rows ([], []) >>= mark) r t).1
    fetched (ok rows) t step =
        let done = publish_rows-Published publisher rows ([], []) t tt in
        marked (publish_rows publisher rows ([], []) t).0 (publish_rows publisher rows ([], []) t).1
          (Step-trans step done.step) done.ids
    fetched (err e) t step = step
    fetched panic t step = step
