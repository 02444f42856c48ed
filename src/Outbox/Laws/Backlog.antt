-- ===== src/Outbox/Laws/Backlog.antt =====
-- What the steps of a batch do to the rows that are not yet published.
use go_api_scaffolding.Common.{
  ℕ, suc, ◌≡◌, ◌<◌, ◌≤◌, refl, ap, sym, ◌∙◌, subst, Bool, true, not, ◌&&◌, Bool-cases, inl, inr,
  Bytes, List, [], ◌∷◌, ◌++◌, none, some, length, any, keep, sort_by, insert_by, All, All-append,
  All-take, arith,
}
use go_api_scaffolding.Errors.{Error, wrap, rejected, ok_injective, Result, ok}
use go_api_scaffolding.Db.{OutboxMessage, Session, M, pure}
use go_api_scaffolding.Db.Queries.{update_where}
use go_api_scaffolding.Db.Queries.Laws.{All-map_weaken}
use go_api_scaffolding.Db.Queries.Outbox.{
  run_fetch_unpublished_outbox, run_mark_outbox_published, run_record_outbox_failure,
  is_unpublished, is_due, by_id, member, fetch_unpublished_outbox, mark_outbox_published,
  record_outbox_failure, refused, has_number,
}
use go_api_scaffolding.Db.Statements.{statement_ok, bind_ok}
use go_api_scaffolding.Outbox.Text.{storable_error}
use go_api_scaffolding.Outbox.Relay.{
  Outcome, accepted, declined, panicked, Publisher, message_of, Progress, settle, publish_rows,
  mark,
}

-- A row with that id is not yet published; the number of such rows.
abbrev pub waits : List OutboxMessage → ℕ → Bool
waits rows i = any (λ m. is_unpublished m && has_number i m) rows

abbrev pub unpublished : List OutboxMessage → ℕ
unpublished rows = length (keep is_unpublished rows)

waits-refused :
    (id now i : ℕ) (msg : Bytes) (rows : List OutboxMessage)
    → waits (update_where (has_number id) (refused msg now) rows) i ≡ waits rows i
waits-refused id now i msg [] = refl
waits-refused id now i msg (m ∷ rows) = ground (arith, waits-refused id now i msg rows)

unpublished-refused :
    (id now : ℕ) (msg : Bytes) (rows : List OutboxMessage)
    → unpublished (update_where (has_number id) (refused msg now) rows) ≡ unpublished rows
unpublished-refused id now msg [] = refl
unpublished-refused id now msg (m ∷ rows) = ground (arith, unpublished-refused id now msg rows)

abbrev published_at_now : ℕ → OutboxMessage → OutboxMessage
published_at_now now m = record m { published_at = some now }

unpublished-mark_le :
    (ids : List ℕ) (now : ℕ) (rows : List OutboxMessage)
    → unpublished (update_where (λ m. member ids m.id) (published_at_now now) rows)
      ≤ unpublished rows
unpublished-mark_le ids now [] = omega arith
unpublished-mark_le ids now (m ∷ rows) = ground (arith, unpublished-mark_le ids now rows)

unpublished-mark_lt :
    (ids : List ℕ) (now i : ℕ) (rows : List OutboxMessage)
    → member ids i ≡ true
    → waits rows i ≡ true
    → unpublished (update_where (λ m. member ids m.id) (published_at_now now) rows)
      < unpublished rows
unpublished-mark_lt ids now i [] h w = ground arith
unpublished-mark_lt ids now i (m ∷ rows) h w =
    elim (Bool-cases (is_unpublished m && has_number i m)) [
      | inl hit ↦
          let le = unpublished-mark_le ids now rows in
          let same_id : i ≡ m.id = ground arith in
          let marked : member ids m.id ≡ true = subst (λ j. member ids j ≡ true) same_id h in
          ground arith
      | inr miss ↦ let lt = unpublished-mark_lt ids now i rows h (ground arith) in ground arith
    ]

-- The rows that are fetched wait in the table.
waits-cons :
    (m : OutboxMessage) (rows : List OutboxMessage) (i : ℕ)
    → waits rows i ≡ true
    → waits (m ∷ rows) i ≡ true
waits-cons m rows i h = ground arith

kept-wait :
    (p : OutboxMessage → Bool) (rows : List OutboxMessage)
    → ((m : OutboxMessage) → p m ≡ true → is_unpublished m ≡ true)
    → All (λ m. waits rows m.id ≡ true) (keep p rows)
kept-wait p [] due = tt
kept-wait p (m ∷ rows) due =
    let rest =
      All-map_weaken _ (λ x. waits (m ∷ rows) x.id ≡ true) (keep p rows)
        (λ x h. waits-cons m rows x.id h) (kept-wait p rows due) in
    elim (Bool-cases (p m)) [
      | inl hit ↦ rw hit (let u = due m hit in ground arith, rest)
      | inr miss ↦ rw miss rest
    ]

All-insert_by :
    (P : OutboxMessage → Type 0) (x : OutboxMessage) (xs : List OutboxMessage)
    → P x
    → All P xs
    → All P (insert_by by_id x xs)
All-insert_by P x [] p h = (p, tt)
All-insert_by P x (y ∷ ys) p (q, h) = elim (Bool-cases (by_id y x)) [
  | inl first ↦ rw first (q, All-insert_by P x ys p h)
  | inr second ↦ rw second (p, (q, h))
]

All-sort_by :
    (P : OutboxMessage → Type 0) (xs : List OutboxMessage) → All P xs → All P (sort_by by_id xs)
All-sort_by P [] h = tt
All-sort_by P (x ∷ xs) (p, h) = All-insert_by P x (sort_by by_id xs) p (All-sort_by P xs h)

pub fetched-wait :
    (limit : ℕ) (s : Session) (rows : List OutboxMessage)
    → (fetch_unpublished_outbox limit s).0 ≡ ok rows
    → All (λ m. waits (fetch_unpublished_outbox limit s).1.db.outbox m.id ≡ true) rows
      × ((fetch_unpublished_outbox limit s).1.db.outbox ≡ s.db.outbox)
unfolding fetch_unpublished_outbox
fetched-wait limit s rows h =
    let (ran, after) = statement_ok (run_fetch_unpublished_outbox limit) s rows h in
    let free : OutboxMessage → Bool = λ m. is_due s.now m && not (s.locked m.id) in
    let all =
      All-take _ limit (sort_by by_id (keep free s.db.outbox)) (
        All-sort_by _ (keep free s.db.outbox) (kept-wait free s.db.outbox (λ m k. ground arith))) in
    rw after (subst (All (λ m. waits s.db.outbox m.id ≡ true)) (ok_injective ran) all, refl)

-- Ids that all wait.
abbrev pub AllWait : List OutboxMessage → List ℕ → Type 0
AllWait rows ids = All (λ i. waits rows i ≡ true) ids

-- A row that was turned down waits as before, and the backlog has its size.
record_failure-waits :
    (msg : Bytes) (id n : ℕ) (s : Session)
    → (record_outbox_failure msg id s).0 ≡ ok n
    → ((i : ℕ) → waits (record_outbox_failure msg id s).1.db.outbox i ≡ waits s.db.outbox i)
      × (unpublished (record_outbox_failure msg id s).1.db.outbox ≡ unpublished s.db.outbox)
unfolding record_outbox_failure
record_failure-waits msg id n s h =
    let (ran, after) = statement_ok (run_record_outbox_failure msg id) s n h in
    rw after
      (λ i. waits-refused id s.now i msg s.db.outbox, unpublished-refused id s.now msg s.db.outbox)

-- What the rounds over the rows leave when they end well: ids that wait, and the same backlog.
abbrev pub Rounds : ℕ → Result Progress × Session → Type 0
Rounds n r =
    (p : Progress) → r.0 ≡ ok p → AllWait r.1.db.outbox p.0 × (unpublished r.1.db.outbox ≡ n)

still-wait :
    (xs ys : List OutboxMessage) (ids : List ℕ)
    → ((i : ℕ) → waits ys i ≡ waits xs i)
    → AllWait xs ids
    → AllWait ys ids
still-wait xs ys ids same_rows h = All-map_weaken _ _ ids (λ i k. same_rows i ∙ k) h

Row-still-wait :
    (xs ys rows : List OutboxMessage)
    → ((i : ℕ) → waits ys i ≡ waits xs i)
    → All (λ m. waits xs m.id ≡ true) rows
    → All (λ m. waits ys m.id ≡ true) rows
Row-still-wait xs ys rows same_rows h = All-map_weaken _ _ rows (λ m k. same_rows m.id ∙ k) h

settle-Rounds :
    (o : Outcome) (row : OutboxMessage) (rows : List OutboxMessage) (rest : Progress → M Progress)
    (p : Progress) (s : Session)
    → ((q : Progress) (t : Session)
        → AllWait t.db.outbox q.0
        → All (λ m. waits t.db.outbox m.id ≡ true) rows
        → Rounds (unpublished t.db.outbox) (rest q t))
    → AllWait s.db.outbox p.0
    → waits s.db.outbox row.id ≡ true
    → All (λ m. waits s.db.outbox m.id ≡ true) rows
    → Rounds (unpublished s.db.outbox) (settle o row.id rest p s)
settle-Rounds accepted row rows rest (ids, failures) s ih a w ws =
    ih (ids ++ row.id ∷ [], failures) (record s { sent = row.id ∷ s.sent })
      (All-append _ ids (row.id ∷ []) a (w, tt)) ws
settle-Rounds (declined msg (some e)) row rows rest (ids, failures) s ih a w ws = λ q h. cc
settle-Rounds (declined msg none) row rows rest (ids, failures) s ih a w ws = λ q h.
    let next : Progress = (ids, failures ++ wrap "publish outbox message" (rejected msg) ∷ []) in
    let (n, recorded, chain) =
      bind_ok (record_outbox_failure (storable_error msg) row.id) (λ _. rest next) s h in
    let t = (record_outbox_failure (storable_error msg) row.id s).1 in
    let (same_rows, same_count) = record_failure-waits (storable_error msg) row.id n s recorded in
    let (all, count) =
      ih next t (still-wait s.db.outbox t.db.outbox ids same_rows a)
        (Row-still-wait s.db.outbox t.db.outbox rows same_rows ws) q
        (sym (ap (λ (r : Result Progress × Session). r.0) chain) ∙ h) in
    rw chain (all, count ∙ same_count)
settle-Rounds panicked row rows rest p s ih a w ws = λ q h. cc

pub publish_rows-Rounds :
    (publisher : Publisher) (rows : List OutboxMessage) (p : Progress) (s : Session)
    → AllWait s.db.outbox p.0
    → All (λ m. waits s.db.outbox m.id ≡ true) rows
    → Rounds (unpublished s.db.outbox) (publish_rows publisher rows p s)
unfolding publish_rows
publish_rows-Rounds publisher [] p s a ws =
    λ q e. (subst (λ (z : Progress). AllWait s.db.outbox z.0) (ok_injective e) a, refl)
publish_rows-Rounds publisher (row ∷ rows) p s a (w, ws) =
    settle-Rounds (publisher (message_of row)) row rows (publish_rows publisher rows) p s
      (λ q t b us. publish_rows-Rounds publisher rows q t b us) a w ws

pub mark-unpublished :
    (p : Progress) (s : Session) (n : ℕ) (failures : List Error)
    → AllWait s.db.outbox p.0
    → (mark p s).0 ≡ ok (suc n, failures)
    → unpublished (mark p s).1.db.outbox < unpublished s.db.outbox
unfolding mark_outbox_published
mark-unpublished ([], errs) s n failures a h = ground arith
mark-unpublished (i ∷ ids, errs) s n failures (w, a) h =
    let (u, marked, chain) =
      bind_ok (mark_outbox_published (i ∷ ids)) (λ _. pure (length (i ∷ ids), errs)) s h in
    let (ran, after) = statement_ok (run_mark_outbox_published (i ∷ ids)) s u marked in
    let marks : member (i ∷ ids) i ≡ true = ground arith in
    let lt = unpublished-mark_lt (i ∷ ids) s.now i s.db.outbox marks w in
    subst (λ (t : Session). unpublished t.db.outbox < unpublished s.db.outbox)
      (sym (ap (λ (r : Result (ℕ × List Error) × Session). r.1) chain ∙ after)) lt
