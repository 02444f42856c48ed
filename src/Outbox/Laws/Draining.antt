-- ===== src/Outbox/Laws/Draining.antt =====
-- The loop of drain ends.
use go_api_scaffolding.Common.{
  ℕ, zero, suc, ◌+◌, ◌≡◌, ◌<◌, refl, ap, sym, ◌∙◌, subst, Bool, true, false, List, [], Option, none,
  some, arith, if◌then◌else◌,
}
use go_api_scaffolding.Errors.{Error, Result, ok, err, panic}
use go_api_scaffolding.Db.{Db, Session, ◌>>=◌}
use go_api_scaffolding.Db.Queries.Outbox.{fetch_unpublished_outbox}
use go_api_scaffolding.Db.Statements.{started, bind_ok}
use go_api_scaffolding.Tx.{within_tx}
use go_api_scaffolding.Tx.Laws.{within_tx_ok}
use go_api_scaffolding.Outbox.Relay.{
  Publisher, publish_rows, mark, batch, report, process_batch, goes_on, drain, Drained, after_batch,
}
use go_api_scaffolding.Outbox.Laws.Backlog.{
  unpublished, fetched-wait, publish_rows-Rounds, mark-unpublished,
}

-- A batch that marks messages leaves fewer of them to publish.
batch-unpublished :
    (publisher : Publisher) (batch_size n : ℕ) (failures : List Error) (s : Session)
    → (batch publisher batch_size s).0 ≡ ok (suc n, failures)
    → unpublished (batch publisher batch_size s).1.db.outbox < unpublished s.db.outbox
unfolding batch
batch-unpublished publisher batch_size n failures s h =
    let (rows, got, first) =
      bind_ok (fetch_unpublished_outbox batch_size)
        (λ rows. publish_rows publisher rows ([], []) >>= mark) s h in
    let (all, same_rows) = fetched-wait batch_size s rows got in
    let t = (fetch_unpublished_outbox batch_size s).1 in
    let h1 = sym (ap (λ (r : Result (ℕ × List Error) × Session). r.0) first) ∙ h in
    let (p, published, second) = bind_ok (publish_rows publisher rows ([], [])) mark t h1 in
    let (wait, count) = publish_rows-Rounds publisher rows ([], []) t tt all p published in
    let u = (publish_rows publisher rows ([], []) t).1 in
    let h2 = sym (ap (λ (r : Result (ℕ × List Error) × Session). r.0) second) ∙ h1 in
    let lt = mark-unpublished p u n failures wait h2 in
    let end_state = ap (λ (r : Result (ℕ × List Error) × Session). r.1) (first ∙ second) in
    let start_count = count ∙ ap unpublished same_rows in
    subst (λ (z : Session). unpublished z.db.outbox < unpublished s.db.outbox) (sym end_state)
      (subst (λ k. unpublished (mark p u).1.db.outbox < k) start_count lt)

report-ok :
    (r : Result (ℕ × List Error)) (n : ℕ) (e : Option Error)
    → report r ≡ ok (suc n, e)
    → (failures : List Error) × (r ≡ ok (suc n, failures))
report-ok (ok (k, failures)) n e h = (failures, ground arith)
report-ok (err x) n e h = ground arith
report-ok panic n e h = cc

process_batch-unpublished :
    (publisher : Publisher) (batch_size n : ℕ) (e : Option Error) (s : Session)
    → (process_batch publisher batch_size s).0 ≡ ok (suc n, e)
    → unpublished (process_batch publisher batch_size s).1.db.outbox < unpublished s.db.outbox
unfolding process_batch
process_batch-unpublished publisher batch_size n e s h =
    let (failures, done) = report-ok (within_tx (batch publisher batch_size) s).0 n e h in
    let (ran, tables) = within_tx_ok (batch publisher batch_size) s (suc n, failures) done in
    let lt = batch-unpublished publisher batch_size n failures (started s) ran in
    subst (λ (d : Db). unpublished d.outbox < unpublished s.db.outbox) (sym tables) lt

-- The loop has ended, with a result.
abbrev pub Ends : Drained → Type 0
Ends o = (r : Result ℕ × Session) × (o ≡ some r)

after_batch-Ends :
    (batch_size total : ℕ) (t : Session) (rest : ℕ → Drained) (r : Result (ℕ × Option Error))
    → ((n : ℕ) (e : Option Error) → r ≡ ok (suc n, e) → Ends (rest (total + suc n)))
    → Ends (after_batch batch_size total t rest r)
after_batch-Ends batch_size total t rest (err e) more = (_, refl)
after_batch-Ends batch_size total t rest panic more = (_, refl)
after_batch-Ends batch_size total t rest (ok (n, some e)) more = (_, refl)
after_batch-Ends batch_size total t rest (ok (zero, none)) more = (_, refl)
after_batch-Ends batch_size total t rest (ok (suc n, none)) more =
    goes_on-Ends (goes_on batch_size (suc n, none)) (more n none refl)
  where
    goes_on-Ends :
        (b : Bool)
        → Ends (rest (total + suc n))
        → Ends (elim b [ true ↦ rest (total + suc n) | false ↦ some (ok (total + suc n), t) ])
    goes_on-Ends true h = h
    goes_on-Ends false h = (_, refl)

-- With more fuel than there are messages to publish, drain ends, whatever fails and whenever the
-- context is cancelled: each round that it goes on from has published a message.
pub drain-Ends :
    (fuel : ℕ) (publisher : Publisher) (batch_size : ℕ) (alive : ℕ → Bool) (total : ℕ) (s : Session)
    → unpublished s.db.outbox < fuel
    → Ends (drain fuel publisher batch_size alive total s)
unfolding drain
drain-Ends zero publisher batch_size alive total s lt = absurd (omega arith)
drain-Ends (suc fuel) publisher batch_size alive total s lt =
    let (r, t) = process_batch publisher batch_size s in
    while_alive (alive fuel) _ (
      after_batch-Ends batch_size total t (λ n. drain fuel publisher batch_size alive n t) r
        (λ n e h.
          drain-Ends fuel publisher batch_size alive (total + suc n) t
            (omega (arith, process_batch-unpublished publisher batch_size n e s h))))
  where
    while_alive : (b : Bool) (o : Drained) → Ends o → Ends (if b then o else some (ok total, s))
    while_alive true o h = h
    while_alive false o h = (_, refl)
