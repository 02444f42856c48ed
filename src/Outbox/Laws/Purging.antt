-- ===== src/Outbox/Laws/Purging.antt =====
-- The loop of PurgePublished ends, and removes exactly the rows that it is meant to remove.
use go_api_scaffolding.Common.{
  ℕ, zero, suc, ◌+◌, ◌≡◌, refl, ◌∙◌, ltb→lt, ◌≤◌, ◌<◌, true, false, inl, inr, length, keep, All,
  Option, none, some, ltb, arith, ◌⊎◌, ◌-◌,
}
use Prim.Native.Nat.{min}
use go_api_scaffolding.Errors.{Error, Result, ok, err, panic, ok_injective}
use go_api_scaffolding.Db.{Session}
use go_api_scaffolding.Db.Statements.{statement_ok}
use go_api_scaffolding.Db.Queries.{rows_left}
use go_api_scaffolding.Db.Queries.Laws.{length-drop_where, drop_where-All, keep-drop_where}
use go_api_scaffolding.Db.Queries.Outbox.{
  delete_published_outbox_before, run_delete_published_outbox_before, is_published_before,
}
use go_api_scaffolding.Outbox.Purge.{
  Loop, after_round, purge_from, purge_published, purge_batch_size,
}

-- What one round did when it answered a number of rows.
record Round (before size : ℕ) (s t : Session) (n : ℕ) : Type 0 where
  removed : length t.db.outbox + n ≡ length s.db.outbox
  count : n ≡ min size (length (keep (is_published_before before) s.db.outbox))
  complete : n < size → All (λ m. is_published_before before m ≡ false) t.db.outbox
  others :
      rows_left (is_published_before before) t.db.outbox
      ≡ rows_left (is_published_before before) s.db.outbox

delete-Round :
    (before size n : ℕ) (s : Session)
    → (delete_published_outbox_before before size s).0 ≡ ok n
    → Round before size s (delete_published_outbox_before before size s).1 n
unfolding delete_published_outbox_before
delete-Round before size n s h =
    let p = is_published_before before in
    let (ran, after) = statement_ok (run_delete_published_outbox_before before size) s n h in
    let count : min size (length (keep p s.db.outbox)) ≡ n = ok_injective ran in
    rw after (record {
      removed = omega (arith, length-drop_where size p s.db.outbox);
      count = omega arith;
      complete = λ lt. drop_where-All size p s.db.outbox (omega arith);
      others = keep-drop_where size p s.db.outbox;
    })

-- How the loop ends: with every row gone that is to be purged, as many as the total has grown by,
-- and all other rows there, in their order; or in a panic; or with an error and the total so far.
abbrev pub Purged : ℕ → ℕ → Session → Result (ℕ × Option Error) × Session → Type 0
Purged before total s r =
    ((n : ℕ) × (r.0 ≡ ok (n, none))
      × All (λ m. is_published_before before m ≡ false) r.1.db.outbox
      × (length r.1.db.outbox + n ≡ length s.db.outbox + total)
      × (rows_left (is_published_before before) r.1.db.outbox
          ≡ rows_left (is_published_before before) s.db.outbox))
    ⊎ ((r.0 ≡ panic) ⊎ ((n : ℕ) × (e : Error) × (r.0 ≡ ok (n, some e))))

abbrev pub Ends : ℕ → ℕ → Session → Option (Result (ℕ × Option Error) × Session) → Type 0
Ends before total s o =
    (r : Result (ℕ × Option Error) × Session) × (o ≡ some r) × Purged before total s r

last-Round :
    (before size n total : ℕ) (s t : Session)
    → n < size
    → Round before size s t n
    → Purged before total s (ok (total + n, none), t)
last-Round before size n total s t lt round =
    inl (total + n, refl, round.complete lt, omega (arith, round.removed), round.others)

more_rounds :
    (before size n total : ℕ) (s t : Session) (o : Option (Result (ℕ × Option Error) × Session))
    → Round before size s t n
    → Ends before (total + n) t o
    → Ends before total s o
more_rounds before size n total s t o round (r, e, inl (k, h, clear, count, others)) =
    (r, e, inl (k, h, clear, omega (arith, round.removed), others ∙ round.others))
more_rounds before size n total s t o round (r, e, inr failed) = (r, e, inr failed)

after_round-Ends :
    (before size total : ℕ) (s t : Session) (rest : ℕ → Loop) (r : Result ℕ)
    → ((n : ℕ) → r ≡ ok n → Round before size s t n)
    → ((n : ℕ) → r ≡ ok n → size ≤ n → Ends before (total + n) t (rest (total + n)))
    → Ends before total s (after_round size total t rest r)
after_round-Ends before size total s t rest (err e) round more = (_, refl, inr (inr (_, _, refl)))
after_round-Ends before size total s t rest panic round more = (_, refl, inr (inl refl))
after_round-Ends before size total s t rest (ok n) round more =
    elim (ltb n size)
        as (λ b.
          ltb n size ≡ b
          → Ends before total s
              (elim b [ true ↦ some (ok (total + n, none), t) | false ↦ rest (total + n) ])) [
                | true ↦ λ less. (
                  _,
                  refl,
                  last-Round before size n total s t (ltb→lt n size less) (round n refl),
                )
                | false ↦ λ full.
                    more_rounds before size n total s t (rest (total + n)) (round n refl)
                      (more n refl (ground arith))
              ]
      refl

purge_from-Ends :
    (fuel size before total : ℕ) (s : Session)
    → 0 < size
    → length s.db.outbox < fuel
    → Ends before total s (purge_from fuel size before total s)
unfolding purge_from
purge_from-Ends zero size before total s h lt = absurd (omega arith)
purge_from-Ends (suc fuel) size before total s h lt =
    let (r, t) = delete_published_outbox_before before size s in
    after_round-Ends before size total s t (λ n. purge_from fuel size before n t) r
      (λ n e. delete-Round before size n s e)
      (λ n e full.
        purge_from-Ends fuel size before (total + n) t h
          (omega (arith, (delete-Round before size n s e).removed)))

-- With more fuel than there are rows the purge ends. When it ends without an error, no row is left
-- that was published before now - retention, the total that it returns is the number of rows that
-- are gone, and all other rows are there, in their order.
pub purge_published_lem :
    (fuel retention : ℕ) (s : Session)
    → length s.db.outbox < fuel
    → Ends (s.now - retention) 0 s (purge_published fuel retention s)
unfolding purge_published
purge_published_lem fuel retention s lt =
    purge_from-Ends fuel purge_batch_size (s.now - retention) 0 s (omega arith) lt
