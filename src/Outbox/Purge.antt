-- ===== src/Outbox/Purge.antt =====
-- internal/outbox/outbox.go: PurgePublished.
use go_api_scaffolding.Common.{ℕ, zero, suc, ◌+◌, ◌-◌, Option, none, some, true, false, ltb}
use go_api_scaffolding.Errors.{Error, wrap, Result, ok, err, panic}
use go_api_scaffolding.Db.{Session}
use go_api_scaffolding.Db.Queries.Outbox.{delete_published_outbox_before}

abbrev pub purge_batch_size : ℕ
purge_batch_size = 5000

abbrev pub Loop : Type 0
Loop = Option (Result (ℕ × Option Error) × Session)

-- The end of a round, by what the statement answered; `rest` is the loop with a greater total.
abbrev pub after_round : ℕ → ℕ → Session → (ℕ → Loop) → Result ℕ → Loop
after_round size total s rest (ok n) = elim (ltb n size) [
  | true ↦ some (ok (total + n, none), s)
  | false ↦ rest (total + n)
]
after_round size total s rest (err e) =
    some (ok (total, some (wrap "purge published outbox messages" e)), s)
after_round size total s rest panic = some (panic, s)

-- The loop: `none` stands for a loop that is still running when the fuel is used up. The result is
-- the total, with the error if there was one.
unfoldable pub purge_from : ℕ → ℕ → ℕ → ℕ → Session → Loop
purge_from zero size before total s = none
purge_from (suc fuel) size before total s =
    let (r, s') = delete_published_outbox_before before size s in
    after_round size total s' (λ n. purge_from fuel size before n s') r

unfoldable pub purge_published : ℕ → ℕ → Session → Loop
purge_published fuel retention s = purge_from fuel purge_batch_size (s.now - retention) 0 s
