-- ===== src/Process/Laws.antt =====
-- What holds of the process after any events, and how it comes to its end.
use go_api_scaffolding.Common.{
  ◌≡◌, ◌≢◌, ◌⊎◌, inl, inr, refl, Bool, true, false, List, [], ◌∷◌, arith,
}
use go_api_scaffolding.Process.{
  relay, reaper, Defer, stop_signals, telemetry_shutdown, pool_close, cancel_workers,
  admin_shutdown, cancel_wait, Phase, loading, telemetry, connecting, verifying, launching, routing,
  serving, draining, shutting, stopping, waiting_relay, waiting_reaper, leaving, exited, Pool,
  unopened, opened, closing, closed, Listener, idle, listening, broken, shut, Process, Event,
  advance, signal, deadline, serve_error, acquires, releases, stops, acquire, new_process,
  advance_run, step, run,
}

-- The workers are cancelled before the pool is closed.
unfoldable pub cancels_first : List Defer → Bool
cancels_first [] = false
cancels_first (cancel_workers ∷ ds) = true
cancels_first (pool_close ∷ ds) = false
cancels_first (stop_signals ∷ ds) = cancels_first ds
cancels_first (telemetry_shutdown ∷ ds) = cancels_first ds
cancels_first (admin_shutdown ∷ ds) = cancels_first ds
cancels_first (cancel_wait ∷ ds) = cancels_first ds

unfoldable pub closes_pool : List Defer → Bool
closes_pool [] = false
closes_pool (pool_close ∷ ds) = true
closes_pool (cancel_workers ∷ ds) = closes_pool ds
closes_pool (stop_signals ∷ ds) = closes_pool ds
closes_pool (telemetry_shutdown ∷ ds) = closes_pool ds
closes_pool (admin_shutdown ∷ ds) = closes_pool ds
closes_pool (cancel_wait ∷ ds) = closes_pool ds

-- A phase before the workers are launched, and one after the wait.
abbrev pub is_early : Phase → Bool
is_early loading = true
is_early telemetry = true
is_early connecting = true
is_early verifying = true
is_early launching = true
is_early _ = false

abbrev pub is_over : Phase → Bool
is_over leaving = true
is_over exited = true
is_over _ = false

abbrev pub before_wait : Phase → Bool
before_wait serving = true
before_wait draining = true
before_wait shutting = true
before_wait stopping = true
before_wait _ = false

pub record Inv (s : Process) : Type 0 where
  pub cancels :
      s.launched ≡ true
      → (s.cancelled ≡ true) ⊎ ((cancels_first s.defers ≡ true) × (s.pool ≡ opened))
  pub closes : s.pool ≡ opened → closes_pool s.defers ≡ true
  pub still_closes : s.pool ≡ closing → closes_pool s.defers ≡ true
  pub held_open : s.held ≡ true → (s.pool ≡ opened) ⊎ (s.pool ≡ closing)
  pub closing_over : s.pool ≡ closing → is_over s.phase ≡ true
  pub early : is_early s.phase ≡ true → (s.launched ≡ false) × (s.served ≡ false)
  pub connected : s.phase ≡ verifying → s.pool ≡ opened
  pub may_launch : s.phase ≡ launching → s.pool ≡ opened
  pub route : s.phase ≡ routing → s.served ≡ false
  pub relay_waited : s.phase ≡ waiting_reaper → (s.relay_runs ≡ false) ⊎ (s.relay_warned ≡ true)
  pub all_waited :
      is_over s.phase ≡ true
      → s.served ≡ true
      → ((s.relay_runs ≡ false) ⊎ (s.relay_warned ≡ true))
        × ((s.reaper_runs ≡ false) ⊎ (s.reaper_warned ≡ true))
  pub stays_open : before_wait s.phase ≡ true → s.pool ≡ opened
  pub wait_open : (s.phase ≡ waiting_relay) ⊎ (s.phase ≡ waiting_reaper) → s.pool ≡ opened
  pub route_open : s.phase ≡ routing → s.pool ≡ opened
  pub drained : (s.phase ≡ draining) ⊎ (s.phase ≡ shutting) → s.ready ≡ false
  pub unready : s.listener ≡ shut → s.ready ≡ false
  pub empty : s.phase ≡ exited → s.defers ≡ []

pub new-Inv : (admin : Bool) → Inv (new_process admin)
unfolding new_process cancels_first closes_pool
new-Inv admin = ground arith

advance_run-Inv :
    (p : Phase) (works : Bool) (s : Process) → s.phase ≡ p → Inv s → Inv (advance_run p works s)
unfolding advance_run cancels_first closes_pool
advance_run-Inv loading works s e h = ground arith
advance_run-Inv telemetry works s e h = ground arith
advance_run-Inv connecting works s e h = ground arith
advance_run-Inv verifying works s e h = ground arith
advance_run-Inv launching works s e h = ground arith
advance_run-Inv routing works s e h = ground arith
advance_run-Inv serving works s e h = ground arith
advance_run-Inv draining works s e h = ground arith
advance_run-Inv shutting works s e h = ground arith
advance_run-Inv stopping works s e h = ground arith
advance_run-Inv waiting_relay works s e h = ground arith
advance_run-Inv waiting_reaper works s e h = ground arith
advance_run-Inv leaving works s e h = ground arith
advance_run-Inv exited works s e h = ground arith

acquire-Inv : (p : Pool) (s : Process) → s.pool ≡ p → Inv s → Inv (acquire p s)
acquire-Inv unopened s e h = h
acquire-Inv opened s e h = ground arith
acquire-Inv closing s e h = h
acquire-Inv closed s e h = h

step-Inv : (e : Event) (s : Process) → Inv s → Inv (step e s)
unfolding step advance_run cancels_first closes_pool
step-Inv (advance works) s h = advance_run-Inv s.phase works s refl h
step-Inv signal s h = ground arith
step-Inv deadline s h = ground arith
step-Inv serve_error s h = ground arith
step-Inv acquires s h = acquire-Inv s.pool s refl h
step-Inv releases s h = ground arith
step-Inv (stops relay) s h = ground arith
step-Inv (stops reaper) s h = ground arith

pub run-Inv : (es : List Event) (s : Process) → Inv s → Inv (run es s)
unfolding run
run-Inv [] s h = h
run-Inv (e ∷ es) s h = run-Inv es (step e s) (step-Inv e s h)

-- A worker has stopped, or a warning about it is logged.
abbrev pub Accounted : Bool → Bool → Type 0
Accounted runs warned = (runs ≡ false) ⊎ (warned ≡ true)

closed_pool :
    (s : Process)
    → Inv s
    → s.pool ≡ closed
    → ((s.launched ≡ false) ⊎ (s.cancelled ≡ true))
      × ((s.served ≡ false)
          ⊎ (Accounted s.relay_runs s.relay_warned × Accounted s.reaper_runs s.reaper_warned))
closed_pool s h e = ground arith

-- After any events: when the pool of connections is closed, the workers were never launched or their
-- context is cancelled; and if the server was started, each of the two workers has stopped before, or a
-- warning that it did not stop in time is logged.
pub run-closes_last :
    (admin : Bool) (es : List Event)
    → (run es (new_process admin)).pool ≡ closed
    → let s = run es (new_process admin) in
      ((s.launched ≡ false) ⊎ (s.cancelled ≡ true))
      × ((s.served ≡ false)
          ⊎ (Accounted s.relay_runs s.relay_warned × Accounted s.reaper_runs s.reaper_warned))
run-closes_last admin es e =
    closed_pool (run es (new_process admin)) (run-Inv es (new_process admin) (new-Inv admin)) e

-- After any events: a listener that was shut down was not ready any more before, and the pool is open
-- as long as the server runs, drains, or waits for its workers.
pub run-drains_first :
    (admin : Bool) (es : List Event)
    → let s = run es (new_process admin) in
      ((s.listener ≢ shut) ⊎ (s.ready ≡ false))
      × ((before_wait s.phase ≡ false) ⊎ (s.pool ≡ opened))
run-drains_first admin es =
    by_inv (run es (new_process admin)) (run-Inv es (new_process admin) (new-Inv admin))
  where
    not_shut : (l : Listener) {b : Bool} → (l ≡ shut → b ≡ false) → (l ≢ shut) ⊎ (b ≡ false)
    not_shut shut h = inr (h refl)
    not_shut idle h = inl (λ e. cc)
    not_shut listening h = inl (λ e. cc)
    not_shut broken h = inl (λ e. cc)

    is_open : (b : Bool) {p : Pool} → (b ≡ true → p ≡ opened) → (b ≡ false) ⊎ (p ≡ opened)
    is_open true h = inr (h refl)
    is_open false h = inl refl

    by_inv :
        (s : Process)
        → Inv s
        → ((s.listener ≢ shut) ⊎ (s.ready ≡ false))
          × ((before_wait s.phase ≡ false) ⊎ (s.pool ≡ opened))
    by_inv s h = (not_shut s.listener h.unready, is_open (before_wait s.phase) h.stays_open)
