-- ===== src/Process/Ending.antt =====
-- How the process comes to its end once its context is cancelled, even if no worker stops.
use go_api_scaffolding.Common.{
  ℕ, ◌+◌, ◌≤◌, ◌<◌, ◌≡◌, ◌≢◌, ◌⊎◌, inl, inr, refl, sym, ap, ◌∙◌, Bool, true, false, List, [], ◌∷◌,
  length, arith,
}
use go_api_scaffolding.Process.Laws.{Inv, new-Inv, run-Inv, closes_pool}
use go_api_scaffolding.Process.{
  Phase, loading, telemetry, connecting, verifying, launching, routing, serving, draining, shutting,
  stopping, waiting_relay, waiting_reaper, leaving, exited, Pool, opened, closing, closed, Process,
  Event, advance, deadline, new_process, advance_run, step, run,
}

-- The steps that a phase is from the end, without the deferred calls.
abbrev pub weight : Phase → ℕ
weight loading = 20
weight telemetry = 18
weight connecting = 16
weight verifying = 14
weight launching = 13
weight routing = 10
weight serving = 9
weight draining = 8
weight shutting = 7
weight stopping = 6
weight waiting_relay = 4
weight waiting_reaper = 3
weight leaving = 1
weight exited = 0

abbrev pub distance : Process → ℕ
distance s = weight s.phase + length s.defers

-- The deadline, and a step of run.
abbrev pub turns : List Bool → List Event
turns [] = []
turns (works ∷ bs) = deadline ∷ advance works ∷ turns bs

-- The context is cancelled, and no connection is in use.
abbrev pub Ends : Process → Type 0
Ends s = (s.ctx_done ≡ true) × (s.held ≡ false)

-- Run does not wait for what may not come.
abbrev pub Goes : Process → Type 0
Goes s = Ends s × ((s.phase ≡ waiting_relay) ⊎ (s.phase ≡ waiting_reaper) → s.fired ≡ true)

advance_run-nearer :
    (p : Phase) (works : Bool) (s : Process)
    → s.phase ≡ p
    → Goes s
    → (distance (advance_run p works s) < distance s) ⊎ (p ≡ exited)
unfolding advance_run
advance_run-nearer loading works s e g = ground arith
advance_run-nearer telemetry works s e g = ground arith
advance_run-nearer connecting works s e g = ground arith
advance_run-nearer verifying works s e g = ground arith
advance_run-nearer launching works s e g = ground arith
advance_run-nearer routing works s e g = ground arith
advance_run-nearer serving works s e g = ground arith
advance_run-nearer draining works s e g = ground arith
advance_run-nearer shutting works s e g = ground arith
advance_run-nearer stopping works s e g = ground arith
advance_run-nearer waiting_relay works s e g = ground arith
advance_run-nearer waiting_reaper works s e g = ground arith
advance_run-nearer leaving works s e g = ground arith
advance_run-nearer exited works s e g = ground arith

advance_run-Ends : (p : Phase) (works : Bool) (s : Process) → Ends s → Ends (advance_run p works s)
unfolding advance_run
advance_run-Ends loading works s d = ground arith
advance_run-Ends telemetry works s d = ground arith
advance_run-Ends connecting works s d = ground arith
advance_run-Ends verifying works s d = ground arith
advance_run-Ends launching works s d = ground arith
advance_run-Ends routing works s d = ground arith
advance_run-Ends serving works s d = ground arith
advance_run-Ends draining works s d = ground arith
advance_run-Ends shutting works s d = ground arith
advance_run-Ends stopping works s d = ground arith
advance_run-Ends waiting_relay works s d = ground arith
advance_run-Ends waiting_reaper works s d = ground arith
advance_run-Ends leaving works s d = ground arith
advance_run-Ends exited works s d = ground arith

turn-exited :
    (works : Bool) (s : Process)
    → s.phase ≡ exited
    → (step (advance works) (step deadline s)).phase ≡ exited
unfolding step advance_run
turn-exited works s e = rw e refl

turns-exited : (bs : List Bool) (s : Process) → s.phase ≡ exited → (run (turns bs) s).phase ≡ exited
unfolding run
turns-exited [] s e = e
turns-exited (works ∷ bs) s e =
    turns-exited bs (step (advance works) (step deadline s)) (turn-exited works s e)

-- The deadline fires, and the distance stays.
deadline-Goes :
    (s : Process)
    → Ends s
    → Goes (step deadline s)
      × (distance (step deadline s) ≡ distance s)
      × ((step deadline s).phase ≡ s.phase)
unfolding step
deadline-Goes s d = ground arith

turns-exit :
    (bs : List Bool) (s : Process)
    → Ends s
    → distance s ≤ length bs
    → (run (turns bs) s).phase ≡ exited
unfolding run step
turns-exit [] s d h = at_end s.phase (omega (arith, h))
  where
    at_end : (p : Phase) → weight p ≤ 0 → p ≡ exited
    at_end p h = ground arith
turns-exit (works ∷ bs) s d h =
    let t : Process = step deadline s in
    let (g, same_distance, same_phase) = deadline-Goes s d in
    elim (advance_run-nearer t.phase works t refl g) [
      | inl near ↦
          turns-exit bs (step (advance works) t) (advance_run-Ends t.phase works t (g.0))
            (omega (arith, near, same_distance, h))
      | inr e ↦ turns-exited bs (step (advance works) t) (turn-exited works s (sym same_phase ∙ e))
    ]

-- When its context is cancelled (by the signal) and no connection of the pool is in use, the process
-- comes to its end even if its workers never stop, and however its own steps end, where only the
-- deadline of the wait fires in between: after as many steps as it is away from its end it has exited,
-- and the pool is not open any more, nor does it wait for a connection.
pub run-exits :
    (admin : Bool) (es : List Event) (bs : List Bool)
    → (run es (new_process admin)).ctx_done ≡ true
    → (run es (new_process admin)).held ≡ false
    → distance (run es (new_process admin)) ≤ length bs
    → let s = run (turns bs) (run es (new_process admin)) in
      (s.phase ≡ exited) × (s.pool ≢ opened) × (s.pool ≢ closing)
unfolding closes_pool
run-exits admin es bs d f h =
    let s : Process = run es (new_process admin) in
    let e = turns-exit bs s (d, f) h in
    let (o, c) =
      at_end (run (turns bs) s)
        (run-Inv (turns bs) s (run-Inv es (new_process admin) (new-Inv admin))) e in
    (e, o, c)
  where
    true_or_false : true ≡ false → ⊥
    true_or_false e = cc

    at_end : (s : Process) → Inv s → s.phase ≡ exited → (s.pool ≢ opened) × (s.pool ≢ closing)
    at_end s h e = (
      (λ o. true_or_false (sym (h.closes o) ∙ ap closes_pool (h.empty e))),
      (λ o. true_or_false (sym (h.still_closes o) ∙ ap closes_pool (h.empty e))),
    )

-- After any events: while a connection of the pool is in use, the pool is not closed and the process
-- has not exited; so a worker that is stuck with a connection does keep the process from its end.
pub run-waits :
    (admin : Bool) (es : List Event)
    → (run es (new_process admin)).held ≡ true
    → let s = run es (new_process admin) in (s.pool ≢ closed) × (s.phase ≢ exited)
unfolding closes_pool
run-waits admin es =
    by_inv (run es (new_process admin)) (run-Inv es (new_process admin) (new-Inv admin))
  where
    true_or_false : true ≡ false → ⊥
    true_or_false e = cc

    not_closed : {p : Pool} → (p ≡ opened) ⊎ (p ≡ closing) → p ≢ closed
    not_closed h e = ground arith

    has_close :
        (s : Process) → Inv s → (s.pool ≡ opened) ⊎ (s.pool ≡ closing) → closes_pool s.defers ≡ true
    has_close s h (inl o) = h.closes o
    has_close s h (inr o) = h.still_closes o

    by_inv : (s : Process) → Inv s → s.held ≡ true → (s.pool ≢ closed) × (s.phase ≢ exited)
    by_inv s h e = (
      not_closed (h.held_open e),
      (λ x. true_or_false (sym (has_close s h (h.held_open e)) ∙ ap closes_pool (h.empty x))),
    )
