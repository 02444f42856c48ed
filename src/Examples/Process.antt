-- ===== src/Examples/Process.antt =====
-- The theorems on the process at one of its lives: it serves, is told to stop, and stops.
use go_api_scaffolding.Common.{◌≡◌, ◌≢◌, ◌⊎◌, refl, Bool, true, false, List, [], ◌∷◌, ◌++◌, arith}
use go_api_scaffolding.Process.{
  relay, reaper, exited, opened, closing, closed, Event, advance, signal, deadline, acquires, stops,
  new_process, advance_run, step, run,
}
use go_api_scaffolding.Process.Laws.{Accounted, run-closes_last}
use go_api_scaffolding.Process.Ending.{turns, run-exits, run-waits}

abbrev started : List Event
started =
    advance true
    ∷ advance true
    ∷ advance true
    ∷ advance true
    ∷ advance true
    ∷ advance true
    ∷ signal
    ∷ []

-- Both workers stop in time, and the deferred calls up to that of the pool are made.
abbrev stopped : List Event
stopped =
    started
    ++ (advance true
        ∷ advance true
        ∷ advance true
        ∷ advance true
        ∷ stops relay
        ∷ stops reaper
        ∷ advance true
        ∷ advance true
        ∷ advance true
        ∷ advance true
        ∷ advance true
        ∷ [])

run-closes_last_example :
    let s = run stopped (new_process false) in
    ((s.launched ≡ false) ⊎ (s.cancelled ≡ true))
    × ((s.served ≡ false)
        ⊎ (Accounted s.relay_runs s.relay_warned × Accounted s.reaper_runs s.reaper_warned))
unfolding run step advance_run new_process
run-closes_last_example = run-closes_last false stopped refl

abbrev steps : List Bool
steps =
    true ∷ true ∷ false ∷ true ∷ true ∷ true ∷ true ∷ true ∷ true ∷ true ∷ true ∷ true ∷ true ∷ true
    ∷ true ∷ []

run-exits_example :
    let s = run (turns steps) (run started (new_process false)) in
    (s.phase ≡ exited) × (s.pool ≢ opened) × (s.pool ≢ closing)
unfolding run step advance_run new_process
run-exits_example = run-exits false started steps refl refl (omega arith)

-- A worker is stuck with a connection, and the grace period passes.
abbrev stuck : List Event
stuck =
    started
    ++ (acquires
        ∷ advance true
        ∷ advance true
        ∷ advance true
        ∷ advance true
        ∷ deadline
        ∷ advance true
        ∷ advance true
        ∷ advance true
        ∷ advance true
        ∷ advance true
        ∷ advance true
        ∷ [])

run-waits_example : let s = run stuck (new_process false) in (s.pool ≢ closed) × (s.phase ≢ exited)
unfolding run step advance_run new_process
run-waits_example = run-waits false stuck refl
