-- ===== src/Process.antt =====
-- cmd/api/main.go: run, from the configuration to the deferred calls, with Run of
-- internal/server/server.go; as a machine that takes one step at an event. What run does next may
-- end well or with an error; the signal, the workers, the listener and the deadline are events of
-- their own, so that a list of events is an interleaving. Log lines and the built values are left out.
pub mod Laws
pub mod Ending
use go_api_scaffolding.Common.{Bool, true, false, not, ◌||◌, List, [], ◌∷◌, if◌then◌else◌}

pub data Worker : Type 0 where
  relay reaper : Worker

-- The calls that run defers; the last one deferred is made first.
pub data Defer : Type 0 where
  stop_signals telemetry_shutdown pool_close cancel_workers admin_shutdown cancel_wait : Defer

-- What run does next.
pub data Phase : Type 0 where
  loading telemetry connecting verifying launching routing : Phase
  serving draining shutting stopping waiting_relay waiting_reaper leaving exited : Phase

pub data Pool : Type 0 where
  unopened opened closing closed : Pool

pub data Listener : Type 0 where
  idle listening broken shut : Listener

pub record Process : Type 0 where
  pub phase : Phase
  pub failed : Bool  -- whether run returns an error
  pub admin_enabled : Bool
  pub ctx_done : Bool  -- the context that the signal cancels
  pub cancelled : Bool  -- the context of the workers, a child of the first
  pub fired : Bool  -- the deadline of the wait
  pub ready : Bool
  pub listener : Listener
  pub pool : Pool
  pub held : Bool  -- whether a connection of the pool is in use
  pub launched : Bool
  pub served : Bool  -- whether the server was ever started
  pub relay_runs : Bool
  pub reaper_runs : Bool
  pub relay_warned : Bool
  pub reaper_warned : Bool
  pub defers : List Defer

pub data Event : Type 0 where
  advance : Bool → Event
  signal deadline serve_error : Event
  acquires releases : Event
  stops : Worker → Event

unfoldable pub new_process : Bool → Process
new_process admin = record {
  phase = loading;
  failed = false;
  admin_enabled = admin;
  ctx_done = false;
  cancelled = false;
  fired = false;
  ready = false;
  listener = idle;
  pool = unopened;
  held = false;
  launched = false;
  served = false;
  relay_runs = false;
  reaper_runs = false;
  relay_warned = false;
  reaper_warned = false;
  defers = [];
}

-- An early return.
abbrev pub give_up : Process → Process
give_up s = record s { phase = leaving; failed = true }

abbrev pub deferring : Defer → Process → Process
deferring d s = record s { defers = d ∷ s.defers }

-- The workers run, and the admin server when it is enabled.
abbrev pub launch : Process → Process
launch s =
    let t = record s {
      phase = routing;
      launched = true;
      relay_runs = true;
      reaper_runs = true;
      defers = cancel_workers ∷ s.defers;
    } in
    if s.admin_enabled then deferring admin_shutdown t else t

abbrev pub serve : Process → Process
serve s = record s { phase = serving; served = true; ready = true; listener = listening }

-- Run: its select takes either of two cases that are both ready.
abbrev pub drain : Process → Process
drain s = record s { phase = draining; ready = false }

abbrev pub serve_failed : Process → Process
serve_failed s = record s { phase = stopping; failed = true }

abbrev pub select_serving : Bool → Process → Process
select_serving first s = elim (s.listener) [
  | broken ↦ if first || not s.ctx_done then serve_failed s else drain s
  | _ ↦ if s.ctx_done then drain s else s
]

-- shutdownHTTPServer: connections that the deadline leaves open are closed.
abbrev pub shut_down : Bool → Process → Process
shut_down works s = record s { phase = stopping; listener = shut; failed = not works }

abbrev pub cancel_and_wait : Process → Process
cancel_and_wait s = record s {
  phase = waiting_relay;
  cancelled = true;
  defers = cancel_wait ∷ s.defers;
}

-- The wait for a worker: it has stopped, or the deadline has fired and a warning is logged.
abbrev pub wait_relay : Process → Process
wait_relay s =
    if not s.relay_runs
    then record s { phase = waiting_reaper }
    else if s.fired
    then record s { phase = waiting_reaper; relay_warned = true }
    else s

abbrev pub wait_reaper : Process → Process
wait_reaper s =
    if not s.reaper_runs
    then record s { phase = leaving }
    else if s.fired
    then record s { phase = leaving; reaper_warned = true }
    else s

-- The Close of a pool waits until its connections are released.
abbrev pub close_pool : Process → Process
close_pool s =
    if s.held
    then record s { pool = closing; defers = pool_close ∷ s.defers }
    else record s { pool = closed }

abbrev pub call_deferred : Defer → Process → Process
call_deferred stop_signals s = record s { ctx_done = true; cancelled = true }
call_deferred telemetry_shutdown s = s
call_deferred pool_close s = close_pool s
call_deferred cancel_workers s = record s { cancelled = true }
call_deferred admin_shutdown s = s
call_deferred cancel_wait s = s

abbrev pub leave : Process → Process
leave s = elim (s.defers) [
  | [] ↦ record s { phase = exited }
  | d ∷ ds ↦ call_deferred d (record s { defers = ds })
]

-- The next step of run, and whether it works.
unfoldable pub advance_run : Phase → Bool → Process → Process
advance_run loading works s =
    if works then deferring stop_signals (record s { phase = telemetry }) else give_up s
advance_run telemetry works s =
    if works then deferring telemetry_shutdown (record s { phase = connecting }) else give_up s
advance_run connecting works s =
    if works
    then deferring pool_close (record s { phase = verifying; pool = opened })
    else give_up s
advance_run verifying works s = if works then record s { phase = launching } else give_up s
advance_run launching works s = launch s
advance_run routing works s = if works then serve s else give_up s
advance_run serving works s = select_serving works s
advance_run draining works s = record s { phase = shutting }
advance_run shutting works s = shut_down works s
advance_run stopping works s = cancel_and_wait s
advance_run waiting_relay works s = wait_relay s
advance_run waiting_reaper works s = wait_reaper s
advance_run leaving works s = leave s
advance_run exited works s = s

-- The deadline starts with the wait.
abbrev pub fire : Phase → Process → Process
fire waiting_relay s = record s { fired = true }
fire waiting_reaper s = record s { fired = true }
fire _ s = s

-- Only a pool that is open hands a connection out.
abbrev pub acquire : Pool → Process → Process
acquire opened s = record s { held = true }
acquire unopened s = s
acquire closing s = s
acquire closed s = s

abbrev pub break_listener : Listener → Listener
break_listener idle = idle
break_listener listening = broken
break_listener broken = broken
break_listener shut = shut

unfoldable pub step : Event → Process → Process
unfolding advance_run
step (advance works) s = advance_run s.phase works s
step signal s = record s { ctx_done = true; cancelled = true }
step deadline s = fire s.phase s
step serve_error s = record s { listener = break_listener s.listener }
step acquires s = acquire s.pool s
step releases s = record s { held = false }
step (stops relay) s = record s { relay_runs = false }
step (stops reaper) s = record s { reaper_runs = false }

unfoldable pub run : List Event → Process → Process
unfolding step
run [] s = s
run (e ∷ es) s = run es (step e s)
