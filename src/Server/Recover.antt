-- ===== src/Server/Recover.antt =====
-- internal/server/middleware.go: Recoverer, on handlers that return or panic.
use go_api_scaffolding.Common.{ℕ, zero, suc}
use go_api_scaffolding.Http.{Request, Writer}
use go_api_scaffolding.Problems.{status_problem}

-- How a handler ends: it returns, or it panics, with http.ErrAbortHandler or with another value.
-- The writer is what it has written so far.
pub data Ending : Type 0 where
  returned : Writer → Ending
  aborted panicked : Writer → Ending

-- A panic that finds the response started aborts the connection.
abbrev pub answer_panic : ℕ → Request → Writer → Ending
answer_panic zero r w = returned (status_problem 500 "internal server error" r w)
answer_panic (suc n) r w = aborted w

abbrev pub recover : Request → Ending → Ending
recover r (returned w) = returned w
recover r (aborted w) = aborted w
recover r (panicked w) = answer_panic w.status r w

unfoldable pub recoverer : (Request → Writer → Ending) → Request → Writer → Ending
recoverer next r w = recover r (next r w)
