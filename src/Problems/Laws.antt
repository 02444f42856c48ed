-- ===== src/Problems/Laws.antt =====
-- What a problem response shows.
use go_api_scaffolding.Common.{ℕ, ◌≡◌, refl, Bytes, ◌∷◌, String, ◌≢◌, [], arith}
use go_api_scaffolding.Http.{Request, Writer, problem}
use go_api_scaffolding.Problems.{status_problem, status_text, or_else}

or_else-nil : (s : Bytes) → or_else s [] ≡ s
or_else-nil [] = refl
or_else-nil (c ∷ s) = refl

-- A response that has not started yet becomes the problem: its status line and the member
-- `status` agree, the title is the standard one, the instance is the request's escaped path, and
-- the trace ID is that of the request.
pub status_problem_lem :
    (status : ℕ) (detail : String) (r : Request) (w : Writer)
    → w.status ≡ 0
    → ((status_problem status detail r w).status ≡ status)
      × ((status_problem status detail r w).body
          ≡ problem (record {
            kind = "about:blank";
            title = status_text status;
            status = status;
            detail = detail;
            instance_path = r.escaped_path;
            trace_id = r.trace;
          }))
unfolding status_problem
status_problem_lem status detail r w h = ground (arith, or_else-nil r.trace)

-- A response that has started keeps its status line.
pub status_problem-started :
    (status : ℕ) (detail : String) (r : Request) (w : Writer)
    → w.status ≢ 0
    → (status_problem status detail r w).status ≡ w.status
unfolding status_problem
status_problem-started status detail r w h = ground arith
