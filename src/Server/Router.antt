-- ===== src/Server/Router.antt =====
-- internal/server/router.go: the middlewares that an operation of the contract stands behind, and how
-- the failures of the contract's validator are answered. The validator is a parameter.
use go_api_scaffolding.Common.{ℕ, Bytes, String, codes, [], ◌∷◌, if◌then◌else◌, ◌==◌}
use go_api_scaffolding.Errors.{Error, is, max_bytes as body_limit, Result}
use go_api_scaffolding.Http.{Request, Writer, Handler, header, set_header}
use go_api_scaffolding.Problems.{status_problem}
use go_api_scaffolding.Auth.Verifier.{Verify}
use go_api_scaffolding.Auth.Middleware.{seed_context, authenticate}
use go_api_scaffolding.Server.Limits.{max_bytes, Scanner, single_json_document}

-- The challenge of a 401, by the credentials that were sent.
abbrev pub challenge : Bytes → Bytes
challenge [] = codes "Bearer realm=\"forge\""
challenge (c ∷ s) = codes "Bearer realm=\"forge\", error=\"invalid_token\""

-- validationErrorHandler; `detail` is the error's text.
unfoldable pub validation_error_handler : Error → String → ℕ → Request → Writer → Writer
validation_error_handler e detail status r w =
    if is e body_limit
    then status_problem 413 "request body exceeds the size limit" r w
    else if status == 401
    then status_problem status detail r
        (set_header "WWW-Authenticate" (challenge (header "Authorization" r)) w)
    else status_problem status detail r w

unfoldable pub param_error_handler : String → Request → Writer → Writer
param_error_handler detail r w = status_problem 400 detail r w

-- The validator of nethttp-middleware: it is given the function that authenticates, which stores the
-- principal in the request's context, and the handler behind it.
abbrev pub Validator : Type 0
Validator = (Request → Result Request) → Handler → Handler

-- The middlewares of NewRouter from MaxBytes on, for an operation that the contract protects.
unfoldable pub api_route : ℕ → Scanner → Validator → Verify → Handler → Handler
api_route limit first_value validator verify next = max_bytes limit (
    seed_context
      (single_json_document first_value (validator (authenticate verify "bearerAuth") next)))
