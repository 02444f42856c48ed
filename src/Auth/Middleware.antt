-- ===== src/Auth/Middleware.antt =====
-- internal/auth/middleware.go, authenticator.go and the context of principal.go: how a request
-- gets its principal.
use go_api_scaffolding.Common.{
  Bool, true, false, String, same, [], Option, none, some, if◌then◌else◌, not,
}
use text.Mathlib.Text.{◌==◌ as str_eq}
use go_api_scaffolding.Errors.{failed, cause, Result, ok, err, panic}
use go_api_scaffolding.Db.{pure}
use go_api_scaffolding.Http.{Request, Writer, Handler, header}
use go_api_scaffolding.Problems.{status_problem}
use go_api_scaffolding.Auth.Principal.{Principal, anonymous}
use go_api_scaffolding.Auth.Bearer.{bearer_token}
use go_api_scaffolding.Auth.Verifier.{Claims, principal, Verify}

-- withHolder and withPrincipal, on the request that carries the context
abbrev pub with_holder : Request → Request
with_holder r = record r { holder = some none }

abbrev pub with_principal : Principal → Request → Request
with_principal p r = record r { holder = some (some p) }

abbrev pub principal_of : Option (Option Principal) → Principal × Bool
principal_of none = (anonymous, false)
principal_of (some none) = (anonymous, false)
principal_of (some (some p)) = (p, true)

unfoldable pub principal_from : Request → Principal × Bool
principal_from r = principal_of r.holder

unfoldable pub seed_context : Handler → Handler
seed_context next r w = next (with_holder r) w

abbrev pub unauthorized : Request → Writer → Writer
unauthorized = status_problem 401 "unauthorized"

-- The two ends of Middleware's handler, by what Verify answered.
abbrev pub admit : Handler → Result Claims → Handler
admit next (ok claims) r w = next (with_principal (principal claims) r) w
admit next (err e) r w = pure (unauthorized r w)
admit next panic r w = λ s. (panic, s)

unfoldable pub middleware : Verify → Handler → Handler
middleware verify next r w =
    let token = bearer_token (header "Authorization" r) in
    if same token [] then pure (unauthorized r w) else admit next (verify token) r w

-- The principal goes into the holder that SeedContext put into the context.
abbrev pub publish : Principal → Request → Option (Option Principal) → Result Request
publish p r none = err (cause failed)
publish p r (some h) = ok (with_principal p r)

abbrev pub publish_claims : Request → Result Claims → Result Request
publish_claims r (ok claims) = publish (principal claims) r r.holder
publish_claims r (err e) = err (cause failed)
publish_claims r panic = panic

-- Authenticate: the request with its principal, or errUnauthorized for every failure.
unfoldable pub authenticate : Verify → String → Request → Result Request
authenticate verify scheme r =
    let token = bearer_token (header "Authorization" r) in
    if not (str_eq scheme "bearerAuth")
    then err (cause failed)
    else if same token []
    then err (cause failed)
    else publish_claims r (verify token)
