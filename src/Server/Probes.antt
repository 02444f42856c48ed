-- ===== src/Server/Probes.antt =====
-- internal/server/health.go and the token guard of internal/server/admin.go.
use go_api_scaffolding.Common.{Bool, true, not, ◌||◌, Bytes, [], same, if◌then◌else◌}
use go_api_scaffolding.Db.{pure}
use go_api_scaffolding.Http.{Writer, Handler, plain, header, write_header, write_body}
use go_api_scaffolding.Auth.Bearer.{bearer_token}

-- Health: `ready` is the flag, `ping` tells whether the database answers.
pub record Health : Type 0 where
  pub ready : Bool

unfoldable pub new_health : Health
new_health = record { ready = true }

unfoldable pub set_ready : Bool → Health → Health
set_ready ready h = record h { ready = ready }

unfoldable pub livez : Health → Writer → Writer
livez h w = write_body (plain "ok") (write_header 200 w)

-- http.Error
abbrev pub http_error : Prim.Native.String.String → Prim.Native.Nat.ℕ → Writer → Writer
http_error message code w = write_body (plain message) (write_header code w)

unfoldable pub readyz : Health → Bool → Writer → Writer
readyz h ping w =
    if not h.ready
    then http_error "draining" 503 w
    else if not ping
    then http_error "database unavailable" 503 w
    else write_body (plain "ready") (write_header 200 w)

-- tokenGuard; the comparison in constant time is equality.
unfoldable pub token_guard : Bytes → Handler → Handler
token_guard token next r w =
    if same token [] || not (same (bearer_token (header "Authorization" r)) token)
    then pure (http_error "unauthorized" 401 w)
    else next r w
