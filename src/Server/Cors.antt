-- ===== src/Server/Cors.antt =====
-- internal/server/middleware.go: CORS and SecureHeaders.
use go_api_scaffolding.Common.{
  Bool, true, false, not, ◌&&◌, ◌||◌, Bytes, codes, List, [], ◌∷◌, any, same, if◌then◌else◌,
}
use text.Mathlib.Text.{◌==◌ as str_eq}
use go_api_scaffolding.Db.{pure}
use go_api_scaffolding.Http.{Request, Writer, Handler, header, set_header, add_header, write_header}

unfoldable pub secure_headers : Handler → Handler
secure_headers next r w = next r (
    set_header "Referrer-Policy" (codes "no-referrer") (
      set_header "X-Frame-Options" (codes "DENY")
        (set_header "X-Content-Type-Options" (codes "nosniff") w)))

abbrev pub is_empty : List Bytes → Bool
is_empty [] = true
is_empty (o ∷ os) = false

-- allowAny, or the origin is in the set
abbrev pub is_allowed : List Bytes → Bool → Bytes → Bool
is_allowed allowed reflect_any origin =
    any (λ o. same o origin) allowed || (reflect_any && is_empty allowed)

unfoldable pub is_preflight : Request → Bool
is_preflight r =
    str_eq r.method "OPTIONS" && not (same (header "Access-Control-Request-Method" r) [])

-- The headers that a permitted origin gets.
abbrev pub grant : Bool → Bytes → Writer → Writer
grant true origin w = set_header "Access-Control-Max-Age" (codes "600") (
    set_header "Access-Control-Allow-Headers" (codes "Authorization, Content-Type, Idempotency-Key")
      (set_header "Access-Control-Allow-Methods" (codes "GET, POST, PUT, DELETE, OPTIONS")
        (set_header "Access-Control-Allow-Origin" origin w)))
grant false origin w =
    set_header "Access-Control-Expose-Headers" (codes "Location, Idempotency-Replayed")
      (set_header "Access-Control-Allow-Origin" origin w)

-- What the middleware adds before it answers a preflight or goes on.
abbrev pub cors_headers : List Bytes → Bool → Bool → Bytes → Writer → Writer
cors_headers allowed reflect_any preflight [] w = w
cors_headers allowed reflect_any preflight (c ∷ origin) w =
    let varied = add_header "Vary" (codes "Origin") w in
    if is_allowed allowed reflect_any (c ∷ origin)
    then grant preflight (c ∷ origin) varied
    else varied

unfoldable pub cors : List Bytes → Bool → Handler → Handler
cors allowed reflect_any next r w =
    let w' = cors_headers allowed reflect_any (is_preflight r) (header "Origin" r) w in
    if is_preflight r then pure (write_header 204 w') else next r w'
