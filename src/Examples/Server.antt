-- ===== src/Examples/Server.antt =====
-- The theorems on the middlewares at concrete requests.
use go_api_scaffolding.Common.{
  inl, inr, ◌≡◌, refl, ◌⊎◌, true, false, Bytes, codes, List, [], ◌∷◌, ◌++◌, Option, none, some,
  arith,
}
use go_api_scaffolding.Errors.{Result, ok, err, panic}
use go_api_scaffolding.Db.{pure, M}
use go_api_scaffolding.Server.Router.{Validator, api_route}
use go_api_scaffolding.Server.Laws.Access.{Authenticates, KeptOrGranted, writes-KeptOrGranted}
use go_api_scaffolding.Widgets.Handlers.{create_widget, update_widget, delete_widget}
use go_api_scaffolding.Http.{
  Request, Writer, Handler, content, no_body, fresh, values, write_header,
}
use go_api_scaffolding.Problems.{status_problem}
use go_api_scaffolding.Server.Addr.{Addr, v4, Prefix, Net, contains, unmap}
use go_api_scaffolding.Server.RealIp.{
  forwarded_client, forwarded_for, is_trusted, parse_addr, split_comma,
}
use go_api_scaffolding.Server.RateLimit.{IpLimiters}
use go_api_scaffolding.Server.Cors.{cors_headers}
use go_api_scaffolding.Server.Limits.{Scanner}
use go_api_scaffolding.Server.Recover.{Ending, panicked}
use go_api_scaffolding.Server.Laws.RealIp.{forwarded_client_lem}
use go_api_scaffolding.Server.Laws.Limiters.{IsValid}
use go_api_scaffolding.Server.Laws.Cors.{Permitted, cors_headers_lem}
use go_api_scaffolding.Examples.Data.{request, start, handler, verify_all}

-- Addresses are written as the one byte of an IPv4 address, behind which the port stands.
abbrev first_byte : Bytes → Option Addr
first_byte [] = none
first_byte (c ∷ s) = some (v4 c)

abbrev net : Net
net = record {
  split_host = λ s. none;
  parse = first_byte;
  print = λ a. codes "ip";
  print_prefix = λ p. codes "net";
  join_host_port = λ host port. host ++ port;
}

abbrev proxies : List Prefix
proxies = record { addr = v4 48; bits = 32 } ∷ []

-- A forged hop, the client `7`, and the proxy `0`.
abbrev forwarded : Request
forwarded = record (request none no_body) { headers = ("X-Forwarded-For", codes "6,7 ,0") ∷ [] }

echo : Handler
echo r w = pure w

forwarded_client_lem_example : forwarded_client net (v4 48) forwarded proxies ≡ v4 55
unfolding forwarded_for split_comma parse_addr is_trusted contains unmap
    go_api_scaffolding.Common.trim_space
forwarded_client_lem_example =
    forwarded_client_lem net (v4 48) proxies forwarded (codes "6" ∷ []) (codes "0" ∷ []) (codes "7")
      (v4 55) refl ((v4 48, refl, refl), tt) refl refl

abbrev limiters : IpLimiters
limiters = record {
  clients = record { key = codes "7"; limiter = 0; seen = 5 } ∷ [];
  last_sweep = 0;
  made = 1;
}

limiters-IsValid : IsValid limiters
limiters-IsValid = record { below = (omega arith, tt); distinct = (tt, tt) }

cors_headers_lem_example :
    (Permitted [] true (codes "http://a")
      × (values "Access-Control-Allow-Origin"
            (cors_headers [] true false (codes "http://a") fresh).headers
          ≡ codes "http://a" ∷ []))
    ⊎ ((¬ Permitted [] true (codes "http://a"))
        × (values "Access-Control-Allow-Origin"
              (cors_headers [] true false (codes "http://a") fresh).headers
            ≡ []))
cors_headers_lem_example = cors_headers_lem [] true false (codes "http://a") fresh refl (λ h. cc)

abbrev post : Request
post = request none (content (1 ∷ 2 ∷ []))

-- A value is one byte.
abbrev one_byte : Scanner
one_byte [] = none
one_byte (c ∷ s) = some s

abbrev fails_late : Request → Writer → Ending
fails_late r w = panicked (write_header 200 w)

-- A validator that only authenticates.
abbrev let_in : Handler → Writer → Result Request → M Writer
let_in next w (ok r) = next r w
let_in next w (err e) = pure (status_problem 401 "unauthorized" post w)
let_in next w panic = pure (status_problem 500 "internal server error" post w)

abbrev only_authenticates : Validator
only_authenticates auth next r w = let_in next w (auth r)

only_authenticates-Authenticates : Authenticates only_authenticates
only_authenticates-Authenticates auth next r w s = by_result (auth r) refl
  where
    by_result :
        (o : Result Request)
        → auth r ≡ o
        → ((let_in next w o s).1 ≡ s)
          ⊎ ((r' : Request) × (auth r ≡ ok r') × (let_in next w o s ≡ next r' w s))
    by_result (ok r') e = inr (r', e, refl)
    by_result (err x) e = inl refl
    by_result panic e = inl refl

writes-KeptOrGranted_example :
    KeptOrGranted verify_all post start
      (api_route 9 one_byte only_authenticates verify_all (create_widget handler) post fresh start)
    × KeptOrGranted verify_all post start (
        api_route 9 one_byte only_authenticates verify_all
          (update_widget handler (codes "7"))
          post
          fresh
          start)
    × KeptOrGranted verify_all post start (
        api_route 9 one_byte only_authenticates verify_all
          (delete_widget (codes "7"))
          post
          fresh
          start)
writes-KeptOrGranted_example =
    writes-KeptOrGranted 9 one_byte only_authenticates verify_all handler (codes "7") post fresh
      start only_authenticates-Authenticates
