-- ===== src/Examples/Auth.antt =====
-- The theorems on tokens, verifiers, policy and settings at concrete inputs.
use go_api_scaffolding.Common.{
  ◌≡◌, ◌≢◌, refl, ◌⊎◌, ◌↔◌, false, String, codes, [], ◌∷◌, Option, none, some, trim_space, same,
}
use go_api_scaffolding.Errors.{ok, err, panic, cause, failed}
use go_api_scaffolding.Db.{pure}
use go_api_scaffolding.Http.{Request, Handler, no_body, fresh, header}
use go_api_scaffolding.Auth.Bearer.{bearer_token}
use go_api_scaffolding.Auth.Verifier.{
  Claims, principal, Settings, Crypto, rsa_verifier, DevIssuer, new_verifier, new_parser,
  load_rsa_public_key, rsa,
}
use go_api_scaffolding.Auth.Middleware.{middleware, authenticate, unauthorized, with_principal}
use go_api_scaffolding.Auth.Laws.Resolution.{Verified, middleware_guards, authenticate_iff}
use go_api_scaffolding.Auth.Laws.Selection.{new_verifier-production, VerifiesBy}
use go_api_scaffolding.Config.{Config, pos, finite, not_a_number, load, validate}
use go_api_scaffolding.Config.Laws.{IsValid, load-IsValid, new_verifier-development}
use go_api_scaffolding.Examples.Data.{claims, verify_all, start, request}

abbrev anonymous_request : Request
anonymous_request = request none no_body

abbrev scheme : String
scheme = "bearerAuth"

abbrev echo : Handler
echo r w = pure w

middleware_guards_example :
    ((c : Claims) × Verified verify_all anonymous_request c
      × (middleware verify_all echo anonymous_request fresh start
          ≡ echo (with_principal (principal c) anonymous_request) fresh start))
    ⊎ ((¬ ((c : Claims) × Verified verify_all anonymous_request c))
        × ((middleware verify_all echo anonymous_request fresh start
              ≡ (ok (unauthorized anonymous_request fresh), start))
            ⊎ ((verify_all (bearer_token (header "Authorization" anonymous_request)) ≡ panic)
                × (middleware verify_all echo anonymous_request fresh start ≡ (panic, start)))))
middleware_guards_example = middleware_guards verify_all echo anonymous_request fresh start

authenticate_iff_example :
    (authenticate verify_all scheme anonymous_request
      ≡ ok (with_principal (principal claims) anonymous_request))
    ↔ ((scheme ≡ "bearerAuth")
        × (anonymous_request.holder ≢ none)
        × ((c : Claims) × Verified verify_all anonymous_request c
            × (with_principal (principal claims) anonymous_request
                ≡ with_principal (principal c) anonymous_request)))
authenticate_iff_example =
    authenticate_iff verify_all scheme anonymous_request
      (with_principal (principal claims) anonymous_request)

-- Files hold keys, and there are no key sets.
abbrev crypto : Crypto
crypto = record {
  KeySet = Unit {0};
  parse_with_key = λ options key token. ok claims;
  parse_with_set = λ options set token. ok claims;
  load_set = λ url. err (cause failed);
  read_file = λ path. ok (1 ∷ []);
  pem_decode = λ raw. some raw;
  parse_pkix = λ block. ok (rsa 7);
  generate_key = ok 8;
}

abbrev key_file : Settings
key_file = record { jwks_url = []; public_key_path = codes "key.pem"; issuer = []; audience = [] }

abbrev no_issuer : Option DevIssuer
no_issuer = none

new_verifier-production_example :
    (no_issuer ≡ none)
    × VerifiesBy crypto key_file (rsa_verifier 7 (new_parser key_file)) (codes "t0")
unfolding new_verifier load_rsa_public_key same
new_verifier-production_example =
    new_verifier-production crypto key_file (rsa_verifier 7 (new_parser key_file)) no_issuer
      (codes "t0") refl

abbrev development : Config
development = record {
  env = codes "development";
  port = pos 8080;
  cors_allowed_origins = [];
  rate_limit_per_second = finite false 50 0;
  rate_limit_burst = pos 100;
  max_body_bytes = pos 1048576;
  admin_enabled = false;
  admin_token = [];
  database_url = codes "postgres://";
  max_conns = pos 10;
  min_conns = pos 2;
  sample_ratio = finite false 1 0;
  auth = record { jwks_url = []; public_key_path = []; issuer = []; audience = [] };
  log_level = codes "info";
  log_format = codes "json";
}

load-IsValid_example : IsValid development
unfolding load validate same go_api_scaffolding.Common.lower trim_space
load-IsValid_example = load-IsValid (ok development) development refl

new_verifier-development_example : development.env ≡ codes "development"
unfolding load validate same go_api_scaffolding.Common.lower trim_space new_verifier
new_verifier-development_example =
    new_verifier-development crypto (ok development) development
      (rsa_verifier 8 (new_parser development.auth))
      (record { key = 8; issuer = []; audience = [] }) refl refl

-- NaN passes for a rate.
nan_rate : validate (record development { rate_limit_per_second = not_a_number }) ≡ []
unfolding validate same go_api_scaffolding.Common.lower go_api_scaffolding.Common.trim_space
nan_rate = refl
