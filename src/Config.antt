-- ===== src/Config.antt =====
-- internal/config/config.go: the settings, their validation, and what cmd/api makes of those for
-- the verifier. Settings that are only passed on to other packages are left out.
pub mod Laws
use go_api_scaffolding.Common.{
  ℕ, ◌^◌, Bool, true, false, not, ◌&&◌, ◌||◌, Bytes, String, codes, List, [], ◌∷◌, any, same,
  to_lower, trim_space, ltb, ◌==◌, if◌then◌else◌,
}
use go_api_scaffolding.Errors.{Result, ok, err, panic, Error}
use go_api_scaffolding.Auth.Verifier.{Settings}

-- Go's int: `negsuc n` is -(n + 1). The settings are far from its bounds.
pub data ℤ : Type 0 where
  pos : ℕ → ℤ
  negsuc : ℕ → ℤ

abbrev pub gtz : ℤ → ℤ → Bool
gtz (pos a) (pos b) = ltb b a
gtz (pos a) (negsuc b) = true
gtz (negsuc a) (pos b) = false
gtz (negsuc a) (negsuc b) = ltb a b

-- float64: NaN, an infinity by its sign, or the number n / 2^k, negative where the sign is set.
pub data Float : Type 0 where
  not_a_number : Float
  infinite : Bool → Float
  finite : Bool → ℕ → ℕ → Float

abbrev pub below_zero : Float → Bool
below_zero not_a_number = false
below_zero (infinite negative) = negative
below_zero (finite negative n k) = negative && ltb 0 n

abbrev pub above_one : Float → Bool
above_one not_a_number = false
above_one (infinite negative) = not negative
above_one (finite negative n k) = not negative && ltb (2 ^ k) n

abbrev pub is_zero : Float → Bool
is_zero (finite negative n k) = n == 0
is_zero _ = false

pub record Config : Type 0 where
  pub env : Bytes
  pub port : ℤ
  pub cors_allowed_origins : List Bytes
  pub rate_limit_per_second : Float
  pub rate_limit_burst : ℤ
  pub max_body_bytes : ℤ
  pub admin_enabled : Bool
  pub admin_token : Bytes
  pub database_url : Bytes
  pub max_conns : ℤ
  pub min_conns : ℤ
  pub sample_ratio : Float
  pub auth : Settings
  pub log_level : Bytes
  pub log_format : Bytes

-- The complaints of Validate, by the setting that is at fault.
pub data Complaint : Type 0 where
  bad_env bad_log_level bad_log_format bad_port no_database_url bad_conns no_verifier : Complaint
  no_admin_token bad_sample_ratio bad_rate bad_burst bad_body_limit : Complaint

abbrev pub is_production : Config → Bool
is_production c = same c.env (codes "production")

abbrev pub one_of : List String → Bytes → Bool
one_of words s = any (λ w. same s (codes w)) words

-- The complaints of the checks that fail, in their order.
abbrev pub complaints : List (Bool × Complaint) → List Complaint
complaints [] = []
complaints ((wrong, e) ∷ checks) = if wrong then e ∷ complaints checks else complaints checks

abbrev pub checks : Config → List (Bool × Complaint)
checks c =
    (not (same c.env (codes "development")) && not (same c.env (codes "production")), bad_env)
    ∷ (
      not (
          one_of ("debug" ∷ "info" ∷ "warn" ∷ "warning" ∷ "error" ∷ [])
            (to_lower (trim_space c.log_level))),
      bad_log_level,
    )
    ∷ (not (one_of ("json" ∷ "text" ∷ []) (to_lower (trim_space c.log_format))), bad_log_format)
    ∷ (gtz (pos 1) c.port || gtz c.port (pos 65535), bad_port)
    ∷ (same c.database_url [], no_database_url)
    ∷ (gtz c.min_conns c.max_conns, bad_conns)
    ∷ (is_production c && (same c.auth.jwks_url [] && same c.auth.public_key_path []), no_verifier)
    ∷ (c.admin_enabled && same c.admin_token [], no_admin_token)
    ∷ (below_zero c.sample_ratio || above_one c.sample_ratio, bad_sample_ratio)
    ∷ (below_zero c.rate_limit_per_second || is_zero c.rate_limit_per_second, bad_rate)
    ∷ (gtz (pos 1) c.rate_limit_burst, bad_burst)
    ∷ (gtz (pos 1) c.max_body_bytes, bad_body_limit)
    ∷ []

unfoldable pub validate : Config → List Complaint
validate c = complaints (checks c)

-- How loading fails: the environment does not parse, or Validate has complaints.
pub data LoadError : Type 0 where
  parse_environment : Error → LoadError
  invalid : Complaint → List Complaint → LoadError

pub data Loaded : Type 0 where
  loaded : Config → Loaded
  refused : LoadError → Loaded
  panicked : Loaded

abbrev pub trim_log : Config → Config
trim_log c = record c { log_level = trim_space c.log_level; log_format = trim_space c.log_format }

abbrev pub accept : Config → List Complaint → Loaded
accept c [] = loaded c
accept c (e ∷ es) = refused (invalid e es)

abbrev pub from_environment : Result Config → Loaded
from_environment (ok c) = accept (trim_log c) (validate (trim_log c))
from_environment (err e) = refused (parse_environment e)
from_environment panic = panicked

-- Load, on what env.Parse makes of the environment.
unfoldable pub load : Result Config → Loaded
load parsed = from_environment parsed
