-- ===== src/Config/Laws.antt =====
-- What a configuration that is loaded guarantees.
use go_api_scaffolding.Common.{
  ℕ, ◌≡◌, ◌≢◌, ◌≤◌, refl, ◌⊎◌, Bool, true, false, not, All, some, subst, ◌||◌, codes, List, [], ◌∷◌,
  same_iff, arith,
}
use go_api_scaffolding.Errors.{Result, ok, err, panic}
use go_api_scaffolding.Auth.Verifier.{Crypto, Verifier, DevIssuer, new_verifier}
use go_api_scaffolding.Auth.Laws.Selection.{new_verifier-dev_key}
use go_api_scaffolding.Config.{
  ℤ, pos, negsuc, gtz, below_zero, above_one, is_zero, Config, is_production, complaints, checks,
  Complaint, validate, loaded, trim_log, accept, load,
}

no_complaints :
    (checks : List (Bool × Complaint)) → complaints checks ≡ [] → All (λ x. x.0 ≡ false) checks
no_complaints [] h = tt
no_complaints ((true, e) ∷ checks) h = ground arith
no_complaints ((false, e) ∷ checks) h = (refl, no_complaints checks h)

-- A port number, and a limit of at least one.
pub data IsPort : ℤ → Type 0 where
  in_range : (n : ℕ) → 1 ≤ n → n ≤ 65535 → IsPort (pos n)

pub data IsPositive : ℤ → Type 0 where
  at_least_one : (n : ℕ) → 1 ≤ n → IsPositive (pos n)

loaded_injective : {c d : Config} → loaded c ≡ loaded d → c ≡ d
loaded_injective e = cc

port_lem : (p : ℤ) → (gtz (pos 1) p || gtz p (pos 65535)) ≡ false → IsPort p
port_lem (pos n) h = in_range n (ground arith) (ground arith)
port_lem (negsuc n) h = ground arith

positive_lem : (n : ℤ) → gtz (pos 1) n ≡ false → IsPositive n
positive_lem (pos n) h = at_least_one n (ground arith)
positive_lem (negsuc n) h = ground arith

-- What the settings of a process that starts satisfy.
pub record IsValid (c : Config) : Type 0 where
  pub env : (c.env ≡ codes "development") ⊎ (c.env ≡ codes "production")
  pub port : IsPort c.port
  pub database : c.database_url ≢ []
  pub conns : gtz c.min_conns c.max_conns ≡ false
  pub verifier :
      (c.env ≡ codes "development") ⊎ ((c.auth.jwks_url ≢ []) ⊎ (c.auth.public_key_path ≢ []))
  pub admin : (c.admin_enabled ≡ false) ⊎ (c.admin_token ≢ [])
  pub ratio : (below_zero c.sample_ratio ≡ false) × (above_one c.sample_ratio ≡ false)
  pub rate :
      (below_zero c.rate_limit_per_second ≡ false) × (is_zero c.rate_limit_per_second ≡ false)
  pub burst : IsPositive c.rate_limit_burst
  pub body : IsPositive c.max_body_bytes

validate-IsValid : (c : Config) → validate c ≡ [] → IsValid c
unfolding validate
validate-IsValid c h =
    let all = no_complaints (checks c) h in
    let env_ok = all.0 in
    let port_ok = all.1.1.1.0 in
    let db_ok = all.1.1.1.1.0 in
    let conns_ok = all.1.1.1.1.1.0 in
    let verifier_ok = all.1.1.1.1.1.1.0 in
    let admin_ok = all.1.1.1.1.1.1.1.0 in
    let ratio_ok = all.1.1.1.1.1.1.1.1.0 in
    let rate_ok = all.1.1.1.1.1.1.1.1.1.0 in
    let burst_ok = all.1.1.1.1.1.1.1.1.1.1.0 in
    let body_ok = all.1.1.1.1.1.1.1.1.1.1.1.0 in
    let development = same_iff c.env (codes "development") in
    let production = same_iff c.env (codes "production") in
    record {
      env = ground (arith, development, production);
      port = port_lem c.port port_ok;
      database = ground (arith, same_iff c.database_url []);
      conns = conns_ok;
      verifier = ground (
        arith,
        development,
        production,
        same_iff c.auth.jwks_url [],
        same_iff c.auth.public_key_path [],
      );
      admin = ground (arith, same_iff c.admin_token []);
      ratio = ground arith;
      rate = ground arith;
      burst = positive_lem c.rate_limit_burst burst_ok;
      body = positive_lem c.max_body_bytes body_ok;
    }

-- Settings that load are valid: the environment is one of the two known, the port is a port, a
-- database is named, no more connections are kept than are allowed, an environment that is not
-- development has a key set or a public key to verify tokens by, an enabled admin server has a
-- token, the sample ratio is neither below 0 nor above 1, the rate is neither negative nor zero,
-- and the burst and the body limit are at least 1.
pub load-IsValid : (parsed : Result Config) (c : Config) → load parsed ≡ loaded c → IsValid c
unfolding load
load-IsValid (ok given) c h = accepted (validate (trim_log given)) refl h
  where
    accepted :
        (es : List Complaint)
        → validate (trim_log given) ≡ es
        → accept (trim_log given) es ≡ loaded c
        → IsValid c
    accepted [] e k = subst IsValid (loaded_injective k) (validate-IsValid (trim_log given) e)
    accepted (e ∷ es) _ k = ground arith
load-IsValid (err e) c h = ground arith
load-IsValid panic c h = ground arith

-- A process whose settings load hands out a development key only where the environment is spelled
-- "development": cmd/api passes on that the environment is not "production".
pub new_verifier-development :
    (crypto : Crypto) (parsed : Result Config) (c : Config) (v : Verifier crypto) (d : DevIssuer)
    → load parsed ≡ loaded c
    → new_verifier crypto c.auth (not (is_production c)) ≡ ok (v, some d)
    → c.env ≡ codes "development"
new_verifier-development crypto parsed c v d l h =
    let dev = (new_verifier-dev_key crypto c.auth (not (is_production c)) v d h).0 in
    let known = (load-IsValid parsed c l).env in ground (arith, same_iff c.env (codes "production"))
