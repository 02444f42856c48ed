-- ===== src/Auth/Laws/Selection.antt =====
-- NewVerifier: which verifier is chosen, and what its parser demands.
use go_api_scaffolding.Common.{
  ℕ, ◌≡◌, ◌≢◌, refl, ap, ap₂, subst, inl, inr, same, Bool-cases, Bool, true, false, Bytes, List, [],
  ◌∷◌, ◌++◌, codes, same_iff, Option, none, some, arith, ◌⊎◌,
}
use go_api_scaffolding.Errors.{Result, ok, err, panic}
use go_api_scaffolding.Auth.Verifier.{
  Settings, Crypto, Verifier, rsa_verifier, DevIssuer, new_verifier, new_parser, verify,
  load_rsa_public_key, from_set, from_key, ParserOption, with_issuer, with_audience,
  with_valid_methods, with_expiration_required, if_set,
}

-- Where a development key is handed out, the environment is development and neither a key set nor
-- a public key is configured. The verifier then checks tokens by that very key.
pub new_verifier-dev_key :
    (c : Crypto) (s : Settings) (development : Bool) (v : Verifier c) (d : DevIssuer)
    → new_verifier c s development ≡ ok (v, some d)
    → (development ≡ true)
      × (s.jwks_url ≡ [])
      × (s.public_key_path ≡ [])
      × (v ≡ rsa_verifier d.key (new_parser s))
      × (d.issuer ≡ s.issuer)
      × (d.audience ≡ s.audience)
unfolding new_verifier
new_verifier-dev_key c s development v d h =
    ground (arith, same_iff s.jwks_url [], same_iff s.public_key_path [])

-- The options that a configured issuer and audience ask for.
abbrev pub issuer_option : Bytes → List ParserOption
issuer_option [] = []
issuer_option s = with_issuer s ∷ []

abbrev pub audience_option : Bytes → List ParserOption
audience_option [] = []
audience_option s = with_audience s ∷ []

issuer_option-eq : (s : Bytes) → if_set s with_issuer ≡ issuer_option s
issuer_option-eq [] = refl
issuer_option-eq (c ∷ s) = refl

audience_option-eq : (s : Bytes) → if_set s with_audience ≡ audience_option s
audience_option-eq [] = refl
audience_option-eq (c ∷ s) = refl

-- What every token must meet: it is signed by RS256, it expires, and it is of the issuer and the
-- audience that are configured.
abbrev pub demands : Settings → List ParserOption
demands s =
    with_valid_methods (codes "RS256" ∷ [])
    ∷ with_expiration_required
    ∷ (issuer_option s.issuer ++ audience_option s.audience)

-- How a token is verified: by the key set of the URL that is configured, or else by the public key of
-- the file that is; and under the demands in both cases.
abbrev pub VerifiesBy : (c : Crypto) → Settings → Verifier c → Bytes → Type 0
VerifiesBy c s v token =
    ((set : c.KeySet) × (s.jwks_url ≢ [])
      × (c.load_set s.jwks_url ≡ ok set)
      × (verify c v token ≡ c.parse_with_set (demands s) set token))
    ⊎ ((key : ℕ) × (s.jwks_url ≡ [])
        × (s.public_key_path ≢ [])
        × (load_rsa_public_key c s.public_key_path ≡ ok key)
        × (verify c v token ≡ c.parse_with_key (demands s) key token))

new_parser-demands : (s : Settings) → new_parser s ≡ demands s
unfolding new_parser
new_parser-demands s =
    ap₂ (λ a b. with_valid_methods (codes "RS256" ∷ []) ∷ with_expiration_required ∷ (a ++ b))
      (issuer_option-eq s.issuer) (audience_option-eq s.audience)

module _ (c : Crypto) (s : Settings) (token : Bytes) where
  abbrev Chooses : Verifier c × Option DevIssuer → Type 0
  Chooses x = (x.1 ≡ none) × VerifiesBy c s x.0 token

  ok-injective : {a b : Verifier c × Option DevIssuer} → ok a ≡ ok b → a ≡ b
  ok-injective e = cc

  by_set :
      (r : Result c.KeySet) (x : Verifier c × Option DevIssuer)
      → s.jwks_url ≢ []
      → c.load_set s.jwks_url ≡ r
      → from_set c (new_parser s) r ≡ ok x
      → Chooses x
  unfolding verify
  by_set (ok set) x there loaded h = subst Chooses (ok-injective h) (
    refl,
    inl (set, there, loaded, ap (λ o. c.parse_with_set o set token) (new_parser-demands s)),
  )
  by_set (err e) x there loaded h = cc
  by_set panic x there loaded h = cc

  by_key :
      (r : Result ℕ) (x : Verifier c × Option DevIssuer)
      → s.jwks_url ≡ []
      → s.public_key_path ≢ []
      → load_rsa_public_key c s.public_key_path ≡ r
      → from_key c (new_parser s) r ≡ ok x
      → Chooses x
  unfolding verify
  by_key (ok key) x absent there loaded h = subst Chooses (ok-injective h) (
    refl,
    inr (key, absent, there, loaded, ap (λ o. c.parse_with_key o key token) (new_parser-demands s)),
  )
  by_key (err e) x absent there loaded h = cc
  by_key panic x absent there loaded h = cc

-- Outside development, where a verifier is given, there is no development key, and a key set or a
-- public key is configured and was loaded. Verify hands every token to the JWT parser with that key set
-- (which goes first) or that key, and with the options that demand RS256, an expiry, and the issuer and
-- the audience that are configured; what these options make the parser do is the parser's.
pub new_verifier-production :
    (c : Crypto) (s : Settings) (v : Verifier c) (d : Option DevIssuer) (token : Bytes)
    → new_verifier c s false ≡ ok (v, d)
    → (d ≡ none) × VerifiesBy c s v token
unfolding new_verifier
new_verifier-production c s v d token h = elim (Bool-cases (same s.jwks_url [])) [
  | inr given ↦ by_set c s token (c.load_set s.jwks_url) (v, d) (set_url given) refl (rw given at h)
  | inl absent ↦ elim (Bool-cases (same s.public_key_path [])) [
    | inr given ↦
        by_key c s token (load_rsa_public_key c s.public_key_path) (v, d)
          ((same_iff s.jwks_url []).0 absent) (set_path given) refl (rw (absent, given) at h)
    | inl none_given ↦ cc (rw (absent, none_given) at h)
  ]
]
  where
    set_url : same s.jwks_url [] ≡ false → s.jwks_url ≢ []
    set_url e k = ground (arith, same_iff s.jwks_url [], e, k)

    set_path : same s.public_key_path [] ≡ false → s.public_key_path ≢ []
    set_path e k = ground (arith, same_iff s.public_key_path [], e, k)
