-- ===== src/Auth/Verifier.antt =====
-- internal/auth/verifier.go: claims, and the choice of a verifier. The JWT and JWKS libraries, the
-- file system and the key decoders are parameters.
use go_api_scaffolding.Common.{
  ℕ, ◌+◌, Bool, not, Bytes, codes, same, is_space, List, [], ◌∷◌, ◌++◌, Option, none, some,
  if◌then◌else◌,
}
use go_api_scaffolding.Errors.{failed, cause, wrap, Result, ok, err, panic}
use go_api_scaffolding.Auth.Principal.{Principal}

pub record Claims : Type 0 where
  pub subject : Bytes
  pub issuer : Bytes
  pub audience : List Bytes
  pub issued_at : ℕ
  pub expires_at : ℕ
  pub roles : List Bytes
  pub scope : Bytes

-- A byte goes before the fields of a text: into the first one where the text begins with it.
abbrev pub flush : Bytes → List Bytes → List Bytes
flush [] fs = fs
flush (c ∷ cur) fs = (c ∷ cur) ∷ fs

-- strings.Fields, with the word that is being read
unfoldable pub fields_from : Bytes → Bytes → List Bytes
fields_from cur [] = flush cur []
fields_from cur (c ∷ s) =
    let rest = fields_from [] s in
    let longer = fields_from (cur ++ c ∷ []) s in if is_space c then flush cur rest else longer

unfoldable pub fields : Bytes → List Bytes
unfolding fields_from is_space
fields s = fields_from [] s

-- `scope` is split only where it is not empty; an empty one has no fields anyway.
unfoldable pub principal : Claims → Principal
principal c = record {
  subject = c.subject;
  roles = c.roles;
  scopes = elim (c.scope) [ [] ↦ [] | (x ∷ xs) ↦ fields (x ∷ xs) ];
}

-- Verifier: what Verify answers for a token.
abbrev pub Verify : Type 0
Verify = Bytes → Result Claims

pub record Settings : Type 0 where
  pub jwks_url : Bytes
  pub public_key_path : Bytes
  pub issuer : Bytes
  pub audience : Bytes

-- The options of a jwt.Parser.
pub data ParserOption : Type 0 where
  with_valid_methods : List Bytes → ParserOption
  with_expiration_required : ParserOption
  with_issuer with_audience : Bytes → ParserOption

abbrev pub if_set : Bytes → (Bytes → ParserOption) → List ParserOption
if_set [] option = []
if_set (c ∷ s) option = option (c ∷ s) ∷ []

unfoldable pub new_parser : Settings → List ParserOption
new_parser s =
    with_valid_methods (codes "RS256" ∷ [])
    ∷ with_expiration_required
    ∷ (if_set s.issuer with_issuer ++ if_set s.audience with_audience)

-- A parsed key: an RSA key, known by a number, or one of another kind.
pub data ParsedKey : Type 0 where
  rsa : ℕ → ParsedKey
  other_key : ParsedKey

-- The code outside: jwt's ParseWithClaims with a key and with a key set, keyfunc's loading of a
-- set, os.ReadFile, pem.Decode, x509.ParsePKIXPublicKey and rsa.GenerateKey.
pub record Crypto : Type 1 where
  pub KeySet : Type 0
  pub parse_with_key : List ParserOption → ℕ → Bytes → Result Claims
  pub parse_with_set : List ParserOption → KeySet → Bytes → Result Claims
  pub load_set : Bytes → Result KeySet
  pub read_file : Bytes → Result Bytes
  pub pem_decode : Bytes → Option Bytes
  pub parse_pkix : Bytes → Result ParsedKey
  pub generate_key : Result ℕ

-- The signing half of the development key; it is known by the number of its public half.
pub record DevIssuer : Type 0 where
  pub key : ℕ
  pub issuer : Bytes
  pub audience : Bytes

-- The claims that Mint signs.
unfoldable pub minted : DevIssuer → Bytes → List Bytes → ℕ → ℕ → Claims
minted d subject roles ttl now = record {
  subject = subject;
  issuer = d.issuer;
  audience = d.audience ∷ [];
  issued_at = now;
  expires_at = now + ttl;
  roles = roles;
  scope = [];
}

module _ (c : Crypto) where
  -- verifier.go's two implementations of Verifier
  pub data Verifier : Type 0 where
    rsa_verifier : ℕ → List ParserOption → Verifier
    jwks_verifier : c.KeySet → List ParserOption → Verifier

  unfoldable pub verify : Verifier → Verify
  verify (rsa_verifier key parser) token = c.parse_with_key parser key token
  verify (jwks_verifier set parser) token = c.parse_with_set parser set token

  abbrev pub as_rsa : Result ParsedKey → Result ℕ
  as_rsa (ok (rsa key)) = ok key
  as_rsa (ok other_key) = err (cause failed)
  as_rsa (err e) = err (wrap "parse public key" e)
  as_rsa panic = panic

  abbrev pub decode_block : Option Bytes → Result ℕ
  decode_block none = err (cause failed)
  decode_block (some block) = as_rsa (c.parse_pkix block)

  abbrev pub decode_file : Result Bytes → Result ℕ
  decode_file (ok raw) = decode_block (c.pem_decode raw)
  decode_file (err e) = err (wrap "read public key" e)
  decode_file panic = panic

  unfoldable pub load_rsa_public_key : Bytes → Result ℕ
  load_rsa_public_key path = decode_file (c.read_file path)

  abbrev pub Chosen : Type 0
  Chosen = Verifier × Option DevIssuer

  abbrev pub from_set : List ParserOption → Result c.KeySet → Result Chosen
  from_set parser (ok set) = ok (jwks_verifier set parser, none)
  from_set parser (err e) = err (wrap "load jwks" e)
  from_set parser panic = panic

  abbrev pub from_key : List ParserOption → Result ℕ → Result Chosen
  from_key parser (ok key) = ok (rsa_verifier key parser, none)
  from_key parser (err e) = err e
  from_key parser panic = panic

  abbrev pub from_dev : Settings → List ParserOption → Result ℕ → Result Chosen
  from_dev s parser (ok key) = ok (
    rsa_verifier key parser,
    some (record { key = key; issuer = s.issuer; audience = s.audience }),
  )
  from_dev s parser (err e) = err (wrap "generate development key" e)
  from_dev s parser panic = panic

  unfoldable pub new_verifier : Settings → Bool → Result Chosen
  new_verifier s development =
      let parser = new_parser s in
      if not (same s.jwks_url [])
      then from_set parser (c.load_set s.jwks_url)
      else if not (same s.public_key_path [])
      then from_key parser (load_rsa_public_key s.public_key_path)
      else if development
      then from_dev s parser c.generate_key
      else err (cause failed)
