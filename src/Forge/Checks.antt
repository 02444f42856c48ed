-- ===== src/Forge/Checks.antt =====
-- cmd/forge/resource.go: validateResourceName, validateDatabaseNames and resourceDomainFile. The
-- declarations of a Go file are read by a parameter, the parser of go/parser; a file that does not
-- exist declares nothing.
use go_api_scaffolding.Common.{
  ℕ, Bool, false, not, ◌&&◌, ◌||◌, Bytes, codes, String, List, [], ◌∷◌, ◌++◌, ◌+◌, any, same,
  has_prefix, has_suffix, contains, leb, ltb, ◌==◌, if◌then◌else◌,
}
use go_api_scaffolding.Errors.{rejected, Result, ok, err}
use go_api_scaffolding.Forge.Migrations.{Entry}
use go_api_scaffolding.Forge.Names.{Unicode, Resource}
use go_api_scaffolding.Forge.Edits.{then_ok}

-- What a file declares: its names, and the methods of Queries.
pub record Declarations : Type 0 where
  pub names : List Bytes
  pub methods : List Bytes

abbrev pub member : Bytes → List Bytes → Bool
member name names = any (same name) names

abbrev pub keywords : List String
keywords =
    "break" ∷ "case" ∷ "chan" ∷ "const" ∷ "continue" ∷ "default" ∷ "defer" ∷ "else" ∷ "fallthrough"
    ∷ "for" ∷ "func" ∷ "go" ∷ "goto" ∷ "if" ∷ "import" ∷ "interface" ∷ "map" ∷ "package" ∷ "range"
    ∷ "return" ∷ "select" ∷ "struct" ∷ "switch" ∷ "type" ∷ "var" ∷ []

-- token.IsIdentifier, with the keywords that it refuses too.
abbrev pub name_rune : Unicode → ℕ → Bool
name_rune u r = u.is_letter r || r == b'_' || u.is_digit r

abbrev pub starts_name : Unicode → Bytes → Bool
starts_name u [] = false
starts_name u (r ∷ rs) = not (u.is_digit r)

abbrev pub is_keyword : Bytes → Bool
is_keyword name = any (λ k. same (codes k) name) keywords

abbrev pub is_identifier : Unicode → Bytes → Bool
is_identifier u name =
    starts_name u name && not (any (λ r. not (name_rune u r)) name) && not (is_keyword name)

abbrev pub database_identifiers : Resource → List Bytes
database_identifiers res =
    res.table ∷ (res.table ++ codes "_pkey") ∷ (res.table ++ codes "_list_idx") ∷ []

-- The bytes of a text, which is a list of runes.
abbrev pub rune_length : ℕ → ℕ
rune_length r = if ltb r 128 then 1 else if ltb r 2048 then 2 else if ltb r 65536 then 3 else 4

unfoldable pub byte_length : Bytes → ℕ
byte_length [] = 0
byte_length (r ∷ rs) = rune_length r + byte_length rs

unfoldable pub is_too_long : Bytes → Bool
unfolding byte_length
is_too_long name = ltb 63 (byte_length name)

abbrev pub port_number : Bytes → Bool
port_number (a ∷ b ∷ c ∷ d ∷ []) = leb b'1' d && leb d b'9'
port_number _ = false

abbrev pub is_device : Bytes → Bool
is_device name =
    any (λ d. same (codes d) name) ("con" ∷ "prn" ∷ "aux" ∷ "nul" ∷ [])
    || ((has_prefix name (codes "com") || has_prefix name (codes "lpt")) && port_number name)

abbrev pub runtime_names : List String
runtime_names =
    "Unimplemented" ∷ "ServerInterface" ∷ "ServerInterfaceWrapper" ∷ "MiddlewareFunc"
    ∷ "ChiServerOptions" ∷ "Handler" ∷ "HandlerFromMux" ∷ "HandlerFromMuxWithBaseURL"
    ∷ "HandlerWithOptions" ∷ "RegisterHandlers" ∷ "GetSpec" ∷ []

abbrev pub api_names : Resource → List Bytes
api_names res =
    res.pascal
    ∷ (res.pascal ++ codes "Input")
    ∷ (res.pascal ++ codes "List")
    ∷ (res.pascal ++ codes "ID")
    ∷ (codes "List" ++ res.plural ++ codes "Params")
    ∷ (codes "Create" ++ res.pascal ++ codes "JSONRequestBody")
    ∷ (codes "Update" ++ res.pascal ++ codes "JSONRequestBody")
    ∷ []

abbrev pub query_names : Resource → List Bytes
query_names res =
    (codes "Create" ++ res.pascal)
    ∷ (codes "Get" ++ res.pascal)
    ∷ (codes "Update" ++ res.pascal)
    ∷ (codes "Delete" ++ res.pascal)
    ∷ (codes "List" ++ res.plural)
    ∷ (codes "Count" ++ res.plural)
    ∷ []

abbrev pub generated_names : List String
generated_names = "Querier" ∷ "Queries" ∷ "DBTX" ∷ "Dbtx" ∷ "New" ∷ []

abbrev pub is_generated : Entry → Bool
is_generated e =
    not e.is_dir && has_suffix e.name (codes ".go") && not (has_suffix e.name (codes "_test.go"))

-- The loop over the directory, with what is declared so far.
unfoldable pub collect :
    (Bytes → Result Declarations) → List Entry → Declarations → Result Declarations
unfolding has_suffix
collect read [] found = ok found
collect read (e ∷ es) found =
    let rest = collect read es in
    let more = then_ok (read (codes "internal/gen/db/" ++ e.name)) (λ d.
      rest (record { names = found.names ++ d.names; methods = found.methods ++ d.methods })) in
    if is_generated e then more else rest found

abbrev pub query_taken : Declarations → Bytes → Bool
query_taken d query =
    member query d.methods
    || member (query ++ codes "Params") d.names
    || member (query ++ codes "Row") d.names

abbrev pub check_database : Resource → Declarations → Result (Unit {0})
check_database res d =
    let reserved =
      any (λ n. same (codes n) res.pascal) generated_names || member res.pascal d.names in
    if reserved
    then err (rejected (codes "conflicts with a sqlc declaration"))
    else if any (query_taken d) (query_names res)
    then err (rejected (codes "conflicts with sqlc query"))
    else ok tt

-- A directory that does not exist has no entries.
unfoldable pub validate_database_names :
    Resource → (Bytes → Result Declarations) → Result (List Entry) → Result (Unit {0})
unfolding collect
validate_database_names res read directory = then_ok directory (λ entries.
    then_ok (collect read entries (record { names = []; methods = [] })) (check_database res))

abbrev pub is_api_name : Declarations → Bytes → Bool
is_api_name d name = any (λ n. same (codes n) name) runtime_names || member name d.names

unfoldable pub validate_resource_name :
    Unicode → Resource → (Bytes → Result Declarations) → Result (List Entry) → Result (Unit {0})
unfolding validate_database_names has_prefix is_too_long
validate_resource_name u res read directory =
    if not (is_identifier u res.snake)
    then err (rejected (codes "does not produce a valid Go package name"))
    else if any is_too_long (database_identifiers res)
    then err (rejected (codes "exceeding the 63-byte limit"))
    else if is_device res.snake
    then err (rejected (codes "uses a reserved Windows directory name"))
    else then_ok (read (codes "internal/gen/api/api.gen.go")) (λ d.
      if any (is_api_name d) (api_names res)
      then err (rejected (codes "conflicts with API declaration"))
      else validate_database_names res read directory)

abbrev pub domain_name : Bytes → Bytes
domain_name snake =
    if contains snake (codes "_")
      || same snake (codes "store")
      || same snake (codes "service")
      || same snake (codes "idempotent")
    then snake ++ codes "_model"
    else snake

unfoldable pub resource_domain_file : Resource → Bytes
unfolding contains
resource_domain_file res = domain_name res.snake ++ codes ".go"
