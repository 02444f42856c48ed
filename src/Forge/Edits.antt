-- ===== src/Forge/Edits.antt =====
-- cmd/forge/resource.go: what a new resource changes in the shared files. The templates, the formatter
-- of go/format and the loader of the contract are parameters.
use go_api_scaffolding.Common.{
  Bool, not, ◌||◌, Bytes, codes, String, List, [], ◌∷◌, ◌++◌, Option, none, some, any, contains,
  if◌then◌else◌,
}
use go_api_scaffolding.Errors.{wrap, rejected, Result, ok, err, panic}
use go_api_scaffolding.Forge.Names.{Resource, split_at, add_go_option}

-- What the edits call: render for a template, format.Source, and the loader with its validation.
pub record Tools : Type 0 where
  pub render : String → Resource → Result Bytes
  pub format_source : Bytes → Result Bytes
  pub load_contract : Bytes → Result (Unit {0})

abbrev pub then_ok : {A B : Type 0} → Result A → (A → Result B) → Result B
then_ok (ok a) next = next a
then_ok (err e) next = err e
then_ok panic next = panic

-- What fmt.Errorf wraps around an error.
abbrev pub wrapped : {A : Type 0} → String → Result A → Result A
wrapped context (ok a) = ok a
wrapped context (err e) = err (wrap context e)
wrapped context panic = panic

-- strings.Replace, of the first occurrence.
unfoldable pub replace_first : Bytes → Bytes → Bytes → Bytes
unfolding split_at
replace_first src old new = elim (split_at old src) [
  | none ↦ src
  | some (front, rest) ↦ front ++ new ++ rest
]

abbrev pub newline : Bytes
newline = 10 ∷ []

abbrev pub queries_key : Bytes
queries_key = codes "    queries:" ++ newline

unfoldable pub add_sql_config : Bytes → Resource → Result Bytes
unfolding replace_first add_go_option contains
add_sql_config src res =
    let listed = replace_first src queries_key (
      queries_key
      ++ codes "      - internal/modules/"
      ++ res.snake
      ++ codes "/queries.sql"
      ++ newline) in
    if not (contains src queries_key)
    then err (rejected (codes "no queries list found"))
    else then_ok
        (add_go_option listed (codes "inflection_exclude_table_names") (codes "- " ++ res.table))
        (λ out. add_go_option out (codes "rename") (res.table ++ codes ": " ++ res.pascal))

abbrev pub component_names : Resource → List Bytes
component_names res =
    res.pascal
    ∷ (res.pascal ++ codes "Input")
    ∷ (res.pascal ++ codes "List")
    ∷ (res.pascal ++ codes "ID")
    ∷ []

abbrev pub declares : Bytes → Bytes → Bool
declares src name = contains src (newline ++ codes "    " ++ name ++ codes ":")

abbrev pub parameter : Resource → Bytes
parameter res =
    codes "    "
    ++ res.pascal
    ++ codes "ID:"
    ++ newline
    ++ codes "      name: id"
    ++ newline
    ++ codes "      in: path"
    ++ newline
    ++ codes "      required: true"
    ++ newline
    ++ codes "      schema: { type: string, format: uuid }"
    ++ newline

abbrev pub paths_key : Bytes
paths_key = codes "paths:" ++ newline

abbrev pub parameters_key : Bytes
parameters_key = newline ++ codes "  parameters:" ++ newline

abbrev pub schemas_key : Bytes
schemas_key = newline ++ codes "  schemas:" ++ newline

abbrev pub with_components : Tools → Bytes → Resource → Bytes → Result Bytes
with_components t src res schemas =
    let out =
      replace_first (replace_first src parameters_key (parameters_key ++ parameter res)) schemas_key
        (schemas_key ++ schemas) in
    if not (contains src parameters_key) || not (contains src schemas_key)
    then err (rejected (codes "expected components parameters and schemas"))
    else then_ok (t.load_contract out) (λ _. ok out)

unfoldable pub add_contract : Tools → Bytes → Resource → Result Bytes
unfolding replace_first contains
add_contract t src res =
    if not (contains src paths_key)
    then err (rejected (codes "expected a paths mapping"))
    else if contains src (codes "  /v1/" ++ res.table ++ codes ":")
    then err (rejected (codes "OpenAPI resource already exists"))
    else if any (declares src) (component_names res)
    then err (rejected (codes "OpenAPI component already exists"))
    else then_ok (t.render "paths.yaml.tmpl" res) (λ paths.
      then_ok (t.render "schemas.yaml.tmpl" res) (λ schemas.
        with_components t (replace_first src paths_key (paths_key ++ paths)) res schemas))

abbrev pub alias : Resource → Bytes
alias res = codes "resource" ++ res.pascal

abbrev pub wiring : Resource → Bytes
wiring res =
    codes "app."
    ++ res.camel
    ++ codes " = "
    ++ alias res
    ++ codes ".NewHandler("
    ++ alias res
    ++ codes ".NewService("
    ++ alias res
    ++ codes ".NewRepository(pool)))"
    ++ newline
    ++ (if res.idempotency
        then codes "app." ++ res.camel ++ codes ".EnableIdempotency(idemStore)" ++ newline
        else [])

-- The value is put before the marker, which must occur once.
abbrev pub put_before : Bytes → Option (Bytes × Bytes) → Bytes → Result Bytes
put_before marker none value = err (rejected (codes "expected one marker"))
put_before marker (some (front, rest)) value =
    if contains rest marker
    then err (rejected (codes "expected one marker"))
    else ok (front ++ value ++ marker ++ rest)

unfoldable pub put_items : List (Bytes × Bytes) → Bytes → Result Bytes
unfolding split_at contains
put_items [] src = ok src
put_items ((marker, value) ∷ items) src =
    then_ok (put_before marker (split_at marker src) value) (put_items items)

abbrev pub composition_items : Resource → List (Bytes × Bytes)
composition_items res =
    (
      codes "// forge:resource-imports",
      alias res
          ++ codes " \""
          ++ res.mod_path
          ++ codes "/internal/modules/"
          ++ res.snake
          ++ codes "\""
          ++ newline,
    )
    ∷ (
      codes "// forge:resource-fields",
      res.camel ++ codes " *" ++ alias res ++ codes ".Handler" ++ newline,
    )
    ∷ (codes "// forge:resource-wiring", wiring res)
    ∷ []

abbrev pub import_http : Bytes → Bytes
import_http src =
    if contains src (codes "\"net/http\"")
    then src
    else replace_first src (codes "import (")
        (codes "import (" ++ newline ++ codes "\"net/http\"" ++ newline)

unfoldable pub add_composition : Tools → Bytes → Resource → Result Bytes
unfolding put_items replace_first contains
add_composition t src res = then_ok (put_items (composition_items res) src) (λ wired.
    then_ok (t.render "delegates.go.tmpl" res) (λ delegates.
      wrapped "format composition" (t.format_source (import_http wired ++ newline ++ delegates))))
