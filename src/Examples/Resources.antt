-- ===== src/Examples/Resources.antt =====
-- The theorems on a new resource, in a small checkout, and on the name of a project.
use go_api_scaffolding.Common.{
  ◌-◌, ◌≤◌, ◌≡◌, refl, false, ◌&&◌, Bytes, codes, [], ◌∷◌, ◌++◌, none, some, same, has_prefix,
  length, leb, lower, if◌then◌else◌,
}
use go_api_scaffolding.Errors.{ok}
use go_api_scaffolding.Forge.Names.{Unicode, Resource}
use go_api_scaffolding.Forge.Versions.{next_migration_version}
use go_api_scaffolding.Forge.Migrations.{validate_resource_table}
use go_api_scaffolding.Forge.Checks.{resource_domain_file}
use go_api_scaffolding.Forge.Edits.{add_sql_config, add_contract, add_composition}
use go_api_scaffolding.Forge.Changes.{Files, apply_changes, apply_from, write_change}
use go_api_scaffolding.Forge.Adding.{absent, Checkout, Workspace, add_resource}
use go_api_scaffolding.Forge.Laws.Adding.{Settled}
use go_api_scaffolding.Forge.Identity.{compose_project_name}
use go_api_scaffolding.Forge.Laws.Identity.{IsComposeName, compose_project_name-IsComposeName}
use go_api_scaffolding.Forge.Laws.Places.{add_resource_lem}

abbrev ascii : Unicode
ascii = record {
  is_upper = λ r. leb b'A' r && leb r b'Z';
  is_lower = λ r. leb b'a' r && leb r b'z';
  is_letter = λ r. leb b'a' (lower r) && leb (lower r) b'z';
  is_digit = λ r. leb b'0' r && leb r b'9';
  to_upper = λ r. if leb b'a' r && leb r b'z' then r - 32 else r;
  to_lower = lower;
}

abbrev gadget : Resource
gadget = record {
  pascal = codes "Gadget";
  plural = codes "Gadgets";
  camel = codes "gadget";
  snake = codes "gadget";
  table = codes "gadgets";
  mod_path = codes "example.com/app";
  outbox = false;
  idempotency = false;
}

abbrev line : Bytes → Bytes
line text = text ++ 10 ∷ []

abbrev sql_config : Bytes
sql_config = line (codes "    queries:") ++ line (codes "      go:")

abbrev contract : Bytes
contract =
    line (codes "paths:")
    ++ line (codes "components:")
    ++ line (codes "  parameters:")
    ++ 10 ∷ line (codes "  schemas:")

abbrev composition : Bytes
composition =
    line (codes "// forge:resource-imports")
    ++ line (codes "// forge:resource-fields")
    ++ line (codes "// forge:resource-wiring")

abbrev checkout_files : Files
checkout_files p =
    if same p (codes "sqlc.yaml")
    then some (sql_config, 420)
    else if same p (codes "api/openapi.yaml")
    then some (contract, 420)
    else if same p (codes "cmd/api/resources.go")
    then some (composition, 420)
    else none

abbrev checkout : Checkout
checkout = record {
  nodes = λ p. absent;
  read_errors = λ p. none;
  migrations = ok [];
  generated = ok [];
  declarations = λ p. ok (record { names = []; methods = [] });
  tools = record {
    render = λ template res. ok (res.pascal);
    format_source = λ text. ok text;
    load_contract = λ text. ok tt;
  };
  unicode = ascii;
}

abbrev workspace : Workspace
workspace = record {
  disk = record { files = checkout_files; fails = []; undo_fails = [] };
  locked = false;
}

add_resource_lem_example :
    Settled checkout gadget false workspace (add_resource checkout gadget false workspace)
unfolding same
add_resource_lem_example = add_resource_lem checkout gadget false workspace refl refl

-- It is added, and its migration is there.
adds_gadget :
    let (answer, after) = add_resource checkout gadget false workspace in
    (answer ≡ none)
    × (after.disk.files (codes "migrations/00001_create_gadgets.sql") ≡ some (codes "Gadget", 384))
unfolding add_resource lower next_migration_version validate_resource_table resource_domain_file
    add_sql_config add_contract add_composition apply_changes apply_from write_change
adds_gadget = (refl, refl)

abbrev sum256 : Bytes → Bytes
sum256 text = 222 ∷ 173 ∷ 190 ∷ 239 ∷ 0 ∷ 1 ∷ 2 ∷ 3 ∷ []

abbrev module_path : Bytes
module_path = codes "github.com/you/_My.App--With-A-Quite-Long-Name/v2"

compose_project_name-IsComposeName_example :
    IsComposeName (compose_project_name sum256 module_path)
    × (length (compose_project_name sum256 module_path) ≤ 37)
compose_project_name-IsComposeName_example = compose_project_name-IsComposeName sum256 module_path

names_project :
    compose_project_name sum256 module_path ≡ codes "my-app--with-a-quite-lon-deadbeef0001"
unfolding compose_project_name has_prefix same
names_project = refl
