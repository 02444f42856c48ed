-- ===== src/Forge/Adding.antt =====
-- cmd/forge/resource.go: addResource, with rejectLinkedParents. Regular files are those of a disk on
-- which writes may fail; what else has a path, and the files that cannot be read, are given.
-- The lock file is kept apart from the other files, and messages are left out.
use go_api_scaffolding.Common.{
  ℕ, zero, suc, Bool, true, false, not, ◌&&◌, ◌||◌, Bytes, codes, String, List, [], ◌∷◌, ◌++◌,
  Option, none, some, same, has_suffix, length, ◌==◌, if◌then◌else◌,
}
use go_api_scaffolding.Errors.{Error, wrap, cause, not_found, rejected, Result, ok, err, panic}
use go_api_scaffolding.Forge.Paths.{dir, is_local}
use go_api_scaffolding.Forge.Migrations.{Entry, validate_resource_table}
use go_api_scaffolding.Forge.Versions.{next_migration_version}
use go_api_scaffolding.Forge.Names.{Unicode, Resource}
use go_api_scaffolding.Forge.Edits.{
  Tools, then_ok, wrapped, add_sql_config, add_contract, add_composition,
}
use go_api_scaffolding.Forge.Checks.{Declarations, validate_resource_name, resource_domain_file}
use go_api_scaffolding.Forge.Changes.{
  File, Files, Change, Disk, Answer, try, try_undo, io_error, apply_changes,
}

-- What os.Lstat finds at a path that is no regular file.
pub data Node : Type 0 where
  absent directory linked special : Node
  unreadable : Error → Node

pub record Checkout : Type 0 where
  pub nodes : Bytes → Node
  pub read_errors : Bytes → Option Error
  pub migrations : Result (List Entry)
  pub generated : Result (List Entry)  -- internal/gen/db
  pub declarations : Bytes → Result Declarations
  pub tools : Tools
  pub unicode : Unicode

-- The loop of rejectLinkedParents; a parent is shorter than its path.
abbrev pub accepted_parent : Node → Result (Unit {0}) → Result (Unit {0})
accepted_parent absent rest = rest
accepted_parent directory rest = rest
accepted_parent linked rest = err (rejected (codes "refusing linked output directory"))
accepted_parent special rest = err (rejected (codes "output parent is not a directory"))
accepted_parent (unreadable e) rest = err e

-- A regular file is no directory.
abbrev pub node_at : Checkout → Files → Bytes → Node
node_at c files path = elim (files path) [ none ↦ c.nodes path | some file ↦ special ]

unfoldable pub check_parents : Checkout → Files → ℕ → Bytes → Result (Unit {0})
unfolding dir
check_parents c files zero path = ok tt
check_parents c files (suc fuel) path =
    let rest = check_parents c files fuel (dir path) in
    if same (dir path) (codes ".") then ok tt else accepted_parent (node_at c files (dir path)) rest

unfoldable pub reject_linked_parents : Checkout → Files → Bytes → Result (Unit {0})
unfolding check_parents is_local
reject_linked_parents c files path =
    if is_local path
    then check_parents c files (length path) path
    else err (rejected (codes "output path is outside the project"))

-- A file to be made: its template and its path.
abbrev pub module_dir : Resource → Bytes
module_dir res = codes "internal/modules/" ++ res.snake ++ codes "/"

abbrev pub targets : Resource → Bytes → List (String × Bytes)
targets res version =
    ("domain.go.tmpl", module_dir res ++ resource_domain_file res)
    ∷ ("store.go.tmpl", module_dir res ++ codes "store.go")
    ∷ ("service.go.tmpl", module_dir res ++ codes "service.go")
    ∷ ("handler.go.tmpl", module_dir res ++ codes "handler.go")
    ∷ ("service_test.go.tmpl", module_dir res ++ codes "service_test.go")
    ∷ ("queries.sql.tmpl", module_dir res ++ codes "queries.sql")
    ∷ (
      "migration.sql.tmpl",
      codes "migrations/" ++ version ++ codes "_create_" ++ res.table ++ codes ".sql",
    )
    ∷ (if res.idempotency
        then ("idempotent.go.tmpl", module_dir res ++ codes "idempotent.go")
          ∷ ("idempotent_test.go.tmpl", module_dir res ++ codes "idempotent_test.go")
          ∷ []
        else [])

abbrev pub refuse_taken : Option File → Node → Result (Unit {0})
refuse_taken (some file) node = err (rejected (codes "already exists, refusing to overwrite"))
refuse_taken none absent = ok tt
refuse_taken none (unreadable e) = err e
refuse_taken none directory = err (rejected (codes "already exists, refusing to overwrite"))
refuse_taken none linked = err (rejected (codes "already exists, refusing to overwrite"))
refuse_taken none special = err (rejected (codes "already exists, refusing to overwrite"))

abbrev pub formatted : Tools → Bytes → Bytes → Result Bytes
formatted t path text =
    if has_suffix path (codes ".go") then wrapped "format" (t.format_source text) else ok text

-- 0o600
abbrev pub new_change : Bytes → Bytes → Change
new_change path text = record {
  path = path;
  content = text;
  previous = [];
  mode = 384;
  exists = false;
}

abbrev pub prepare_target : Checkout → Files → Resource → String × Bytes → Result Change
prepare_target c files res (template, path) = then_ok (reject_linked_parents c files path) (λ _.
    then_ok (refuse_taken (files path) (c.nodes path)) (λ _.
      then_ok (c.tools.render template res)
        (λ text. then_ok (formatted c.tools path text) (λ out. ok (new_change path out)))))

-- strings.ReplaceAll of the line ends of Windows
unfoldable pub unix_lines : Bytes → Bytes
unix_lines [] = []
unix_lines (a ∷ []) = a ∷ []
unix_lines (a ∷ b ∷ s) =
    let rest = unix_lines (b ∷ s) in
    let short = unix_lines s in if a == 13 && b == 10 then 10 ∷ short else a ∷ rest

abbrev pub shared_files : Tools → List (Bytes × (Bytes → Resource → Result Bytes))
shared_files t =
    (codes "sqlc.yaml", add_sql_config)
    ∷ (codes "api/openapi.yaml", add_contract t)
    ∷ (codes "cmd/api/resources.go", add_composition t)
    ∷ []

abbrev pub regular : Option File → Node → Result File
regular (some file) node = ok file
regular none absent = err (cause not_found)
regular none (unreadable e) = err e
regular none directory = err (rejected (codes "must be a regular file"))
regular none linked = err (rejected (codes "must be a regular file"))
regular none special = err (rejected (codes "must be a regular file"))

abbrev pub read_file : Option Error → File → Result File
read_file none file = ok file
read_file (some e) file = err e

abbrev pub edited : Bytes → File → Bytes → Change
edited path (text, mode) after = record {
  path = path;
  content = after;
  previous = text;
  mode = mode;
  exists = true;
}

abbrev pub prepare_shared :
    Checkout → Files → Resource → Bytes × (Bytes → Resource → Result Bytes) → Result Change
prepare_shared c files res (path, edit) = then_ok (reject_linked_parents c files path) (λ _.
    then_ok (regular (files path) (c.nodes path)) (λ file.
      then_ok (read_file (c.read_errors path) file)
        (λ file. then_ok (edit (unix_lines file.0) res) (λ after. ok (edited path file after)))))

-- A loop that collects a change from each element.
unfoldable pub prepare_all : {A : Type 0} → (A → Result Change) → List A → Result (List Change)
prepare_all f [] = ok []
prepare_all f (x ∷ xs) = then_ok (f x) (λ c. then_ok (prepare_all f xs) (λ cs. ok (c ∷ cs)))

unfoldable pub prepare : Checkout → Resource → Files → Result (List Change)
unfolding prepare_all reject_linked_parents has_suffix unix_lines
prepare c res files = then_ok (next_migration_version c.migrations) (λ version.
    then_ok (validate_resource_table res.table c.migrations) (λ _.
      then_ok (prepare_all (prepare_target c files res) (targets res version)) (λ new.
        then_ok (prepare_all (prepare_shared c files res) (shared_files c.tools))
          (λ shared. ok (new ++ shared)))))

-- The changes, under the lock; a tool that panics ends the command too.
abbrev pub make_changes : Bool → Result (List Change) → Disk → Answer
make_changes dry_run (err e) d = (some e, d)
make_changes dry_run panic d = (some io_error, d)
make_changes true (ok changes) d = (none, d)
make_changes false (ok changes) d = apply_changes changes d

pub record Workspace : Type 0 where
  pub disk : Disk
  pub locked : Bool

abbrev pub Added : Type 0
Added = Option Error × Workspace

-- The lock file is written and closed before the body, and removed at the end.
abbrev pub release : Answer → Added
release (a, d) = try_undo d (λ removed e. (a, record { disk = e; locked = not removed }))

abbrev pub note_lock : (Disk → Answer) → Disk → Answer
note_lock body d =
    try d
      (λ written e. try e (λ closed f. if written && closed then body f else (some io_error, f)))

abbrev pub lock_error : Error
lock_error = wrap "acquire .forge-resource.lock" io_error

-- O_EXCL refuses a lock that is there.
abbrev pub with_lock : (Disk → Answer) → Workspace → Added
with_lock body w = try w.disk (λ opened d.
    if w.locked || not opened
    then (some lock_error, record w { disk = d })
    else release (note_lock body d))

abbrev pub checked : Result (Unit {0}) → Added → Workspace → Added
checked (ok _) added w = added
checked (err e) added w = (some e, w)
checked panic added w = (some io_error, w)

unfoldable pub add_resource : Checkout → Resource → Bool → Workspace → Added
unfolding prepare validate_resource_name
add_resource c res dry_run w =
    checked (validate_resource_name c.unicode res c.declarations c.generated)
      (with_lock (λ d. make_changes dry_run (prepare c res d.files) d) w) w
