-- ===== src/Forge/Renumber.antt =====
-- cmd/forge/init.go: renumberMigrations, over the migrations directory. A rename replaces what has the
-- new name, as os.Rename does; it fails when the operating system refuses it.
use go_api_scaffolding.Common.{
  ℕ, suc, Bool, true, false, Bytes, codes, List, [], ◌∷◌, ◌++◌, map, Option, none, some, same,
  before, keep, sort_by, has_suffix, if◌then◌else◌,
}
use go_api_scaffolding.Errors.{Error, Result, ok, err, panic, rejected}
use go_api_scaffolding.Config.{pos}
use go_api_scaffolding.Forge.Numbers.{cut, sprintf_05d}
use go_api_scaffolding.Forge.Migrations.{Entry}

-- What each name stands for, and the renames to come that are refused.
pub record Directory : Type 0 where
  pub files : Bytes → Option Bytes
  pub refusals : List Bool

-- What a call answers, and the directory after it.
abbrev pub Outcome : Type 0
Outcome = Result {0} Unit × Directory

abbrev pub moved : Bytes → Bytes → (Bytes → Option Bytes) → Bytes → Option Bytes
moved old new files n = if same new n then files old else if same old n then none else files n

abbrev pub refused : Error
refused = rejected (codes "rename")

abbrev pub move : Option Bytes → Bytes → Bytes → Directory → Outcome
move none old new d = (err refused, d)
move (some text) old new d = (ok tt, record d { files = moved old new d.files })

abbrev pub rename_with : List Bool → Bytes → Bytes → Directory → Outcome
rename_with [] old new d = move (d.files old) old new d
rename_with (true ∷ rs) old new d = (err refused, record d { refusals = rs })
rename_with (false ∷ rs) old new d = move (d.files old) old new (record d { refusals = rs })

unfoldable pub rename : Bytes → Bytes → Directory → Outcome
rename old new d = rename_with d.refusals old new d

abbrev pub after_rename : Outcome → (Directory → Outcome) → Outcome
after_rename (ok _, d) rest = rest d
after_rename (err e, d) rest = (err e, d)
after_rename (panic, d) rest = (panic, d)

abbrev pub wanted : ℕ → Bytes → Bytes
wanted number rest = sprintf_05d (pos number) ++ b'_' ∷ rest

-- A turn of the loop: a name without an underscore is left as it is.
abbrev pub renumber_file :
    ℕ → Bytes → Option (Bytes × Bytes) → (Directory → Outcome) → Directory → Outcome
renumber_file number name none rest d = rest d
renumber_file number name (some (front, text)) rest d =
    let next = after_rename (rename name (wanted number text) d) rest in
    if same (wanted number text) name then rest d else next

-- The loop, from the number of the first name.
unfoldable pub renumber_from : ℕ → List Bytes → Directory → Outcome
unfolding cut
renumber_from number [] d = (ok tt, d)
renumber_from number (n ∷ ns) d =
    renumber_file number n (cut b'_' n) (renumber_from (suc number) ns) d

unfoldable pub sql_names : List Entry → List Bytes
unfolding has_suffix before
sql_names es = sort_by before (keep (λ n. has_suffix n (codes ".sql")) (map (λ e. e.name) es))

unfoldable pub renumber_migrations : Result (List Entry) → Directory → Outcome
unfolding renumber_from sql_names
renumber_migrations (ok es) d = renumber_from 1 (sql_names es) d
renumber_migrations (err e) d = (err e, d)
renumber_migrations panic d = (panic, d)
