-- ===== src/Forge/Migrations.antt =====
-- cmd/forge/resource_schema.go: validateResourceTable, over the migrations directory. Reading the
-- directory, and each file of it, may fail.
use go_api_scaffolding.Common.{
  ℕ, Bool, true, false, not, ◌&&◌, ◌||◌, Bytes, codes, List, [], ◌∷◌, ◌++◌, Option, none, some,
  before, has_prefix, has_suffix, length, drop, sort_by, ◌==◌, if◌then◌else◌,
}
use go_api_scaffolding.Errors.{Error, wrap, rejected, Result, ok, err, panic}
use go_api_scaffolding.Config.{ℤ, pos, gtz}
use go_api_scaffolding.Forge.Numbers.{Parsed, syntax, range, value, parse_int, cut}
use go_api_scaffolding.Forge.Tokens.{sql_tokens}
use go_api_scaffolding.Forge.Schema.{Relations, apply_statements}

pub record Entry : Type 0 where
  pub name : Bytes
  pub is_dir : Bool
  pub content : Result Bytes

-- The version that a file is sorted by; errors are ignored.
abbrev version_value : Parsed → ℤ
version_value syntax = pos 0
version_value (range n) = n
version_value (value n) = n

abbrev prefix_or_all : Bytes → Option (Bytes × Bytes) → Bytes
prefix_or_all name none = name
prefix_or_all name (some (front, rest)) = front

unfoldable pub version : Bytes → ℤ
unfolding cut parse_int
version name = version_value (parse_int (prefix_or_all name (cut b'_' name)))

unfoldable pub sorts_before : Entry → Entry → Bool
unfolding version before
sorts_before a b =
    gtz (version b.name) (version a.name)
    || (not (gtz (version a.name) (version b.name)) && before a.name b.name)

-- gooseDown: (?m)^\s*--\s*\+goose\s+Down\s*$
abbrev re_space : ℕ → Bool
re_space c = c == 32 || c == 9 || c == 10 || c == 12 || c == 13

unfoldable pub past_space : Bytes → Bytes
past_space [] = []
past_space (c ∷ s) = if re_space c then past_space s else c ∷ s

-- White space up to the end of a line, or of the text.
unfoldable pub ends_line : Bytes → Bool
ends_line [] = true
ends_line (c ∷ s) = c == 10 || (re_space c && ends_line s)

abbrev starts_space : Bytes → Bool
starts_space [] = false
starts_space (c ∷ s) = re_space c

abbrev after : Bytes → Bytes → (Bytes → Bool) → Bool
after lit s k = has_prefix s lit && k (drop (length lit) s)

unfoldable pub goose_down : Bytes → Bool
unfolding past_space ends_line has_prefix
goose_down s = after (codes "--") (past_space s) (λ t.
    after (codes "+goose") (past_space t)
      (λ u. starts_space u && after (codes "Down") (past_space u) ends_line))

-- The part before the first match, which starts at the start of a line.
unfoldable pub up_part : Bool → Bytes → Bytes
unfolding goose_down
up_part starts [] = []
up_part starts (c ∷ s) =
    let rest = c ∷ up_part (c == 10) s in if starts && goose_down (c ∷ s) then [] else rest

-- What the migrations leave, in the order of their versions.
abbrev pub is_migration : Entry → Bool
is_migration e = not e.is_dir && has_suffix e.name (codes ".sql")

abbrev pub migrate : Result Bytes → Relations → (Relations → Result Relations) → Result Relations
migrate (ok source) rels k = k (apply_statements [] (sql_tokens (up_part true source)) rels)
migrate (err e) rels k = err e
migrate panic rels k = panic

unfoldable pub load_migrations : List Entry → Relations → Result Relations
unfolding up_part apply_statements sql_tokens has_suffix
load_migrations [] rels = ok rels
load_migrations (e ∷ es) rels =
    let loaded = migrate e.content rels (load_migrations es) in
    let skipped = load_migrations es rels in if is_migration e then loaded else skipped

abbrev pub already_exists : Bytes → Error
already_exists identifier = wrap "already exists in migration sources" (rejected identifier)

unfoldable pub check_identifiers : List Bytes → Relations → Result (Unit {0})
check_identifiers [] rels = ok tt
check_identifiers (i ∷ is) rels = elim (rels i) [
  | some r ↦ err (already_exists i)
  | none ↦ check_identifiers is rels
]

abbrev pub and_check : Bytes → Result Relations → Result (Unit {0})
and_check name (ok rels) = check_identifiers (name ∷ (name ++ codes "_list_idx") ∷ []) rels
and_check name (err e) = err e
and_check name panic = panic

abbrev pub in_directory : Result (List Entry) → (List Entry → Result (Unit {0})) → Result (Unit {0})
in_directory (ok entries) k = k entries
in_directory (err e) k = err e
in_directory panic k = panic

unfoldable pub validate_resource_table : Bytes → Result (List Entry) → Result (Unit {0})
unfolding load_migrations check_identifiers sorts_before
validate_resource_table name directory =
    in_directory directory
      (λ entries. and_check name (load_migrations (sort_by sorts_before entries) (λ q. none)))
