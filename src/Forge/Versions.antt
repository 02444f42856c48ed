-- ===== src/Forge/Versions.antt =====
-- cmd/forge/main.go: nextMigrationVersion, over the migrations directory, whose reading may fail.
use go_api_scaffolding.Common.{
  ℕ, suc, ◌-◌, ◌^◌, Bool, false, Bytes, codes, List, [], ◌∷◌, Option, none, some, any, has_suffix,
  ltb, ◌==◌, if◌then◌else◌,
}
use go_api_scaffolding.Errors.{Error, wrap, cause, conflict, Result, ok, err, panic}
use go_api_scaffolding.Config.{ℤ, pos, negsuc}
use go_api_scaffolding.Forge.Numbers.{Parsed, syntax, range, value, parse_int, cut, sprintf_05d}
use go_api_scaffolding.Forge.Migrations.{Entry}

-- The number of a migration; other files have none.
abbrev pub is_value : Parsed → Option ℤ
is_value syntax = none
is_value (range n) = none
is_value (value n) = some n

abbrev pub front_number : Option (Bytes × Bytes) → Option ℤ
front_number none = none
front_number (some (front, rest)) = is_value (parse_int front)

unfoldable pub number : Bytes → Option ℤ
unfolding cut parse_int has_suffix
number name = if has_suffix name (codes ".sql") then front_number (cut b'_' name) else none

abbrev pub same_int : ℤ → ℤ → Bool
same_int (pos a) (pos b) = a == b
same_int (negsuc a) (negsuc b) = a == b
same_int _ _ = false

-- `highest + 1` on 64 bits
abbrev pub successor : ℕ → ℤ
successor n = if ltb (suc n) (2 ^ 63) then pos (suc n) else negsuc (2 ^ 63 - 1)

abbrev pub higher : ℕ → ℤ → ℕ
higher highest (pos n) = if ltb highest n then n else highest
higher highest (negsuc n) = highest

abbrev pub duplicate : Error
duplicate = wrap "duplicate migration version" (cause conflict)

-- The loop, with the numbers found so far and the highest one.
abbrev pub next_number : Option ℤ → List ℤ → ℕ → (List ℤ → ℕ → Result Bytes) → Result Bytes
next_number none versions highest k = k versions highest
next_number (some n) versions highest k =
    if any (same_int n) versions then err duplicate else k (n ∷ versions) (higher highest n)

unfoldable pub next_from : List Entry → List ℤ → ℕ → Result Bytes
unfolding number sprintf_05d
next_from [] versions highest = ok (sprintf_05d (successor highest))
next_from (e ∷ es) versions highest = next_number (number e.name) versions highest (next_from es)

unfoldable pub next_migration_version : Result (List Entry) → Result Bytes
unfolding next_from
next_migration_version (ok es) = next_from es [] 0
next_migration_version (err e) = err (wrap "read" e)
next_migration_version panic = panic
