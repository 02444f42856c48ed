-- ===== src/Forge/Laws/Following.antt =====
-- The reading of migrations follows the database that runs them.
use go_api_scaffolding.Common.{
  ◌≡◌, true, false, Bytes, codes, List, [], ◌∷◌, ◌++◌, Option, none, some, same, any, arith, All,
  ◌⊎◌,
}
use go_api_scaffolding.Errors.{Result, ok, err}
use go_api_scaffolding.Forge.Tokens.{sql_tokens}
use go_api_scaffolding.Forge.Migrations.{Entry, is_migration, up_part, already_exists}
use go_api_scaffolding.Forge.Schema.{Relations}
use go_api_scaffolding.Forge.Laws.Catalog.{
  Object, Catalog, IsCatalog, Ddl, execute, statement, IsStatement,
}

-- The statements of a script, and what the database does with them.
unfoldable pub script : List Ddl → List Bytes
script [] = []
script (s ∷ ss) = statement s ++ codes ";" ∷ script ss

unfoldable pub execute_all : List Ddl → Catalog → Option Catalog
unfolding execute
execute_all [] c = some c
execute_all (s ∷ ss) c = elim (execute s c) [ none ↦ none | some c' ↦ execute_all ss c' ]

-- A statement holds no semicolon.
abbrev pub IsWhole : Ddl → Type 0
IsWhole s = IsStatement s × All (λ t. same t (codes ";") ≡ false) (statement s)

-- The same by a test.
pub no_semicolon :
    (ts : List Bytes)
    → any (λ t. same t (codes ";")) ts ≡ false
    → All (λ t. same t (codes ";") ≡ false) ts
no_semicolon [] h = tt
no_semicolon (t ∷ ts) h = (ground arith, no_semicolon ts (ground arith))

none_or_some : {A : Type 0} {a : A} → none ≡ some a → ⊥
none_or_some e = cc

-- The migrations, in the order in which they are read, executed one after the other.
pub data Migrates : List Entry → Catalog → Catalog → Type 0 where
  done : {c : Catalog} → Migrates [] c c
  skip :
      {e : Entry} {es : List Entry} {c c' : Catalog}
      → is_migration e ≡ false
      → Migrates es c c'
      → Migrates (e ∷ es) c c'
  migrate :
      {e : Entry} {es : List Entry} {c c' c'' : Catalog} (source : Bytes) (ss : List Ddl)
      → is_migration e ≡ true
      → e.content ≡ ok source
      → sql_tokens (up_part true source) ≡ script ss
      → All IsWhole ss
      → execute_all ss c ≡ some c'
      → Migrates es c' c''
      → Migrates (e ∷ es) c c''

-- The answer to two identifiers.
abbrev pub Answered : Catalog → Bytes → Bytes → Result (Unit {0}) → Type 0
Answered c i j r =
    ((c.by_name i ≡ none) × (c.by_name j ≡ none) × (r ≡ ok tt))
    ⊎ ((k : Bytes) × (x : Object) × ((k ≡ i) ⊎ (k ≡ j))
        × (c.by_name k ≡ some x)
        × (r ≡ err (already_exists k)))

abbrev pub empty : Catalog
empty = record { by_name = λ q. none; name_of = λ o. []; next = 0 }

pub empty-IsCatalog : IsCatalog empty
empty-IsCatalog = record {
  tables = λ q o e. absurd (none_or_some e);
  indexes = λ q o e. absurd (none_or_some e);
}
