-- ===== src/Examples/Migrations.antt =====
-- The theorems on the scaffolding command's reading of migrations and names at concrete texts.
use go_api_scaffolding.Common.{
  ℕ, ◌+◌, ◌-◌, ◌≡◌, refl, ◌⊎◌, true, false, ◌&&◌, ◌||◌, Bytes, codes, List, [], ◌∷◌, Option, none,
  some, All, same, leb, has_suffix, before, if◌then◌else◌, arith,
}
use go_api_scaffolding.Errors.{ok, err}
use go_api_scaffolding.Forge.Tokens.{sql_tokens}
use go_api_scaffolding.Forge.Numbers.{sprintf_05d, cut, decimal, parse_int}
use go_api_scaffolding.Forge.Migrations.{Entry}
use go_api_scaffolding.Forge.Versions.{number, duplicate, next_migration_version}
use go_api_scaffolding.Forge.Names.{Unicode, split_words, join_words}
use go_api_scaffolding.Forge.Laws.Scripts.{
  ended, byte, nested, Part, word, name, literal, line_comment, block_comment, dollar, mark,
  script_text, part_tokens, IsBlock, sql_tokens-script_text,
}
use go_api_scaffolding.Forge.Laws.Catalog.{Catalog, Ddl, create_table, create_index, rename_table}
use go_api_scaffolding.Forge.Laws.Following.{empty}
use go_api_scaffolding.Forge.Laws.Versions.{
  numbers, AreDistinct, IsBelow, next_migration_version-Numbered,
}
use go_api_scaffolding.Forge.Laws.Names.{IsWord, split_words-join_words}
use go_api_scaffolding.Forge.Renumber.{Directory, wanted, sql_names, renumber_migrations}
use go_api_scaffolding.Forge.Laws.Renumbering.{
  Ascending, Renumbered, renumber_migrations-Renumbered,
}

abbrev parts : List Part
parts =
    word b'A' (codes "b")
    ∷ mark b'('
    ∷ name (codes "a\"b")
    ∷ literal (codes "drop table x;")
    ∷ line_comment (codes "x")
    ∷ block_comment (nested (byte b'y' ended) ended)
    ∷ dollar (codes "t") (codes "x")
    ∷ []

sql_tokens-script_text_example : sql_tokens (script_text parts) ≡ part_tokens parts
unfolding IsBlock
sql_tokens-script_text_example = sql_tokens-script_text parts (
  (refl, (refl, tt)),
  (
    refl,
    (
      tt,
      (
        tt,
        (
          ((λ e. omega arith), tt),
          (
            (((λ e. omega arith), (λ e. omega arith), tt), tt),
            (((refl, tt), ((λ e. omega arith), tt)), tt),
          ),
        ),
      ),
    ),
  ),
)

abbrev statements : List Ddl
statements =
    create_table false (codes "a") (codes "x" ∷ codes ")" ∷ [])
    ∷ create_index true true true (codes "i") (codes "a") (codes "x" ∷ codes ")" ∷ [])
    ∷ rename_table (codes "a") (codes "b")
    ∷ []

abbrev or_empty : Option Catalog → Catalog
or_empty none = empty
or_empty (some c) = c

abbrev numbered : List Entry
numbered =
    record { name = codes "00003_a.sql"; is_dir = false; content = ok [] }
    ∷ record { name = codes "00001_b.sql"; is_dir = false; content = ok [] }
    ∷ []

next_migration_version-Numbered_example :
    (AreDistinct (numbers numbered)
      × ((m : ℕ) × (v : Bytes) × (next_migration_version (ok numbered) ≡ ok v)
          × (decimal 0 v ≡ some m)
          × All (IsBelow m) (numbers numbered)))
    ⊎ ((next_migration_version (ok numbered) ≡ err duplicate)
        × (AreDistinct (numbers numbered) → ⊥))
unfolding numbers number cut parse_int decimal has_suffix same
next_migration_version-Numbered_example =
    next_migration_version-Numbered numbered (omega arith, (omega arith, tt))

-- The classes of ASCII.
abbrev ascii : Unicode
ascii = record {
  is_upper = λ r. leb b'A' r && leb r b'Z';
  is_lower = λ r. leb b'a' r && leb r b'z';
  is_letter = λ r. (leb b'a' r && leb r b'z') || (leb b'A' r && leb r b'Z');
  is_digit = λ r. leb b'0' r && leb r b'9';
  to_upper = λ r. if leb b'a' r && leb r b'z' then r - 32 else r;
  to_lower = λ r. if leb b'A' r && leb r b'Z' then r + 32 else r;
}

split_words-join_words_example :
    All (IsWord ascii) (split_words ascii (codes "ab_C"))
    × (split_words ascii (join_words (split_words ascii (codes "ab_C")))
        ≡ split_words ascii (codes "ab_C"))
split_words-join_words_example =
    split_words-join_words ascii (codes "ab_C")
      (
        record { no_upper = refl; part = λ h. h; idempotent = refl },
        (
          record { no_upper = refl; part = λ h. h; idempotent = refl },
          (
            record { no_upper = refl; part = λ h. h; idempotent = refl },
            (record { no_upper = refl; part = λ h. h; idempotent = refl }, tt),
          ),
        ),
      )
      (refl, refl)

-- The migrations that are left when the third one is dropped, and a note; all with one text.
abbrev migrations : List (ℕ × Bytes)
migrations = (1, codes "init.sql") ∷ (3, codes "keys.sql") ∷ []

abbrev listing : List Entry
listing =
    record { name = wanted 1 (codes "init.sql"); is_dir = false; content = ok [] }
    ∷ record { name = wanted 3 (codes "keys.sql"); is_dir = false; content = ok [] }
    ∷ record { name = codes "embed.go"; is_dir = false; content = ok [] }
    ∷ []

abbrev migrations_directory : Directory
migrations_directory = record { files = λ n. some (codes "select 1"); refusals = [] }

renumber_migrations-Renumbered_example :
    Renumbered 1 migrations migrations_directory
      (renumber_migrations (ok listing) migrations_directory)
unfolding sql_names has_suffix before sprintf_05d Ascending
renumber_migrations-Renumbered_example =
    renumber_migrations-Renumbered listing migrations migrations_directory refl
      (omega arith, omega arith, (omega arith, omega arith, tt)) refl
      ((codes "select 1", refl), ((codes "select 1", refl), tt))
