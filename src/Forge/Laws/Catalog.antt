-- ===== src/Forge/Laws/Catalog.antt =====
-- The relations of a database, as a catalog of objects keeps them, and the statements on them.
use go_api_scaffolding.Common.{
  ℕ, suc, ◌<◌, ◌≡◌, Bool, true, false, Bytes, codes, List, [], ◌∷◌, Option, none, some, same, ◌==◌,
  if◌then◌else◌,
}
use go_api_scaffolding.Forge.Schema.{table, index, Relation, Relations, is_one_of, modifiers}

-- A table has a number of its own, and an index the number of its table.
pub data Object : Type 0 where
  a_table an_index : ℕ → Object

pub record Catalog : Type 0 where
  pub by_name : Bytes → Option Object
  pub name_of : ℕ → Bytes
  pub next : ℕ

pub record IsCatalog (c : Catalog) : Type 0 where
  pub tables :
      (q : Bytes) (o : ℕ) → c.by_name q ≡ some (a_table o) → (c.name_of o ≡ q) × (o < c.next)
  pub indexes :
      (q : Bytes) (o : ℕ)
      → c.by_name q ≡ some (an_index o)
      → c.by_name (c.name_of o) ≡ some (a_table o)

-- The statements. The flags of an index are UNIQUE, CONCURRENTLY and IF NOT EXISTS, those of its drop
-- are CONCURRENTLY and IF EXISTS; `lenient` is IF EXISTS or IF NOT EXISTS. `alter_table` changes a table
-- and no name: its next word is an action such as ADD or DROP. A table of another schema is not listed,
-- nor are the indexes that the constraints of a table make.
pub data Ddl : Type 0 where
  create_table : Bool → Bytes → List Bytes → Ddl
  create_index : Bool → Bool → Bool → Bytes → Bytes → List Bytes → Ddl
  create_elsewhere : Bytes → Bytes → List Bytes → Ddl
  drop_table : Bool → Bytes → Ddl
  drop_index : Bool → Bool → Bytes → Ddl
  alter_table : Bytes → Bytes → List Bytes → Ddl
  rename_table : Bytes → Bytes → Ddl
  rename_index : Bytes → Bytes → Ddl

abbrev pub bind : Bytes → Option Object → (Bytes → Option Object) → Bytes → Option Object
bind name x f q = if same name q then x else f q

abbrev pub label : ℕ → Bytes → (ℕ → Bytes) → ℕ → Bytes
label o name f p = if p == o then name else f p

abbrev refused : Bool → Catalog → Option Catalog
refused lenient c = if lenient then some c else none

-- The indexes of a table go with it.
abbrev pub unless_owned : ℕ → Option Object → Option Object
unless_owned o (some (an_index p)) = if p == o then none else some (an_index p)
unless_owned o x = x

abbrev pub new_table : Bytes → Catalog → Catalog
new_table n c = record {
  by_name = bind n (some (a_table c.next)) c.by_name;
  name_of = label c.next n c.name_of;
  next = suc c.next;
}

abbrev pub new_index : Bytes → Bytes → Catalog → Option Catalog
new_index i t c = elim (c.by_name t) [
  | some (a_table o) ↦ some (record c { by_name = bind i (some (an_index o)) c.by_name })
  | _ ↦ none
]

abbrev pub renamed_table : Bytes → Bytes → Catalog → ℕ → Catalog
renamed_table a b c o = record c {
  by_name = bind b (some (a_table o)) (bind a none c.by_name);
  name_of = label o b c.name_of;
}

abbrev pub if_free : Option Object → Option Catalog → Option Catalog
if_free none c = c
if_free (some x) c = none

-- What the database does: none is an error.
unfoldable pub execute : Ddl → Catalog → Option Catalog
execute (create_table lenient n cols) c = elim (c.by_name n) [
  | none ↦ some (new_table n c)
  | some x ↦ refused lenient c
]
execute (create_index unique concurrently lenient i t cols) c = elim (c.by_name i) [
  | none ↦ new_index i t c
  | some x ↦ refused lenient c
]
execute (create_elsewhere schema n cols) c = if same schema (codes "public") then none else some c
execute (drop_table lenient n) c = elim (c.by_name n) [
  | some (a_table o) ↦ some (record c { by_name = λ q. unless_owned o (bind n none c.by_name q) })
  | some (an_index o) ↦ none
  | none ↦ refused lenient c
]
execute (drop_index concurrently lenient i) c = elim (c.by_name i) [
  | some (an_index o) ↦ some (record c { by_name = bind i none c.by_name })
  | some (a_table o) ↦ none
  | none ↦ refused lenient c
]
execute (alter_table n action rest) c = elim (c.by_name n) [ some (a_table o) ↦ some c | _ ↦ none ]
execute (rename_table a b) c = elim (c.by_name a) [
  | some (a_table o) ↦ if_free (c.by_name b) (some (renamed_table a b c o))
  | _ ↦ none
]
execute (rename_index a b) c = elim (c.by_name a) [
  | some (an_index o) ↦
      if_free (c.by_name b)
        (some (record c { by_name = bind b (some (an_index o)) (bind a none c.by_name) }))
  | _ ↦ none
]

-- The tokens of a statement.
abbrev pub if_missing : Bool → List Bytes → List Bytes
if_missing true ts = codes "if" ∷ codes "not" ∷ codes "exists" ∷ ts
if_missing false ts = ts

abbrev pub if_there : Bool → List Bytes → List Bytes
if_there true ts = codes "if" ∷ codes "exists" ∷ ts
if_there false ts = ts

abbrev pub if_concurrently : Bool → List Bytes → List Bytes
if_concurrently true ts = codes "concurrently" ∷ ts
if_concurrently false ts = ts

abbrev pub if_unique : Bool → List Bytes → List Bytes
if_unique true ts = codes "unique" ∷ ts
if_unique false ts = ts

abbrev pub statement : Ddl → List Bytes
statement (create_table lenient n cols) =
    codes "create" ∷ codes "table" ∷ if_missing lenient (n ∷ codes "(" ∷ cols)
statement (create_index unique concurrently lenient i t cols) =
    codes "create"
    ∷ if_unique unique (
        codes "index"
        ∷ if_concurrently concurrently (if_missing lenient (i ∷ codes "on" ∷ t ∷ codes "(" ∷ cols)))
statement (create_elsewhere schema n cols) =
    codes "create" ∷ codes "table" ∷ schema ∷ codes "." ∷ n ∷ codes "(" ∷ cols
statement (drop_table lenient n) = codes "drop" ∷ codes "table" ∷ if_there lenient (n ∷ [])
statement (drop_index concurrently lenient i) =
    codes "drop" ∷ codes "index" ∷ if_concurrently concurrently (if_there lenient (i ∷ []))
statement (alter_table n action rest) = codes "alter" ∷ codes "table" ∷ n ∷ action ∷ rest
statement (rename_table a b) =
    codes "alter" ∷ codes "table" ∷ a ∷ codes "rename" ∷ codes "to" ∷ b ∷ []
statement (rename_index a b) =
    codes "alter" ∷ codes "index" ∷ a ∷ codes "rename" ∷ codes "to" ∷ b ∷ []

-- A name that is not one of the words that may stand before a name.
abbrev pub IsPlain : Bytes → Type 0
IsPlain n = is_one_of modifiers n ≡ false

abbrev pub IsStatement : Ddl → Type 0
IsStatement (create_table lenient n cols) = IsPlain n
IsStatement (create_index unique concurrently lenient i t cols) = IsPlain i × IsPlain t
IsStatement (create_elsewhere schema n cols) = IsPlain schema
IsStatement (drop_table lenient n) = IsPlain n
IsStatement (drop_index concurrently lenient i) = IsPlain i
IsStatement (alter_table n action rest) =
    IsPlain n × (same action (codes ".") ≡ false) × (same action (codes "rename") ≡ false)
IsStatement (rename_table a b) = IsPlain a
IsStatement (rename_index a b) = IsPlain a

-- The map that the source keeps of a catalog.
abbrev pub seen : (ℕ → Bytes) → Option Object → Option Relation
seen name_of none = none
seen name_of (some (a_table o)) = some (record { kind = table; owner = [] })
seen name_of (some (an_index o)) = some (record { kind = index; owner = name_of o })

abbrev pub view : Catalog → Relations
view c q = seen c.name_of (c.by_name q)
