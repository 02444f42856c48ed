-- ===== src/Forge/Schema.antt =====
-- cmd/forge/resource_schema.go: the relations that the migrations leave, and validateResourceTable.
use go_api_scaffolding.Common.{
  ℕ, zero, suc, Bool, true, false, ◌&&◌, Bytes, String, codes, List, [], ◌∷◌, ◌++◌, Option, none,
  some, same, any, length, if◌then◌else◌,
}

pub data Kind : Type 0 where
  table index : Kind

-- The owner is the empty string where the source leaves it unset.
pub record Relation : Type 0 where
  pub kind : Kind
  pub owner : Bytes

-- The source's map; what it does to every entry of the map is done at every name.
abbrev pub Relations : Type 0
Relations = Bytes → Option Relation

abbrev pub tokens : List String → List Bytes
tokens [] = []
tokens (w ∷ ws) = codes w ∷ tokens ws

abbrev pub is_one_of : List String → Bytes → Bool
is_one_of ws t = any (λ w. same t (codes w)) ws

abbrev pub set : Bytes → Option Relation → Relations → Relations
set name r rels q = if same name q then r else rels q

-- Is it an index of this table?
abbrev pub is_owned : Bytes → Option Relation → Bool
is_owned name none = false
is_owned name (some r) = elim (r.kind) [ table ↦ false | index ↦ same r.owner name ]

-- A qualified name with its schema's test, and the tokens behind it. Without tokens there is none.
unfoldable pub migration_relation_name : List Bytes → Bytes × Bool × List Bytes
migration_relation_name [] = ([], false, [])
migration_relation_name (name ∷ []) = (name, true, [])
migration_relation_name (name ∷ dot ∷ []) = (name, true, dot ∷ [])
migration_relation_name (name ∷ dot ∷ inner ∷ rest) =
    if same dot (codes ".")
    then (inner, same name (codes "public"), rest)
    else (name, true, dot ∷ inner ∷ rest)

abbrev pub create_relation : Bytes → Relation → Relations → Relations
create_relation name r rels = elim (rels name) [ none ↦ set name (some r) rels | some old ↦ rels ]

abbrev pub drop_owned : Bytes → Relations → Relations
drop_owned name rels q = if is_owned name (rels q) then none else rels q

abbrev pub drop_relation : Kind → Bytes → Relations → Relations
drop_relation table name rels = drop_owned name (set name none rels)
drop_relation index name rels = set name none rels

abbrev pub move_owned : Bytes → Bytes → Relations → Relations
move_owned name renamed rels q =
    if is_owned name (rels q) then some (record { kind = index; owner = renamed }) else rels q

abbrev pub rename_relation : Kind → Bytes → Bytes → Relations → Relations
rename_relation kind name renamed rels = elim (rels name) [
  | none ↦ rels
  | some r ↦
      let moved = set renamed (some r) (set name none rels) in
      elim kind [ table ↦ move_owned name renamed moved | index ↦ moved ]
]

abbrev pub alter_relation : Kind → Bytes → List Bytes → Relations → Relations
alter_relation kind name (a ∷ b ∷ renamed ∷ rest) rels =
    if same a (codes "rename") && same b (codes "to")
    then rename_relation kind name renamed rels
    else rels
alter_relation kind name _ rels = rels

-- The switch on the action, at a name of the schema public; `rest` is what follows the name.
abbrev pub act : Bytes → Kind → Bytes → Relation → List Bytes → Relations → Relations
act action kind name r rest rels =
    if same action (codes "create")
    then create_relation name r rels
    else if same action (codes "drop")
    then drop_relation kind name rels
    else if same action (codes "alter")
    then alter_relation kind name rest rels
    else rels

abbrev pub past_only : List Bytes → List Bytes
past_only [] = []
past_only (t ∷ ts) = if same t (codes "only") then ts else t ∷ ts

-- The table that a new index is on: none where the index has no name.
abbrev pub on_table : List Bytes → Option (Bytes × Bool × List Bytes)
on_table [] = none
on_table (t ∷ ts) =
    if same t (codes "on") then some (migration_relation_name (past_only ts)) else none

-- A name, its schema's test, its entry and what follows: none ends the statement.
abbrev pub owned_by :
    Bytes
    → Bool
    → Option (Bytes × Bool × List Bytes)
    → Option (Bytes × Bool × Relation × List Bytes)
owned_by name public none = none
owned_by name public (some (owner, owner_public, rest)) =
    some (name, public && owner_public, record { kind = index; owner = owner }, rest)

abbrev pub named_relation :
    Bytes → Kind → Bytes × Bool × List Bytes → Option (Bytes × Bool × Relation × List Bytes)
named_relation action table (name, public, rest) =
    some (name, public, record { kind = table; owner = [] }, rest)
named_relation action index (name, public, rest) =
    if same action (codes "create")
    then owned_by name public (on_table rest)
    else some (name, public, record { kind = index; owner = [] }, rest)

-- Only a drop goes on, behind a comma.
abbrev pub comma : Bytes → List Bytes → Option (List Bytes)
comma action [] = none
comma action (t ∷ ts) = if same action (codes "drop") && same t (codes ",") then some ts else none

-- One name of the statement: the new map, and the tokens that the loop goes on with.
abbrev pub name_turn :
    Bytes
    → Kind
    → Option (Bytes × Bool × Relation × List Bytes)
    → Relations
    → Relations × Option (List Bytes)
name_turn action kind none rels = (rels, none)
name_turn action kind (some (name, public, r, rest)) rels =
    (if public then act action kind name r rest rels else rels, comma action rest)

-- The loop over the names, on fuel: one unit for each name.
unfoldable pub names_loop : ℕ → Bytes → Kind → List Bytes → Relations → Relations
unfolding migration_relation_name
names_loop zero action kind ts rels = rels
names_loop (suc fuel) action kind [] rels = rels
names_loop (suc fuel) action kind (t ∷ ts) rels =
    let (rels', more) =
      name_turn action kind (named_relation action kind (migration_relation_name (t ∷ ts))) rels in
    elim more [ none ↦ rels' | some ts' ↦ names_loop fuel action kind ts' rels' ]

abbrev pub kind_of : Bytes → Option Kind
kind_of t =
    if same t (codes "table")
    then some table
    else if same t (codes "index")
    then some index
    else none

abbrev pub modifiers : List String
modifiers = "if" ∷ "not" ∷ "exists" ∷ "only" ∷ "concurrently" ∷ []

unfoldable pub past_modifiers : List Bytes → List Bytes
past_modifiers [] = []
past_modifiers (t ∷ ts) = if is_one_of modifiers t then past_modifiers ts else t ∷ ts

abbrev pub at_kind : Bytes → List Bytes → Relations → Relations
at_kind action [] rels = rels
at_kind action (t ∷ ts) rels = elim (kind_of t) [
  | none ↦ rels
  | some kind ↦ names_loop (length ts) action kind (past_modifiers ts) rels
]

-- A statement of two tokens is too short.
unfoldable pub apply_relation_statement : List Bytes → Relations → Relations
unfolding names_loop past_modifiers
apply_relation_statement (action ∷ t ∷ u ∷ ts) rels =
    if same action (codes "create") && is_one_of ("unlogged" ∷ "unique" ∷ []) t
    then at_kind action (u ∷ ts) rels
    else at_kind action (t ∷ u ∷ ts) rels
apply_relation_statement _ rels = rels

-- The statements between the semicolons; `cur` is the one that is being read.
unfoldable pub apply_statements : List Bytes → List Bytes → Relations → Relations
unfolding apply_relation_statement
apply_statements cur [] rels = apply_relation_statement cur rels
apply_statements cur (t ∷ ts) rels =
    let ended = apply_statements [] ts (apply_relation_statement cur rels) in
    let longer = apply_statements (cur ++ t ∷ []) ts rels in
    if same t (codes ";") then ended else longer
