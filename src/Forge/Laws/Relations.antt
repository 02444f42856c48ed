-- ===== src/Forge/Laws/Relations.antt =====
-- applyRelationStatement follows the catalog of the database.
use go_api_scaffolding.Common.{
  ℕ, suc, ◌<◌, ◌≡◌, refl, ap, ◌∙◌, Bool, true, false, Bytes, codes, List, [], ◌∷◌, Option, none,
  some, same, same_sound, same_refl, ◌==◌, length, if◌then◌else◌, arith, Bool-cases, inl, inr,
}
use go_api_scaffolding.Forge.Schema.{
  table, index, Relations, create_relation, drop_relation, rename_relation, past_modifiers,
  names_loop, migration_relation_name, past_only, name_turn, named_relation, owned_by,
  apply_relation_statement,
}
use go_api_scaffolding.Forge.Laws.Catalog.{
  Object, a_table, an_index, Catalog, IsCatalog, Ddl, create_table, create_index, create_elsewhere,
  drop_table, drop_index, alter_table, rename_table, rename_index, execute, statement, IsPlain,
  IsStatement, seen, view, label,
}

past_modifiers-plain : (n : Bytes) (ts : List Bytes) → IsPlain n → past_modifiers (n ∷ ts) ≡ n ∷ ts
unfolding past_modifiers
past_modifiers-plain n ts h = rw h refl

not_only : (t : Bytes) → IsPlain t → same t (codes "only") ≡ false
not_only t h = ground arith

-- What a statement does to the map.
abbrev pub effect : Ddl → Relations → Relations
effect (create_table lenient n cols) rels =
    create_relation n (record { kind = table; owner = [] }) rels
effect (create_index unique concurrently lenient i t cols) rels =
    create_relation i (record { kind = index; owner = t }) rels
effect (create_elsewhere schema n cols) rels =
    if same schema (codes "public")
    then create_relation n (record { kind = table; owner = [] }) rels
    else rels
effect (drop_table lenient n) rels = drop_relation table n rels
effect (drop_index concurrently lenient i) rels = drop_relation index i rels
effect (alter_table n action rest) rels = rels
effect (rename_table a b) rels = rename_relation table a b rels
effect (rename_index a b) rels = rename_relation index a b rels

create_table_loop :
    (fuel : ℕ) (n : Bytes) (cols : List Bytes) (rels : Relations)
    → names_loop (suc fuel) (codes "create") table (n ∷ codes "(" ∷ cols) rels
      ≡ create_relation n (record { kind = table; owner = [] }) rels
unfolding names_loop migration_relation_name same
create_table_loop fuel n [] rels = refl
create_table_loop fuel n (x ∷ cols) rels = refl

owner_name :
    (t : Bytes) (cols : List Bytes)
    → IsPlain t
    → migration_relation_name (past_only (t ∷ codes "(" ∷ cols)) ≡ (t, true, codes "(" ∷ cols)
unfolding migration_relation_name same
owner_name t [] h = rw (not_only t h) refl
owner_name t (x ∷ cols) h = rw (not_only t h) refl

-- The turn of a new index, by the name that follows ON.
abbrev index_turn : ℕ → Bytes → Relations → Bytes × Bool × List Bytes → Relations
index_turn fuel i rels z =
    let (rels', more) = name_turn (codes "create") index (owned_by i true (some z)) rels in
    elim more [ none ↦ rels' | some ts' ↦ names_loop fuel (codes "create") index ts' rels' ]

create_index_loop :
    (fuel : ℕ) (i t : Bytes) (cols : List Bytes) (rels : Relations)
    → IsPlain t
    → names_loop (suc fuel) (codes "create") index (i ∷ codes "on" ∷ t ∷ codes "(" ∷ cols) rels
      ≡ create_relation i (record { kind = index; owner = t }) rels
unfolding names_loop migration_relation_name same
create_index_loop fuel i t cols rels h = ap (index_turn fuel i rels) (owner_name t cols h)

-- The turn of a changed table, by its name.
abbrev table_turn : ℕ → Relations → Bytes × Bool × List Bytes → Relations
table_turn fuel rels z =
    let (rels', more) =
      name_turn (codes "alter") table (named_relation (codes "alter") table z) rels in
    elim more [ none ↦ rels' | some ts' ↦ names_loop fuel (codes "alter") table ts' rels' ]

bare_name :
    (n action x : Bytes) (rest : List Bytes)
    → same action (codes ".") ≡ false
    → migration_relation_name (n ∷ action ∷ x ∷ rest) ≡ (n, true, action ∷ x ∷ rest)
unfolding migration_relation_name
bare_name n action x rest h = rw h refl

-- A change of a table that renames nothing leaves the map as it is.
alter_table_loop :
    (fuel : ℕ) (n action : Bytes) (rest : List Bytes) (rels : Relations)
    → same action (codes ".") ≡ false
    → same action (codes "rename") ≡ false
    → names_loop (suc fuel) (codes "alter") table (n ∷ action ∷ rest) rels ≡ rels
unfolding names_loop migration_relation_name same
alter_table_loop fuel n action [] rels h k = refl
alter_table_loop fuel n action (x ∷ []) rels h k =
    ap (table_turn fuel rels) (bare_name n action x [] h)
alter_table_loop fuel n action (x ∷ y ∷ rest) rels h k =
    ap (table_turn fuel rels) (bare_name n action x (y ∷ rest) h) ∙ rw k refl

pub apply-effect :
    (s : Ddl) (rels : Relations)
    → IsStatement s
    → apply_relation_statement (statement s) rels ≡ effect s rels
unfolding apply_relation_statement past_modifiers names_loop migration_relation_name same
apply-effect (create_table true n cols) rels h =
    rw h (create_table_loop (suc (suc (suc (suc (length cols))))) n cols rels)
apply-effect (create_table false n cols) rels h =
    rw h (create_table_loop (suc (length cols)) n cols rels)
apply-effect (create_index true true true i t cols) rels h =
    rw (h.0)
      (create_index_loop (suc (suc (suc (suc (suc (suc (suc (length cols)))))))) i t cols rels h.1)
apply-effect (create_index true true false i t cols) rels h =
    rw (h.0) (create_index_loop (suc (suc (suc (suc (length cols))))) i t cols rels h.1)
apply-effect (create_index true false true i t cols) rels h =
    rw (h.0) (create_index_loop (suc (suc (suc (suc (suc (suc (length cols))))))) i t cols rels h.1)
apply-effect (create_index true false false i t cols) rels h =
    rw (h.0) (create_index_loop (suc (suc (suc (length cols)))) i t cols rels h.1)
apply-effect (create_index false true true i t cols) rels h =
    rw (h.0)
      (create_index_loop (suc (suc (suc (suc (suc (suc (suc (length cols)))))))) i t cols rels h.1)
apply-effect (create_index false true false i t cols) rels h =
    rw (h.0) (create_index_loop (suc (suc (suc (suc (length cols))))) i t cols rels h.1)
apply-effect (create_index false false true i t cols) rels h =
    rw (h.0) (create_index_loop (suc (suc (suc (suc (suc (suc (length cols))))))) i t cols rels h.1)
apply-effect (create_index false false false i t cols) rels h =
    rw (h.0) (create_index_loop (suc (suc (suc (length cols)))) i t cols rels h.1)
apply-effect (create_elsewhere schema n cols) rels h = rw h refl
apply-effect (drop_table true n) rels h = rw h refl
apply-effect (drop_table false n) rels h = rw h refl
apply-effect (drop_index true true i) rels h = rw h refl
apply-effect (drop_index true false i) rels h = rw h refl
apply-effect (drop_index false true i) rels h = rw h refl
apply-effect (drop_index false false i) rels h = rw h refl
apply-effect (alter_table n action rest) rels h =
    rw (h.0) (alter_table_loop (suc (length rest)) n action rest rels h.1 h.2)
apply-effect (rename_table a b) rels h = rw h refl
apply-effect (rename_index a b) rels h = rw h refl

index_bound :
    (c : Catalog) (q : Bytes) (o : ℕ) → IsCatalog c → c.by_name q ≡ some (an_index o) → o < c.next
index_bound c q o h e = (h.tables (c.name_of o) o (h.indexes q o e)).1

-- A number that is not in use may be given a name.
relabel :
    (c : Catalog) (n : Bytes) (x : Option Object)
    → ((o : ℕ) → x ≡ some (an_index o) → o < c.next)
    → seen (label c.next n c.name_of) x ≡ seen c.name_of x
relabel c n none h = refl
relabel c n (some (a_table o)) h = refl
relabel c n (some (an_index o)) h = ground (arith, h o refl)

-- An index is owned by the table whose number it has.
owner_test :
    (c : Catalog) (a q : Bytes) (o p : ℕ)
    → IsCatalog c
    → c.by_name a ≡ some (a_table o)
    → c.by_name q ≡ some (an_index p)
    → same (c.name_of p) a ≡ (p == o)
owner_test c a q o p h e k = elim (Bool-cases (p == o)) [
  | inl x ↦ ground (arith, h.tables a o e, same_refl a)
  | inr x ↦ elim (Bool-cases (same (c.name_of p) a)) [
    | inl y ↦ ground (arith, same_sound (c.name_of p) a y, h.indexes q p k)
    | inr y ↦ ground arith
  ]
]

-- The same at a name, on a catalog.
pub follows-at :
    (s : Ddl) (c c' : Catalog)
    → IsCatalog c
    → execute s c ≡ some c'
    → (q : Bytes) → effect s (view c) q ≡ view c' q
unfolding execute
follows-at (create_table lenient n cols) c c' h e q =
    ground (arith, relabel c n (c.by_name q) (λ o k. index_bound c q o h k))
follows-at (create_index unique concurrently lenient i t cols) c c' h e q = grind (arith, h.tables)
follows-at (create_elsewhere schema n cols) c c' h e q = ground arith
follows-at (drop_table lenient n) c c' h e q =
    grind (arith, h.tables, h.indexes, same_sound, same_refl)
follows-at (drop_index concurrently lenient i) c c' h e q = ground (arith, same_sound i q)
follows-at (alter_table n action rest) c c' h e q = ground arith
follows-at (rename_table a b) c c' h e q =
    grind (arith, same_sound, same_refl, λ (o : ℕ) (p : ℕ). owner_test c a q o p h)
follows-at (rename_index a b) c c' h e q = ground (arith, same_sound a q, same_sound b q)

kept_table :
    (s : Ddl) (c c' : Catalog)
    → IsCatalog c
    → execute s c ≡ some c'
    → (q : Bytes) (o : ℕ) → c'.by_name q ≡ some (a_table o)
    → (c'.name_of o ≡ q) × (o < c'.next)
unfolding execute
kept_table (create_table lenient n cols) c c' h e q o k =
    ground (arith, h.tables q o, same_sound n q)
kept_table (create_index unique concurrently lenient i t cols) c c' h e q o k =
    ground (arith, h.tables q o)
kept_table (create_elsewhere schema n cols) c c' h e q o k = ground (arith, h.tables q o)
kept_table (drop_table lenient n) c c' h e q o k = ground (arith, h.tables q o)
kept_table (drop_index concurrently lenient i) c c' h e q o k = ground (arith, h.tables q o)
kept_table (alter_table n action rest) c c' h e q o k = ground (arith, h.tables q o)
kept_table (rename_table a b) c c' h e q o k =
    ground (arith, h.tables q o, h.tables a o, same_sound b q, same_refl a)
kept_table (rename_index a b) c c' h e q o k = ground (arith, h.tables q o)

kept_index :
    (s : Ddl) (c c' : Catalog)
    → IsCatalog c
    → execute s c ≡ some c'
    → (q : Bytes) (o : ℕ) → c'.by_name q ≡ some (an_index o)
    → c'.by_name (c'.name_of o) ≡ some (a_table o)
unfolding execute
kept_index (create_table lenient n cols) c c' h e q o k =
    grind (arith, h.tables, h.indexes, same_sound, same_refl)
kept_index (create_index unique concurrently lenient i t cols) c c' h e q o k =
    grind (arith, h.tables, h.indexes, same_sound, same_refl)
kept_index (create_elsewhere schema n cols) c c' h e q o k = grind (arith, h.indexes)
kept_index (drop_table lenient n) c c' h e q o k =
    grind (arith, h.tables, h.indexes, same_sound, same_refl)
kept_index (drop_index concurrently lenient i) c c' h e q o k =
    grind (arith, h.tables, h.indexes, same_sound, same_refl)
kept_index (alter_table n action rest) c c' h e q o k = grind (arith, h.indexes)
kept_index (rename_table a b) c c' h e q o k =
    grind (arith, h.tables, h.indexes, same_sound, same_refl)
kept_index (rename_index a b) c c' h e q o k =
    grind (arith, h.tables, h.indexes, same_sound, same_refl)

pub execute-IsCatalog :
    (s : Ddl) (c c' : Catalog) → IsCatalog c → execute s c ≡ some c' → IsCatalog c'
unfolding execute
execute-IsCatalog s c c' h e = record {
  tables = λ q o k. kept_table s c c' h e q o k;
  indexes = λ q o k. kept_index s c c' h e q o k;
}
