-- ===== src/Widgets/Laws/Changes.antt =====
-- Each change of a widget and its event are one: both are made, or neither.
use go_api_scaffolding.Common.{
  suc, ◌≡◌, ◌≢◌, refl, ◌⊎◌, inl, inr, Bool, Bool-cases, false, Bytes, codes, List, [], ◌∷◌, ◌++◌,
  keep, find, any, none, some, arith, ap, ◌∙◌,
}
use go_api_scaffolding.Errors.{Error, cause, wrap, no_rows, not_found, Result, ok, err, panic}
use go_api_scaffolding.Json.{Json}
use go_api_scaffolding.Db.{Widget, Db, Session, M, statement}
use go_api_scaffolding.Db.Statements.{started}
use go_api_scaffolding.Db.Queries.Widgets.{
  new_widget, has_id, create_widget, replaced, update_widget, delete_widget,
}
use go_api_scaffolding.Db.Queries.{update_where, rows_left, deleted_rows}
use go_api_scaffolding.Db.Queries.Outbox.{new_message, enqueue_outbox_message}
use go_api_scaffolding.Tx.{within_tx}
use go_api_scaffolding.Tx.Laws.{within_tx_ok, within_tx_atomic}
use go_api_scaffolding.Widgets.Input.{Input, to_api_widget}
use go_api_scaffolding.Widgets.Store.{
  create, insert, enqueue_widget_event, translate, replace, remove, update, delete, deleted_payload,
  missing,
}

-- The tables with a further event.
abbrev pub with_event : Bytes → Bytes → Json → Session → Db → Db
with_event id event_type payload s db = record db {
  outbox = db.outbox ++ new_message id event_type payload s ∷ [];
  sequence = suc db.sequence;
}

abbrev pub created : Input → Session → Widget
created i s = new_widget i.name i.description i.status s

abbrev pub after_create : Input → Session → Db
after_create i s =
    let w = created i s in
    record (with_event w.id (codes "widget.created") (to_api_widget w) s s.db) {
      widgets = s.db.widgets ++ w ∷ [];
    }

module _ {A : Type 0} (f : Error → Error) where
  pub translate_ok :
      (p : Result A × Session) (a : A)
      → (translate f p).0 ≡ ok a
      → (p.0 ≡ ok a) × ((translate f p).1 ≡ p.1)
  translate_ok (ok b, s) a h = (h, refl)
  translate_ok (err e, s) a h = cc
  translate_ok (panic, s) a h = cc

  translate_session : (p : Result A × Session) → (translate f p).1 ≡ p.1
  translate_session (ok b, s) = refl
  translate_session (err e, s) = refl
  translate_session (panic, s) = refl

  -- A transaction whose body, when it succeeds, leaves the tables `after`.
  pub tables_atomic :
      (body : M A) (s : Session) (after : Db)
      → ((a : A) → (body (started s)).0 ≡ ok a → (body (started s)).1.db ≡ after)
      → ((translate f (within_tx body s)).1.db ≡ s.db)
        ⊎ ((translate f (within_tx body s)).1.db ≡ after)
  tables_atomic body s after done =
      let same_session = ap (λ (t : Session). t.db) (translate_session (within_tx body s)) in
      elim (within_tx_atomic body s) [
        | inl kept ↦ inl (same_session ∙ kept)
        | inr (a, ran, tables) ↦ inr (same_session ∙ (tables ∙ done a ran))
      ]

pub insert_ok :
    (i : Input) (s : Session) (w : Widget)
    → (insert i s).0 ≡ ok w
    → (w ≡ created i s)
      × ((insert i s).1.db ≡ after_create i s)
      × (any (has_id w.id) s.db.widgets ≡ false)
unfolding insert create_widget enqueue_widget_event enqueue_outbox_message statement
insert_ok i s w h = ground arith

-- A create that answers a widget has added that widget, with an id that no row had, and its event,
-- and changed nothing else.
pub create_ok :
    (i : Input) (s : Session) (w : Widget)
    → (create i s).0 ≡ ok w
    → (w ≡ created i s)
      × ((create i s).1.db ≡ after_create i s)
      × (any (has_id w.id) s.db.widgets ≡ false)
unfolding create
create_ok i s w h =
    let (in_tx, same_session) = translate_ok (wrap "create widget") (within_tx (insert i) s) w h in
    let (in_body, tables) = within_tx_ok (insert i) s w in_tx in
    let (made, after, fresh_id) = insert_ok i (started s) w in_body in
    (made, ap (λ (t : Session). t.db) same_session ∙ (tables ∙ after), fresh_id)

-- Whatever fails, a create leaves the tables as they were, or adds the widget and its event.
pub create_atomic :
    (i : Input) (s : Session) → ((create i s).1.db ≡ s.db) ⊎ ((create i s).1.db ≡ after_create i s)
unfolding create
create_atomic i s =
    tables_atomic (wrap "create widget") (insert i) s (after_create i s)
      (λ w h. (insert_ok i (started s) w h).1)

abbrev pub replaced_in : Bytes → Input → Session → List Widget
replaced_in id i s =
    update_where (has_id id) (replaced i.name i.description i.status s.now) s.db.widgets

abbrev pub after_update : Bytes → Input → Widget → Session → Db
after_update id i w s = record (with_event w.id (codes "widget.updated") (to_api_widget w) s s.db) {
  widgets = replaced_in id i s;
}

abbrev pub after_delete : Bytes → Session → Db
after_delete id s = record (with_event id (codes "widget.deleted") (deleted_payload id) s s.db) {
  widgets = rows_left (has_id id) s.db.widgets;
}

replace_ok :
    (id : Bytes) (i : Input) (s : Session) (w : Widget)
    → (replace id i s).0 ≡ ok w
    → (find (has_id id) (replaced_in id i s) ≡ some w)
      × ((replace id i s).1.db ≡ after_update id i w s)
unfolding replace update_widget enqueue_widget_event enqueue_outbox_message statement
replace_ok id i s w h = ground arith

remove_ok :
    (id : Bytes) (s : Session) (u : Unit {0})
    → (remove id s).0 ≡ ok u
    → (deleted_rows (has_id id) s.db.widgets ≢ 0) × ((remove id s).1.db ≡ after_delete id s)
unfolding remove delete_widget enqueue_outbox_message statement
remove_ok id s u h = ground arith

-- An update that answers a widget found a row with that id and replaced it; it has recorded the
-- event of the row as it is now, and changed nothing else.
pub update_ok :
    (id : Bytes) (i : Input) (s : Session) (w : Widget)
    → (update id i s).0 ≡ ok w
    → (find (has_id id) (replaced_in id i s) ≡ some w)
      × ((update id i s).1.db ≡ after_update id i w s)
unfolding update
update_ok id i s w h =
    let (in_tx, same_session) =
      translate_ok (missing no_rows "update widget") (within_tx (replace id i) s) w h in
    let (in_body, tables) = within_tx_ok (replace id i) s w in_tx in
    let (row, after) = replace_ok id i (started s) w in_body in
    (row, ap (λ (t : Session). t.db) same_session ∙ (tables ∙ after))

-- A delete that succeeds found a row with that id; it has removed it, recorded its event, and
-- changed nothing else.
pub delete_ok :
    (id : Bytes) (s : Session) (u : Unit {0})
    → (delete id s).0 ≡ ok u
    → (deleted_rows (has_id id) s.db.widgets ≢ 0) × ((delete id s).1.db ≡ after_delete id s)
unfolding delete
delete_ok id s u h =
    let (in_tx, same_session) =
      translate_ok (missing not_found "delete widget") (within_tx (remove id) s) u h in
    let (in_body, tables) = within_tx_ok (remove id) s u in_tx in
    let (row, after) = remove_ok id (started s) u in_body in
    (row, ap (λ (t : Session). t.db) same_session ∙ (tables ∙ after))

cons-ne-nil : {A : Type 0} {x : A} {xs : List A} → x ∷ xs ≢ []
cons-ne-nil h = cc

find-update_where :
    {A : Type 0} (p : A → Bool) (f : A → A) (xs : List A)
    → keep p xs ≡ []
    → find p (update_where p f xs) ≡ none
find-update_where p f [] h = refl
find-update_where p f (x ∷ xs) h = elim (Bool-cases (p x)) [
  | inl hit ↦ absurd (cons-ne-nil (rw hit at h))
  | inr miss ↦ rw (miss, miss) (find-update_where p f xs (rw miss at h))
]

-- Where no statement fails, an update of an id that no row has is answered ErrNotFound, as is a
-- delete of it, and both leave the tables as they were: there is no event of a missing widget.
pub missing_widget :
    (id : Bytes) (i : Input) (s : Session)
    → s.faults ≡ []
    → keep (has_id id) s.db.widgets ≡ []
    → ((update id i s).0 ≡ err (cause not_found))
      × ((update id i s).1.db ≡ s.db)
      × ((delete id s).0 ≡ err (cause not_found))
      × ((delete id s).1.db ≡ s.db)
unfolding update delete within_tx replace remove update_widget delete_widget statement
missing_widget id i s clean_run absent =
    let no_row =
      find-update_where (has_id id) (replaced i.name i.description i.status s.now) s.db.widgets
        absent in
    (ground arith, ground arith, ground arith, ground arith)
