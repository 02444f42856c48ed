-- ===== src/Db/Queries/Widgets.antt =====
-- internal/gen/db/queries.sql.go: the statements on the table widgets.
use go_api_scaffolding.Common.{
  ℕ, suc, Bool, not, ◌&&◌, ◌||◌, Bytes, List, [], ◌∷◌, ◌++◌, if◌then◌else◌, ltb, ◌==◌, same, before,
  length, take, drop, any, find, sort_by,
}
use go_api_scaffolding.Errors.{failed, cause, ok, err}
use go_api_scaffolding.Db.{Widget, Session, M, statement}
use go_api_scaffolding.Db.Queries.{one_row, update_where, deleted_rows, rows_left}

abbrev pub run_count_widgets : M ℕ
run_count_widgets s = (ok (length s.db.widgets), s)

unfoldable pub count_widgets : M ℕ
count_widgets = statement run_count_widgets

abbrev pub has_id : Bytes → Widget → Bool
has_id id w = same w.id id

abbrev pub new_widget : Bytes → Bytes → Bytes → Session → Widget
new_widget name description status s = record {
  id = s.uuids s.drawn;
  name = name;
  description = description;
  status = status;
  created_at = s.now;
  updated_at = s.now;
}

-- A row whose id exists already is refused by the primary key.
abbrev pub run_create_widget : Bytes → Bytes → Bytes → M Widget
run_create_widget name description status s =
    let w = new_widget name description status s in
    let t = record s { drawn = suc s.drawn } in
    if any (has_id w.id) s.db.widgets
    then (err (cause failed), t)
    else (ok w, record t { db = record s.db { widgets = s.db.widgets ++ w ∷ [] } })

unfoldable pub create_widget : Bytes → Bytes → Bytes → M Widget
create_widget name description status = statement (run_create_widget name description status)

abbrev pub run_get_widget : Bytes → M Widget
run_get_widget id s = (one_row (find (has_id id) s.db.widgets), s)

unfoldable pub get_widget : Bytes → M Widget
get_widget id = statement (run_get_widget id)

-- created_at DESC, id DESC
abbrev pub newer : Widget → Widget → Bool
newer v w =
    ltb w.created_at v.created_at || (w.created_at == v.created_at && not (before v.id w.id))

abbrev pub run_list_widgets : ℕ → ℕ → M (List Widget)
run_list_widgets limit offset s = (ok (take limit (drop offset (sort_by newer s.db.widgets))), s)

unfoldable pub list_widgets : ℕ → ℕ → M (List Widget)
list_widgets limit offset = statement (run_list_widgets limit offset)

abbrev pub replaced : Bytes → Bytes → Bytes → ℕ → Widget → Widget
replaced name description status now w = record w {
  name = name;
  description = description;
  status = status;
  updated_at = now;
}

abbrev pub run_update_widget : Bytes → Bytes → Bytes → Bytes → M Widget
run_update_widget id name description status s =
    let f = replaced name description status s.now in
    let rows = update_where (has_id id) f s.db.widgets in
    (one_row (find (has_id id) rows), record s { db = record s.db { widgets = rows } })

unfoldable pub update_widget : Bytes → Bytes → Bytes → Bytes → M Widget
update_widget id name description status = statement (run_update_widget id name description status)

abbrev pub run_delete_widget : Bytes → M ℕ
run_delete_widget id s = (
  ok (deleted_rows (has_id id) s.db.widgets),
  record s { db = record s.db { widgets = rows_left (has_id id) s.db.widgets } },
)

unfoldable pub delete_widget : Bytes → M ℕ
delete_widget id = statement (run_delete_widget id)
