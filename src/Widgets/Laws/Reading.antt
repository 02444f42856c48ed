-- ===== src/Widgets/Laws/Reading.antt =====
-- What is read back after a create, and that a page agrees with its total.
use go_api_scaffolding.Common.{
  ℕ, ◌≡◌, refl, Bool, true, false, List, [], ◌∷◌, ◌++◌, find, any, some, arith, same_iff, Bytes,
  length, take, drop, sort_by,
}
use go_api_scaffolding.Errors.{ok}
use go_api_scaffolding.Db.{Widget, Session, statement}
use go_api_scaffolding.Db.Queries.Widgets.{has_id, get_widget, newer, list_widgets, count_widgets}
use go_api_scaffolding.Tx.Laws.{within_tx_ok}
use go_api_scaffolding.Widgets.Input.{Input}
use go_api_scaffolding.Widgets.Store.{create, get, list, snapshot}
use go_api_scaffolding.Widgets.Laws.Changes.{create_ok}

find-last :
    {A : Type 0} (p : A → Bool) (xs : List A) (x : A)
    → any p xs ≡ false
    → p x ≡ true
    → find p (xs ++ x ∷ []) ≡ some x
find-last p [] x none_before hit = rw hit
find-last p (y ∷ xs) x none_before hit = ground (arith, find-last p xs x)

get_found :
    (id : Bytes) (w : Widget) (s : Session)
    → s.faults ≡ []
    → find (has_id id) s.db.widgets ≡ some w
    → (get id s).0 ≡ ok w
unfolding get get_widget statement
get_found id w s clean_run row = ground arith

-- A widget that was created is what a read of its id gives, where no statement fails.
pub get-create :
    (i : Input) (s : Session) (w : Widget)
    → (create i s).0 ≡ ok w
    → (create i s).1.faults ≡ []
    → (get w.id (create i s).1).0 ≡ ok w
get-create i s w made clean_run =
    let (same_widget, tables, fresh_id) = create_ok i s w made in
    get_found w.id w (create i s).1 clean_run (
      rw (tables, ← same_widget)
        (find-last (has_id w.id) s.db.widgets w fresh_id ((same_iff w.id w.id).1 refl)))

snapshot_ok :
    (limit offset total : ℕ) (items : List Widget) (s : Session)
    → (snapshot limit offset s).0 ≡ ok (items, total)
    → (items ≡ take limit (drop offset (sort_by newer s.db.widgets)))
      × (total ≡ length s.db.widgets)
unfolding snapshot list_widgets count_widgets statement
snapshot_ok limit offset total items s h = ground arith

-- A page is cut from the widgets in the order of the list, the newest first, and the total counts
-- the very widgets that it was cut from.
pub list_ok :
    (limit offset total : ℕ) (items : List Widget) (s : Session)
    → (list limit offset s).0 ≡ ok (items, total)
    → (items ≡ take limit (drop offset (sort_by newer s.db.widgets)))
      × (total ≡ length s.db.widgets)
unfolding list
list_ok limit offset total items s h =
    snapshot_ok limit offset total items _
      (within_tx_ok (snapshot limit offset) s (items, total) h).0
