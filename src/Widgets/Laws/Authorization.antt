-- ===== src/Widgets/Laws/Authorization.antt =====
-- Without the permission to write no operation that writes reaches the tables.
use go_api_scaffolding.Common.{
  ◌≡◌, ◌≢◌, ◌⊎◌, inl, inr, refl, Bool, true, false, Bytes, Option, none, some, arith,
}
use go_api_scaffolding.Errors.{cause, forbidden, Result, ok, err, panic}
use go_api_scaffolding.Db.{Session}
use go_api_scaffolding.Http.{Request, Writer, Stream, no_body, content, over_limit, unreadable}
use go_api_scaffolding.Problems.Laws.{status_problem_lem}
use go_api_scaffolding.Auth.Principal.{has_permission, permission_write}
use go_api_scaffolding.Widgets.Input.{WidgetInput}
use go_api_scaffolding.Widgets.Responses.{write_error}
use go_api_scaffolding.Widgets.Service
use go_api_scaffolding.Widgets.Idempotent
use go_api_scaffolding.Widgets.Handlers.{
  Handler, create_widget, update_widget, delete_widget, actor_of, read_all, create_read,
  create_body, update_decoded,
}

-- An operation that is refused: the session is as it was, and the answer's status is 403, where the
-- input was read.
abbrev pub Refused : Bool → Session → Result Writer × Session → Type 0
Refused was_read s answer =
    (v : Writer) × (answer ≡ (ok v, s)) × ((was_read ≡ false) ⊎ (v.status ≡ 403))

-- Whether the body of a create is read and decoded, and that of an update.
abbrev pub is_decoded : Handler → Result Bytes → Bool
is_decoded h (ok body) = elim (h.decode body) [ none ↦ false | some input ↦ true ]
is_decoded h (err e) = false
is_decoded h panic = false

abbrev pub is_input : Result WidgetInput → Bool
is_input (ok input) = true
is_input (err e) = false
is_input panic = false

forbidden-status :
    (r : Request) (w : Writer) → w.status ≡ 0 → (write_error (cause forbidden) r w).status ≡ 403
unfolding write_error
forbidden-status r w fresh =
    (status_problem_lem 403 "you do not have permission to perform this action" r w fresh).0

denied_create :
    (h : Handler) (r : Request) (w : Writer) (s : Session) (body : Result Bytes)
    → has_permission (actor_of r) permission_write ≡ false
    → w.status ≡ 0
    → body ≢ panic
    → Refused (is_decoded h body) s (create_read h r w body s)
unfolding Service.create Idempotent.create_idempotent
denied_create h r w s (ok body) denied fresh calm = by_input (h.decode body) refl
  where
    by_input :
        (o : Option WidgetInput)
        → h.decode body ≡ o
        → Refused (elim o [ none ↦ false | some input ↦ true ]) s (create_body h r w body o s)
    by_input none e = (_, refl, inl refl)
    by_input (some input) e =
        (write_error (cause forbidden) r w, ground arith, inr (forbidden-status r w fresh))
denied_create h r w s (err e) denied fresh calm = (_, refl, inl refl)
denied_create h r w s panic denied fresh calm = absurd (calm refl)

denied_update :
    (h : Handler) (id : Bytes) (r : Request) (w : Writer) (s : Session) (input : Result WidgetInput)
    → has_permission (actor_of r) permission_write ≡ false
    → w.status ≡ 0
    → input ≢ panic
    → Refused (is_input input) s (update_decoded h id r w input s)
unfolding Service.update
denied_update h id r w s (ok input) denied fresh calm =
    (write_error (cause forbidden) r w, ground arith, inr (forbidden-status r w fresh))
denied_update h id r w s (err e) denied fresh calm = (_, refl, inl refl)
denied_update h id r w s panic denied fresh calm = absurd (calm refl)

read_all-calm : (b : Stream) → read_all b ≢ panic
read_all-calm no_body e = cc
read_all-calm (content body) e = cc
read_all-calm over_limit e = cc
read_all-calm unreadable e = cc

-- A caller who may not write, on a response that has not started and with a decoder that does not
-- panic: the create, with an Idempotency-Key or without, the update and the delete run no statement, so
-- also no stored response is replayed, and leave the session as it was. The delete is answered 403; the
-- create and the update are answered 403 if their body was read and decoded, which goes first.
pub writes_forbidden :
    (h : Handler) (r : Request) (w : Writer) (s : Session) (id : Bytes)
    → has_permission (actor_of r) permission_write ≡ false
    → w.status ≡ 0
    → h.decode_next r.body ≢ panic
    → Refused (is_decoded h (read_all r.body)) s (create_widget h r w s)
      × Refused (is_input (h.decode_next r.body)) s (update_widget h id r w s)
      × Refused true s (delete_widget id r w s)
unfolding create_widget update_widget delete_widget Service.delete
writes_forbidden h r w s id denied fresh calm = (
  denied_create h r w s (read_all r.body) denied fresh (read_all-calm r.body),
  denied_update h id r w s (h.decode_next r.body) denied fresh calm,
  (write_error (cause forbidden) r w, ground arith, inr (forbidden-status r w fresh)),
)
