-- ===== src/Widgets/Handlers.antt =====
-- internal/modules/widget/handler.go: the widget operations of the API. The JSON decoders of
-- the request's body and the idempotency store are parameters.
use go_api_scaffolding.Common.{ℕ, Bytes, List, [], Option, none, some, same, if◌then◌else◌}
use go_api_scaffolding.Errors.{cause, max_bytes, failed, Result, ok, err, panic}
use go_api_scaffolding.Db.{Widget, M, pure, attempt, crash, ◌>>=◌}
use go_api_scaffolding.Http.{
  Request, Writer, Stream, no_body, content, over_limit, unreadable, header, write_header,
}
use go_api_scaffolding.Problems.{status_problem}
use go_api_scaffolding.Auth.Principal.{Principal}
use go_api_scaffolding.Auth.Middleware.{principal_from}
use go_api_scaffolding.Idempotency.{Digest}
use go_api_scaffolding.Widgets.Input.{WidgetInput, input_from_api, to_api_widget, to_api_list}
use go_api_scaffolding.Widgets.Service
use go_api_scaffolding.Widgets.Responses.{write_error, write_body_error, write_json, write_created}
use go_api_scaffolding.Widgets.Idempotent

-- json.Unmarshal of the bytes of a body; the Decode of a json.NewDecoder on a body, which reads it up to
-- the end of its first document; and the idempotency store if it is enabled: its digest and its time to
-- live.
pub record Handler : Type 0 where
  pub decode : Bytes → Option WidgetInput
  pub decode_next : Stream → Result WidgetInput
  pub idempotency : Option (Digest × ℕ)

-- io.ReadAll of the body
abbrev pub read_all : Stream → Result Bytes
read_all no_body = ok []
read_all (content body) = ok body
read_all over_limit = err (cause max_bytes)
read_all unreadable = err (cause failed)

abbrev pub actor_of : Request → Principal
actor_of r = (principal_from r).0

-- A handler's answer, by the result of the service.
abbrev pub answered {ℓ} :
    {A : Type ℓ} → (A → Writer → Writer) → Request → Writer → Result A → M Writer
answered f r w (ok a) = pure (f a w)
answered f r w (err e) = pure (write_error e r w)
answered f r w panic = crash

abbrev pub or_default : ℕ → Option ℕ → ℕ
or_default d none = d
or_default d (some n) = n

unfoldable pub list_widgets : Option ℕ → Option ℕ → Request → Writer → M Writer
list_widgets limit offset r w =
    let l = or_default 20 limit in
    let o = or_default 0 offset in
    attempt (Service.list l o)
    >>= answered (λ (page : List Widget × ℕ). write_json 200 (to_api_list page.0 l o page.1)) r w

unfoldable pub get_widget : Bytes → Request → Writer → M Writer
get_widget id r w =
    attempt (Service.get id) >>= answered (λ (x : Widget). write_json 200 (to_api_widget x)) r w

unfoldable pub delete_widget : Bytes → Request → Writer → M Writer
delete_widget id r w =
    attempt (Service.delete (actor_of r) id) >>= answered (λ (u : Unit {0}). write_header 204) r w

module _ (h : Handler) where
  -- The create, once the body is decoded.
  abbrev pub create_decoded : Request → Writer → Bytes → WidgetInput → M Writer
  create_decoded r w body input =
      let key = header "Idempotency-Key" r in
      let i = input_from_api input in
      let plainly = attempt (Service.create (actor_of r) i) >>= answered write_created r w in
      elim (h.idempotency) [
        | none ↦ plainly
        | some (digest, ttl) ↦
            if same key []
            then plainly
            else Idempotent.create_idempotent digest ttl r w (actor_of r) i body key
      ]

  abbrev pub create_body : Request → Writer → Bytes → Option WidgetInput → M Writer
  create_body r w body none = pure (status_problem 400 "invalid JSON body" r w)
  create_body r w body (some input) = create_decoded r w body input

  abbrev pub create_read : Request → Writer → Result Bytes → M Writer
  create_read r w (ok body) = create_body r w body (h.decode body)
  create_read r w (err e) = pure (write_body_error e "cannot read request body" r w)
  create_read r w panic = crash

  unfoldable pub create_widget : Request → Writer → M Writer
  create_widget r w = create_read r w (read_all r.body)

  abbrev pub update_decoded : Bytes → Request → Writer → Result WidgetInput → M Writer
  update_decoded id r w (ok input) =
      attempt (Service.update (actor_of r) id (input_from_api input))
      >>= answered (λ (x : Widget). write_json 200 (to_api_widget x)) r w
  update_decoded id r w (err e) = pure (write_body_error e "invalid JSON body" r w)
  update_decoded id r w panic = crash

  unfoldable pub update_widget : Bytes → Request → Writer → M Writer
  update_widget id r w = update_decoded id r w (h.decode_next r.body)
