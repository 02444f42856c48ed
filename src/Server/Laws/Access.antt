-- ===== src/Server/Laws/Access.antt =====
-- Who can change a widget through the API.
use go_api_scaffolding.Common.{
  ℕ, ◌≡◌, refl, subst, ap, sym, ◌∙◌, ◌⊎◌, inl, inr, Bool, true, false, Bytes, arith, if◌then◌else◌,
}
use go_api_scaffolding.Errors.{Result, ok}
use go_api_scaffolding.Db.{Session, pure}
use go_api_scaffolding.Http.{Request, Writer, Handler}
use go_api_scaffolding.Auth.Principal.{has_permission, permission_write}
use go_api_scaffolding.Auth.Verifier.{Verify, Claims, principal}
use go_api_scaffolding.Auth.Middleware.{seed_context, authenticate, with_holder}
use go_api_scaffolding.Auth.Laws.Policy.{Granted, has_permission_iff}
use go_api_scaffolding.Auth.Laws.Resolution.{Verified, principal_from-authenticate}
use go_api_scaffolding.Server.Limits.{Scanner, single_json_document, is_json, checked}
use go_api_scaffolding.Server.Router.{Validator, api_route}
use go_api_scaffolding.Server.Laws.Gates.{max_bytes-Fits, checked_lem}
use go_api_scaffolding.Widgets.Service
use go_api_scaffolding.Widgets.Idempotent
use go_api_scaffolding.Widgets.Handlers.{create_widget, update_widget, delete_widget, actor_of}
use go_api_scaffolding.Widgets.Handlers

-- A handler that leaves the session of a caller who may not write as it is.
abbrev pub IsGuarded : Handler → Type 0
IsGuarded next =
    (r : Request) (w : Writer) (s : Session)
    → has_permission (actor_of r) permission_write ≡ false
    → (next r w s).1 ≡ s

create_widget-IsGuarded : (h : Handlers.Handler) → IsGuarded (create_widget h)
unfolding create_widget Service.create Idempotent.create_idempotent
create_widget-IsGuarded h r w s denied = ground arith

update_widget-IsGuarded : (h : Handlers.Handler) (id : Bytes) → IsGuarded (update_widget h id)
unfolding update_widget Service.update
update_widget-IsGuarded h id r w s denied = ground arith

delete_widget-IsGuarded : (id : Bytes) → IsGuarded (delete_widget id)
unfolding delete_widget Service.delete
delete_widget-IsGuarded id r w s denied = ground arith

-- What the validator is known to do: the handler behind it runs only on the request that the
-- authentication let through, and on any other request no statement is run.
abbrev pub Authenticates : Validator → Type 0
Authenticates validator =
    (auth : Request → Result Request) (next : Handler) (r : Request) (w : Writer) (s : Session)
    → ((validator auth next r w s).1 ≡ s)
      ⊎ ((r' : Request) × (auth r ≡ ok r') × (validator auth next r w s ≡ next r' w s))

-- The session is as it was, or the request has a verified token whose principal may write.
abbrev pub KeptOrGranted : Verify → Request → Session → Result Writer × Session → Type 0
KeptOrGranted verify r s answer =
    (answer.1 ≡ s)
    ⊎ ((claims : Claims) × Verified verify r claims × Granted (principal claims) permission_write)

answered-kept :
    (verify : Verify) (r : Request) (s : Session) (x : Writer) (m : Result Writer × Session)
    → m ≡ pure x s
    → KeptOrGranted verify r s m
answered-kept verify r s x m e = inl (ap (λ (z : Result Writer × Session). z.1) e)

module _ (validator : Validator) (verify : Verify) (next : Handler) where
  validated-KeptOrGranted :
      (r : Request) (w : Writer) (s : Session)
      → Authenticates validator
      → IsGuarded next
      → KeptOrGranted verify r s
          (validator (authenticate verify "bearerAuth") next (with_holder r) w s)
  validated-KeptOrGranted r w s documented guarded =
      elim (documented (authenticate verify "bearerAuth") next (with_holder r) w s) [
        | inl kept ↦ inl kept
        | inr (r', let_through, ran) ↦
            let (claims, verified, found) = principal_from-authenticate verify r r' let_through in
            let actor : actor_of r' ≡ principal claims = ap (λ (z : _ × Bool). z.0) found in
            by_permission r' claims verified actor ran
              (has_permission (principal claims) permission_write) refl
      ]
    where
      by_permission :
          (r' : Request) (claims : Claims)
          → Verified verify r claims
          → actor_of r' ≡ principal claims
          → validator (authenticate verify "bearerAuth") next (with_holder r) w s ≡ next r' w s
          → (b : Bool) → has_permission (principal claims) permission_write ≡ b
          → KeptOrGranted verify r s
              (validator (authenticate verify "bearerAuth") next (with_holder r) w s)
      by_permission r' claims verified actor ran true may =
          inr (claims, verified, (has_permission_iff (principal claims) permission_write).0 may)
      by_permission r' claims verified actor ran false denied = inl (
          ap (λ (z : Result Writer × Session). z.1) ran
          ∙ guarded r' w s (ap (λ p. has_permission p permission_write) actor ∙ denied))

  gated-KeptOrGranted :
      (first_value : Scanner) (r : Request) (w : Writer) (s : Session)
      → Authenticates validator
      → IsGuarded next
      → KeptOrGranted verify r s (
          seed_context
            (single_json_document first_value (validator (authenticate verify "bearerAuth") next))
            r
            w
            s)
  unfolding seed_context single_json_document
  gated-KeptOrGranted first_value r w s documented guarded = by_type (is_json (with_holder r))
    where
      inner : Handler
      inner = validator (authenticate verify "bearerAuth") next

      behind : KeptOrGranted verify r s (inner (with_holder r) w s)
      behind = validated-KeptOrGranted r w s documented guarded

      by_type :
          (b : Bool)
          → KeptOrGranted verify r s (
              (if b
                  then checked first_value inner r.body (with_holder r) w
                  else inner (with_holder r) w)
                s)
      by_type false = behind
      by_type true = elim (checked_lem first_value inner r.body (with_holder r) w refl) [
        | inl (ready, e) ↦ subst (KeptOrGranted verify r s) (sym (ap (λ m. m s) e)) behind
        | inr (inl (over, e)) ↦ answered-kept verify r s _ _ (ap (λ m. m s) e)
        | inr (inr (detail, ready, e)) ↦ answered-kept verify r s _ _ (ap (λ m. m s) e)
      ]

  route-KeptOrGranted :
      (limit : ℕ) (first_value : Scanner) (r : Request) (w : Writer) (s : Session)
      → Authenticates validator
      → IsGuarded next
      → KeptOrGranted verify r s (api_route limit first_value validator verify next r w s)
  unfolding api_route
  route-KeptOrGranted limit first_value r w s documented guarded =
      elim (max_bytes-Fits limit
        (seed_context
          (single_json_document first_value (validator (authenticate verify "bearerAuth") next)))
        r w) [
          | inl (more, e) ↦ answered-kept verify r s _ _ (ap (λ m. m s) e)
          | inr (less, (body, fits, e)) ↦
              subst (KeptOrGranted verify r s) (sym (ap (λ m. m s) e))
                (gated-KeptOrGranted first_value (record r { body = body }) w s documented guarded)
        ]

-- Through the API only a request with a verified token whose principal may write changes anything:
-- behind the body limit, the JSON gate and the validator, a create, an update or a delete by any
-- other request leaves the session as it was, so no statement is run. The validator is known to
-- run the handler only on a request that the authentication let through.
pub writes-KeptOrGranted :
    (limit : ℕ) (first_value : Scanner) (validator : Validator) (verify : Verify)
    (h : Handlers.Handler) (id : Bytes) (r : Request) (w : Writer) (s : Session)
    → Authenticates validator
    → KeptOrGranted verify r s
        (api_route limit first_value validator verify (create_widget h) r w s)
      × KeptOrGranted verify r s
          (api_route limit first_value validator verify (update_widget h id) r w s)
      × KeptOrGranted verify r s
          (api_route limit first_value validator verify (delete_widget id) r w s)
writes-KeptOrGranted limit first_value validator verify h id r w s documented = (
  route-KeptOrGranted validator verify (create_widget h) limit first_value r w s documented
      (create_widget-IsGuarded h),
  route-KeptOrGranted validator verify (update_widget h id) limit first_value r w s documented
      (update_widget-IsGuarded h id),
  route-KeptOrGranted validator verify (delete_widget id) limit first_value r w s documented
      (delete_widget-IsGuarded id),
)
