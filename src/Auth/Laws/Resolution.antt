-- ===== src/Auth/Laws/Resolution.antt =====
-- How a request gets its principal: Middleware, Authenticate and PrincipalFrom.
use go_api_scaffolding.Common.{
  ◌≡◌, ◌≢◌, ◌⊎◌, inl, inr, ◌↔◌, sym, ap, ◌∙◌, Bool-cases, same_sound, true, String, [], same,
  same_iff, none, arith,
}
use mathlib.Core.Bool.{false≢true}
use text.Mathlib.TextEquality.{eq_iff}
use go_api_scaffolding.Errors.{Result-cases, ok, panic}
use go_api_scaffolding.Db.{Session}
use go_api_scaffolding.Http.{Request, Writer, Handler, header}
use go_api_scaffolding.Auth.Bearer.{bearer_token}
use go_api_scaffolding.Auth.Verifier.{Claims, principal, Verify}
use go_api_scaffolding.Auth.Middleware.{
  middleware, authenticate, unauthorized, with_principal, with_holder, principal_from,
}

-- The request's bearer token, and what it was verified to claim.
abbrev pub Verified : Verify → Request → Claims → Type 0
Verified verify r claims =
    (bearer_token (header "Authorization" r) ≢ [])
    × (verify (bearer_token (header "Authorization" r)) ≡ ok claims)

-- The handler behind Middleware runs only for a verified token, and with the principal of its
-- claims. Every other request is answered 401 without it, or panics as the verifier did.
pub middleware_guards :
    (verify : Verify) (next : Handler) (r : Request) (w : Writer) (s : Session)
    → ((claims : Claims) × Verified verify r claims
        × (middleware verify next r w s ≡ next (with_principal (principal claims) r) w s))
      ⊎ ((¬ ((claims : Claims) × Verified verify r claims))
          × ((middleware verify next r w s ≡ (ok (unauthorized r w), s))
              ⊎ ((verify (bearer_token (header "Authorization" r)) ≡ panic)
                  × (middleware verify next r w s ≡ (panic, s)))))
unfolding middleware
middleware_guards verify next r w s =
    elim (Bool-cases (same (bearer_token (header "Authorization" r)) [])) [
      | inl absent ↦ inr (λ (claims, verified). verified.0 (same_sound _ _ absent), inl (rw absent))
      | inr present ↦ elim (Result-cases (verify (bearer_token (header "Authorization" r)))) [
        | inl (claims, e) ↦
            inl (claims, (λ z. false≢true (sym present ∙ (same_iff _ _).1 z), e), rw (present, e))
        | inr (inl (x, e)) ↦ inr (λ (claims, verified). cc, inl (rw (present, e)))
        | inr (inr e) ↦ inr (λ (claims, verified). cc, inr (e, rw (present, e)))
      ]
    ]

-- Authenticate lets a request through exactly when it is asked for the scheme bearerAuth, the
-- context was seeded and the token is verified; then a handler finds the principal of the claims.
pub authenticate_iff :
    (verify : Verify) (scheme : String) (r r' : Request)
    → (authenticate verify scheme r ≡ ok r') ↔ (
        (scheme ≡ "bearerAuth")
        × (r.holder ≢ none)
        × ((claims : Claims) × Verified verify r claims
            × (r' ≡ with_principal (principal claims) r)))
unfolding authenticate
authenticate_iff verify scheme r r' = (
  λ h.
      ground
        (arith, eq_iff scheme "bearerAuth", same_iff (bearer_token (header "Authorization" r)) []),
  λ h.
      ground
        (arith, eq_iff scheme "bearerAuth", same_iff (bearer_token (header "Authorization" r)) []),
)

-- A handler behind SeedContext and Authenticate finds exactly the principal of the verified token.
pub principal_from-authenticate :
    (verify : Verify) (r r' : Request)
    → authenticate verify "bearerAuth" (with_holder r) ≡ ok r'
    → (claims : Claims) × Verified verify r claims × (principal_from r' ≡ (principal claims, true))
unfolding principal_from
principal_from-authenticate verify r r' h =
    let (same_scheme, seeded, found) =
      (authenticate_iff verify "bearerAuth" (with_holder r) r').0 h in
    (found.0, found.1, ap principal_from (found.2))
