-- ===== src/Server/Laws/Cors.antt =====
-- The CORS policy fails closed.
use go_api_scaffolding.Common.{
  ◌≡◌, ◌≢◌, refl, ◌⊎◌, inl, inr, ◌↔◌, Bool, true, false, Bool-cases, Bytes, List, [], ◌∷◌, any,
  any_iff, same, same_iff, Among, arith, subst, ◌∙◌,
}
use go_api_scaffolding.Http.{Writer, values}
use go_api_scaffolding.Http.Laws.{values-set_header, values-set_header_ne, values-add_header_ne}
use go_api_scaffolding.Server.Cors.{cors_headers, is_allowed, grant}

-- The origins that the policy permits: those listed, or any one where the list is empty and the
-- environment is development.
abbrev pub Permitted : List Bytes → Bool → Bytes → Type 0
Permitted allowed reflect_any origin =
    Among origin allowed ⊎ ((reflect_any ≡ true) × (allowed ≡ []))

is_allowed_iff :
    (allowed : List Bytes) (reflect_any : Bool) (origin : Bytes)
    → (is_allowed allowed reflect_any origin ≡ true) ↔ Permitted allowed reflect_any origin
is_allowed_iff allowed reflect_any origin = (to, from)
  where
    to : is_allowed allowed reflect_any origin ≡ true → Permitted allowed reflect_any origin
    to h = elim (Bool-cases (any (λ o. same o origin) allowed)) [
      | inl listed ↦
          let (o, m, e) = (any_iff _ allowed).0 listed in
          inl (subst (λ x. Among x allowed) ((same_iff o origin).0 e) m)
      | inr unlisted ↦ inr (empty allowed h unlisted)
    ]
      where
        empty :
            (os : List Bytes)
            → is_allowed os reflect_any origin ≡ true
            → any (λ o. same o origin) os ≡ false
            → (reflect_any ≡ true) × (os ≡ [])
        empty [] h n = ground arith
        empty (o ∷ os) h n = ground arith

    from : Permitted allowed reflect_any origin → is_allowed allowed reflect_any origin ≡ true
    from (inl m) =
        let h =
          (any_iff (λ o. same o origin) allowed).1 (origin, m, (same_iff origin origin).1 refl) in
        ground arith
    from (inr (r, e)) = rw e (ground arith)

grant_origin :
    (preflight : Bool) (origin : Bytes) (w : Writer)
    → values "Access-Control-Allow-Origin" (grant preflight origin w).headers ≡ origin ∷ []
grant_origin true origin w = rw (
  values-set_header_ne "Access-Control-Max-Age" "Access-Control-Allow-Origin" _ _ refl,
  values-set_header_ne "Access-Control-Allow-Headers" "Access-Control-Allow-Origin" _ _ refl,
  values-set_header_ne "Access-Control-Allow-Methods" "Access-Control-Allow-Origin" _ _ refl,
  values-set_header "Access-Control-Allow-Origin" origin w,
)
grant_origin false origin w = rw (
  values-set_header_ne "Access-Control-Expose-Headers" "Access-Control-Allow-Origin" _ _ refl,
  values-set_header "Access-Control-Allow-Origin" origin w,
)

-- The Access-Control-Allow-Origin of a response that had none, after CORS: the request's origin,
-- which the policy permits, or nothing, where the policy does not permit the origin. With an empty
-- list outside development no origin is ever permitted.
pub cors_headers_lem :
    (allowed : List Bytes) (reflect_any preflight : Bool) (origin : Bytes) (w : Writer)
    → values "Access-Control-Allow-Origin" w.headers ≡ []
    → origin ≢ []
    → (Permitted allowed reflect_any origin
        × (values "Access-Control-Allow-Origin"
              (cors_headers allowed reflect_any preflight origin w).headers
            ≡ origin ∷ []))
      ⊎ ((¬ Permitted allowed reflect_any origin)
          × (values "Access-Control-Allow-Origin"
                (cors_headers allowed reflect_any preflight origin w).headers
              ≡ []))
cors_headers_lem allowed reflect_any preflight [] w none_yet h = absurd (h refl)
cors_headers_lem allowed reflect_any preflight (c ∷ o) w none_yet h =
    elim (Bool-cases (is_allowed allowed reflect_any (c ∷ o))) [
      | inl good ↦ inl (
        (is_allowed_iff allowed reflect_any (c ∷ o)).0 good,
        rw good (grant_origin preflight (c ∷ o) _),
      )
      | inr bad ↦ inr (
        λ p.
            true_ne_false (is_allowed allowed reflect_any (c ∷ o))
              ((is_allowed_iff allowed reflect_any (c ∷ o)).1 p) bad,
        rw bad (values-add_header_ne "Vary" "Access-Control-Allow-Origin" _ w refl ∙ none_yet),
      )
    ]
  where
    true_ne_false : (b : Bool) → b ≡ true → b ≡ false → ⊥
    true_ne_false b e f = cc
