-- ===== src/Auth/Laws/Policy.antt =====
-- HasPermission against the policy that it states.
use go_api_scaffolding.Common.{
  ◌≡◌, refl, ◌↔◌, ◌⊎◌, inl, inr, Bool, true, ◌||◌, Bool-cases, Bytes, same, same_iff, List, any,
  any_iff, Among, subst, arith,
}
use go_api_scaffolding.Auth.Principal.{Principal, has_permission, role_permissions}

any-same_iff : (t : Bytes) (xs : List Bytes) → (any (λ s. same s t) xs ≡ true) ↔ Among t xs
any-same_iff t xs = (
  λ h. let (x, m, e) = (any_iff _ xs).0 h in subst (λ y. Among y xs) ((same_iff x t).0 e) m,
  λ m. (any_iff _ xs).1 (t, m, (same_iff t t).1 refl),
)

-- Whoever may do something holds it as a scope, or holds a role that grants it.
abbrev pub Granted : Principal → Bytes → Type 0
Granted p permission =
    Among permission p.scopes
    ⊎ ((role : Bytes) × Among role p.roles × Among permission (role_permissions role))

-- A principal has a permission exactly when the permission is one of its scopes, or one of its
-- roles grants it.
pub has_permission_iff :
    (p : Principal) (permission : Bytes)
    → (has_permission p permission ≡ true) ↔ Granted p permission
unfolding has_permission
has_permission_iff p permission = (to, from)
  where
    by_role : Bytes → Bool
    by_role role = any (λ granted. same granted permission) (role_permissions role)

    to :
        (any (λ s. same s permission) p.scopes || any by_role p.roles) ≡ true → Granted p permission
    to h = elim (Bool-cases (any (λ s. same s permission) p.scopes)) [
      | inl scope ↦ inl ((any-same_iff permission p.scopes).0 scope)
      | inr none_such ↦
          let (role, m, g) = (any_iff by_role p.roles).0 (ground arith) in
          inr (role, m, (any-same_iff permission (role_permissions role)).0 g)
    ]

    from :
        Granted p permission → (any (λ s. same s permission) p.scopes || any by_role p.roles) ≡ true
    from (inl m) = let h = (any-same_iff permission p.scopes).1 m in ground arith
    from (inr (role, m, g)) =
        let h =
          (any_iff by_role p.roles).1
            (role, m, (any-same_iff permission (role_permissions role)).1 g) in
        ground arith
