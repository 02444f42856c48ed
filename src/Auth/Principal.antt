-- ===== src/Auth/Principal.antt =====
-- internal/auth/principal.go: the authenticated caller and the built-in policy.
use go_api_scaffolding.Common.{Bool, ◌||◌, Bytes, codes, same, List, [], ◌∷◌, any, if◌then◌else◌}

pub record Principal : Type 0 where
  pub subject : Bytes
  pub roles : List Bytes
  pub scopes : List Bytes

-- The zero Principal, of a request that was not authenticated.
abbrev pub anonymous : Principal
anonymous = record { subject = []; roles = []; scopes = [] }

abbrev pub permission_write : Bytes
permission_write = codes "widgets:write"

-- rolePermissions, as the lookup of a role
unfoldable pub role_permissions : Bytes → List Bytes
role_permissions role =
    if same role (codes "admin")
    then permission_write ∷ []
    else if same role (codes "editor")
    then permission_write ∷ []
    else []

unfoldable pub has_permission : Principal → Bytes → Bool
has_permission p permission =
    any (λ s. same s permission) p.scopes
    || any (λ role. any (λ granted. same granted permission) (role_permissions role)) p.roles
