-- ===== src/Widgets/Service.antt =====
-- internal/modules/widget/service.go and Service.CreateIdempotent: authorization before the store.
use go_api_scaffolding.Common.{ℕ, Bytes, List, if◌then◌else◌}
use go_api_scaffolding.Errors.{forbidden, cause}
use go_api_scaffolding.Db.{Widget, M, fail}
use go_api_scaffolding.Auth.Principal.{Principal, has_permission, permission_write}
use go_api_scaffolding.Widgets.Input.{Input}
use go_api_scaffolding.Widgets.Store
use go_api_scaffolding.Widgets.Store.{IdempotencyClaim}

-- authorizeWrite, with what follows it
abbrev pub authorize_write {ℓ} : {A : Type ℓ} → Principal → M A → M A
authorize_write actor m =
    if has_permission actor permission_write then m else fail (cause forbidden)

unfoldable pub create : Principal → Input → M Widget
create actor i = authorize_write actor (Store.create i)

unfoldable pub get : Bytes → M Widget
get id = Store.get id

unfoldable pub list : ℕ → ℕ → M (List Widget × ℕ)
list limit offset = Store.list limit offset

unfoldable pub update : Principal → Bytes → Input → M Widget
update actor id i = authorize_write actor (Store.update id i)

unfoldable pub delete : Principal → Bytes → M (Unit {0})
delete actor id = authorize_write actor (Store.delete id)

unfoldable pub create_idempotent : Principal → Input → IdempotencyClaim → M Widget
create_idempotent actor i claim = authorize_write actor (Store.create_idempotent i claim)
