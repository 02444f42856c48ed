-- ===== src/Widgets/Input.antt =====
-- internal/modules/widget/widget.go and the conversions of handler.go; the types of
-- internal/gen/api that they use.
use go_api_scaffolding.Common.{ℕ, Bytes, codes, List, [], ◌∷◌, Option, none, some}
use go_api_scaffolding.Json.{Json, str, num, time, arr, obj, Items, nil, cons, end, member}
use go_api_scaffolding.Db.{Widget}

-- The data to create or replace a widget.
pub record Input : Type 0 where
  pub name : Bytes
  pub description : Bytes
  pub status : Bytes

-- api.WidgetInput; a pointer is an Option.
pub record WidgetInput : Type 0 where
  pub description : Option Bytes
  pub name : Bytes
  pub status : Option Bytes

-- api.Active
abbrev pub active : Bytes
active = codes "active"

abbrev pub or_default : Bytes → Option Bytes → Bytes
or_default d none = d
or_default d (some v) = v

unfoldable pub input_from_api : WidgetInput → Input
input_from_api i = record {
  name = i.name;
  description = or_default [] i.description;
  status = or_default active i.status;
}

-- json.Marshal of toAPIWidget: the members in the order of api.Widget's fields.
unfoldable pub to_api_widget : Widget → Json
to_api_widget w = obj (
    member "createdAt" (time w.created_at) (
      member "description" (str w.description) (
        member "id" (str w.id) (
          member "name" (str w.name)
            (member "status" (str w.status) (member "updatedAt" (time w.updated_at) end))))))

abbrev pub api_items : List Widget → Items
api_items [] = nil
api_items (w ∷ ws) = cons (to_api_widget w) (api_items ws)

-- api.WidgetList
unfoldable pub to_api_list : List Widget → ℕ → ℕ → ℕ → Json
to_api_list items limit offset total = obj (
    member "items" (arr (api_items items)) (
      member "pagination"
        (obj (
          member "limit" (num limit)
            (member "offset" (num offset) (member "total" (num total) end))))
        end))
