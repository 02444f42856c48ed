-- ===== src/Json.antt =====
-- The JSON documents that the service stores and sends, as trees. The printing of a tree to bytes
-- is the package encoding/json's and is not modelled: one tree stands for one printed document.
use text.Mathlib.Text.{◌==◌}
use go_api_scaffolding.Common.{ℕ, String, Bytes, [], Option, none, some, if◌then◌else◌}

mutual
  pub data Json : Type 0 where
    str : Bytes → Json
    num : ℕ → Json
    time : ℕ → Json
    arr : Items → Json
    obj : Members → Json

  pub data Items : Type 0 where
    nil : Items
    cons : Json → Items → Items

  pub data Members : Type 0 where
    end : Members
    member : String → Json → Members → Members

-- The member of that name that json.Unmarshal takes: the last one.
abbrev last_member : String → Members → Option Json
last_member k end = none
last_member k (member j v ms) = elim (last_member k ms) [
  | some w ↦ some w
  | none ↦ if j == k then some v else none
]

abbrev text_of : Option Json → Bytes
text_of (some (str s)) = s
text_of _ = []

-- A string member of an object, "" where there is none.
abbrev pub string_member : String → Json → Bytes
string_member k (obj ms) = text_of (last_member k ms)
string_member k _ = []
