-- ===== src/Redact.antt =====
-- internal/observability/redact.go: log attributes whose key looks sensitive are hidden.
pub mod Laws
use go_api_scaffolding.Common.{
  ℕ, zero, suc, Bool, true, false, not, ◌||◌, ◌&&◌, Bytes, String, codes, List, [], ◌∷◌, ◌++◌, any,
  contains, to_lower, if◌then◌else◌,
}

-- slog.Attr and slog.Value. A LogValuer is known by the value that its LogValue gives.
mutual
  pub data Value : Type 0 where
    text : Bytes → Value
    valuer : Value → Value
    group : Attrs → Value

  pub data Attrs : Type 0 where
    nil : Attrs
    attr : Bytes → Value → Attrs → Attrs

abbrev pub sensitive_keys : List String
sensitive_keys =
    "password" ∷ "passwd" ∷ "secret" ∷ "token" ∷ "authorization" ∷ "api_key" ∷ "apikey"
    ∷ "access_key" ∷ "cookie" ∷ "ssn" ∷ "credit_card" ∷ "card_number" ∷ "cvv" ∷ []

abbrev pub redacted_value : Value
redacted_value = text (codes "REDACTED")

unfoldable pub is_sensitive : Bytes → Bool
is_sensitive key = any (λ s. contains (to_lower key) (codes s)) sensitive_keys

abbrev pub is_empty_group : Value → Bool
is_empty_group (group nil) = true
is_empty_group _ = false

-- slog.GroupValue and Record.AddAttrs leave out empty groups.
abbrev pub add_attr : Bytes → Value → Attrs → Attrs
add_attr key v rest = if is_empty_group v then rest else attr key v rest

-- Value.Resolve calls LogValue at most a hundred times.
abbrev pub max_log_values : ℕ
max_log_values = 100

unfoldable mutual
  pub needs_redaction : Bytes → Value → Bool
  needs_redaction key (text s) = is_sensitive key
  needs_redaction key (valuer v) = true
  needs_redaction key (group attrs) = is_sensitive key || some_needs_redaction attrs

  pub some_needs_redaction : Attrs → Bool
  some_needs_redaction nil = false
  some_needs_redaction (attr key v rest) = needs_redaction key v || some_needs_redaction rest

-- redactAttr past the test of the key, and its loop over a group. The first argument is what is left
-- of Resolve's calls.
unfoldable mutual
  pub redact_value : ℕ → Value → Value
  redact_value zero v = text (codes "LogValue called too many times")
  redact_value (suc n) (text s) = text s
  redact_value (suc n) (valuer v) = redact_value n v
  redact_value (suc n) (group attrs) = group (redact_group attrs)

  pub redact_group : Attrs → Attrs
  redact_group nil = nil
  redact_group (attr key v rest) =
      add_attr key (if is_sensitive key then redacted_value else redact_value max_log_values v)
        (redact_group rest)

unfoldable pub redact_attr : Bytes → Value → Value
redact_attr key v = if is_sensitive key then redacted_value else redact_value max_log_values v

-- What the next handler was given before a record: the groups that were opened and the attributes.
pub data Call : Type 0 where
  with_attrs_call : Attrs → Call
  with_group_call : Bytes → Call

pub record RedactingHandler : Type 0 where
  pub next : List Call
  pub redact_all : Bool

unfoldable pub new_redacting_handler : RedactingHandler
new_redacting_handler = record { next = []; redact_all = false }

unfoldable pub redact : RedactingHandler → Bytes → Value → Value
redact h key v = if h.redact_all then redacted_value else redact_attr key v

abbrev pub map_attrs : (Bytes → Value → Value) → Attrs → Attrs
map_attrs f nil = nil
map_attrs f (attr key v rest) = attr key (f key v) (map_attrs f rest)

abbrev pub add_attrs : (Bytes → Value → Value) → Attrs → Attrs
add_attrs f nil = nil
add_attrs f (attr key v rest) = add_attr key (f key v) (add_attrs f rest)

-- Handle: the attributes of the record that the next handler gets.
unfoldable pub handle : RedactingHandler → Attrs → Attrs
unfolding some_needs_redaction
handle h attrs =
    if not h.redact_all && not (some_needs_redaction attrs)
    then attrs
    else add_attrs (redact h) attrs

unfoldable pub with_attrs : RedactingHandler → Attrs → RedactingHandler
with_attrs h attrs = record h { next = h.next ++ with_attrs_call (map_attrs (redact h) attrs) ∷ [] }

unfoldable pub with_group : RedactingHandler → Bytes → RedactingHandler
with_group h name = record {
  next = h.next ++ with_group_call name ∷ [];
  redact_all = h.redact_all || is_sensitive name;
}
