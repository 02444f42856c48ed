-- ===== src/Redact/Laws/Values.antt =====
-- What redactAttr leaves of an attribute.
use go_api_scaffolding.Common.{
  ℕ, zero, suc, ◌≡◌, refl, ◌⊎◌, inl, inr, false, Bool-cases, Bytes, arith,
}
use go_api_scaffolding.Redact.{
  Value, text, valuer, group, Attrs, nil, attr, redacted_value, is_sensitive, add_attr,
  is_empty_group, max_log_values, some_needs_redaction, redact_value, redact_group, redact_attr,
}

-- A value that may stand under a key in a log: hidden where the key is sensitive, resolved, and with
-- every attribute of a group hidden likewise.
unfoldable mutual
  pub IsHidden : Bytes → Value → Type 0
  IsHidden key (text s) = (is_sensitive key ≡ false) ⊎ (text s ≡ redacted_value)
  IsHidden key (valuer v) = ⊥
  IsHidden key (group attrs) = (is_sensitive key ≡ false) × AreHidden attrs

  pub AreHidden : Attrs → Type 0
  AreHidden nil = Unit
  AreHidden (attr key v rest) = IsHidden key v × AreHidden rest

redacted-IsHidden : (key : Bytes) → IsHidden key redacted_value
unfolding IsHidden
redacted-IsHidden key = inr refl

pub add_attr-AreHidden :
    (key : Bytes) (v : Value) (rest : Attrs)
    → IsHidden key v
    → AreHidden rest
    → AreHidden (add_attr key v rest)
unfolding AreHidden
add_attr-AreHidden key v rest h k = elim (Bool-cases (is_empty_group v)) [
  | inl e ↦ rw e k
  | inr e ↦ rw e (h, k)
]

mutual
  unfolding redact_value IsHidden

  redact_value-IsHidden :
      (n : ℕ) (key : Bytes) (v : Value) → is_sensitive key ≡ false → IsHidden key (redact_value n v)
  redact_value-IsHidden zero key v h = inl h
  redact_value-IsHidden (suc n) key (text s) h = inl h
  redact_value-IsHidden (suc n) key (valuer v) h = redact_value-IsHidden n key v h
  redact_value-IsHidden (suc n) key (group attrs) h = (h, redact_group-AreHidden attrs)

  redact_group-AreHidden : (attrs : Attrs) → AreHidden (redact_group attrs)
  redact_group-AreHidden nil = tt
  redact_group-AreHidden (attr key v rest) = elim (Bool-cases (is_sensitive key)) [
    | inl s ↦ rw s (
        add_attr-AreHidden key redacted_value (redact_group rest) (redacted-IsHidden key)
          (redact_group-AreHidden rest))
    | inr p ↦ rw p (
        add_attr-AreHidden key (redact_value max_log_values v) (redact_group rest)
          (redact_value-IsHidden max_log_values key v p) (redact_group-AreHidden rest))
  ]

-- Whatever the attribute, and however its value resolves, what redactAttr makes of it is hidden
-- under its key: no text stands under a sensitive key but the placeholder, at any depth.
pub redact_attr-IsHidden : (key : Bytes) (v : Value) → IsHidden key (redact_attr key v)
unfolding redact_attr
redact_attr-IsHidden key v = elim (Bool-cases (is_sensitive key)) [
  | inl s ↦ rw s (redacted-IsHidden key)
  | inr p ↦ rw p (redact_value-IsHidden max_log_values key v p)
]

-- No attribute is an empty group, and no LogValuer is left to resolve: what slog's own constructors
-- make of resolved values.
unfoldable pub HasNoEmpty : Attrs → Type 0
HasNoEmpty nil = Unit
HasNoEmpty (attr key (group attrs) rest) =
    (is_empty_group (group attrs) ≡ false) × HasNoEmpty attrs × HasNoEmpty rest
HasNoEmpty (attr key v rest) = HasNoEmpty rest

pub redact_group-unchanged :
    (attrs : Attrs)
    → HasNoEmpty attrs
    → some_needs_redaction attrs ≡ false
    → redact_group attrs ≡ attrs
unfolding redact_group some_needs_redaction HasNoEmpty
redact_group-unchanged nil e h = refl
redact_group-unchanged (attr key (text s) rest) e h =
    let ih = redact_group-unchanged rest e (ground arith) in ground arith
redact_group-unchanged (attr key (valuer v) rest) e h = ground arith
redact_group-unchanged (attr key (group attrs) rest) (e, inner, outer) h =
    let ih = redact_group-unchanged rest outer (ground arith) in
    let inside = redact_group-unchanged attrs inner (ground arith) in
    let open_key : is_sensitive key ≡ false = ground arith in rw (open_key, inside, ih, e)

pub some_needs_redaction-AreHidden :
    (attrs : Attrs) → some_needs_redaction attrs ≡ false → AreHidden attrs
unfolding AreHidden some_needs_redaction
some_needs_redaction-AreHidden nil h = tt
some_needs_redaction-AreHidden (attr key (text s) rest) h =
    (inl (ground arith), some_needs_redaction-AreHidden rest (ground arith))
some_needs_redaction-AreHidden (attr key (valuer v) rest) h = ground arith
some_needs_redaction-AreHidden (attr key (group attrs) rest) h = (
  (ground arith, some_needs_redaction-AreHidden attrs (ground arith)),
  some_needs_redaction-AreHidden rest (ground arith),
)
