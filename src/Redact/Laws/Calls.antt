-- ===== src/Redact/Laws/Calls.antt =====
-- No attribute with a sensitive key, and none under one, reaches the next handler.
use go_api_scaffolding.Common.{
  ◌≡◌, refl, Bool, true, false, not, ◌||◌, ◌&&◌, Bytes, List, [], ◌∷◌, ◌++◌, ap, subst, sym, ◌∙◌,
  if◌then◌else◌,
}
use go_api_scaffolding.Redact.{
  Attrs, nil, attr, redacted_value, is_sensitive, some_needs_redaction, add_attr, max_log_values,
  redact_value, redact_group, redact_attr, Call, with_attrs_call, with_group_call, RedactingHandler,
  new_redacting_handler, redact, map_attrs, add_attrs, handle, with_attrs, with_group,
}
use go_api_scaffolding.Redact.Laws.Values.{
  AreHidden, redact_attr-IsHidden, add_attr-AreHidden, some_needs_redaction-AreHidden, HasNoEmpty,
  redact_group-unchanged,
}

-- Every value is the placeholder.
unfoldable pub AreAllRedacted : Attrs → Type 0
AreAllRedacted nil = Unit
AreAllRedacted (attr key v rest) = (v ≡ redacted_value) × AreAllRedacted rest

-- What may reach the next handler under groups of which one has a sensitive name, or none has.
abbrev pub Hides : Bool → Attrs → Type 0
Hides true attrs = AreAllRedacted attrs
Hides false attrs = AreHidden attrs

unfoldable pub AreSafe : Bool → List Call → Type 0
AreSafe under [] = Unit
AreSafe under (with_attrs_call attrs ∷ cs) = Hides under attrs × AreSafe under cs
AreSafe under (with_group_call name ∷ cs) = AreSafe (under || is_sensitive name) cs

-- Whether one of the groups opened has a sensitive name.
unfoldable pub opened : Bool → List Call → Bool
opened under [] = under
opened under (with_attrs_call attrs ∷ cs) = opened under cs
opened under (with_group_call name ∷ cs) = opened (under || is_sensitive name) cs

AreSafe-attrs :
    (under : Bool) (cs : List Call) (attrs : Attrs)
    → AreSafe under cs
    → Hides (opened under cs) attrs
    → AreSafe under (cs ++ with_attrs_call attrs ∷ [])
unfolding AreSafe opened
AreSafe-attrs under [] attrs s h = (h, tt)
AreSafe-attrs under (with_attrs_call given ∷ cs) attrs (k, s) h =
    (k, AreSafe-attrs under cs attrs s h)
AreSafe-attrs under (with_group_call n ∷ cs) attrs s h =
    AreSafe-attrs (under || is_sensitive n) cs attrs s h

AreSafe-group :
    (under : Bool) (cs : List Call) (name : Bytes)
    → AreSafe under cs
    → AreSafe under (cs ++ with_group_call name ∷ [])
unfolding AreSafe
AreSafe-group under [] name s = tt
AreSafe-group under (with_attrs_call given ∷ cs) name (k, s) = (k, AreSafe-group under cs name s)
AreSafe-group under (with_group_call n ∷ cs) name s =
    AreSafe-group (under || is_sensitive n) cs name s

opened-attrs :
    (under : Bool) (cs : List Call) (attrs : Attrs)
    → opened under (cs ++ with_attrs_call attrs ∷ []) ≡ opened under cs
unfolding opened
opened-attrs under [] attrs = refl
opened-attrs under (with_attrs_call given ∷ cs) attrs = opened-attrs under cs attrs
opened-attrs under (with_group_call n ∷ cs) attrs = opened-attrs (under || is_sensitive n) cs attrs

opened-group :
    (under : Bool) (cs : List Call) (name : Bytes)
    → opened under (cs ++ with_group_call name ∷ []) ≡ (opened under cs || is_sensitive name)
unfolding opened
opened-group under [] name = refl
opened-group under (with_attrs_call given ∷ cs) name = opened-group under cs name
opened-group under (with_group_call n ∷ cs) name = opened-group (under || is_sensitive n) cs name

map_attrs-Hides :
    (h : RedactingHandler) (b : Bool) (attrs : Attrs)
    → h.redact_all ≡ b
    → Hides b (map_attrs (redact h) attrs)
unfolding redact AreHidden AreAllRedacted
map_attrs-Hides h true nil e = tt
map_attrs-Hides h true (attr key v rest) e = (rw e, map_attrs-Hides h true rest e)
map_attrs-Hides h false nil e = tt
map_attrs-Hides h false (attr key v rest) e =
    (rw e (redact_attr-IsHidden key v), map_attrs-Hides h false rest e)

add_attrs-Hides :
    (h : RedactingHandler) (b : Bool) (attrs : Attrs)
    → h.redact_all ≡ b
    → Hides b (add_attrs (redact h) attrs)
unfolding redact AreHidden AreAllRedacted
add_attrs-Hides h true nil e = tt
add_attrs-Hides h true (attr key v rest) e = rw e (refl, add_attrs-Hides h true rest e)
add_attrs-Hides h false nil e = tt
add_attrs-Hides h false (attr key v rest) e = rw e (
    add_attr-AreHidden key (redact_attr key v) (add_attrs (redact h) rest)
      (redact_attr-IsHidden key v) (add_attrs-Hides h false rest e))

chosen-Hides :
    (b dirty : Bool) (attrs redacted : Attrs)
    → (dirty ≡ false → AreHidden attrs)
    → Hides b redacted
    → Hides b (if not b && not dirty then attrs else redacted)
chosen-Hides true dirty attrs redacted clean h = h
chosen-Hides false true attrs redacted clean h = h
chosen-Hides false false attrs redacted clean h = clean refl

handle-Hides : (h : RedactingHandler) (attrs : Attrs) → Hides h.redact_all (handle h attrs)
unfolding handle
handle-Hides h attrs =
    chosen-Hides h.redact_all (some_needs_redaction attrs) attrs (add_attrs (redact h) attrs)
      (some_needs_redaction-AreHidden attrs) (add_attrs-Hides h h.redact_all attrs refl)

-- Without a group that hides everything, the loop of Handle is that of a group.
add_attrs-redact_group :
    (h : RedactingHandler) (attrs : Attrs)
    → h.redact_all ≡ false
    → add_attrs (redact h) attrs ≡ redact_group attrs
unfolding redact redact_attr redact_group
add_attrs-redact_group h nil e = refl
add_attrs-redact_group h (attr key v rest) e = rw e (
    ap (add_attr key (if is_sensitive key then redacted_value else redact_value max_log_values v))
      (add_attrs-redact_group h rest e))

-- The shortcut of Handle loses nothing: on a record none of whose groups is empty, at any depth, Handle
-- passes on what it makes by redacting every attribute, also where it finds that none needs redaction
-- and passes the record on as it is.
pub handle-add_attrs :
    (h : RedactingHandler) (attrs : Attrs)
    → HasNoEmpty attrs
    → handle h attrs ≡ add_attrs (redact h) attrs
unfolding handle
handle-add_attrs h attrs e = by_tests h.redact_all (some_needs_redaction attrs) refl refl
  where
    by_tests :
        (b dirty : Bool)
        → h.redact_all ≡ b
        → some_needs_redaction attrs ≡ dirty
        → (if not b && not dirty then attrs else add_attrs (redact h) attrs)
          ≡ add_attrs (redact h) attrs
    by_tests true dirty p q = refl
    by_tests false true p q = refl
    by_tests false false p q =
        sym (add_attrs-redact_group h attrs p ∙ redact_group-unchanged attrs e q)

-- A handler after calls of WithAttrs and WithGroup.
unfoldable pub derive : RedactingHandler → List Call → RedactingHandler
derive h [] = h
derive h (with_attrs_call attrs ∷ cs) = derive (with_attrs h attrs) cs
derive h (with_group_call name ∷ cs) = derive (with_group h name) cs

pub record IsSound (h : RedactingHandler) : Type 0 where
  pub safe : AreSafe false h.next
  pub flag : h.redact_all ≡ opened false h.next

derive-IsSound : (cs : List Call) (h : RedactingHandler) → IsSound h → IsSound (derive h cs)
unfolding derive with_attrs with_group
derive-IsSound [] h s = s
derive-IsSound (with_attrs_call attrs ∷ cs) h s = derive-IsSound cs (with_attrs h attrs) (record {
  safe =
      AreSafe-attrs false h.next (map_attrs (redact h) attrs) s.safe
        (map_attrs-Hides h (opened false h.next) attrs s.flag);
  flag = s.flag ∙ sym (opened-attrs false h.next (map_attrs (redact h) attrs));
})
derive-IsSound (with_group_call name ∷ cs) h s = derive-IsSound cs (with_group h name) (record {
  safe = AreSafe-group false h.next name s.safe;
  flag = ap (λ b. b || is_sensitive name) s.flag ∙ sym (opened-group false h.next name);
})

-- Whatever loggers are derived by WithAttrs and WithGroup, and whatever record is then logged, all
-- that the next handler gets is safe: under a group with a sensitive name every value is the
-- placeholder, and elsewhere every attribute is hidden at any depth.
pub handle-AreSafe :
    (cs : List Call) (attrs : Attrs)
    → AreSafe false (
        (derive new_redacting_handler cs).next
        ++ with_attrs_call (handle (derive new_redacting_handler cs) attrs) ∷ [])
unfolding new_redacting_handler AreSafe opened
handle-AreSafe cs attrs =
    let h = derive new_redacting_handler cs in
    let s = derive-IsSound cs new_redacting_handler (record { safe = tt; flag = refl }) in
    AreSafe-attrs false h.next (handle h attrs) s.safe
      (subst (λ b. Hides b (handle h attrs)) s.flag (handle-Hides h attrs))
