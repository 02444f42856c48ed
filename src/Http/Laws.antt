-- ===== src/Http/Laws.antt =====
-- Headers after Header.Set and Header.Add.
use mathlib.Core.List.{append-nil}
use text.Mathlib.Text.{◌==◌}
use text.Mathlib.TextEquality.{eq_iff}
use text.Mathlib.TextPositions.{eq_refl}
use go_api_scaffolding.Common.{
  ◌≡◌, refl, ap, ◌∙◌, false, not, Bytes, String, List, [], ◌∷◌, ◌++◌, keep, arith,
}
use go_api_scaffolding.Http.{Writer, values, set_header, add_header}

values-append :
    (k : String) (hs js : List (String × Bytes)) → values k (hs ++ js) ≡ values k hs ++ values k js
values-append k [] js = refl
values-append k ((j, v) ∷ hs) js = ground (arith, values-append k hs js)

values-unset :
    (k : String) (hs : List (String × Bytes))
    → values k (keep (λ (h : String × Bytes). not (h.0 == k)) hs) ≡ []
values-unset k [] = refl
values-unset k ((j, v) ∷ hs) = ground (arith, values-unset k hs)

values-unset_ne :
    (j k : String) (hs : List (String × Bytes))
    → (j == k) ≡ false
    → values k (keep (λ (h : String × Bytes). not (h.0 == j)) hs) ≡ values k hs
values-unset_ne j k [] ne = refl
values-unset_ne j k ((i, v) ∷ hs) ne =
    ground (arith, values-unset_ne j k hs ne, eq_iff i j, eq_iff i k, eq_iff j k)

-- After Set a header has the value that was set, and no other header has changed.
pub values-set_header :
    (k : String) (v : Bytes) (w : Writer) → values k (set_header k v w).headers ≡ v ∷ []
values-set_header k v w =
    values-append k _ ((k, v) ∷ [])
    ∙ ap (λ (vs : List Bytes). vs ++ values k ((k, v) ∷ [])) (values-unset k w.headers)
    ∙ rw (eq_refl k)

pub values-set_header_ne :
    (j k : String) (v : Bytes) (w : Writer)
    → (j == k) ≡ false
    → values k (set_header j v w).headers ≡ values k w.headers
values-set_header_ne j k v w ne = ground (
  arith,
  values-append k (keep (λ (h : String × Bytes). not (h.0 == j)) w.headers) ((j, v) ∷ []),
  values-unset_ne j k w.headers ne,
  append-nil (values k w.headers),
)

pub values-add_header_ne :
    (j k : String) (v : Bytes) (w : Writer)
    → (j == k) ≡ false
    → values k (add_header j v w).headers ≡ values k w.headers
values-add_header_ne j k v w ne =
    ground (arith, values-append k w.headers ((j, v) ∷ []), append-nil (values k w.headers))

pub values-add_header :
    (k : String) (v : Bytes) (w : Writer)
    → values k (add_header k v w).headers ≡ values k w.headers ++ v ∷ []
values-add_header k v w = ground (arith, values-append k w.headers ((k, v) ∷ []), eq_refl k)
