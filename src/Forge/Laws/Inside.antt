-- ===== src/Forge/Laws/Inside.antt =====
-- The files that a publication touches, and the ones that it does not.
use go_api_scaffolding.Common.{
  ◌≡◌, sym, subst, ◌∙◌, ◌⊎◌, inl, inr, Bool, true, false, ◌||◌, Bytes, List, [], ◌∷◌, Option, none,
  any, same, same_sound, Bool-cases, arith,
}
use go_api_scaffolding.Forge.Changes.{File, Files, put}
use go_api_scaffolding.Forge.Publication.{Entries, names, listed}
use go_api_scaffolding.Forge.Laws.Loops.{Written, Gone, listed-apart, put-other}
use go_api_scaffolding.Forge.Laws.Validating.{Facts}
use go_api_scaffolding.Forge.Laws.Saving.{Outside}

ext : {f g : Files} → ((q : Bytes) → f q ≡ g q) → f ≡ g
ext h = λ i q. h q i

-- What is put at an original or a new name stays inside.
pub Outside-put :
    (orig : Files) (before after : Entries) (n : Bytes) (x : Option File) (f : Files)
    → (listed n (names before) ≡ true) ⊎ (listed n (names after) ≡ true)
    → Outside orig before after f
    → Outside orig before after (put n x f)
Outside-put orig before after n x f (inl h) o q a b =
    put-other n q x f (listed-apart q n (names before) a h) ∙ o q a b
Outside-put orig before after n x f (inr h) o q a b =
    put-other n q x f (listed-apart q n (names after) b h) ∙ o q a b

pub Written-put :
    (n : Bytes) (x : Option File) (es : Entries) (f : Files)
    → listed n (names es) ≡ false
    → Written es f
    → Written es (put n x f)
Written-put n x [] f h w = tt
Written-put n x (e ∷ es) f h w = (
  put-other n (e.0) x f (front (same n (e.0)) (any (same n) (names es)) h) ∙ w.0,
  Written-put n x es f (back (same n (e.0)) (any (same n) (names es)) h) w.1,
)
  where
    front : (a b : Bool) → (a || b) ≡ false → a ≡ false
    front a b h = ground arith

    back : (a b : Bool) → (a || b) ≡ false → b ≡ false
    back a b h = ground arith

Written-at :
    (es : Entries) (f g : Files) (q : Bytes)
    → Written es f
    → Written es g
    → listed q (names es) ≡ true
    → f q ≡ g q
Written-at [] f g q w v h = cc
Written-at (e ∷ es) f g q w v h = elim (Bool-cases (same q (e.0))) [
  | inl a ↦ subst (λ z. f z ≡ g z) (sym (same_sound q (e.0) a)) (w.0 ∙ sym v.0)
  | inr a ↦ Written-at es f g q w.1 v.1 (other (same q (e.0)) (any (same q) (names es)) a h)
]
  where
    other : (a b : Bool) → a ≡ false → (a || b) ≡ true → b ≡ true
    other a b h k = ground arith

Gone-at :
    (kept ns : List Bytes) (f : Files) (q : Bytes)
    → Gone kept ns f
    → listed q ns ≡ true
    → listed q kept ≡ false
    → f q ≡ none
Gone-at kept [] f q g h k = cc
Gone-at kept (n ∷ ns) f q g h k = elim (Bool-cases (same q n)) [
  | inl a ↦ here a g.0
  | inr a ↦ Gone-at kept ns f q g.1 (other (same q n) (any (same q) ns) a h) k
]
  where
    other : (a b : Bool) → a ≡ false → (a || b) ≡ true → b ≡ true
    other a b h k = ground arith

    true_or_false : true ≡ false → ⊥
    true_or_false e = cc

    here : same q n ≡ true → (listed n kept ≡ true) ⊎ (f n ≡ none) → f q ≡ none
    here a (inl t) =
        absurd (true_or_false (sym t ∙ subst (λ z. listed z kept ≡ false) (same_sound q n a) k))
    here a (inr e) = subst (λ z. f z ≡ none) (sym (same_sound q n a)) e

-- All that was touched is as it was: then everything is.
pub all_restored :
    (orig : Files) (before after : Entries) (f : Files)
    → Facts before after orig
    → Outside orig before after f
    → Written before f
    → Gone (names before) (names after) f
    → f ≡ orig
all_restored orig before after f (w, g) o v d = ext (λ q.
    elim (Bool-cases (listed q (names before))) [
      | inl a ↦ Written-at before f orig q v w a
      | inr a ↦ elim (Bool-cases (listed q (names after))) [
        | inl b ↦
            Gone-at (names before) (names after) f q d b a
            ∙ sym (Gone-at (names before) (names after) orig q g b a)
        | inr b ↦ o q a b
      ]
    ])
