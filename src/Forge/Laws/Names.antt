-- ===== src/Forge/Laws/Names.antt =====
-- splitWords: its words, and the words of the snake case name that they make.
use go_api_scaffolding.Common.{
  ℕ, ◌≡◌, ◌≢◌, refl, sym, ap, ◌∙◌, Bool, true, false, not, ◌||◌, Bytes, List, [], ◌∷◌, ◌++◌, map,
  All, Bool-cases, ◌⊎◌, inl, inr, arith,
}
use mathlib.Core.List.{append-nil, append_assoc}
use go_api_scaffolding.Forge.Names.{
  Unicode, is_part, next_lower, flush, split_from, starts_letter, split_words, join_words,
}

-- What lower case does to a rune that may stand in a word.
pub record IsCased (u : Unicode) (r : ℕ) : Type 0 where
  pub no_upper : u.is_upper (u.to_lower r) ≡ false
  pub part : (u.is_upper r || is_part u r) ≡ true → is_part u (u.to_lower r) ≡ true
  pub idempotent : u.to_lower (u.to_lower r) ≡ u.to_lower r

-- A rune of a word that is in lower case.
abbrev pub IsLow : Unicode → ℕ → Type 0
IsLow u r = (u.is_upper r ≡ false) × (is_part u r ≡ true) × (u.to_lower r ≡ r)

abbrev pub IsWord : Unicode → Bytes → Type 0
IsWord u w = (w ≢ []) × All (IsLow u) w

abbrev Held : Unicode → ℕ → Type 0
Held u r = IsCased u r × ((u.is_upper r || is_part u r) ≡ true)

All-snoc : (P : ℕ → Type 0) (cur : Bytes) (r : ℕ) → All P cur → P r → All P (cur ++ r ∷ [])
All-snoc P [] r h k = (k, tt)
All-snoc P (c ∷ cur) r h k = (h.0, All-snoc P cur r h.1 k)

lowered : (u : Unicode) (cur : Bytes) → All (Held u) cur → All (IsLow u) (map u.to_lower cur)
lowered u [] h = tt
lowered u (r ∷ cur) h = ((h.0.0.no_upper, h.0.0.part h.0.1, h.0.0.idempotent), lowered u cur h.1)

cons_nonempty : (r : ℕ) (w : Bytes) → r ∷ w ≢ []
cons_nonempty r w e = cc

flush-words :
    (u : Unicode) (cur : Bytes) (words : List Bytes)
    → All (Held u) cur
    → All (IsWord u) words
    → All (IsWord u) (flush u cur words)
flush-words u [] words h k = k
flush-words u (r ∷ cur) words h k =
    ((cons_nonempty (u.to_lower r) (map u.to_lower cur), lowered u (r ∷ cur) h), k)

split_from-words :
    (u : Unicode) (prev : Bool) (cur s : Bytes)
    → All (Held u) cur
    → All (IsCased u) s
    → All (IsWord u) (split_from u prev cur s)
unfolding split_from
split_from-words u prev cur [] h k = flush-words u cur [] h tt
split_from-words u prev cur (r ∷ s) h k = elim (Bool-cases (u.is_upper r)) [
  | inl e ↦ elim (Bool-cases (not prev || next_lower u s)) [
    | inl f ↦
        rw (e, f)
          (flush-words u cur _ h (
            split_from-words u true (r ∷ []) s
              ((k.0, either (u.is_upper r) (is_part u r) (inl e)), tt) k.1))
    | inr f ↦
        rw (e, f)
          (split_from-words u true (cur ++ r ∷ []) s
            (All-snoc (Held u) cur r h (k.0, either (u.is_upper r) (is_part u r) (inl e))) k.1)
  ]
  | inr e ↦ elim (Bool-cases (is_part u r)) [
    | inl f ↦
        rw (e, f)
          (split_from-words u false (cur ++ r ∷ []) s
            (All-snoc (Held u) cur r h (k.0, either (u.is_upper r) (is_part u r) (inr f))) k.1)
    | inr f ↦ rw (e, f) (flush-words u cur _ h (split_from-words u false [] s tt k.1))
  ]
]
  where
    either : (a b : Bool) → (a ≡ true) ⊎ (b ≡ true) → (a || b) ≡ true
    either a b h = ground arith

-- A word in lower case is read as it stands.
reads_word :
    (u : Unicode) (cur w rest : Bytes)
    → All (IsLow u) w
    → split_from u false cur (w ++ rest) ≡ split_from u false (cur ++ w) rest
unfolding split_from
reads_word u cur [] rest h = ap (λ z. split_from u false z rest) (sym (append-nil cur))
reads_word u cur (r ∷ w) rest h =
    rw (h.0.0, h.0.1)
      (reads_word u (cur ++ r ∷ []) w rest h.1
        ∙ ap (λ z. split_from u false z rest) (append_assoc cur (r ∷ []) w))

map-low : (u : Unicode) (w : Bytes) → All (IsLow u) w → map u.to_lower w ≡ w
map-low u [] h = refl
map-low u (r ∷ w) h = rw (h.0.2) (ap (λ z. r ∷ z) (map-low u w h.1))

flush-word :
    (u : Unicode) (w : Bytes) (words : List Bytes) → IsWord u w → flush u w words ≡ w ∷ words
flush-word u [] words h = absurd (h.0 refl)
flush-word u (r ∷ w) words h = ap (λ z. z ∷ words) (map-low u (r ∷ w) h.1)

-- An underscore separates words.
abbrev pub IsSeparator : Unicode → ℕ → Type 0
IsSeparator u r = (u.is_upper r ≡ false) × (is_part u r ≡ false)

split_from-join :
    (u : Unicode) (words : List Bytes)
    → IsSeparator u b'_'
    → All (IsWord u) words
    → split_from u false [] (join_words words) ≡ words
unfolding split_from join_words
split_from-join u [] h k = refl
split_from-join u (w ∷ []) h k =
    ap (split_from u false []) (sym (append-nil w))
    ∙ reads_word u [] w [] k.0.1
    ∙ flush-word u w [] k.0
split_from-join u (w ∷ v ∷ words) h k =
    reads_word u [] w (b'_' ∷ join_words (v ∷ words)) k.0.1
    ∙ rw (h.0, h.1) (flush-word u w _ k.0 ∙ ap (λ z. w ∷ z) (split_from-join u (v ∷ words) h k.1))

-- For a name whose every rune, in lower case, is no capital, stays as it is in lower case, and stays a
-- letter or a digit if the rune is a capital, a letter or a digit; and with classes in which the
-- underscore is no capital, letter or digit: the words of the name are not empty, and consist of letters
-- and digits in lower case; joined by underscores and split again they are the same words, so the snake
-- case of a name names the same resource.
pub split_words-join_words :
    (u : Unicode) (s : Bytes)
    → All (IsCased u) s
    → IsSeparator u b'_'
    → All (IsWord u) (split_words u s)
      × (split_words u (join_words (split_words u s)) ≡ split_words u s)
unfolding split_words join_words split_from
split_words-join_words u s h k = elim (Bool-cases (starts_letter u (split_from u false [] s))) [
  | inl e ↦
      let words = split_from-words u false [] s tt h in
      rw e (words, rw (split_from-join u (split_from u false [] s) k words, e) refl)
  | inr e ↦ rw e (tt, refl)
]
