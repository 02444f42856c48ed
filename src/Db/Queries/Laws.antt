-- ===== src/Db/Queries/Laws.antt =====
-- What an UPDATE and a DELETE do to a table, for properties of its rows.
use go_api_scaffolding.Common.{
  ℕ, zero, suc, ◌≡◌, refl, ap, ◌≤◌, ◌+◌, Bool, true, false, Bool-cases, inl, inr, List, [], ◌∷◌,
  length, keep, All, arith,
}
use Prim.Native.Nat.{min}
use go_api_scaffolding.Db.Queries.{update_where, rows_left, drop_where}

module _ {A : Type 0} where
  pub All-update_where :
      (P Q : A → Type 0) (p : A → Bool) (f : A → A) (xs : List A)
      → ((x : A) → P x → p x ≡ true → Q (f x))
      → ((x : A) → P x → p x ≡ false → Q x)
      → All P xs
      → All Q (update_where p f xs)
  All-update_where P Q p f [] change same_rows h = tt
  All-update_where P Q p f (x ∷ xs) change same_rows (h, hs) = elim (Bool-cases (p x)) [
    | inl hit ↦ rw hit (change x h hit, All-update_where P Q p f xs change same_rows hs)
    | inr miss ↦ rw miss (same_rows x h miss, All-update_where P Q p f xs change same_rows hs)
  ]

  pub length-update_where :
      (p : A → Bool) (f : A → A) (xs : List A) → length (update_where p f xs) ≡ length xs
  length-update_where p f [] = refl
  length-update_where p f (x ∷ xs) = omega (arith, length-update_where p f xs)

  pub All-map_weaken :
      (P Q : A → Type 0) (xs : List A) → ((x : A) → P x → Q x) → All P xs → All Q xs
  All-map_weaken P Q [] f h = tt
  All-map_weaken P Q (x ∷ xs) f (h, hs) = (f x h, All-map_weaken P Q xs f hs)

  pub All-drop_where :
      (P : A → Type 0) (n : ℕ) (p : A → Bool) (xs : List A) → All P xs → All P (drop_where n p xs)
  All-drop_where P zero p [] h = tt
  All-drop_where P (suc n) p [] h = tt
  All-drop_where P zero p (x ∷ xs) h = h
  All-drop_where P (suc n) p (x ∷ xs) (h, hs) = elim (Bool-cases (p x)) [
    | inl hit ↦ rw hit (All-drop_where P n p xs hs)
    | inr miss ↦ rw miss (h, All-drop_where P (suc n) p xs hs)
  ]

  pub length-drop_where :
      (n : ℕ) (p : A → Bool) (xs : List A)
      → length (drop_where n p xs) + min n (length (keep p xs)) ≡ length xs
  length-drop_where zero p [] = omega arith
  length-drop_where (suc n) p [] = omega arith
  length-drop_where zero p (x ∷ xs) = omega arith
  length-drop_where (suc n) p (x ∷ xs) = elim (Bool-cases (p x)) [
    | inl hit ↦ rw hit (omega (arith, length-drop_where n p xs))
    | inr miss ↦ rw miss (omega (arith, length-drop_where (suc n) p xs))
  ]

  pub none_kept : (p : A → Bool) (xs : List A) → length (keep p xs) ≤ 0 → All (λ x. p x ≡ false) xs
  none_kept p [] h = tt
  none_kept p (x ∷ xs) h = elim (Bool-cases (p x)) [
    | inl hit ↦ absurd (omega (arith, rw hit at h))
    | inr miss ↦ (miss, none_kept p xs (ground arith))
  ]

  -- With room for all of them, no row that passes is left.
  pub drop_where-All :
      (n : ℕ) (p : A → Bool) (xs : List A)
      → length (keep p xs) ≤ n
      → All (λ x. p x ≡ false) (drop_where n p xs)
  drop_where-All zero p [] h = tt
  drop_where-All (suc n) p [] h = tt
  drop_where-All zero p (x ∷ xs) h = none_kept p (x ∷ xs) h
  drop_where-All (suc n) p (x ∷ xs) h = elim (Bool-cases (p x)) [
    | inl hit ↦ rw hit (drop_where-All n p xs (ground arith))
    | inr miss ↦ rw miss (miss, drop_where-All (suc n) p xs (ground arith))
  ]

  -- The rows that do not pass stay, in their order.
  pub keep-drop_where :
      (n : ℕ) (p : A → Bool) (xs : List A) → rows_left p (drop_where n p xs) ≡ rows_left p xs
  keep-drop_where zero p [] = refl
  keep-drop_where (suc n) p [] = refl
  keep-drop_where zero p (x ∷ xs) = refl
  keep-drop_where (suc n) p (x ∷ xs) = elim (Bool-cases (p x)) [
    | inl hit ↦ rw hit (keep-drop_where n p xs)
    | inr miss ↦ rw (miss, miss) (ap (λ ys. x ∷ ys) (keep-drop_where (suc n) p xs))
  ]
