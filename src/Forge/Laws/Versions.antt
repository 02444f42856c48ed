-- ===== src/Forge/Laws/Versions.antt =====
-- nextMigrationVersion: its number, against the numbers that are there.
use go_api_scaffolding.Common.{
  ℕ, zero, suc, ◌+◌, ◌-◌, ◌*◌, ◌/◌, ◌%◌, ◌^◌, ◌≤◌, ◌<◌, ◌≡◌, refl, sym, ap, subst, ◌∙◌, true, false,
  Bytes, List, [], ◌∷◌, Option, none, some, length, any, All, arith, Bool-cases, ◌⊎◌, inl, inr, ltb,
}
use native.Mathlib.Nat.{pow-suc}
use go_api_scaffolding.Errors.{Result, ok, err}
use go_api_scaffolding.Config.{ℤ, pos, negsuc}
use go_api_scaffolding.Forge.Numbers.{decimal, digits, zeros, sprintf_05d}
use go_api_scaffolding.Forge.Migrations.{Entry}
use go_api_scaffolding.Forge.Versions.{
  number, same_int, duplicate, successor, higher, next_number, next_from, next_migration_version,
}

decimal-digit :
    (m d : ℕ) (text : Bytes) → d < 10 → decimal m ((b'0' + d) ∷ text) ≡ decimal (10 * m + d) text
unfolding decimal
decimal-digit m d text h = ground (arith, ap (λ z. decimal z text) (shifted m d))
  where
    shifted : (m d : ℕ) → 10 * m + (b'0' + d - b'0') ≡ 10 * m + d
    shifted m d = omega arith

tenth : (n k : ℕ) → n < k * 10 → n / 10 < k
tenth n k h = omega arith

decimal-digits :
    (fuel n : ℕ) (text : Bytes) → n < 10 ^ fuel → decimal 0 (digits fuel n text) ≡ decimal n text
unfolding decimal digits
decimal-digits zero n text h = rw (zero_of n h) refl
  where
    zero_of : (n : ℕ) → n < 1 → n ≡ 0
    zero_of n h = omega arith
decimal-digits (suc fuel) n text h = elim (Bool-cases (ltb n 10)) [
  | inl e ↦ rw (e) (decimal-digit 0 n text (ground arith) ∙ ap (λ z. decimal z text) (omega arith))
  | inr e ↦ rw (e) (
      decimal-digits fuel (n / 10) ((b'0' + n % 10) ∷ text)
        (tenth n (10 ^ fuel) (subst (λ z. n < z) (pow-suc 10 fuel) h))
      ∙ decimal-digit (n / 10) (n % 10) text (omega arith)
      ∙ ap (λ z. decimal z text) (omega arith))
]

decimal-zeros : (k : ℕ) (text : Bytes) → decimal 0 (zeros k text) ≡ decimal 0 text
unfolding decimal zeros
decimal-zeros zero text = refl
decimal-zeros (suc k) text = decimal-zeros k text

-- The printed number is read back.
pub decimal-sprintf : (n : ℕ) → n < 2 ^ 63 → decimal 0 (sprintf_05d (pos n)) ≡ some n
unfolding sprintf_05d decimal
decimal-sprintf n h =
    let text = digits 20 n [] in
    decimal-zeros (5 - length text) text ∙ decimal-digits 20 n [] (omega (arith, h))

-- The numbers of the files, in their order.
abbrev cons_number : Option ℤ → List ℤ → List ℤ
cons_number none ns = ns
cons_number (some n) ns = n ∷ ns

unfoldable pub numbers : List Entry → List ℤ
numbers [] = []
numbers (e ∷ es) = cons_number (number e.name) (numbers es)

abbrev pub Absent : ℤ → List ℤ → Type 0
Absent n ns = any (same_int n) ns ≡ false

unfoldable pub AreDistinct : List ℤ → Type 0
AreDistinct [] = Unit
AreDistinct (n ∷ ns) = Absent n ns × AreDistinct ns

-- A number below 2 ^ 63 - 1, and one below a bound.
abbrev pub IsBelow : ℕ → ℤ → Type 0
IsBelow m (pos n) = n < m
IsBelow m (negsuc n) = Unit

same_int-sym : (a b : ℤ) → same_int a b ≡ same_int b a
same_int-sym (pos a) (pos b) = ground arith
same_int-sym (pos a) (negsuc b) = refl
same_int-sym (negsuc a) (pos b) = refl
same_int-sym (negsuc a) (negsuc b) = ground arith

-- A new number keeps the ones found so far absent from a list that it is put before, and back.
Absent-cons :
    (n : ℤ) (vs ns : List ℤ)
    → Absent n vs
    → All (λ v. Absent v ns) vs
    → All (λ v. Absent v (n ∷ ns)) vs
Absent-cons n [] ns h k = tt
Absent-cons n (v ∷ vs) ns h k =
    (ground (arith, same_int-sym n v, k.0), Absent-cons n vs ns (ground arith) k.1)

Absent-uncons :
    (n : ℤ) (vs ns : List ℤ)
    → All (λ v. Absent v (n ∷ ns)) vs
    → Absent n vs × All (λ v. Absent v ns) vs
Absent-uncons n [] ns k = (refl, tt)
Absent-uncons n (v ∷ vs) ns k =
    let (a, b) = Absent-uncons n vs ns k.1 in
    (ground (arith, same_int-sym n v, k.0), (ground (arith, k.0), b))

higher-ge : (h : ℕ) (n : ℤ) → (h ≤ higher h n) × IsBelow (suc (higher h n)) n
higher-ge h (pos n) = (ground arith, ground arith)
higher-ge h (negsuc n) = (ground arith, tt)

abbrev pub top : ℕ
top = 2 ^ 63 - 1

-- What the loop answers.
abbrev Numbered : List ℤ → List ℤ → ℕ → Result Bytes → Type 0
Numbered versions ns highest r =
    (All (λ v. Absent v ns) versions
      × AreDistinct ns
      × ((m : ℕ) × (v : Bytes) × (r ≡ ok v)
          × (decimal 0 v ≡ some m)
          × (highest < m)
          × All (IsBelow m) ns))
    ⊎ ((r ≡ err duplicate) × ((All (λ v. Absent v ns) versions × AreDistinct ns) → ⊥))

Absent-nil : (vs : List ℤ) → All (λ v. Absent v []) vs
Absent-nil [] = tt
Absent-nil (v ∷ vs) = (refl, Absent-nil vs)

weaken : (m : ℕ) (n : ℤ) (h k : ℕ) → IsBelow (suc h) n → h ≤ k → k < m → IsBelow m n
weaken m (pos n) h k a b c = omega arith
weaken m (negsuc n) h k a b c = tt

higher-below : (h : ℕ) (n : ℤ) → h < top → IsBelow top n → higher h n < top
higher-below h (pos n) a b = ground arith
higher-below h (negsuc n) a b = a

-- A number that is new, put before what the loop answers to the other files.
with_number :
    (n : ℤ) (versions ns : List ℤ) (highest : ℕ) (r : Result Bytes)
    → Absent n versions
    → Numbered (n ∷ versions) ns (higher highest n) r
    → Numbered versions (n ∷ ns) highest r
unfolding AreDistinct
with_number n versions ns highest r f (inl (a, d, (m, v, e, x, b, c))) =
    let (ge, below) = higher-ge highest n in
    inl (
      Absent-cons n versions ns f a.1,
      (a.0, d),
      (
        m,
        v,
        e,
        x,
        omega (arith, ge, b),
        (weaken m n (higher highest n) (higher highest n) below (omega arith) b, c),
      ),
    )
with_number n versions ns highest r f (inr (e, refute)) =
    inr (e, λ (a, d). refute ((d.0, (Absent-uncons n versions ns a).1), d.1))

next_number-Numbered :
    (x : Option ℤ) (versions ns : List ℤ) (highest : ℕ) (k : List ℤ → ℕ → Result Bytes)
    → highest < top
    → All (IsBelow top) (cons_number x ns)
    → ((vs : List ℤ) (h : ℕ) → h < top → All (IsBelow top) ns → Numbered vs ns h (k vs h))
    → Numbered versions (cons_number x ns) highest (next_number x versions highest k)
unfolding AreDistinct
next_number-Numbered none versions ns highest k h b ih = ih versions highest h b
next_number-Numbered (some n) versions ns highest k h b ih =
    elim (Bool-cases (any (same_int n) versions)) [
      | inl t ↦
          rw t (inr (refl, λ (a, d). true_or_false (sym t ∙ (Absent-uncons n versions ns a).0)))
      | inr f ↦ rw f (
          with_number n versions ns highest _ f
            (ih (n ∷ versions) (higher highest n) (higher-below highest n h b.0) b.1))
    ]
  where
    true_or_false : true ≡ false → ⊥
    true_or_false e = cc

next_from-Numbered :
    (es : List Entry) (versions : List ℤ) (highest : ℕ)
    → highest < top
    → All (IsBelow top) (numbers es)
    → Numbered versions (numbers es) highest (next_from es versions highest)
unfolding next_from numbers AreDistinct
next_from-Numbered [] versions highest h k = inl (
  Absent-nil versions,
  tt,
  (
    suc highest,
    sprintf_05d (pos (suc highest)),
    in_range highest h,
    decimal-sprintf (suc highest) (omega (arith, h)),
    omega arith,
    tt,
  ),
)
  where
    in_range : (n : ℕ) → n < top → ok (sprintf_05d (successor n)) ≡ ok (sprintf_05d (pos (suc n)))
    in_range n h = ground arith
next_from-Numbered (e ∷ es) versions highest h k =
    next_number-Numbered (number e.name) versions (numbers es) highest (next_from es) h k
      (next_from-Numbered es)

-- Over a migrations directory whose numbers are below 2 ^ 63 - 1: if the numbers are pairwise
-- different, the next version is returned, it is read back as a number m, and every number that is
-- there is below m; and if two numbers are the same, the error of a duplicate is returned.
pub next_migration_version-Numbered :
    (es : List Entry)
    → All (IsBelow top) (numbers es)
    → (AreDistinct (numbers es)
        × ((m : ℕ) × (v : Bytes) × (next_migration_version (ok es) ≡ ok v)
            × (decimal 0 v ≡ some m)
            × All (IsBelow m) (numbers es)))
      ⊎ ((next_migration_version (ok es) ≡ err duplicate) × (AreDistinct (numbers es) → ⊥))
unfolding next_migration_version
next_migration_version-Numbered es k = elim (next_from-Numbered es [] 0 (omega arith) k) [
  | inl (a, d, (m, v, e, x, b, c)) ↦ inl (d, (m, v, e, x, c))
  | inr (e, refute) ↦ inr (e, λ d. refute (tt, d))
]
