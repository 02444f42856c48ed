-- ===== src/Forge/Laws/Identity.antt =====
-- composeProjectName gives a name that Compose accepts; a lineReader loses nothing.
use go_api_scaffolding.Common.{
  ℕ, zero, suc, ◌+◌, ◌/◌, ◌%◌, ◌≤◌, ◌<◌, ◌≡◌, refl, ap, inl, inr, Bool, true, false, ◌||◌, Bytes,
  [], ◌∷◌, ◌++◌, All, length, take, to_lower, length-append, length-take-le, Bool-cases, ltb, ◌==◌,
  if◌then◌else◌, arith,
}
use go_api_scaffolding.Forge.Identity.{
  is_slug, is_edge, is_small, is_figure, slug_from, trim_front, trim_back, cons_unless_edge, figure,
  hex, or_app, shortened, project_name, compose_project_name, read_line,
}

abbrev pub AreSlugs : Bytes → Type 0
AreSlugs s = All (λ c. is_slug c ≡ true) s

-- A text that is empty or does not start with a dash or an underscore.
abbrev Starts : Bytes → Type 0
Starts [] = Unit
Starts (c ∷ s) = is_edge c ≡ false

slug_from-AreSlugs : (inside : Bool) (s : Bytes) → AreSlugs (slug_from inside s)
unfolding slug_from
slug_from-AreSlugs inside [] = tt
slug_from-AreSlugs inside (c ∷ s) = elim (Bool-cases (is_slug c)) [
  | inl e ↦ rw e (e, slug_from-AreSlugs false s)
  | inr e ↦ rw e (dashed (slug_from true s) inside (slug_from-AreSlugs true s))
]
  where
    dashed : (t : Bytes) (b : Bool) → AreSlugs t → AreSlugs (if b then t else b'-' ∷ t)
    dashed t true a = a
    dashed t false a = (refl, a)

trim_front-Starts : (s : Bytes) → AreSlugs s → AreSlugs (trim_front s) × Starts (trim_front s)
unfolding trim_front
trim_front-Starts [] a = (tt, tt)
trim_front-Starts (c ∷ s) (x, a) = elim (Bool-cases (is_edge c)) [
  | inl e ↦ rw e (trim_front-Starts s a)
  | inr e ↦ rw e ((x, a), e)
]

cons_unless_edge-AreSlugs :
    (c : ℕ) (s : Bytes) → is_slug c ≡ true → AreSlugs s → AreSlugs (cons_unless_edge c s)
cons_unless_edge-AreSlugs c [] x a = elim (Bool-cases (is_edge c)) [
  | inl e ↦ rw e tt
  | inr e ↦ rw e (x, tt)
]
cons_unless_edge-AreSlugs c (d ∷ s) x a = (x, a)

cons_unless_edge-Starts : (c : ℕ) (s : Bytes) → is_edge c ≡ false → Starts (cons_unless_edge c s)
cons_unless_edge-Starts c [] x = rw x x
cons_unless_edge-Starts c (d ∷ s) x = x

cons_unless_edge-length : (c : ℕ) (s : Bytes) → length (cons_unless_edge c s) ≤ suc (length s)
cons_unless_edge-length c [] = elim (Bool-cases (is_edge c)) [
  | inl e ↦ rw e (omega arith)
  | inr e ↦ rw e (omega arith)
]
cons_unless_edge-length c (d ∷ s) = omega arith

trim_back-AreSlugs : (s : Bytes) → AreSlugs s → AreSlugs (trim_back s)
unfolding trim_back
trim_back-AreSlugs [] a = tt
trim_back-AreSlugs (c ∷ s) (x, a) =
    cons_unless_edge-AreSlugs c (trim_back s) x (trim_back-AreSlugs s a)

trim_back-Starts : (s : Bytes) → Starts s → Starts (trim_back s)
unfolding trim_back
trim_back-Starts [] x = tt
trim_back-Starts (c ∷ s) x = cons_unless_edge-Starts c (trim_back s) x

trim_back-length : (s : Bytes) → length (trim_back s) ≤ length s
unfolding trim_back
trim_back-length [] = omega arith
trim_back-length (c ∷ s) =
    omega (arith, cons_unless_edge-length c (trim_back s), trim_back-length s)

take-AreSlugs : (n : ℕ) (s : Bytes) → AreSlugs s → AreSlugs (take n s)
take-AreSlugs zero s a = tt
take-AreSlugs (suc n) [] a = tt
take-AreSlugs (suc n) (c ∷ s) (x, a) = (x, take-AreSlugs n s a)

take-Starts : (n : ℕ) (s : Bytes) → Starts s → Starts (take n s)
take-Starts zero s x = tt
take-Starts (suc n) [] x = tt
take-Starts (suc n) (c ∷ s) x = x

abbrev IsShort : Bytes → Type 0
IsShort s = AreSlugs s × Starts s × (length s ≤ 24)

shortened-IsShort : (s : Bytes) → AreSlugs s → Starts s → IsShort (shortened s)
shortened-IsShort s a x = elim (Bool-cases (ltb 24 (length s))) [
  | inl e ↦ rw e (
    trim_back-AreSlugs (take 24 s) (take-AreSlugs 24 s a),
    trim_back-Starts (take 24 s) (take-Starts 24 s x),
    omega (arith, trim_back-length (take 24 s), length-take-le 24 s),
  )
  | inr e ↦ rw e (a, x, ground (arith, e))
]

figure-is_slug : (n : ℕ) → n < 16 → is_slug (figure n) ≡ true
figure-is_slug n h = ground arith

hex-AreSlugs : (s : Bytes) → AreSlugs (hex s) × (length (hex s) ≡ length s + length s)
unfolding hex
hex-AreSlugs [] = (tt, refl)
hex-AreSlugs (c ∷ s) =
    let (a, l) = hex-AreSlugs s in
    (
      (figure-is_slug (c / 16 % 16) (omega arith), (figure-is_slug (c % 16) (omega arith), a)),
      omega (arith, l),
    )

AreSlugs-append : (s t : Bytes) → AreSlugs s → AreSlugs t → AreSlugs (s ++ t)
AreSlugs-append [] t a b = b
AreSlugs-append (c ∷ s) t (x, a) b = (x, AreSlugs-append s t a b)

-- The names that Compose accepts: of small letters, figures, dashes and underscores, and with a
-- letter or a figure in front.
abbrev pub IsComposeName : Bytes → Type 0
IsComposeName [] = ⊥
IsComposeName (c ∷ s) = ((is_small c || is_figure c) ≡ true) × AreSlugs s

named :
    (s t : Bytes)
    → IsShort s
    → AreSlugs t
    → IsComposeName (or_app s ++ t) × (length (or_app s ++ t) ≤ 24 + length t)
named [] t h b = ((refl, (refl, (refl, b))), omega arith)
named (c ∷ s) t ((x, a), e, l) b =
    ((ground (arith, x, e), AreSlugs-append s t a b), omega (arith, l, length-append s t))

-- Whatever the module path and the digest are, the name of the Compose project is one that Compose
-- accepts, and at most 37 bytes long.
pub compose_project_name-IsComposeName :
    (sum256 : Bytes → Bytes) (path : Bytes)
    → IsComposeName (compose_project_name sum256 path)
      × (length (compose_project_name sum256 path) ≤ 37)
unfolding compose_project_name
compose_project_name-IsComposeName sum256 path =
    let slug = slug_from false (to_lower (project_name path)) in
    let digest = take 6 (sum256 path) in
    let (a, x) = trim_front-Starts slug (slug_from-AreSlugs false (to_lower (project_name path))) in
    let (b, l) = hex-AreSlugs digest in
    let (c, k) =
      named (shortened (trim_back (trim_front slug))) (b'-' ∷ hex digest)
        (shortened-IsShort (trim_back (trim_front slug)) (trim_back-AreSlugs (trim_front slug) a)
          (trim_back-Starts (trim_front slug) x))
        (refl, b) in
    (c, omega (arith, k, l, length-take-le 6 (sum256 path)))

-- What is read and what is left make up the input, and no more is read than was asked for.
pub read_line-append :
    (n : ℕ) (input : Bytes)
    → let (read, ended, rest) = read_line n input in (read ++ rest ≡ input) × (length read ≤ n)
unfolding read_line
read_line-append zero input = (refl, omega arith)
read_line-append (suc n) [] = (refl, omega arith)
read_line-append (suc n) (c ∷ input) = elim (Bool-cases (c == 10)) [
  | inl e ↦ rw e (refl, omega arith)
  | inr e ↦ let (h, l) = read_line-append n input in rw e (ap (λ z. c ∷ z) h, omega (arith, l))
]
