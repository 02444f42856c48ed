-- ===== src/Forge/Laws/Renumbering.antt =====
-- renumberMigrations: every migration keeps its text and its place under its new number.
use go_api_scaffolding.Common.{
  ℕ, suc, ◌+◌, ◌^◌, ◌≤◌, ◌<◌, ◌≡◌, ◌≢◌, refl, sym, ap, ◌∙◌, Bool, true, false, Bytes, List, [], ◌∷◌,
  ◌++◌, ◌*◌, ◌-◌, ◌==◌, ◌&&◌, leb, if◌then◌else◌, Option, none, some, map, All, same, same_sound,
  same_refl, Bool-cases, inl, inr, arith,
}
use go_api_scaffolding.Errors.{ok}
use go_api_scaffolding.Config.{pos}
use go_api_scaffolding.Forge.Numbers.{cut, decimal, sprintf_05d}
use go_api_scaffolding.Forge.Migrations.{Entry}
use go_api_scaffolding.Forge.Renumber.{
  Directory, Outcome, moved, wanted, rename, renumber_file, renumber_from, sql_names,
  renumber_migrations,
}
use go_api_scaffolding.Forge.Laws.Versions.{decimal-sprintf}

-- A text that is read as a number has no underscore.
cut-decimal :
    (m n : ℕ) (s rest : Bytes) → decimal m s ≡ some n → cut b'_' (s ++ b'_' ∷ rest) ≡ some (s, rest)
unfolding cut decimal
cut-decimal m n [] rest h = at_separator (cut b'_' rest)
  where
    at_separator :
        (x : Option (Bytes × Bytes))
        → ◌≡◌ {A = Option (Bytes × Bytes)}
            (elim x as (λ x. Option (Bytes × Bytes)) [
              | none ↦ if b'_' == b'_' then some ([], rest) else none
              | some (front, more) ↦
                  if b'_' == b'_' then some ([], rest) else some (b'_' ∷ front, more)
            ])
            (some ([], rest))
    at_separator none = refl
    at_separator (some p) = refl
cut-decimal m n (c ∷ s) rest h = elim (Bool-cases (leb b'0' c && leb c b'9')) [
  | inl e ↦
      rw (cut-decimal (10 * m + (c - b'0')) n s rest (ground (arith, h, e))) (ground (arith, e))
  | inr e ↦ absurd (ground (arith, h, e))
]

abbrev pub IsNumber : ℕ → Type 0
IsNumber n = n < 2 ^ 63

cut-wanted :
    (n : ℕ) (rest : Bytes)
    → IsNumber n
    → cut b'_' (wanted n rest) ≡ some (sprintf_05d (pos n), rest)
cut-wanted n rest h = cut-decimal 0 n (sprintf_05d (pos n)) rest (decimal-sprintf n h)

-- The number that a name starts with.
abbrev front_number : Option (Bytes × Bytes) → Option ℕ
front_number none = none
front_number (some (front, rest)) = decimal 0 front

wanted-number :
    (n : ℕ) (rest : Bytes) → IsNumber n → front_number (cut b'_' (wanted n rest)) ≡ some n
wanted-number n rest h = ap front_number (cut-wanted n rest h) ∙ decimal-sprintf n h

-- Names with different numbers are different.
wanted-apart :
    (m n : ℕ) (s t : Bytes)
    → IsNumber m
    → IsNumber n
    → m ≢ n
    → same (wanted m s) (wanted n t) ≡ false
wanted-apart m n s t h k d = by_same (same (wanted m s) (wanted n t)) refl
  where
    some-injective : {a b : ℕ} → some a ≡ some b → a ≡ b
    some-injective e = cc

    by_same : (b : Bool) → same (wanted m s) (wanted n t) ≡ b → b ≡ false
    by_same false e = refl
    by_same true e = absurd (
        d (
          some-injective (
            sym (wanted-number m s h)
            ∙ ap (λ x. front_number (cut b'_' x)) (same_sound (wanted m s) (wanted n t) e)
            ∙ wanted-number n t k)))

-- Migrations in the order of their numbers, from a number on.
abbrev pub name_of : ℕ × Bytes → Bytes
name_of (version, rest) = wanted version rest

unfoldable pub Ascending : ℕ → List (ℕ × Bytes) → Type 0
Ascending low [] = Unit
Ascending low ((version, rest) ∷ ms) =
    (low ≤ version) × IsNumber version × Ascending (suc version) ms

-- Each text stands under its new number.
unfoldable pub Kept :
    ℕ → List (ℕ × Bytes) → (Bytes → Option Bytes) → (Bytes → Option Bytes) → Type 0
Kept number [] files after = Unit
Kept number ((version, rest) ∷ ms) files after =
    (after (wanted number rest) ≡ files (wanted version rest)) × Kept (suc number) ms files after

-- A name that is neither an old nor a new one.
unfoldable pub Free : ℕ → List (ℕ × Bytes) → Bytes → Type 0
Free number [] m = Unit
Free number ((version, rest) ∷ ms) m =
    (same (wanted number rest) m ≡ false)
    × (same (wanted version rest) m ≡ false)
    × Free (suc number) ms m

abbrev pub Exists : (Bytes → Option Bytes) → ℕ × Bytes → Type 0
Exists files m = (text : Bytes) × (files (name_of m) ≡ some text)

abbrev pub Renumbered : ℕ → List (ℕ × Bytes) → Directory → Outcome → Type 0
Renumbered number ms d out =
    (out.0 ≡ ok tt)
    × Kept number ms d.files out.1.files
    × ((m : Bytes) → Free number ms m → out.1.files m ≡ d.files m)

Free-wanted :
    (k number low : ℕ) (s : Bytes) (ms : List (ℕ × Bytes))
    → k < number
    → number ≤ low
    → Ascending low ms
    → Free number ms (wanted k s)
unfolding Free Ascending
Free-wanted k number low s [] h g a = tt
Free-wanted k number low s ((version, rest) ∷ ms) h g (b, c, a) = (
  wanted-apart number k rest s (omega (arith, g, b, c)) (omega (arith, h, g, b, c))
      (λ e. omega (arith, h, e)),
  wanted-apart version k rest s c (omega (arith, h, g, b, c)) (λ e. omega (arith, h, g, b, e)),
  Free-wanted k (suc number) (suc version) s ms (omega (arith, h)) (omega (arith, g, b)) a,
)

moved-other :
    (old new m : Bytes) (files : Bytes → Option Bytes)
    → same new m ≡ false
    → same old m ≡ false
    → moved old new files m ≡ files m
moved-other old new m files h k = rw (h, k) refl

-- The names of later migrations are not touched by the rename of an earlier one.
module _ (number version : ℕ) (rest : Bytes) (files : Bytes → Option Bytes) where
  abbrev renamed : Bytes → Option Bytes
  renamed = moved (wanted version rest) (wanted number rest) files

  renamed-later :
      (later : ℕ) (s : Bytes)
      → number < later
      → version < later
      → IsNumber later
      → renamed (wanted later s) ≡ files (wanted later s)
  renamed-later later s h k l =
      moved-other (wanted version rest) (wanted number rest) (wanted later s) files
        (wanted-apart number later rest s (omega (arith, h, l)) l (λ e. omega (arith, h, e)))
        (wanted-apart version later rest s (omega (arith, k, l)) l (λ e. omega (arith, k, e)))

  Kept-renamed :
      (to low : ℕ) (ms : List (ℕ × Bytes)) (after : Bytes → Option Bytes)
      → number < low
      → version < low
      → Ascending low ms
      → Kept to ms renamed after
      → Kept to ms files after
  unfolding Kept Ascending
  Kept-renamed to low [] after h k a l = tt
  Kept-renamed to low ((v, s) ∷ ms) after h k (b, c, a) (e, l) = (
    e ∙ renamed-later v s (omega (arith, h, b)) (omega (arith, k, b)) c,
    Kept-renamed (suc to) (suc v) ms after (omega (arith, h, b)) (omega (arith, k, b)) a l,
  )

  Exists-renamed :
      (low : ℕ) (ms : List (ℕ × Bytes))
      → number < low
      → version < low
      → Ascending low ms
      → All (Exists files) ms
      → All (Exists renamed) ms
  unfolding Ascending
  Exists-renamed low [] h k a l = tt
  Exists-renamed low ((v, s) ∷ ms) h k (b, c, a) ((text, e), l) = (
    (text, renamed-later v s (omega (arith, h, b)) (omega (arith, k, b)) c ∙ e),
    Exists-renamed (suc v) ms (omega (arith, h, b)) (omega (arith, k, b)) a l,
  )

rename-exists :
    (old new text : Bytes) (d : Directory)
    → d.refusals ≡ []
    → d.files old ≡ some text
    → rename old new d ≡ (ok tt, record d { files = moved old new d.files })
unfolding rename
rename-exists old new text d h e = rw (h, e) refl

-- A turn of the loop, before what the loop answers to the later names.
renumber_file-Renumbered :
    (number version : ℕ) (rest : Bytes) (ms : List (ℕ × Bytes)) (d : Directory)
    (loop : Directory → Outcome) (b : Bool)
    → same (wanted number rest) (wanted version rest) ≡ b
    → Ascending number ((version, rest) ∷ ms)
    → d.refusals ≡ []
    → All (Exists d.files) ((version, rest) ∷ ms)
    → ((d : Directory)
        → d.refusals ≡ []
        → All (Exists d.files) ms
        → Renumbered (suc number) ms d (loop d))
    → Renumbered number
        ((version, rest) ∷ ms)
        d
        (renumber_file number (wanted version rest) (some (sprintf_05d (pos version), rest)) loop d)
unfolding Ascending Kept Free
renumber_file-Renumbered number version rest ms d loop true e (l, v, a) h (x, xs) ih =
    let (done, kept, others) = ih d h xs in
    rw e (
      done,
      (
        others (wanted number rest) (
              Free-wanted number (suc number) (suc version) rest ms (omega arith) (omega (arith, l))
                a)
            ∙ ap d.files (same_sound (wanted number rest) (wanted version rest) e),
        kept,
      ),
      (λ m (p, q, f). others m f),
    )
renumber_file-Renumbered number version rest ms d loop false e (l, v, a) h ((text, x), xs) ih =
    let t : Directory = record d { files = renamed number version rest d.files } in
    let (done, kept, others) = ih t h (
      Exists-renamed number version rest d.files (suc version) ms (omega (arith, l)) (omega arith) a
        xs) in
    rw (e, rename-exists (wanted version rest) (wanted number rest) text d h x)
      (
        done,
        (
          others (wanted number rest) (
                Free-wanted number (suc number) (suc version) rest ms (omega arith)
                  (omega (arith, l)) a)
              ∙ rw (same_refl (wanted number rest)) refl,
          Kept-renamed number version rest d.files (suc number) (suc version) ms _
              (omega (arith, l)) (omega arith) a kept,
        ),
        (λ m (p, q, f).
            others m f ∙ moved-other (wanted version rest) (wanted number rest) m d.files p q),
      )

renumber_from-Renumbered :
    (number : ℕ) (ms : List (ℕ × Bytes)) (d : Directory)
    → Ascending number ms
    → d.refusals ≡ []
    → All (Exists d.files) ms
    → Renumbered number ms d (renumber_from number (map name_of ms) d)
unfolding renumber_from Ascending Kept Free
renumber_from-Renumbered number [] d a h x = (refl, tt, λ m f. refl)
renumber_from-Renumbered number ((version, rest) ∷ ms) d a h x = rw (cut-wanted version rest a.1) (
    renumber_file-Renumbered number version rest ms d (renumber_from (suc number) (map name_of ms))
      (same (wanted number rest) (wanted version rest)) refl a h x
      (λ d h x.
        renumber_from-Renumbered (suc number) ms d (ascending_on number version ms (a.0) (a.2)) h
          x))
  where
    ascending_on :
        (number version : ℕ) (ms : List (ℕ × Bytes))
        → number ≤ version
        → Ascending (suc version) ms
        → Ascending (suc number) ms
    ascending_on number version [] h a = tt
    ascending_on number version ((v, r) ∷ ms) h (b, c, a) = (omega (arith, h, b), c, a)

-- Over a migrations directory whose SQL files, in the order of their names, are named by numbers from 1
-- on that ascend (in the form of %05d, with an underscore behind), and whose renames are not refused:
-- renumberMigrations works, every migration is found with its text under its place in that order, counted
-- from 1, and every name that is neither an old nor a new one stands for what it stood for.
pub renumber_migrations-Renumbered :
    (es : List Entry) (ms : List (ℕ × Bytes)) (d : Directory)
    → sql_names es ≡ map name_of ms
    → Ascending 1 ms
    → d.refusals ≡ []
    → All (Exists d.files) ms
    → Renumbered 1 ms d (renumber_migrations (ok es) d)
unfolding renumber_migrations
renumber_migrations-Renumbered es ms d s a h x = rw s (renumber_from-Renumbered 1 ms d a h x)
