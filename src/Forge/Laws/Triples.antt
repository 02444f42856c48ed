-- ===== src/Forge/Laws/Triples.antt =====
-- What an act of the publication does to the files and to the recovery directory, by its end.
use go_api_scaffolding.Common.{
  ◌≡◌, refl, if◌then◌else◌, Bool, true, false, Bytes, List, [], ◌∷◌, Option,
}
use go_api_scaffolding.Errors.{ok, err, panic}
use go_api_scaffolding.Forge.Changes.{Files}
use go_api_scaffolding.Forge.Publication.{
  Journal, Project, Outcome, Act, Left, untouched, done, partly, Answer, works, fails, dies,
  done_or, answered, call, check, next, ◌⨾◌,
}

abbrev pub Pred : Type 1
Pred = Files → Option Journal → Type 0

-- One predicate at a normal end, and one at an error and at the end of the process.
abbrev pub Post : Pred → Pred → Outcome → Type 0
Post Q E (ok u, p) = Q p.files p.journal
Post Q E (err e, p) = E p.files p.journal
Post Q E (panic, p) = E p.files p.journal

abbrev pub Triple : Pred → Act → Pred → Pred → Type 0
Triple P a Q E = (p : Project) → P p.files p.journal → Post Q E (a p)

pub Post-weaken :
    (Q E Q' E' : Pred) (o : Outcome)
    → ((f : Files) (j : Option Journal) → Q f j → Q' f j)
    → ((f : Files) (j : Option Journal) → E f j → E' f j)
    → Post Q E o
    → Post Q' E' o
Post-weaken Q E Q' E' (ok u, p) h k x = h p.files p.journal x
Post-weaken Q E Q' E' (err e, p) h k x = k p.files p.journal x
Post-weaken Q E Q' E' (panic, p) h k x = k p.files p.journal x

pub next-Post :
    (Q R E : Pred) (b : Act) (o : Outcome) → Post Q E o → Triple Q b R E → Post R E (next b o)
next-Post Q R E b (ok u, p) x t = t p x
next-Post Q R E b (err e, p) x t = x
next-Post Q R E b (panic, p) x t = x

pub seq : (P Q R E : Pred) (a b : Act) → Triple P a Q E → Triple Q b R E → Triple P (a ⨾ b) R E
seq P Q R E a b s t p x = next-Post Q R E b (a p) (s p x) t

-- A call that works has done all of its work; one that does not has done some of it.
pub call-Triple :
    (P Q E : Pred) (f : Project → Project) (g : Bytes → Project → Project)
    → ((p : Project) → P p.files p.journal → Q (f p).files (f p).journal)
    → ((p : Project) → P p.files p.journal → E p.files p.journal)
    → ((p : Project) → P p.files p.journal → E (f p).files (f p).journal)
    → ((s : Bytes) (p : Project) → P p.files p.journal → E (g s p).files (g s p).journal)
    → Triple P (call f g) Q E
unfolding call
call-Triple P Q E f g h u d s p x = by_answer p.answers
  where
    left :
        (l : Left) (p : Project)
        → P p.files p.journal
        → E (done_or l f g p).files (done_or l f g p).journal
    left untouched p x = u p x
    left done p x = d p x
    left (partly b) p x = s b p x

    by_answer :
        (rest : List Answer)
        → Post Q E (elim rest [
          | [] ↦ (ok tt, f p)
          | a ∷ answers ↦ answered a f g (record p { answers = answers })
        ])
    by_answer [] = h p x
    by_answer (works ∷ rest) = h (record p { answers = rest }) x
    by_answer (fails l ∷ rest) = left l (record p { answers = rest }) x
    by_answer (dies l ∷ rest) = left l (record p { answers = rest }) x

pub check-Triple :
    (P E : Pred) → ((f : Files) (j : Option Journal) → P f j → E f j) → Triple P check P E
check-Triple P E h =
    call-Triple P P E (λ p. p) (λ s p. p) (λ p x. x) (λ p x. h p.files p.journal x)
      (λ p x. h p.files p.journal x) (λ s p x. h p.files p.journal x)

pub if-Post :
    (Q E : Pred) (b : Bool) (x y : Act) (p : Project)
    → (b ≡ true → Post Q E (x p))
    → (b ≡ false → Post Q E (y p))
    → Post Q E ((if b then x else y) p)
if-Post Q E true x y p h k = h refl
if-Post Q E false x y p h k = k refl
