-- ===== src/Forge/Laws/Saving.antt =====
-- saveProjectRecovery and activateProjectRecovery, which touch no file of the project.
use go_api_scaffolding.Common.{
  ◌≡◌, refl, sym, subst, ◌⊎◌, Bool, true, false, ◌&&◌, Bytes, codes, List, [], ◌∷◌, ◌++◌, Option,
  none, some, arith,
}
use go_api_scaffolding.Errors.{Error, rejected, ok, err, panic}
use go_api_scaffolding.Forge.Paths.{validate_recovery_path}
use go_api_scaffolding.Forge.Changes.{Files}
use go_api_scaffolding.Forge.Publication.{
  Entries, Journal, Project, Outcome, call, check, ◌⨾◌, stop, names, listed, persist_files,
  check_names, valid_names, saved, and_clean, persist_backup, staged, joined_error,
  save_project_recovery, journal_names,
}
use go_api_scaffolding.Forge.Laws.Triples.{
  Pred, Post, Triple, Post-weaken, next-Post, seq, call-Triple, check-Triple, if-Post,
}
use go_api_scaffolding.Forge.Laws.Loops.{And, checked}
use go_api_scaffolding.Forge.Laws.Validating.{AsWas}

module _ (orig : Files) (X : Option Journal → Type 0) where
  pub persist-Triple :
      (es : Entries)
      → Triple
          (AsWas orig X)
          (persist_files es)
          (And (AsWas orig X) (λ f. valid_names (names es) ≡ true))
          (AsWas orig X)
  unfolding persist_files valid_names
  persist-Triple [] = λ p g. (g, refl)
  persist-Triple (e ∷ es) = λ p g.
      if-Post R B (validate_recovery_path (e.0)) (check ⨾ persist_files es) (stop (rejected (e.0)))
        p
        (λ v.
          seq B B R B check (persist_files es) (checked B)
            (λ q h.
              Post-weaken (And B (λ f. valid_names (names es) ≡ true)) B R B _
                (λ f j (b, w). (b, and_true v w)) (λ f j b. b) (persist-Triple es q h))
            p g)
        (λ v. g)
    where
      B : Pred
      B = AsWas orig X

      R : Pred
      R = And B (λ f. valid_names (names (e ∷ es)) ≡ true)

      and_true : {a b : Bool} → a ≡ true → b ≡ true → (a && b) ≡ true
      and_true h k = ground arith

  pub check_names-Triple :
      (ns : List Bytes)
      → Triple
          (AsWas orig X)
          (check_names ns)
          (And (AsWas orig X) (λ f. valid_names ns ≡ true))
          (AsWas orig X)
  unfolding check_names valid_names
  check_names-Triple [] = λ p g. (g, refl)
  check_names-Triple (n ∷ ns) = λ p g.
      if-Post R B (validate_recovery_path n) (check_names ns) (stop (rejected n)) p
        (λ v.
          Post-weaken (And B (λ f. valid_names ns ≡ true)) B R B _ (λ f j (b, w). (b, and_true v w))
            (λ f j b. b) (check_names-Triple ns p g))
        (λ v. g)
    where
      B : Pred
      B = AsWas orig X

      R : Pred
      R = And B (λ f. valid_names (n ∷ ns) ≡ true)

      and_true : {a b : Bool} → a ≡ true → b ≡ true → (a && b) ≡ true
      and_true h k = ground arith

and_valid :
    (a b : List Bytes) → valid_names a ≡ true → valid_names b ≡ true → valid_names (a ++ b) ≡ true
unfolding valid_names
and_valid [] b h k = k
and_valid (n ∷ a) b h k =
    both (validate_recovery_path n) (valid_names a) (valid_names (a ++ b)) h
      (and_valid a b (back (validate_recovery_path n) (valid_names a) h) k)
  where
    back : (x y : Bool) → (x && y) ≡ true → y ≡ true
    back x y h = ground arith

    both : (x y z : Bool) → (x && y) ≡ true → z ≡ true → (x && z) ≡ true
    both x y z h k = ground arith

-- The recovery directory of a publication, before and after it starts.
abbrev pub journal_of : Bool → Entries → Entries → Journal
journal_of publishing before after = record {
  publishing = publishing;
  before = before;
  after = names after;
}

abbrev pub Quiet : Option Journal → Type 0
Quiet none = Unit
Quiet (some j) = j.publishing ≡ false

-- The files are the original ones, and no recovery would touch them.
abbrev pub Original : Files → Pred
Original orig = AsWas orig Quiet

abbrev pub Saved : Files → Entries → Entries → Pred
Saved orig before after =
    And (AsWas orig (λ j. j ≡ some (journal_of false before after)))
      (λ f. valid_names (journal_names (journal_of false before after)) ≡ true)

module _ (orig : Files) (before after : Entries) where
  pub save-Triple :
      Triple
        (AsWas orig (λ j. j ≡ none))
        (save_project_recovery before (names after))
        (Saved orig before after)
        (Original orig)
  unfolding save_project_recovery
  save-Triple = seq B B S O check _ (check-Triple B O quiet) (λ p g. by_journal p g p.journal g.1)
    where
      B : Pred
      B = AsWas orig (λ j. j ≡ none)

      S : Pred
      S = Saved orig before after

      O : Pred
      O = Original orig

      some_or_none : {j : Journal} → some j ≡ none → ⊥
      some_or_none e = cc

      quiet : (f : Files) (j : Option Journal) → B f j → O f j
      quiet f none h = (h.0, tt)
      quiet f (some k) h = absurd (some_or_none h.1)

      V : Files → Type 0
      V f = valid_names (names before) ≡ true

      W : Files → Type 0
      W f = valid_names (names after) ≡ true

      saved_quiet : (f : Files) (j : Option Journal) → S f j → O f j
      saved_quiet f j h = (h.0.0, subst Quiet (sym h.0.1) refl)

      error_Post : (e : Error) (o : Outcome) → Post O O o → Post S O (joined_error e o)
      error_Post e (ok u, p) h = h
      error_Post e (err f, p) h = h
      error_Post e (panic, p) h = h

      backup-Triple : Triple B (persist_backup before (names after)) S O
      backup-Triple =
          seq B _ S O (persist_files before) _
            (λ p g.
              Post-weaken (And B V) B (And B V) O _ (λ f j h. h) quiet
                (persist-Triple orig (λ j. j ≡ none) before p g))
            (λ p (b, v).
              next-Post (And B W) S O (check ⨾ call (saved before (names after)) (λ s q. q)) _
                (Post-weaken (And B W) B (And B W) O _ (λ f j h. h) quiet
                  (check_names-Triple orig (λ j. j ≡ none) (names after) p b))
                (λ q (c, w).
                  seq B B S O check _ (check-Triple B O quiet)
                    (call-Triple B S O (saved before (names after)) (λ s q. q)
                      (λ r d. ((d.0, refl), and_valid (names before) (names after) v w))
                      (λ r d. quiet r.files r.journal d) (λ r d. (d.0, refl))
                      (λ s r d. quiet r.files r.journal d))
                    q c))

      clean_Post : (o : Outcome) → Post S O o → Post S O (and_clean o)
      clean_Post (ok u, p) h = check-Triple S O saved_quiet p h
      clean_Post (err e, p) h = error_Post e (check p) (check-Triple O O (λ f j i. i) p h)
      clean_Post (panic, p) h = h

      by_journal :
          (p : Project)
          → B p.files p.journal
          → (x : Option Journal) → x ≡ none
          → Post S O (elim x [
            | none ↦ staged before (names after) p
            | some j ↦ (err (rejected (codes "recovery backup exists")), p)
          ])
      by_journal p g none e =
          seq B B S O check _ (check-Triple B O quiet)
            (λ q h. clean_Post (persist_backup before (names after) q) (backup-Triple q h)) p g
      by_journal p g (some j) e = absurd (some_or_none e)

-- A publication that has started: what is neither an original nor a new file is as it was.
abbrev pub Outside : Files → Entries → Entries → Files → Type 0
Outside orig before after f =
    (q : Bytes) → listed q (names before) ≡ false → listed q (names after) ≡ false → f q ≡ orig q

abbrev pub Interrupted : Files → Entries → Entries → Pred
Interrupted orig before after f j =
    (j ≡ some (journal_of true before after)) × Outside orig before after f

abbrev pub Either : Pred → Pred → Pred
Either P Q f j = P f j ⊎ Q f j
