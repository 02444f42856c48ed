-- ===== src/Forge/Laws/Publishing.antt =====
-- activateProjectRecovery, replaceProjectFiles and recoverProject, and the publication made of them.
use go_api_scaffolding.Common.{
  ℕ, ◌≡◌, refl, sym, ap, subst, ◌⊎◌, inl, inr, true, false, Bytes, List, [], ◌∷◌, Option, none,
  some, All, if◌then◌else◌,
}
use go_api_scaffolding.Errors.{Error, rejected, ok, err, panic}
use go_api_scaffolding.Forge.Paths.{is_local}
use go_api_scaffolding.Forge.Changes.{Files}
use go_api_scaffolding.Forge.Publication.{
  Entries, Journal, Project, Outcome, Act, check, ◌⨾◌, stop, names, listed, valid_names,
  journal_names, activate_project_recovery, replace_project_files, discard_project_recovery,
  save_project_recovery,
}
use go_api_scaffolding.Forge.Recovery.{
  restore_all, remove_all, finish, read_backup, recover_project, validate_project_publication,
  join_outcome, or_else, publish,
}
use go_api_scaffolding.Forge.Laws.Triples.{
  Pred, Post, Triple, Post-weaken, next-Post, seq, check-Triple, if-Post,
}
use go_api_scaffolding.Forge.Laws.Loops.{And, AreApart, Written, Gone}
use go_api_scaffolding.Forge.Laws.Recovering.{
  Collecting, restore_all-Triple, remove_all-Triple, discard-Triple,
}
use go_api_scaffolding.Forge.Laws.Validating.{Facts, AsWas, validate-Triple}
use go_api_scaffolding.Forge.Laws.Inside.{Written-put, all_restored}
use go_api_scaffolding.Forge.Laws.Activation.{
  IsPublished, Published, Safe, Ends, Pending, with_journal-Post, activate-Triple, inside,
  replace-Triple,
}
use go_api_scaffolding.Forge.Laws.Saving.{
  journal_of, Quiet, Original, Saved, save-Triple, Outside, Interrupted,
}

read_backup-Triple :
    (P Q E : Pred) (es : Entries) (k : Act)
    → ((f : Files) (j : Option Journal) → P f j → E f j)
    → Triple P k Q E
    → Triple P (read_backup es k) Q E
unfolding read_backup
read_backup-Triple P Q E [] k w t = t
read_backup-Triple P Q E (e ∷ es) k w t = λ p h.
    if-Post Q E (is_local (e.0)) (check ⨾ check ⨾ read_backup es k) (stop (rejected (e.0))) p
      (λ l.
        seq P P Q E check _ (check-Triple P E w)
          (seq P P Q E check _ (check-Triple P E w) (read_backup-Triple P Q E es k w t)) p h)
      (λ l. w p.files p.journal h)

module _ (orig : Files) (before after : Entries) where
  -- A recovery ends with the originals, or is interrupted and may be started again.
  abbrev pub Recovered : Pred
  Recovered f j = (f ≡ orig) × (j ≡ none)

  abbrev pub Recoverable : Pred
  Recoverable f j = Recovered f j ⊎ Interrupted orig before after f j

  pub recover-Triple :
      (umask : ℕ → ℕ)
      → Facts before after orig
      → AreApart before
      → valid_names (journal_names (journal_of true before after)) ≡ true
      → Triple (Interrupted orig before after) (recover_project umask) Recovered Recoverable
  unfolding recover_project
  recover-Triple umask facts apart valid =
      seq I I D E check _ (check-Triple I E (λ f j h. inr h)) (λ p h.
        with_journal-Post orig before after D E (journal_of true before after)
          (λ j.
            if j.publishing
            then check
              ⨾ read_backup j.before (
                  restore_all umask j.before []
                    (λ errs. remove_all (names j.before) j.after errs finish))
            else discard_project_recovery)
          p h.0 valid
          (seq I I D E check _ (check-Triple I E (λ f j h. inr h))
            (read_backup-Triple I D E before _ (λ f j i. inr i)
              (λ q i.
                restore_all-Triple umask I D E (λ f. Unit) before
                  (λ errs. remove_all (names before) (names after) errs finish) apart
                  (λ f j i. inr i) (λ n l x f j i. inside orig before after f j n x (inl l) i)
                  (λ n l x f u. tt)
                  (remove_all-Triple I D E (λ f. Unit × Written before f) (names before)
                    (names after) finish (λ f j i. inr i)
                    (λ n l k f j i. inside orig before after f j n none (inr l) i)
                    (λ n l k f (u, w). (u, Written-put n none before f k w)) finish-Triple)
                  [] q (i, λ e. tt)))
            p h))
    where
      I : Pred
      I = Interrupted orig before after

      D : Pred
      D f j = (f ≡ orig) × (j ≡ none)

      E : Pred
      E f j = D f j ⊎ I f j

      outside : (f : Files) → f ≡ orig → Outside orig before after f
      outside f e q a b = ap (λ g. g q) e

      ended :
          (f : Files) (j : Option Journal)
          → f ≡ orig
          → (j ≡ some (journal_of true before after)) ⊎ (j ≡ none)
          → E f j
      ended f j e (inl a) = inr (a, outside f e)
      ended f j e (inr b) = inl (e, b)

      finish-Triple :
          (errs : List Error)
          → Triple
              (Collecting I
                (λ f. (Unit × Written before f) × Gone (names before) (names after) f)
                errs)
              (finish errs)
              D
              E
      finish-Triple [] p (i, c) =
          let ((u, w), g) = c refl in
          Post-weaken D
            (λ f j. (f ≡ orig) × ((j ≡ some (journal_of true before after)) ⊎ (j ≡ none))) D E _
            (λ f j h. h) (λ f j (e, d). ended f j e d)
            (discard-Triple (λ f. f ≡ orig) (journal_of true before after) p
              (all_restored orig before after p.files facts i.1 w g, i.0))
      finish-Triple (x ∷ errs) p (i, c) = inr i

module _ (orig : Files) (before after : Entries) where
  undo-Post :
      (P Q S : Pred) (e : Error) (o : Outcome)
      → ((f : Files) (j : Option Journal) → P f j → S f j)
      → Post P S o
      → Post Q S (join_outcome e o)
  undo-Post P Q S e (ok u, p) w h = w p.files p.journal h
  undo-Post P Q S e (err f, p) w h = h
  undo-Post P Q S e (panic, p) w h = h

  -- An act, and what is done about its error.
  or_else-Post :
      (A U Q B S : Pred) (k undo : Act) (o : Outcome)
      → Post A B o
      → ((f : Files) (j : Option Journal) → B f j → S f j)
      → ((f : Files) (j : Option Journal) → U f j → S f j)
      → Triple A k Q S
      → Triple B undo U S
      → Post Q S (or_else k undo o)
  or_else-Post A U Q B S k undo (ok u, p) h b c t s = t p h
  or_else-Post A U Q B S k undo (err e, p) h b c t s = undo-Post U Q S e (undo p) c (s p h)
  or_else-Post A U Q B S k undo (panic, p) h b c t s = b p.files p.journal h

  publish-Triple :
      (umask : ℕ → ℕ) (paths : List Bytes)
      → AreApart before
      → AreApart after
      → All (λ e. listed (e.0) paths ≡ true) before
      → Triple
          (AsWas orig (λ j. j ≡ none))
          (publish umask paths before after)
          (Published orig before after)
          (Safe orig before after)
  unfolding publish
  publish-Triple umask paths a b l =
      seq N F1 C S (validate_project_publication paths before after) _
        (λ p h.
          Post-weaken F1 N F1 S _ (λ f j g. g) quiet
            (validate-Triple orig (λ j. j ≡ none) paths before after l p h))
        (λ p h.
          next-Post (Saved orig before after) C S _ (save_project_recovery before (names after) p)
            (Post-weaken (Saved orig before after) (Original orig) (Saved orig before after) S _
              (λ f j g. g) (λ f j g. inl g) (save-Triple orig before after p h.0))
            (λ q g.
              or_else-Post F2 U C B S _ discard_project_recovery
                (validate_project_publication paths before after q)
                (validate-Triple orig (λ j. j ≡ some (journal_of false before after)) paths before
                  after l q g.0)
                idle (λ f j u. inl (u.0, subst Quiet (sym u.1) tt)) (λ r k. attempt g.1 r k)
                stopped))
    where
      N : Pred
      N = AsWas orig (λ j. j ≡ none)

      F1 : Pred
      F1 = And N (λ f. Facts before after orig)

      B : Pred
      B = AsWas orig (λ j. j ≡ some (journal_of false before after))

      F2 : Pred
      F2 = And B (λ f. Facts before after orig)

      I : Pred
      I = Interrupted orig before after

      C : Pred
      C = Published orig before after

      S : Pred
      S = Safe orig before after

      T : Pred
      T = Ends orig before after

      known :
          Facts before after orig
          → valid_names (journal_names (journal_of false before after)) ≡ true
          → (f : Files) (j : Option Journal) → T f j
          → S f j
      known facts v f j (inl o) = inl o
      known facts v f j (inr (inl i)) = inr (inl (i, facts, v))
      known facts v f j (inr (inr p)) = inr (inr p)

      U : Pred
      U f j = (f ≡ orig) × (j ≡ none)

      K : Pred
      K = And I (IsPublished orig before after)

      quiet : (f : Files) (j : Option Journal) → N f j → S f j
      quiet f j h = inl (h.0, subst Quiet (sym h.1) tt)

      idle : (f : Files) (j : Option Journal) → B f j → S f j
      idle f j h = inl (h.0, subst Quiet (sym h.1) refl)

      either_way :
          (f : Files) (j : Option Journal)
          → (f ≡ orig) × ((j ≡ some (journal_of false before after)) ⊎ (j ≡ none))
          → S f j
      either_way f j (e, inl a) = idle f j (e, a)
      either_way f j (e, inr a) = quiet f j (e, a)

      stopped : Triple B discard_project_recovery U S
      stopped p h =
          Post-weaken U
            (λ f j. (f ≡ orig) × ((j ≡ some (journal_of false before after)) ⊎ (j ≡ none))) U S _
            (λ f j u. u) either_way
            (discard-Triple (λ f. f ≡ orig) (journal_of false before after) p h)

      leftover :
          (f : Files) (j : Option Journal)
          → IsPublished orig before after f
            × ((j ≡ some (journal_of true before after)) ⊎ (j ≡ none))
          → T f j
      leftover f j (w, inl a) = inr (inl (a, w.2))
      leftover f j (w, inr a) = inr (inr (w, a))

      cleaned : Triple K discard_project_recovery C T
      cleaned p h =
          Post-weaken C
            (λ f j.
              IsPublished orig before after f
              × ((j ≡ some (journal_of true before after)) ⊎ (j ≡ none)))
            C T _ (λ f j u. u) leftover
            (discard-Triple (IsPublished orig before after) (journal_of true before after) p
              (h.1, h.0.0))

      undone : (f : Files) (j : Option Journal) → Recoverable orig before after f j → T f j
      undone f j (inl h) = inl (h.0, subst Quiet (sym h.1) tt)
      undone f j (inr i) = inr (inl i)

      attempt :
          valid_names (journal_names (journal_of false before after)) ≡ true
          → Triple F2
              (activate_project_recovery ⨾ λ q.
                or_else discard_project_recovery
                  (recover_project umask)
                  (replace_project_files umask before after q))
              C
              S
      attempt v p (h, facts) =
          Post-weaken C T C S _ (λ f j g. g) (λ f j t. known facts v f j t)
            (seq (Saved orig before after) I C T activate_project_recovery _
              (activate-Triple orig before after)
              (λ q i.
                or_else-Post K U C I T discard_project_recovery (recover_project umask)
                  (replace_project_files umask before after q)
                  (replace-Triple orig before after umask b q i) (λ f j i. inr (inl i))
                  (λ f j u. inl (u.0, subst Quiet (sym u.1) tt)) cleaned
                  (λ r k.
                    Post-weaken (Recovered orig before after) (Recoverable orig before after) U T _
                      (λ f j u. u) undone (recover-Triple orig before after umask facts a v r k)))
              p (h, v))

-- However the calls of the operating system end, and wherever the process stops: publishing the new
-- files of a project without a recovery directory leaves, at a normal end, the new files in place of the
-- originals; and else the original files with nothing to recover, a publication that is pending with its
-- backup, or the new files. No other file of the project is touched. The originals and the new files are
-- named without repetition, and Git tracks the originals.
pub publish-Safe :
    (umask : ℕ → ℕ) (paths : List Bytes) (before after : Entries) (p : Project)
    → AreApart before
    → AreApart after
    → All (λ e. listed (e.0) paths ≡ true) before
    → p.journal ≡ none
    → Post
        (Published p.files before after)
        (Safe p.files before after)
        (publish umask paths before after p)
publish-Safe umask paths before after p a b l e =
    publish-Triple p.files before after umask paths a b l p (refl, e)

-- A recovery of a pending publication restores the original files and removes the recovery directory at
-- a normal end; and at an error, or where the process stops, it has done that or the publication is
-- still pending, so that recovery may be run again.
pub recover_project-Pending :
    (umask : ℕ → ℕ) (orig : Files) (before after : Entries) (p : Project)
    → AreApart before
    → Pending orig before after p.files p.journal
    → Post
        (Recovered orig before after)
        (λ f j. Recovered orig before after f j ⊎ Pending orig before after f j)
        (recover_project umask p)
recover_project-Pending umask orig before after p a (i, facts, v) =
    Post-weaken (Recovered orig before after) (Recoverable orig before after)
      (Recovered orig before after)
      (λ f j. Recovered orig before after f j ⊎ Pending orig before after f j) _ (λ f j u. u)
      (λ f j h. again f j h) (recover-Triple orig before after umask facts a v p i)
  where
    again :
        (f : Files) (j : Option Journal)
        → Recoverable orig before after f j
        → Recovered orig before after f j ⊎ Pending orig before after f j
    again f j (inl h) = inl h
    again f j (inr h) = inr (h, facts, v)
