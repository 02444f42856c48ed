-- ===== src/Forge/Laws/Activation.antt =====
-- activateProjectRecovery and replaceProjectFiles: a publication starts, and puts the new files.
use go_api_scaffolding.Common.{
  ℕ, ◌≡◌, refl, sym, ap, subst, ◌⊎◌, inl, inr, true, false, Bytes, [], Option, none, some,
  if◌then◌else◌,
}
use go_api_scaffolding.Errors.{rejected, err}
use go_api_scaffolding.Forge.Changes.{File, Files, put}
use go_api_scaffolding.Forge.Publication.{
  Entries, Journal, Project, Act, io_error, call, check, ◌⨾◌, names, listed, valid_names,
  journal_names, with_journal, activated, activate_project_recovery, write_project_files,
  remove_missing, replace_project_files,
}
use go_api_scaffolding.Forge.Laws.Triples.{
  Pred, Post, Triple, Post-weaken, seq, call-Triple, check-Triple,
}
use go_api_scaffolding.Forge.Laws.Loops.{
  And, AreApart, Written, Gone, write_project_files-Triple, remove_missing-Triple,
}
use go_api_scaffolding.Forge.Laws.Validating.{Facts}
use go_api_scaffolding.Forge.Laws.Inside.{Outside-put, Written-put}
use go_api_scaffolding.Forge.Laws.Saving.{journal_of, Quiet, Original, Saved, Outside, Interrupted}

-- What a complete publication leaves: the new files, without the originals that are not among them.
abbrev pub IsPublished : Files → Entries → Entries → Files → Type 0
IsPublished orig before after f =
    Written after f × Gone (names after) (names before) f × Outside orig before after f

abbrev pub Published : Files → Entries → Entries → Pred
Published orig before after f j = IsPublished orig before after f × (j ≡ none)

-- An interrupted publication with what was found out before it started.
abbrev pub Pending : Files → Entries → Entries → Pred
Pending orig before after f j =
    Interrupted orig before after f j
    × Facts before after orig
    × (valid_names (journal_names (journal_of true before after)) ≡ true)

-- How an attempt may end: with the original files, with a publication that recovery takes back, or
-- with the new files.
abbrev pub Safe : Files → Entries → Entries → Pred
Safe orig before after f j =
    Original orig f j ⊎ (Pending orig before after f j ⊎ Published orig before after f j)

-- How an attempt may end, without what was found out.
abbrev pub Ends : Files → Entries → Entries → Pred
Ends orig before after f j =
    Original orig f j ⊎ (Interrupted orig before after f j ⊎ Published orig before after f j)

module _ (orig : Files) (before after : Entries) where
  pub with_journal-Post :
      (Q E : Pred) (J : Journal) (k : Journal → Act) (p : Project)
      → p.journal ≡ some J
      → valid_names (journal_names J) ≡ true
      → Post Q E (k J p)
      → Post Q E (with_journal k p)
  with_journal-Post Q E J k p e v h = by_journal p.journal e
    where
      by_journal :
          (x : Option Journal)
          → x ≡ some J
          → Post Q E (elim x [
            | none ↦ (err io_error, p)
            | some j ↦ if valid_names (journal_names j) then k j p else (err (rejected []), p)
          ])
      by_journal x e =
          subst
            (λ z. Post Q E (elim z [
              | none ↦ (err io_error, p)
              | some j ↦ if valid_names (journal_names j) then k j p else (err (rejected []), p)
            ]))
            (sym e) (rw v h)

  pub activate-Triple :
      Triple
        (Saved orig before after)
        activate_project_recovery
        (Interrupted orig before after)
        (Ends orig before after)
  unfolding activate_project_recovery
  activate-Triple = seq S S I F check _ (check-Triple S F quiet) (λ p h.
      with_journal-Post I F (journal_of false before after)
        (λ j. check ⨾ check ⨾ call (activated j) (λ s p. p)) p h.0.1 h.1
        (seq S S I F check _ (check-Triple S F quiet)
          (seq S S I F check _ (check-Triple S F quiet) (
            call-Triple S I F (activated (journal_of false before after)) (λ s q. q)
              (λ q g. started q.files q.journal g) (λ q g. quiet q.files q.journal g)
              (λ q g. inr (inl (started q.files q.journal g)))
              (λ s q g. quiet q.files q.journal g)))
          p h))
    where
      S : Pred
      S = Saved orig before after

      I : Pred
      I = Interrupted orig before after

      F : Pred
      F = Ends orig before after

      quiet : (f : Files) (j : Option Journal) → S f j → F f j
      quiet f j h = inl (h.0.0, subst Quiet (sym h.0.1) refl)

      started : (f : Files) (j : Option Journal) → S f j → I f (some (journal_of true before after))
      started f j h = (refl, λ q a b. ap (λ g. g q) h.0.0)

  pub inside :
      (f : Files) (j : Option Journal) (n : Bytes) (x : Option File)
      → (listed n (names before) ≡ true) ⊎ (listed n (names after) ≡ true)
      → Interrupted orig before after f j
      → Interrupted orig before after (put n x f) j
  inside f j n x h i = (i.0, Outside-put orig before after n x f h i.1)

  pub replace-Triple :
      (umask : ℕ → ℕ)
      → AreApart after
      → Triple
          (Interrupted orig before after)
          (replace_project_files umask before after)
          (And (Interrupted orig before after) (IsPublished orig before after))
          (Interrupted orig before after)
  unfolding replace_project_files
  replace-Triple umask a =
      (seq I W R I (write_project_files umask after) (remove_missing (names after) (names before))
        (write_project_files-Triple umask I after a (λ n h x f j i. inside f j n x (inr h) i))
        (λ p h.
          Post-weaken (And W (Gone (names after) (names before))) W R I _
            (λ f j (w, g). (w.0, (w.1, g, w.0.1))) (λ f j w. w.0)
            (remove_missing-Triple W (names after) (names before)
              (λ n h k f j (i, w). (inside f j n none (inl h) i, Written-put n none after f k w)) p
              h)))
    where
      I : Pred
      I = Interrupted orig before after

      W : Pred
      W = And I (Written after)

      R : Pred
      R = And I (IsPublished orig before after)
