-- ===== src/Forge/Laws/Completing.antt =====
-- recoverProject when every call works: it comes to its normal end.
use go_api_scaffolding.Common.{
  ℕ, ◌≡◌, refl, sym, subst, ◌⊎◌, inl, inr, Bool, true, false, ◌&&◌, Bytes, List, [], ◌∷◌, ◌++◌,
  none, some, if◌then◌else◌, arith, Bool-cases,
}
use go_api_scaffolding.Errors.{Error, rejected, Result, ok, err, panic}
use go_api_scaffolding.Forge.Paths.{is_local, validate_recovery_path}
use go_api_scaffolding.Forge.Changes.{Files}
use go_api_scaffolding.Forge.Publication.{
  Entries, Journal, Project, Outcome, Act, io_error, call, check, ◌⨾◌, stop, names, listed, remove,
  valid_names, journal_names, discard_project_recovery, put_file,
}
use go_api_scaffolding.Forge.Recovery.{
  restore_project_file, restore_all, remove_all, finish, read_backup, recover_project,
}
use go_api_scaffolding.Forge.Laws.Loops.{AreApart}
use go_api_scaffolding.Forge.Laws.Triples.{Post}
use go_api_scaffolding.Forge.Laws.Activation.{Pending}
use go_api_scaffolding.Forge.Laws.Saving.{journal_of}
use go_api_scaffolding.Forge.Laws.Working.{
  Runs, then-Runs, then-Smooth, call-Smooth, check-Smooth, if-Runs, restore-Smooth, collect-Ended,
}
use go_api_scaffolding.Forge.Laws.Publishing.{Recovered, recover_project-Pending}

valid-local : (n : Bytes) → validate_recovery_path n ≡ true → is_local n ≡ true
unfolding validate_recovery_path
valid-local n h = first (is_local n) _ _ _ _ h
  where
    first : (a b c d e : Bool) → (a && b && c && d && e) ≡ true → a ≡ true
    first a b c d e h = ground arith

-- Accepted names, one by one.
Locals : List Bytes → Type 0
Locals [] = Unit
Locals (n ∷ ns) = (is_local n ≡ true) × Locals ns

valid-Locals : (ns ms : List Bytes) → valid_names (ns ++ ms) ≡ true → Locals ns
unfolding valid_names Locals
valid-Locals [] ms h = tt
valid-Locals (n ∷ ns) ms h = (
  valid-local n (front (validate_recovery_path n) (valid_names (ns ++ ms)) h),
  valid-Locals ns ms (back (validate_recovery_path n) (valid_names (ns ++ ms)) h),
)
  where
    front : (a b : Bool) → (a && b) ≡ true → a ≡ true
    front a b h = ground arith

    back : (a b : Bool) → (a && b) ≡ true → b ≡ true
    back a b h = ground arith

module _ (J : Journal) where
  restore_all-Runs :
      (T : Outcome → Type 0) (umask : ℕ → ℕ) (es : Entries) (k : List Error → Act)
      → Locals (names es)
      → Runs J (k []) T
      → Runs J (restore_all umask es [] k) T
  unfolding restore_all Locals
  restore_all-Runs T umask [] k l s = s
  restore_all-Runs T umask ((n, file) ∷ es) k l s = λ p h.
      collect-Ended J T (λ errs. restore_all umask es errs k)
        (restore_project_file umask (n, file) p) (restore-Smooth J umask n file l.0 p h)
        (restore_all-Runs T umask es k l.1 s)

  remove_all-Runs :
      (T : Outcome → Type 0) (before ns : List Bytes) (k : List Error → Act)
      → Runs J (k []) T
      → Runs J (remove_all before ns [] k) T
  unfolding remove_all
  remove_all-Runs T before [] k s = s
  remove_all-Runs T before (n ∷ ns) k s = λ p h. elim (Bool-cases (listed n before)) [
    | inl e ↦ rw e (remove_all-Runs T before ns k s p h)
    | inr e ↦ rw e (
        collect-Ended J T (λ errs. remove_all before ns errs k) ((check ⨾ remove n) p)
          (then-Smooth J check (remove n) (check-Smooth J)
            (call-Smooth J (put_file n none) (λ b p. p) (λ p. (refl, refl))) p h)
          (remove_all-Runs T before ns k s))
  ]

  read_backup-Runs :
      (T : Outcome → Type 0) (es : Entries) (k : Act)
      → Locals (names es)
      → Runs J k T
      → Runs J (read_backup es k) T
  unfolding read_backup Locals
  read_backup-Runs T [] k l s = s
  read_backup-Runs T (e ∷ es) k l s =
      if-Runs J T (is_local (e.0)) (check ⨾ check ⨾ read_backup es k) (stop (rejected (e.0))) l.0 (
        then-Runs J T check _ (check-Smooth J)
          (then-Runs J T check _ (check-Smooth J) (read_backup-Runs T es k l.1 s)))

  -- The end of the recovery.
  abbrev Finished : Outcome → Type 0
  Finished o = o.0 ≡ ok tt

  discard-Runs : Runs J discard_project_recovery Finished
  unfolding discard_project_recovery call
  discard-Runs = then-Runs J Finished check _ (check-Smooth J) (λ p (h, j). ground arith)

  recover-Runs :
      (umask : ℕ → ℕ)
      → J.publishing ≡ true
      → valid_names (journal_names J) ≡ true
      → Runs J (recover_project umask) Finished
  unfolding recover_project
  recover-Runs umask b v = then-Runs J Finished check _ (check-Smooth J) (λ p (h, j).
      subst
        (λ z. Finished (elim z [
          | none ↦ (err io_error, p)
          | some i ↦ if valid_names (journal_names i) then act i p else (err (rejected []), p)
        ]))
        (sym j) (at_names (valid_names (journal_names J)) p v (h, j)))
    where
      act : Journal → Act
      act j =
          if j.publishing
          then check
            ⨾ read_backup j.before (
                restore_all umask j.before []
                  (λ errs. remove_all (names j.before) j.after errs finish))
          else discard_project_recovery

      locals : Locals (names J.before)
      locals = valid-Locals (names J.before) J.after v

      act-Runs : Runs J (act J) Finished
      act-Runs = if-Runs J Finished J.publishing _ discard_project_recovery b (
          then-Runs J Finished check _ (check-Smooth J) (
            read_backup-Runs Finished J.before _ locals (
              restore_all-Runs Finished umask J.before _ locals
                (remove_all-Runs Finished (names J.before) J.after finish discard-Runs))))

      at_names :
          (x : Bool) (p : Project)
          → x ≡ true
          → (p.answers ≡ []) × (p.journal ≡ some J)
          → Finished (if x then act J p else (err (rejected []), p))
      at_names true p e h = act-Runs p h
      at_names false p e h = absurd (false_or_true e)
        where
          false_or_true : false ≡ true → ⊥
          false_or_true e = cc

-- When every call works, the recovery of a pending publication comes to its normal end, and leaves
-- the original files and no recovery directory.
pub recover_project-completes :
    (umask : ℕ → ℕ) (orig : Files) (before after : Entries) (p : Project)
    → AreApart before
    → Pending orig before after p.files p.journal
    → p.answers ≡ []
    → ((recover_project umask p).0 ≡ ok tt)
      × ((recover_project umask p).1.files ≡ orig)
      × ((recover_project umask p).1.journal ≡ none)
recover_project-completes umask orig before after p a h e =
    by_outcome (recover_project umask p)
      (recover-Runs (journal_of true before after) umask refl h.2 p (e, h.0.0))
      (recover_project-Pending umask orig before after p a h)
  where
    err_or_ok : (x : Error) → ◌≡◌ {A = Result (Unit {0})} (err x) (ok tt) → ⊥
    err_or_ok x e = cc

    panic_or_ok : ◌≡◌ {A = Result (Unit {0})} panic (ok tt) → ⊥
    panic_or_ok e = cc

    by_outcome :
        (o : Outcome)
        → o.0 ≡ ok tt
        → Post
            (Recovered orig before after)
            (λ f j. Recovered orig before after f j ⊎ Pending orig before after f j)
            o
        → (o.0 ≡ ok tt) × (o.1.files ≡ orig) × (o.1.journal ≡ none)
    by_outcome (ok u, p) e h = (e, h.0, h.1)
    by_outcome (err x, p) e h = absurd (err_or_ok x e)
    by_outcome (panic, p) e h = absurd (panic_or_ok e)
