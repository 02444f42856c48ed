-- ===== src/Forge/Laws/Recovering.antt =====
-- recoverProject: its loops, which go on after an error.
use go_api_scaffolding.Common.{
  ℕ, ◌≡◌, ◌≢◌, refl, sym, ap, subst, ◌∙◌, ◌⊎◌, inl, inr, Bool, true, false, ◌&&◌, ◌||◌, Bytes, List,
  [], ◌∷◌, ◌++◌, Option, none, some, same, same_sound, Bool-cases, ◌==◌, if◌then◌else◌, arith,
}
use go_api_scaffolding.Errors.{Error, ok, err, panic}
use go_api_scaffolding.Forge.Changes.{File, Files, put}
use go_api_scaffolding.Forge.Laws.Writes.{put-at}
use go_api_scaffolding.Forge.Publication.{
  Entries, Journal, Project, Outcome, Act, chmod, remove, call, check, ◌⨾◌, write_project_files,
  names, listed, no_journal, discard_project_recovery, after_rename, has_journal, joined_error,
  io_error,
}
use go_api_scaffolding.Forge.Recovery.{
  as_it_was, restored_already, restore_project_file, collect, restore_all, remove_all,
}
use go_api_scaffolding.Forge.Laws.Triples.{Pred, Post, Triple, seq, call-Triple, check-Triple}
use go_api_scaffolding.Forge.Laws.Loops.{
  Stable, IsStable, And, Holds, AreApart, Written, Gone, Removable, chmod-Triple, checked,
  write_project_files-Triple, remove-Triple, head_listed, tail_listed, listed-apart, put-other,
}

pub as_it_was-Holds : (x : Option File) (file : File) → as_it_was x file ≡ true → x ≡ some file
as_it_was-Holds none file h = cc
as_it_was-Holds (some (c, m)) (d, n) h = parts (same c d) (m == n) refl refl h
  where
    parts :
        (a b : Bool)
        → same c d ≡ a
        → (m == n) ≡ b
        → (a && b) ≡ true
        → ◌≡◌ {A = Option File} (some (c, m)) (some (d, n))
    parts true true e f h = rw (same_sound c d e) (ap (λ z. some (d, z)) (ground arith))
    parts true false e f h = cc
    parts false b e f h = cc

-- One file of the recovery.
restore-Triple :
    (umask : ℕ → ℕ) (I : Pred) (n : Bytes) (file : File)
    → Stable I n
    → Triple I (restore_project_file umask (n, file)) (And I (Holds n (some file))) I
unfolding restore_project_file AreApart
restore-Triple umask I n file s =
    seq I I _ I check _ (checked I) (λ p h. by_outcome (check p) (checked I p h))
  where
    only : (b : Bool) → (b || false) ≡ true → b ≡ true
    only b h = ground arith

    write : Act
    write = write_project_files umask ((n, file) ∷ []) ⨾ chmod n file.1

    write-Triple : Triple I write (And I (Holds n (some file))) I
    write-Triple =
        seq I (And I (Written ((n, file) ∷ []))) _ I (write_project_files umask ((n, file) ∷ []))
          (chmod n file.1)
          (write_project_files-Triple umask I ((n, file) ∷ []) (refl, tt)
            (λ m k. subst (Stable I) (sym (same_sound m n (only (same m n) k))) s))
          (λ p (h, w). chmod-Triple I n file s p (h, (file.1, w.0)))

    by_test :
        (p : Project) (b : Bool)
        → as_it_was (p.files n) file ≡ b
        → I p.files p.journal
        → Post (And I (Holds n (some file))) I (if b then (ok tt, p) else write p)
    by_test p true e h = (h, as_it_was-Holds (p.files n) file e)
    by_test p false e h = write-Triple p h

    by_outcome :
        (o : Outcome)
        → Post I I o
        → Post (And I (Holds n (some file))) I (restored_already file n write o)
    by_outcome (ok u, p) h = by_test p (as_it_was (p.files n) file) refl h
    by_outcome (err e, p) h = write-Triple p h
    by_outcome (panic, p) h = h

-- What holds while errors are collected: R in any case, and G as long as there is none.
abbrev pub Collecting : Pred → (Files → Type 0) → List Error → Pred
Collecting R G errs f j = R f j × (errs ≡ [] → G f)

nonempty : (errs : List Error) (e : Error) → errs ++ e ∷ [] ≢ []
nonempty [] e h = cc
nonempty (x ∷ errs) e h = cc

-- A step of the recovery, by its end.
collect-Triple :
    (R Q E : Pred) (G : Files → Type 0) (n : Bytes) (x : Option File) (errs : List Error)
    (k : List Error → Act) (o : Outcome)
    → ((f : Files) (j : Option Journal) → R f j → E f j)
    → ((errs : List Error) → Triple (Collecting R (λ f. G f × Holds n x f) errs) (k errs) Q E)
    → Post (And (Collecting R G errs) (Holds n x)) (Collecting R G errs) o
    → Post Q E (collect k errs o)
collect-Triple R Q E G n x errs k (ok u, p) w t h = t errs p (h.0.0, λ e. (h.0.1 e, h.1))
collect-Triple R Q E G n x errs k (err e, p) w t h =
    t (errs ++ e ∷ []) p (h.0, λ z. absurd (nonempty errs e z))
collect-Triple R Q E G n x errs k (panic, p) w t h = w p.files p.journal (h.0)

abbrev pub GStable : (Files → Type 0) → List Bytes → Type 0
GStable G ns =
    (n : Bytes) → listed n ns ≡ true → (x : Option File) (f : Files) → G f → G (put n x f)

pub restore_all-Triple :
    (umask : ℕ → ℕ) (R Q E : Pred) (G : Files → Type 0) (es : Entries) (k : List Error → Act)
    → AreApart es
    → ((f : Files) (j : Option Journal) → R f j → E f j)
    → IsStable R (names es)
    → GStable G (names es)
    → ((errs : List Error) → Triple (Collecting R (λ f. G f × Written es f) errs) (k errs) Q E)
    → (errs : List Error) → Triple (Collecting R G errs) (restore_all umask es errs k) Q E
unfolding restore_all AreApart
restore_all-Triple umask R Q E G [] k a w s g t errs = λ p h. t errs p (h.0, λ e. (h.1 e, tt))
restore_all-Triple umask R Q E G ((n, file) ∷ es) k a w s g t errs = λ p h.
    collect-Triple R Q E G n (some file) errs (λ errs'. restore_all umask es errs' k)
      (restore_project_file umask (n, file) p) w
      (restore_all-Triple umask R Q E (λ f. G f × Holds n (some file) f) es k a.1 w
        (λ m l. s m (tail_listed n m (names es) l))
        (λ m l x f (b, c). (
          g m (tail_listed n m (names es) l) x f b,
          put-other m n x f (listed-apart n m (names es) a.0 l) ∙ c,
        ))
        (λ errs' q (r, z). t errs' q (r, λ e. ((z e).0.0, ((z e).0.1, (z e).1)))))
      (restore-Triple umask (Collecting R G errs) n file
        (λ x f j (b, c).
          (s n (head_listed n (names es)) x f j b, λ e. g n (head_listed n (names es)) x f (c e)))
        p h)

remove_one-Triple :
    (I : Pred) (n : Bytes)
    → ((f : Files) (j : Option Journal) → I f j → I (put n none f) j)
    → Triple I (check ⨾ remove n) (And I (Holds n none)) I
remove_one-Triple I n s = seq I I _ I check _ (checked I) (remove-Triple I n s)

abbrev pub GRemovable : (Files → Type 0) → List Bytes → List Bytes → Type 0
GRemovable G kept ns =
    (n : Bytes) → listed n ns ≡ true → listed n kept ≡ false → (f : Files) → G f → G (put n none f)

pub remove_all-Triple :
    (R Q E : Pred) (G : Files → Type 0) (before ns : List Bytes) (k : List Error → Act)
    → ((f : Files) (j : Option Journal) → R f j → E f j)
    → Removable R before ns
    → GRemovable G before ns
    → ((errs : List Error) → Triple (Collecting R (λ f. G f × Gone before ns f) errs) (k errs) Q E)
    → (errs : List Error) → Triple (Collecting R G errs) (remove_all before ns errs k) Q E
unfolding remove_all
remove_all-Triple R Q E G before [] k w s g t errs = λ p h. t errs p (h.0, λ e. (h.1 e, tt))
remove_all-Triple R Q E G before (n ∷ ns) k w s g t errs = λ p h.
    elim (Bool-cases (listed n before)) [
      | inl e ↦ rw e (
          remove_all-Triple R Q E G before ns k w (λ m l. s m (tail_listed n m ns l))
            (λ m l. g m (tail_listed n m ns l))
            (λ errs' q (r, z). t errs' q (r, λ i. ((z i).0, (inl e, (z i).1)))) errs p h)
      | inr e ↦ rw e (
          collect-Triple R Q E G n none errs (λ errs'. remove_all before ns errs' k)
            ((check ⨾ remove n) p) w
            (remove_all-Triple R Q E (λ f. G f × Holds n none f) before ns k w
              (λ m l. s m (tail_listed n m ns l))
              (λ m l i f (b, c). (g m (tail_listed n m ns l) i f b, still m f (same m n) refl c))
              (λ errs' q (r, z). t errs' q (r, λ i. ((z i).0.0, (inr ((z i).0.1), (z i).1)))))
            (remove_one-Triple (Collecting R G errs) n
              (λ f j (b, c).
                (s n (head_listed n ns) e f j b, λ i. g n (head_listed n ns) e f (c i)))
              p h))
    ]
  where
    still : (m : Bytes) (f : Files) (b : Bool) → same m n ≡ b → f n ≡ none → put m none f n ≡ none
    still m f true h c = put-at m n none f true h
    still m f false h c = put-other m n none f h ∙ c

-- discardProjectRecovery touches no file; at a normal end the recovery directory is gone.
pub discard-Triple :
    (G : Files → Type 0) (J : Journal)
    → Triple
        (λ f j. G f × (j ≡ some J))
        discard_project_recovery
        (λ f j. G f × (j ≡ none))
        (λ f j. G f × ((j ≡ some J) ⊎ (j ≡ none)))
unfolding discard_project_recovery
discard-Triple G J =
    seq B B _ E check _ (check-Triple B E (λ f j h. (h.0, inl (h.1)))) (λ p h. renamed p h)
  where
    B : Pred
    B f j = G f × (j ≡ some J)

    D : Pred
    D f j = G f × (j ≡ none)

    E : Pred
    E f j = G f × ((j ≡ some J) ⊎ (j ≡ none))

    end_join : (e : Error) (o : Outcome) → Post E E o → Post D E (joined_error e o)
    end_join e (ok u, p) h = h
    end_join e (err f, p) h = h
    end_join e (panic, p) h = h

    by_outcome : (o : Outcome) → Post D E o → Post D E (after_rename o)
    by_outcome (ok u, p) h = check-Triple D E (λ f j i. (i.0, inr (i.1))) p h
    by_outcome (err e, p) h = end_join e (check p) (check-Triple E E (λ f j i. i) p h)
    by_outcome (panic, p) h = h

    present : (p : Project) (k : Act) → p.journal ≡ some J → has_journal k p ≡ k p
    present p k e = ap {B = Outcome} (λ z. elim z [ none ↦ (err io_error, p) | some j ↦ k p ]) e

    renamed :
        (p : Project)
        → B p.files p.journal
        → Post D E (after_rename (has_journal (call no_journal (λ s q. q)) p))
    renamed p h = by_outcome (has_journal (call no_journal (λ s q. q)) p) (
        subst (Post D E) (sym (present p (call no_journal (λ s q. q)) h.1)) (
          call-Triple B D E no_journal (λ s q. q) (λ q (a, b). (a, refl)) (λ q (a, b). (a, inl b))
            (λ q (a, b). (a, inr refl)) (λ s q (a, b). (a, inl b)) p h))
