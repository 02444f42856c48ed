-- ===== src/Forge/Laws/Working.antt =====
-- Acts of the recovery when every call works.
use go_api_scaffolding.Common.{
  ℕ, ◌≡◌, refl, ◌∙◌, Bool, true, false, Bytes, List, [], ◌∷◌, some, if◌then◌else◌,
}
use go_api_scaffolding.Errors.{Error, rejected, ok, err, panic}
use go_api_scaffolding.Forge.Paths.{is_local}
use go_api_scaffolding.Forge.Changes.{File}
use go_api_scaffolding.Forge.Publication.{
  Journal, Project, Outcome, Act, Answer, answered, call, check, next, ◌⨾◌, stop, write_entry,
  write_entries, write_project_files, chmod, put_file, write_bytes, change_mode,
}
use go_api_scaffolding.Forge.Recovery.{as_it_was, restored_already, restore_project_file, collect}

module _ (J : Journal) where
  -- A normal end, with no answer left to come and the recovery directory in place.
  abbrev pub Ended : Outcome → Type 0
  Ended (ok u, p) = (p.answers ≡ []) × (p.journal ≡ some J)
  Ended (err e, p) = ⊥
  Ended (panic, p) = ⊥

  abbrev pub Runs : Act → (Outcome → Type 0) → Type 0
  Runs a T = (p : Project) → (p.answers ≡ []) × (p.journal ≡ some J) → T (a p)

  abbrev pub Smooth : Act → Type 0
  Smooth a = Runs a Ended

  pub next-Ended :
      (T : Outcome → Type 0) (b : Act) (o : Outcome) → Ended o → Runs b T → T (next b o)
  next-Ended T b (ok u, p) h s = s p h
  next-Ended T b (err e, p) h s = absurd h
  next-Ended T b (panic, p) h s = absurd h

  pub then-Runs : (T : Outcome → Type 0) (a b : Act) → Smooth a → Runs b T → Runs (a ⨾ b) T
  then-Runs T a b s t p h = next-Ended T b (a p) (s p h) t

  pub then-Smooth : (a b : Act) → Smooth a → Smooth b → Smooth (a ⨾ b)
  then-Smooth a b s t = then-Runs Ended a b s t

  pub call-Smooth :
      (f : Project → Project) (g : Bytes → Project → Project)
      → ((p : Project) → ((f p).answers ≡ p.answers) × ((f p).journal ≡ p.journal))
      → Smooth (call f g)
  unfolding call
  call-Smooth f g same_state p h = by_answers p.answers (h.0)
    where
      by_answers :
          (l : List Answer)
          → l ≡ []
          → Ended (elim l [
            | [] ↦ (ok tt, f p)
            | a ∷ answers ↦ answered a f g (record p { answers = answers })
          ])
      by_answers [] e = let (a, b) = same_state p in (a ∙ h.0, b ∙ h.1)
      by_answers (a ∷ l) e = absurd (cons_or_nil e)
        where
          cons_or_nil : a ∷ l ≡ [] → ⊥
          cons_or_nil e = cc

  pub check-Smooth : Smooth check
  check-Smooth = call-Smooth (λ p. p) (λ s p. p) (λ p. (refl, refl))

  pub if-Runs :
      (T : Outcome → Type 0) (b : Bool) (x y : Act)
      → b ≡ true
      → Runs x T
      → Runs (if b then x else y) T
  if-Runs T true x y h s = s
  if-Runs T false x y h s = absurd (false_or_true h)
    where
      false_or_true : false ≡ true → ⊥
      false_or_true e = cc

  pub write_entry-Smooth :
      (umask : ℕ → ℕ) (n : Bytes) (file : File)
      → is_local n ≡ true
      → Smooth (write_entry umask (n, file))
  write_entry-Smooth umask n file l = if-Runs Ended (is_local n) _ (stop (rejected n)) l (
      then-Smooth check _ check-Smooth (
        then-Smooth check _ check-Smooth (
          then-Smooth check _ check-Smooth (
            then-Smooth
              (call (λ p. write_bytes umask n file file.0 p) (λ b p. write_bytes umask n file b p))
              (chmod n file.1) (call-Smooth _ _ (λ p. (refl, refl)))
              (call-Smooth (λ p. put_file n (change_mode file.1 (p.files n)) p) (λ b p. p)
                (λ p. (refl, refl)))))))

  pub restore-Smooth :
      (umask : ℕ → ℕ) (n : Bytes) (file : File)
      → is_local n ≡ true
      → Smooth (restore_project_file umask (n, file))
  unfolding restore_project_file write_entries
  restore-Smooth umask n file l =
      then-Smooth check _ check-Smooth (λ p h. by_outcome (check p) (check-Smooth p h))
    where
      write : Act
      write = write_project_files umask ((n, file) ∷ []) ⨾ chmod n file.1

      write-Smooth : Smooth write
      write-Smooth =
          then-Smooth (write_project_files umask ((n, file) ∷ [])) (chmod n file.1)
            (then-Smooth check _ check-Smooth (
              then-Smooth (write_entry umask (n, file)) _ (write_entry-Smooth umask n file l)
                (λ p h. h)))
            (call-Smooth (λ p. put_file n (change_mode file.1 (p.files n)) p) (λ b p. p)
              (λ p. (refl, refl)))

      by_test :
          (b : Bool) (p : Project)
          → (p.answers ≡ []) × (p.journal ≡ some J)
          → Ended (if b then (ok tt, p) else write p)
      by_test true p h = h
      by_test false p h = write-Smooth p h

      by_outcome : (o : Outcome) → Ended o → Ended (restored_already file n write o)
      by_outcome (ok u, p) h = by_test (as_it_was (p.files n) file) p h
      by_outcome (err e, p) h = absurd h
      by_outcome (panic, p) h = absurd h

  pub collect-Ended :
      (T : Outcome → Type 0) (k : List Error → Act) (o : Outcome)
      → Ended o
      → Runs (k []) T
      → T (collect k [] o)
  collect-Ended T k (ok u, p) h s = s p h
  collect-Ended T k (err e, p) h s = absurd h
  collect-Ended T k (panic, p) h s = absurd h
