-- ===== src/Forge/Laws/Validating.antt =====
-- validateProjectPublication: what it finds out, with the files as they were.
use go_api_scaffolding.Common.{
  ◌≡◌, refl, sym, ap, subst, ◌∙◌, inl, inr, Bool, true, false, ◌||◌, Bytes, codes, List, [], ◌∷◌,
  Option, none, some, any, same, same_sound, Bool-cases, All, if◌then◌else◌, arith,
}
use go_api_scaffolding.Errors.{wrap, rejected, err}
use go_api_scaffolding.Forge.Paths.{is_local}
use go_api_scaffolding.Forge.Changes.{File, Files}
use go_api_scaffolding.Forge.Publication.{
  Entries, Journal, Project, Act, io_error, check, ◌⨾◌, stop, names, listed,
}
use go_api_scaffolding.Forge.Recovery.{
  same_file, read_entry, read_entries, read_project_files, lookup, compare_files, refuse_entry,
  refuse_untracked, same_paths, validate_project_publication,
}
use go_api_scaffolding.Forge.Laws.Triples.{Pred, Post, Triple, Post-weaken, seq, if-Post}
use go_api_scaffolding.Forge.Laws.Loops.{And, Written, Gone, checked, same-sym}
use go_api_scaffolding.Forge.Laws.Recovering.{as_it_was-Holds}

-- What the publication relies on: the originals are as they were read, and new names are free.
abbrev pub Facts : Entries → Entries → Files → Type 0
Facts before after orig = Written before orig × Gone (names before) (names after) orig

-- A predicate on a project whose files are the original ones.
abbrev pub AsWas : Files → (Option Journal → Type 0) → Pred
AsWas orig X f j = (f ≡ orig) × X j

abbrev Reads : Files → List Bytes → Entries → Type 0
Reads orig ns current = (n : Bytes) → listed n ns ≡ true → orig n ≡ some (lookup n current)

listed-other :
    (m n : Bytes) (ns : List Bytes)
    → same n m ≡ false
    → listed m (n ∷ ns) ≡ true
    → listed m ns ≡ true
listed-other m n ns h l = by_test (same m n) (any (same m) ns) (same-sym n m h) l
  where
    by_test : (a b : Bool) → a ≡ false → (a || b) ≡ true → b ≡ true
    by_test a b h k = ground arith

Reads-ahead :
    (orig : Files) (n : Bytes) (file : File) (ns : List Bytes) (current : Entries)
    → orig n ≡ some file
    → Reads orig ns current
    → Reads orig (n ∷ ns) ((n, file) ∷ current)
unfolding lookup
Reads-ahead orig n file ns current o r m l = at m (same n m) refl l
  where
    at :
        (m : Bytes) (b : Bool)
        → same n m ≡ b
        → listed m (n ∷ ns) ≡ true
        → orig m ≡ some (if b then file else lookup m current)
    at m true e l = subst (λ z. orig z ≡ some file) (same_sound n m e) o
    at m false e l = r m (listed-other m n ns e l)

module _ (orig : Files) (X : Option Journal → Type 0) where
  private_entry :
      (Q : Pred) (n : Bytes) (k : File → Act)
      → ((file : File) → orig n ≡ some file → Triple (AsWas orig X) (k file) Q (AsWas orig X))
      → Triple (AsWas orig X) (read_entry n k) Q (AsWas orig X)
  private_entry Q n k t q g = by_file (q.files n) refl
    where
      by_file :
          (x : Option File)
          → q.files n ≡ x
          → Post Q (AsWas orig X) (elim x [ none ↦ (err io_error, q) | some file ↦ k file q ])
      by_file none e = g
      by_file (some file) e = t file (sym (ap (λ f. f n) g.0) ∙ e) q g

  read_files-Triple :
      (Q : Pred) (ns : List Bytes) (k : Entries → Act)
      → ((current : Entries)
          → Reads orig ns current
          → Triple (AsWas orig X) (k current) Q (AsWas orig X))
      → Triple (AsWas orig X) (read_entries ns k) Q (AsWas orig X)
  unfolding read_entries
  read_files-Triple Q [] k t = t [] (λ n h. cc)
  read_files-Triple Q (n ∷ ns) k t = λ p h. elim (Bool-cases (is_local n)) [
    | inr e ↦ rw e h
    | inl e ↦ rw e (
        seq B B Q B check _ (checked B)
          (private_entry Q n (λ file. check ⨾ read_entries ns (λ es. k ((n, file) ∷ es)))
            (λ file o. seq B B Q B check _ (checked B) (
              read_files-Triple Q ns (λ es. k ((n, file) ∷ es))
                (λ current r. t ((n, file) ∷ current) (Reads-ahead orig n file ns current o r)))))
          p h)
  ]
    where
      B : Pred
      B = AsWas orig X

  compare_files-Triple :
      (paths : List Bytes) (current before : Entries)
      → Reads orig paths current
      → All (λ e. listed (e.0) paths ≡ true) before
      → Triple
          (AsWas orig X)
          (compare_files current before)
          (And (AsWas orig X) (λ f. Written before orig))
          (AsWas orig X)
  unfolding compare_files
  compare_files-Triple paths current [] r h = λ p g. (g, tt)
  compare_files-Triple paths current ((n, file) ∷ before) r h = λ p g.
      elim (Bool-cases (same_file (lookup n current) file)) [
        | inr e ↦ rw e g
        | inl e ↦ rw e (
            Post-weaken (And (AsWas orig X) (λ f. Written before orig)) (AsWas orig X)
              (And (AsWas orig X) (λ f. Written ((n, file) ∷ before) orig)) (AsWas orig X) _
              (λ f j (b, w). (b, (as_it_was-Holds (orig n) file (rw (r n h.0) e), w))) (λ f j b. b)
              (compare_files-Triple paths current before r h.1 p g))
      ]

  refuse_untracked-Triple :
      (before ns : List Bytes)
      → Triple
          (AsWas orig X)
          (refuse_untracked before ns)
          (And (AsWas orig X) (λ f. Gone before ns orig))
          (AsWas orig X)
  unfolding refuse_untracked
  refuse_untracked-Triple before [] = λ p g. (g, tt)
  refuse_untracked-Triple before (n ∷ ns) = λ p g.
      if-Post R B (listed n before) (refuse_untracked before ns)
        (check ⨾ refuse_entry n (refuse_untracked before ns)) p
        (λ e.
          Post-weaken (And B (λ f. Gone before ns orig)) B R B _ (λ f j (b, w). (b, (inl e, w)))
            (λ f j b. b) (refuse_untracked-Triple before ns p g))
        (λ e.
          seq B B R B check (refuse_entry n (refuse_untracked before ns)) (checked B)
            (λ q g.
              refused (refuse_untracked before ns) (refuse_untracked-Triple before ns) q g
                (q.files n) refl)
            p g)
    where
      B : Pred
      B = AsWas orig X

      R : Pred
      R = And B (λ f. Gone before (n ∷ ns) orig)

      refused :
          (k : Act)
          → Triple B k (And B (λ f. Gone before ns orig)) B
          → (q : Project) → B q.files q.journal
          → (x : Option File) → q.files n ≡ x
          → Post R B (elim x [
            | none ↦ k q
            | some file ↦ (err (wrap "setup would overwrite an untracked path" (rejected n)), q)
          ])
      refused k t q g none e =
          Post-weaken (And B (λ f. Gone before ns orig)) B R B _
            (λ f j (b, w). (b, (inr (sym (ap (λ f. f n) (g.0)) ∙ e), w))) (λ f j b. b) (t q g)
      refused k t q g (some file) e = g

  -- A validation that passes establishes the facts that the publication relies on.
  pub validate-Triple :
      (paths : List Bytes) (before after : Entries)
      → All (λ e. listed (e.0) paths ≡ true) before
      → Triple
          (AsWas orig X)
          (validate_project_publication paths before after)
          (And (AsWas orig X) (λ f. Facts before after orig))
          (AsWas orig X)
  unfolding validate_project_publication
  validate-Triple paths before after h = seq B B R B check _ (checked B) (λ p g.
      if-Post R B (same_paths paths p.tracked)
        (read_project_files paths
          (λ current. compare_files current before ⨾ refuse_untracked (names before) (names after)))
        (stop (rejected (codes "tracked project files changed"))) p
        (λ e.
          seq B B R B check _ (checked B)
            (read_files-Triple R paths
              (λ current.
                compare_files current before ⨾ refuse_untracked (names before) (names after))
              (λ current r.
                seq B (And B (λ f. Written before orig)) R B (compare_files current before) _
                  (compare_files-Triple paths current before r h)
                  (λ q (b, w).
                    Post-weaken (And B (λ f. Gone (names before) (names after) orig)) B R B _
                      (λ f j (c, z). (c, (w, z))) (λ f j c. c)
                      (refuse_untracked-Triple (names before) (names after) q b))))
            p g)
        (λ e. g))
    where
      B : Pred
      B = AsWas orig X

      R : Pred
      R = And B (λ f. Facts before after orig)
