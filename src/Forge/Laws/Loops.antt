-- ===== src/Forge/Laws/Loops.antt =====
-- The loops of the publication: they write each of their files, and touch no other.
use go_api_scaffolding.Common.{
  ℕ, ◌≡◌, refl, sym, ap, subst, ◌∙◌, ◌⊎◌, inl, inr, Bool, true, false, ◌||◌, Bytes, List, [], ◌∷◌,
  Option, none, some, any, same, same_sound, same_refl, Bool-cases, All, arith,
}
use go_api_scaffolding.Forge.Paths.{is_local}
use go_api_scaffolding.Forge.Changes.{File, Files, put}
use go_api_scaffolding.Forge.Laws.Writes.{put-at}
use go_api_scaffolding.Forge.Publication.{
  Entries, Journal, put_file, write_bytes, mode_of, change_mode, chmod, remove, call, check,
  write_entry, write_entries, write_project_files, names, listed, remove_missing,
}
use go_api_scaffolding.Forge.Laws.Triples.{
  Pred, Triple, Post-weaken, seq, call-Triple, check-Triple,
}

-- What is put at a name does not take the predicate away.
abbrev pub Stable : Pred → Bytes → Type 0
Stable I n = (x : Option File) (f : Files) (j : Option Journal) → I f j → I (put n x f) j

abbrev pub Holds : Bytes → Option File → Files → Type 0
Holds n x f = f n ≡ x

abbrev pub And : Pred → (Files → Type 0) → Pred
And I G f j = I f j × G f

put-here : (n : Bytes) (x : Option File) (f : Files) → put n x f n ≡ x
put-here n x f = put-at n n x f true (same_refl n)

pub put-other : (n q : Bytes) (x : Option File) (f : Files) → same n q ≡ false → put n x f q ≡ f q
put-other n q x f h = put-at n q x f false h

keep : (I : Pred) → (f : Files) (j : Option Journal) → I f j → I f j
keep I f j h = h

pub checked : (I : Pred) → Triple I check I I
checked I = check-Triple I I (keep I)

pub chmod-Triple :
    (I : Pred) (n : Bytes) (file : File)
    → Stable I n
    → Triple
        (And I (λ f. (m : ℕ) × Holds n (some (file.0, m)) f))
        (chmod n file.1)
        (And I (Holds n (some file)))
        I
chmod-Triple I n file s =
    call-Triple _ _ _ (λ p. put_file n (change_mode file.1 (p.files n)) p) (λ b p. p)
      (λ p (h, (m, e)). (s _ p.files p.journal h, put-here n _ p.files ∙ ap (change_mode file.1) e))
      (λ p h. h.0) (λ p h. s _ p.files p.journal h.0) (λ b p h. h.0)

-- One file: at a normal end it stands there as it was given.
pub write_entry-Triple :
    (umask : ℕ → ℕ) (I : Pred) (n : Bytes) (file : File)
    → Stable I n
    → Triple I (write_entry umask (n, file)) (And I (Holds n (some file))) I
write_entry-Triple umask I n file s p h = elim (Bool-cases (is_local n)) [
  | inr e ↦ rw e h
  | inl e ↦ rw e (
      seq I I _ I check _ (checked I)
        (seq I I _ I check _ (checked I) (
          seq I I _ I check _ (checked I) (
            seq I (And I (λ f. (m : ℕ) × Holds n (some (file.0, m)) f)) _ I
              (call (λ p. write_bytes umask n file file.0 p) (λ b p. write_bytes umask n file b p))
              (chmod n file.1)
              (call-Triple _ _ _ _ _
                (λ p h.
                  (s _ p.files p.journal h, (mode_of umask file (p.files n), put-here n _ p.files)))
                (λ p h. h) (λ p h. s _ p.files p.journal h) (λ b p h. s _ p.files p.journal h))
              (chmod-Triple I n file s))))
        p h)
]

-- The names are pairwise different, as those of a map are.
unfoldable pub AreApart : Entries → Type 0
AreApart [] = Unit
AreApart (e ∷ es) = (listed (e.0) (names es) ≡ false) × AreApart es

-- Every entry stands in the files.
abbrev pub Written : Entries → Files → Type 0
Written es f = All (λ e. f (e.0) ≡ some (e.1)) es

pub same-sym : (a b : Bytes) → same a b ≡ false → same b a ≡ false
same-sym a b h = elim (Bool-cases (same b a)) [
  | inl e ↦ absurd (true_or_false (sym (same_refl a) ∙ (ap (same a) (sym (same_sound b a e)) ∙ h)))
  | inr e ↦ e
]
  where
    true_or_false : true ≡ false → ⊥
    true_or_false e = cc

-- A name that is listed is not one that is not.
pub listed-apart :
    (m n : Bytes) (ns : List Bytes) → listed m ns ≡ false → listed n ns ≡ true → same n m ≡ false
listed-apart m n [] h k = cc
listed-apart m n (x ∷ ns) h k = elim (Bool-cases (same n x)) [
  | inl e ↦
      subst (λ z. same z m ≡ false) (sym (same_sound n x e))
        (same-sym m x (front (same m x) (any (same m) ns) h))
  | inr e ↦
      listed-apart m n ns (back (same m x) (any (same m) ns) h)
        (other (same n x) (any (same n) ns) e k)
]
  where
    front : (a b : Bool) → (a || b) ≡ false → a ≡ false
    front a b h = ground arith

    back : (a b : Bool) → (a || b) ≡ false → b ≡ false
    back a b h = ground arith

    other : (a b : Bool) → a ≡ false → (a || b) ≡ true → b ≡ true
    other a b h k = ground arith

abbrev pub IsStable : Pred → List Bytes → Type 0
IsStable I ns = (n : Bytes) → listed n ns ≡ true → Stable I n

pub And-IsStable :
    (I : Pred) (m : Bytes) (x : Option File) (ns : List Bytes)
    → listed m ns ≡ false
    → IsStable I ns
    → IsStable (And I (Holds m x)) ns
And-IsStable I m x ns h s n k y f j (i, e) =
    (s n k y f j i, put-other n m y f (listed-apart m n ns h k) ∙ e)

pub head_listed : (n : Bytes) (ns : List Bytes) → listed n (n ∷ ns) ≡ true
head_listed n ns = rw (same_refl n) refl

pub tail_listed : (m n : Bytes) (ns : List Bytes) → listed n ns ≡ true → listed n (m ∷ ns) ≡ true
tail_listed m n ns h = rw h (or_true (same n m))
  where
    or_true : (b : Bool) → (b || true) ≡ true
    or_true b = ground arith

write_entries-Triple :
    (umask : ℕ → ℕ) (I : Pred) (es : Entries)
    → AreApart es
    → IsStable I (names es)
    → Triple I (write_entries umask es) (And I (Written es)) I
unfolding write_entries AreApart
write_entries-Triple umask I [] a s = λ p h. (h, tt)
write_entries-Triple umask I ((n, file) ∷ es) a s =
    let I' : Pred = And I (Holds n (some file)) in
    seq I I' _ I (write_entry umask (n, file)) _
      (write_entry-Triple umask I n file (s n (head_listed n (names es))))
      (λ p h.
        Post-weaken (And I' (Written es)) I' _ I _ (λ f j (b, w). (b.0, (b.1, w))) (λ f j b. b.0)
          (write_entries-Triple umask I' es a.1
            (And-IsStable I n (some file) (names es) a.0
              (λ m k. s m (tail_listed n m (names es) k)))
            p h))

-- writeProjectFiles: at a normal end every entry stands in the files.
pub write_project_files-Triple :
    (umask : ℕ → ℕ) (I : Pred) (es : Entries)
    → AreApart es
    → IsStable I (names es)
    → Triple I (write_project_files umask es) (And I (Written es)) I
write_project_files-Triple umask I es a s =
    seq I I _ I check (write_entries umask es) (checked I) (write_entries-Triple umask I es a s)

-- The names that are to go are gone.
abbrev pub Gone : List Bytes → List Bytes → Files → Type 0
Gone kept ns f = All (λ n. (listed n kept ≡ true) ⊎ (f n ≡ none)) ns

abbrev pub Removable : Pred → List Bytes → List Bytes → Type 0
Removable I kept ns =
    (n : Bytes)
    → listed n ns ≡ true
    → listed n kept ≡ false
    → (f : Files) (j : Option Journal) → I f j
    → I (put n none f) j

pub And-gone :
    (I : Pred) (m : Bytes) (kept ns : List Bytes)
    → Removable I kept ns
    → Removable (And I (Holds m none)) kept ns
And-gone I m kept ns s n k l f j (i, e) = (s n k l f j i, still (same n m) refl)
  where
    still : (b : Bool) → same n m ≡ b → put n none f m ≡ none
    still true h = put-at n m none f true h
    still false h = put-other n m none f h ∙ e

pub remove-Triple :
    (I : Pred) (n : Bytes)
    → ((f : Files) (j : Option Journal) → I f j → I (put n none f) j)
    → Triple I (remove n) (And I (Holds n none)) I
remove-Triple I n s =
    call-Triple _ _ _ (put_file n none) (λ b p. p)
      (λ p h. (s p.files p.journal h, put-here n none p.files)) (λ p h. h)
      (λ p h. s p.files p.journal h) (λ b p h. h)

-- The removals of replaceProjectFiles.
pub remove_missing-Triple :
    (I : Pred) (after ns : List Bytes)
    → Removable I after ns
    → Triple I (remove_missing after ns) (And I (Gone after ns)) I
unfolding remove_missing
remove_missing-Triple I after [] s = λ p h. (h, tt)
remove_missing-Triple I after (n ∷ ns) s = λ p h. elim (Bool-cases (listed n after)) [
  | inl e ↦ rw e (
      Post-weaken (And I (Gone after ns)) I (And I (Gone after (n ∷ ns))) I _
        (λ f j (b, w). (b, (inl e, w))) (λ f j b. b)
        (remove_missing-Triple I after ns (λ m k l. s m (tail_listed n m ns k) l) p h))
  | inr e ↦
      let I' : Pred = And I (Holds n none) in
      rw e (
        seq I I' _ I (remove n) _ (remove-Triple I n (s n (head_listed n ns) e))
          (λ q g.
            Post-weaken (And I' (Gone after ns)) I' _ I _ (λ f j (b, w). (b.0, (inr (b.1), w)))
              (λ f j b. b.0)
              (remove_missing-Triple I' after ns
                (And-gone I n after ns (λ m k l. s m (tail_listed n m ns k) l)) q g))
          p h)
]
