-- ===== src/Forge/Laws/Adding.antt =====
-- addResource: what it leaves in the checkout.
use go_api_scaffolding.Common.{
  ◌≡◌, refl, sym, ap, ◌∙◌, subst, ◌⊎◌, inl, inr, Bool, true, false, not, ◌&&◌, ◌||◌, Bytes, String,
  List, [], ◌∷◌, ◌++◌, Option, none, some, map, All, same, if◌then◌else◌,
}
use go_api_scaffolding.Errors.{Error, Result, ok, err, panic}
use go_api_scaffolding.Forge.Edits.{then_ok}
use go_api_scaffolding.Forge.Names.{Resource}
use go_api_scaffolding.Forge.Versions.{next_migration_version}
use go_api_scaffolding.Forge.Migrations.{validate_resource_table}
use go_api_scaffolding.Forge.Checks.{validate_resource_name}
use go_api_scaffolding.Forge.Changes.{File, Files, Change, Disk, Answer, works, later, io_error}
use go_api_scaffolding.Forge.Laws.Writes.{Prepared}
use go_api_scaffolding.Forge.Laws.Changes.{all_written, AreReady, apply_changes-AllOrNone}
use go_api_scaffolding.Forge.Adding.{
  Node, absent, directory, linked, special, unreadable, reject_linked_parents, formatted,
  unix_lines, Checkout, Workspace, Added, targets, shared_files, refuse_taken, regular, read_file,
  prepare_target, prepare_shared, prepare_all, prepare, make_changes, release, note_lock, with_lock,
  lock_error, checked, add_resource,
}

-- What holds of an answer, when there is one; and of the answer of a chain.
abbrev Gives : {A : Type 0} → (A → Type 0) → Result A → Type 0
Gives {A} P r = (a : A) → r ≡ ok a → P a

then_ok-Gives :
    {A B : Type 0} (P : B → Type 0) (r : Result A) (next : A → Result B)
    → ((a : A) → r ≡ ok a → Gives P (next a))
    → Gives P (then_ok r next)
then_ok-Gives P (ok a) next h b e = h a refl b e
then_ok-Gives P (err x) next h b e = cc
then_ok-Gives P panic next h b e = cc

ok-injective : {A : Type 0} {a b : A} → ok a ≡ ok b → a ≡ b
ok-injective e = cc

-- A change is to a new file at a path that is free, or to a file as it is.
abbrev pub Fits : Files → Change → Type 0
Fits files c =
    ((c.exists ≡ false) × (files c.path ≡ none)) ⊎ (files c.path ≡ some (c.previous, c.mode))

abbrev Meets : Files → Bytes → Change → Type 0
Meets files path c = (c.path ≡ path) × Fits files c

refuse_taken-free : (o : Option File) (node : Node) → refuse_taken o node ≡ ok tt → o ≡ none
refuse_taken-free (some file) node h = cc
refuse_taken-free none node h = refl

regular-found :
    (o : Option File) (node : Node) (file : File) → regular o node ≡ ok file → o ≡ some file
regular-found (some file) node got h = ap some (ok-injective h)
regular-found none absent got h = cc
regular-found none directory got h = cc
regular-found none linked got h = cc
regular-found none special got h = cc
regular-found none (unreadable e) got h = cc

read_file-same : (o : Option Error) (file got : File) → read_file o file ≡ ok got → file ≡ got
read_file-same none file got h = ok-injective h
read_file-same (some e) file got h = cc

prepare_target-Meets :
    (c : Checkout) (files : Files) (res : Resource) (x : String × Bytes)
    → Gives (Meets files x.1) (prepare_target c files res x)
prepare_target-Meets c files res (template, path) =
    then_ok-Gives (Meets files path) (reject_linked_parents c files path) _ (λ _ _.
      then_ok-Gives (Meets files path) (refuse_taken (files path) (c.nodes path)) _ (λ _ free.
        then_ok-Gives (Meets files path) (c.tools.render template res) _ (λ text _.
          then_ok-Gives (Meets files path) (formatted c.tools path text) _ (λ out _ ch e.
            subst (Meets files path) (ok-injective e)
              (refl, inl (refl, refuse_taken-free (files path) (c.nodes path) free))))))

prepare_shared-Meets :
    (c : Checkout) (files : Files) (res : Resource) (x : Bytes × (Bytes → Resource → Result Bytes))
    → Gives (Meets files x.0) (prepare_shared c files res x)
prepare_shared-Meets c files res (path, edit) =
    then_ok-Gives (Meets files path) (reject_linked_parents c files path) _ (λ _ _.
      then_ok-Gives (Meets files path) (regular (files path) (c.nodes path)) _ (λ file found.
        then_ok-Gives (Meets files path) (read_file (c.read_errors path) file) _ (λ got same_file.
          then_ok-Gives (Meets files path) (edit (unix_lines got.0) res) _ (λ after _ ch e.
            subst (Meets files path) (ok-injective e) (
              refl,
              inr (
                  regular-found (files path) (c.nodes path) file found
                  ∙ ap some (read_file-same (c.read_errors path) file got same_file)),
            )))))

-- The changes of a list of paths.
abbrev MeetAll : Files → List Bytes → List Change → Type 0
MeetAll files [] [] = Unit
MeetAll files [] (c ∷ cs) = ⊥
MeetAll files (p ∷ ps) [] = ⊥
MeetAll files (p ∷ ps) (c ∷ cs) = Meets files p c × MeetAll files ps cs

prepare_all-MeetAll :
    {A : Type 0} (files : Files) (path_of : A → Bytes) (f : A → Result Change)
    → ((x : A) → Gives (Meets files (path_of x)) (f x))
    → (xs : List A) → Gives (MeetAll files (map path_of xs)) (prepare_all f xs)
unfolding prepare_all
prepare_all-MeetAll files path_of f each [] = λ cs e. subst (MeetAll files []) (ok-injective e) tt
prepare_all-MeetAll files path_of f each (x ∷ xs) =
    then_ok-Gives (MeetAll files (path_of x ∷ map path_of xs)) (f x) _ (λ c made.
      then_ok-Gives (MeetAll files (path_of x ∷ map path_of xs)) (prepare_all f xs) _
        (λ cs rest all e.
          subst (MeetAll files (path_of x ∷ map path_of xs)) (ok-injective e)
            (each x c made, prepare_all-MeetAll files path_of f each xs cs rest)))

MeetAll-append :
    (files : Files) (ps qs : List Bytes) (cs ds : List Change)
    → MeetAll files ps cs
    → MeetAll files qs ds
    → MeetAll files (ps ++ qs) (cs ++ ds)
MeetAll-append files [] qs [] ds h k = k
MeetAll-append files [] qs (c ∷ cs) ds h k = absurd h
MeetAll-append files (p ∷ ps) qs [] ds h k = absurd h
MeetAll-append files (p ∷ ps) qs (c ∷ cs) ds (h, hs) k = (h, MeetAll-append files ps qs cs ds hs k)

-- The paths that a resource is written to.
abbrev pub paths : Checkout → Resource → Bytes → List Bytes
paths c res version = map (λ t. t.1) (targets res version) ++ map (λ s. s.0) (shared_files c.tools)

abbrev Planned : Checkout → Resource → Files → List Change → Type 0
Planned c res files cs = (version : Bytes) × MeetAll files (paths c res version) cs

prepare-Planned :
    (c : Checkout) (res : Resource) (files : Files)
    → Gives (Planned c res files) (prepare c res files)
unfolding prepare
prepare-Planned c res files =
    then_ok-Gives (Planned c res files) (next_migration_version c.migrations) _ (λ version _.
      then_ok-Gives (Planned c res files) (validate_resource_table res.table c.migrations) _ (λ _ _.
        then_ok-Gives (Planned c res files)
          (prepare_all (prepare_target c files res) (targets res version)) _
          (λ new made.
            then_ok-Gives (Planned c res files)
              (prepare_all (prepare_shared c files res) (shared_files c.tools)) _
              (λ shared edits cs e. subst (Planned c res files) (ok-injective e) (
                version,
                MeetAll-append files (map (λ t. t.1) (targets res version))
                    (map (λ s. s.0) (shared_files c.tools)) new shared
                    (prepare_all-MeetAll files (λ t. t.1) (prepare_target c files res)
                      (prepare_target-Meets c files res) (targets res version) new made)
                    (prepare_all-MeetAll files (λ s. s.0) (prepare_shared c files res)
                      (prepare_shared-Meets c files res) (shared_files c.tools) shared edits),
              )))))

-- Paths that are pairwise different.
abbrev pub AreApart : List Bytes → Type 0
AreApart [] = Unit
AreApart (p ∷ ps) = All (λ q. same p q ≡ false) ps × AreApart ps

apart_from :
    (files : Files) (path : Bytes) (ps : List Bytes) (cs : List Change)
    → MeetAll files ps cs
    → All (λ q. same path q ≡ false) ps
    → All (λ d. same path d.path ≡ false) cs
apart_from files path [] [] m a = tt
apart_from files path [] (c ∷ cs) m a = absurd m
apart_from files path (p ∷ ps) [] m a = absurd m
apart_from files path (p ∷ ps) (c ∷ cs) ((e, f), m) (b, a) =
    (ap (same path) e ∙ b, apart_from files path ps cs m a)

MeetAll-AreReady :
    (files : Files) (ps : List Bytes) (cs : List Change)
    → AreApart ps
    → MeetAll files ps cs
    → AreReady files cs × All (Fits files) cs
MeetAll-AreReady files [] [] a m = (tt, tt)
MeetAll-AreReady files [] (c ∷ cs) a m = absurd m
MeetAll-AreReady files (p ∷ ps) [] a m = absurd m
MeetAll-AreReady files (p ∷ ps) (c ∷ cs) (b, a) ((e, f), m) =
    let (ready, fit) = MeetAll-AreReady files ps cs a m in
    (
      (
        prepared c f,
        apart_from files c.path ps cs m (subst (λ x. All (λ q. same x q ≡ false) ps) (sym e) b),
        ready,
      ),
      (f, fit),
    )
  where
    prepared : (c : Change) → Fits files c → Prepared files c
    prepared c (inl (new, free)) = inl new
    prepared c (inr there) = inr there

-- The end of the command: no error and the files after it, or an error and the files before it.
abbrev pub MadeOf : Checkout → Resource → Bool → Files → Files → Type 0
MadeOf c res dry_run before after =
    (changes : List Change) × (prepare c res before ≡ ok changes)
    × All (Fits before) changes
    × (after ≡ (if dry_run then before else all_written changes before))

abbrev pub Ended : Checkout → Resource → Bool → Files → Option Error → Files → Type 0
Ended c res dry_run before answer after =
    ((answer ≡ none) × MadeOf c res dry_run before after)
    ⊎ ((e : Error) × (answer ≡ some e) × (after ≡ before))

-- The paths of a resource are pairwise different, whatever its migration is called.
abbrev pub HasApartPaths : Checkout → Resource → Type 0
HasApartPaths c res = (version : Bytes) → AreApart (paths c res version)

make_changes-Ended :
    (c : Checkout) (res : Resource) (dry_run : Bool) (d : Disk) (r : Result (List Change))
    → prepare c res d.files ≡ r
    → d.undo_fails ≡ []
    → HasApartPaths c res
    → Ended c res dry_run d.files (make_changes dry_run r d).0 (make_changes dry_run r d).1.files
make_changes-Ended c res dry_run d (err x) p u a = inr (x, refl, refl)
make_changes-Ended c res dry_run d panic p u a = inr (io_error, refl, refl)
make_changes-Ended c res true d (ok changes) p u a =
    let (version, m) = prepare-Planned c res d.files changes p in
    inl (
      refl,
      (changes, p, (MeetAll-AreReady d.files (paths c res version) changes (a version) m).1, refl),
    )
make_changes-Ended c res false d (ok changes) p u a =
    let (version, m) = prepare-Planned c res d.files changes p in
    let (ready, fit) = MeetAll-AreReady d.files (paths c res version) changes (a version) m in
    elim (apply_changes-AllOrNone changes d ready u) [
      | inl (done, f) ↦ inl (done, (changes, p, fit, f))
      | inr failed ↦ inr failed
    ]

body-Ended :
    (c : Checkout) (res : Resource) (dry_run : Bool) (files : Files) (d : Disk)
    → d.files ≡ files
    → d.undo_fails ≡ []
    → HasApartPaths c res
    → let r = note_lock (λ d. make_changes dry_run (prepare c res d.files) d) d in
      Ended c res dry_run files r.0 r.1.files
body-Ended c res dry_run files d e u a = by_writes (works d.fails) (works (later d.fails))
  where
    last : Disk
    last = record d { fails = later (later d.fails) }

    by_writes :
        (written closed : Bool)
        → let r =
            if written && closed
            then make_changes dry_run (prepare c res last.files) last
            else (some io_error, last) in
          Ended c res dry_run files r.0 r.1.files
    by_writes true true =
        subst
          (λ f.
            Ended c res dry_run f (make_changes dry_run (prepare c res last.files) last).0
              (make_changes dry_run (prepare c res last.files) last).1.files)
          e (make_changes-Ended c res dry_run last (prepare c res last.files) refl u a)
    by_writes true false = inr (io_error, refl, e)
    by_writes false closed = inr (io_error, refl, e)

-- The end of the command, with what a success says of its checks and of the lock.
abbrev pub Settled : Checkout → Resource → Bool → Workspace → Added → Type 0
Settled c res dry_run w r =
    ((r.0 ≡ none)
      × (w.locked ≡ false)
      × (validate_resource_name c.unicode res c.declarations c.generated ≡ ok tt)
      × MadeOf c res dry_run w.disk.files r.1.disk.files)
    ⊎ ((e : Error) × (r.0 ≡ some e) × (r.1.disk.files ≡ w.disk.files))

pub add_resource-Settled :
    (c : Checkout) (res : Resource) (dry_run : Bool) (w : Workspace)
    → w.disk.undo_fails ≡ []
    → HasApartPaths c res
    → Settled c res dry_run w (add_resource c res dry_run w)
unfolding add_resource
add_resource-Settled c res dry_run w u a =
    by_check (validate_resource_name c.unicode res c.declarations c.generated) refl
  where
    Goal : Result {0} Unit → Added → Type 0
    Goal v r =
        ((r.0 ≡ none)
          × (w.locked ≡ false)
          × (v ≡ ok tt)
          × MadeOf c res dry_run w.disk.files r.1.disk.files)
        ⊎ ((e : Error) × (r.0 ≡ some e) × (r.1.disk.files ≡ w.disk.files))

    body : Disk → Answer
    body d = make_changes dry_run (prepare c res d.files) d

    next : Disk
    next = record w.disk { fails = later w.disk.fails }

    under_lock :
        (opened : Bool) (locked : Bool)
        → w.locked ≡ locked
        → Goal (ok tt) (
            if locked || not opened
            then (some lock_error, record w { disk = next })
            else release (note_lock body next))
    under_lock opened true e = inr (lock_error, refl, refl)
    under_lock false false e = inr (lock_error, refl, refl)
    under_lock true false e = elim (body-Ended c res dry_run w.disk.files next refl u a) [
      | inl (done, made) ↦ inl (done, e, refl, made)
      | inr failed ↦ inr failed
    ]

    by_check :
        (v : Result Unit)
        → validate_resource_name c.unicode res c.declarations c.generated ≡ v
        → Goal v (checked v (with_lock body w) w)
    by_check (ok _) e = under_lock (works w.disk.fails) w.locked refl
    by_check (err x) e = inr (x, refl, refl)
    by_check panic e = inr (io_error, refl, refl)
