-- ===== src/Forge/Recovery.antt =====
-- cmd/forge/init_recovery.go: recoverProject; and the end of prepareProject (init_project.go), which
-- publishes the transformed files.
use go_api_scaffolding.Common.{
  ℕ, Bool, true, false, ◌&&◌, Bytes, codes, List, [], ◌∷◌, ◌++◌, Option, none, some, same, ◌==◌,
  if◌then◌else◌,
}
use go_api_scaffolding.Errors.{Error, wrap, rejected, join, ok, err, panic}
use go_api_scaffolding.Forge.Paths.{is_local}
use go_api_scaffolding.Forge.Changes.{File}
use go_api_scaffolding.Forge.Publication.{
  Entries, Outcome, Act, io_error, call, check, ◌⨾◌, stop, pass, remove, chmod, write_entries,
  write_project_files, names, listed, replace_project_files, discard_project_recovery, valid_names,
  read_project_recovery, activate_project_recovery, save_project_recovery,
}

abbrev pub same_file : File → File → Bool
same_file f g = same f.0 g.0 && f.1 == g.1

-- Is the file there as it was? The calls that find out may fail, and then it is written again.
abbrev pub as_it_was : Option File → File → Bool
as_it_was none file = false
as_it_was (some old) file = same_file old file

abbrev pub restored_already : File → Bytes → Act → Outcome → Outcome
restored_already file name k (ok u, p) = if as_it_was (p.files name) file then (ok tt, p) else k p
restored_already file name k (err e, p) = k p
restored_already file name k (panic, p) = (panic, p)

-- restoreProjectFile: the check of the parents, Lstat with ReadFile, and the write.
unfoldable pub restore_project_file : (ℕ → ℕ) → Bytes × File → Act
unfolding call write_entries
restore_project_file umask (name, file) = check ⨾ λ p.
    restored_already file name (write_project_files umask ((name, file) ∷ []) ⨾ chmod name file.1)
      (check p)

-- A step of the recovery goes on after an error, which is collected.
abbrev pub collect : (List Error → Act) → List Error → Outcome → Outcome
collect k errs (ok u, p) = k errs p
collect k errs (err e, p) = k (errs ++ e ∷ []) p
collect k errs (panic, p) = (panic, p)

unfoldable pub restore_all : (ℕ → ℕ) → Entries → List Error → (List Error → Act) → Act
unfolding restore_project_file
restore_all umask [] errs k p = k errs p
restore_all umask (e ∷ es) errs k p =
    collect (λ errs'. restore_all umask es errs' k) errs (restore_project_file umask e p)

unfoldable pub remove_all : List Bytes → List Bytes → List Error → (List Error → Act) → Act
unfolding call
remove_all before [] errs k p = k errs p
remove_all before (n ∷ ns) errs k p =
    if listed n before
    then remove_all before ns errs k p
    else collect (λ errs'. remove_all before ns errs' k) errs ((check ⨾ remove n) p)

abbrev pub finish : List Error → Act
finish [] = discard_project_recovery
finish (e ∷ errs) = stop (wrap "recovery incomplete" e)

-- The originals are read from the backup before a file is touched.
unfoldable pub read_backup : Entries → Act → Act
unfolding call
read_backup [] k = k
read_backup (e ∷ es) k =
    if is_local (e.0) then check ⨾ check ⨾ read_backup es k else stop (rejected (e.0))

unfoldable pub recover_project : (ℕ → ℕ) → Act
unfolding call read_backup restore_all remove_all discard_project_recovery valid_names
recover_project umask = read_project_recovery (λ j.
    if j.publishing
    then check
      ⨾ read_backup j.before
          (restore_all umask j.before [] (λ errs. remove_all (names j.before) j.after errs finish))
    else discard_project_recovery)

abbrev pub read_entry : Bytes → (File → Act) → Act
read_entry n k p = elim (p.files n) [ none ↦ (err io_error, p) | some file ↦ k file p ]

unfoldable pub read_entries : List Bytes → (Entries → Act) → Act
unfolding call
read_entries [] k = k []
read_entries (n ∷ ns) k =
    if is_local n
    then check ⨾ read_entry n (λ file. check ⨾ read_entries ns (λ es. k ((n, file) ∷ es)))
    else stop (rejected n)

-- readProjectFiles on the project: OpenRoot, and the loop.
abbrev pub read_project_files : List Bytes → (Entries → Act) → Act
read_project_files ns k = check ⨾ read_entries ns k

-- The entry of a map, and the zero value where there is none.
unfoldable pub lookup : Bytes → Entries → File
lookup name [] = ([], 0)
lookup name (e ∷ es) = if same (e.0) name then e.1 else lookup name es

unfoldable pub compare_files : Entries → Entries → Act
unfolding lookup
compare_files current [] = pass
compare_files current ((name, file) ∷ before) =
    if same_file (lookup name current) file
    then compare_files current before
    else stop (wrap "project changed during setup" (rejected name))

-- A new file may not be there already.
abbrev pub refuse_entry : Bytes → Act → Act
refuse_entry n k p = elim (p.files n) [
  | none ↦ k p
  | some file ↦ (err (wrap "setup would overwrite an untracked path" (rejected n)), p)
]

unfoldable pub refuse_untracked : List Bytes → List Bytes → Act
unfolding call
refuse_untracked before [] = pass
refuse_untracked before (n ∷ ns) =
    if listed n before
    then refuse_untracked before ns
    else check ⨾ refuse_entry n (refuse_untracked before ns)

unfoldable pub same_paths : List Bytes → List Bytes → Bool
same_paths [] [] = true
same_paths (a ∷ s) (b ∷ t) = same a b && same_paths s t
same_paths _ _ = false

unfoldable pub validate_project_publication : List Bytes → Entries → Entries → Act
unfolding call same_paths read_entries compare_files refuse_untracked
validate_project_publication paths before after = check ⨾ λ p.
    (if same_paths paths p.tracked
        then read_project_files paths (λ current.
          compare_files current before ⨾ refuse_untracked (names before) (names after))
        else stop (rejected (codes "tracked project files changed")))
      p

-- An error of a step, joined with the error of what is done about it.
abbrev pub join_outcome : Error → Outcome → Outcome
join_outcome e (ok u, p) = (err e, p)
join_outcome e (err f, p) = (err (join e f), p)
join_outcome e (panic, p) = (panic, p)

abbrev pub or_else : Act → Act → Outcome → Outcome
or_else k undo (ok u, p) = k p
or_else k undo (err e, p) = join_outcome e (undo p)
or_else k undo (panic, p) = (panic, p)

-- The end of prepareProject, from the first validation on.
unfoldable pub publish : (ℕ → ℕ) → List Bytes → Entries → Entries → Act
unfolding validate_project_publication save_project_recovery activate_project_recovery
    replace_project_files recover_project discard_project_recovery
publish umask paths before after =
    validate_project_publication paths before after
    ⨾ save_project_recovery before (names after)
    ⨾ λ p.
        or_else
          (activate_project_recovery ⨾ λ q.
            or_else discard_project_recovery (recover_project umask)
              (replace_project_files umask before after q))
          discard_project_recovery (validate_project_publication paths before after p)
