-- ===== src/Forge/Publication.antt =====
-- cmd/forge/init_project.go and init_recovery.go: the publication of an initialized project over
-- the original files, with the recovery directory. Every call of the operating system may work, fail, or
-- be the last one of the process; a run of calls that change nothing counts as one. Directories and links are left out; the checks of them are calls.
-- A map from names to files is the list of its entries, in the order of the sorted names.
use go_api_scaffolding.Common.{
  ℕ, Bool, true, false, ◌&&◌, Bytes, codes, List, [], ◌∷◌, ◌++◌, map, Option, none, some, same, any,
  if◌then◌else◌,
}
use go_api_scaffolding.Errors.{Error, cause, failed, rejected, join, Result, ok, err, panic}
use go_api_scaffolding.Forge.Paths.{is_local, validate_recovery_path}
use go_api_scaffolding.Forge.Changes.{File, Files, put}

abbrev pub Entries : Type 0
Entries = List (Bytes × File)

-- What a call that does not work has done: nothing, all of it, or a part of the bytes of a write.
pub data Left : Type 0 where
  untouched done : Left
  partly : Bytes → Left

pub data Answer : Type 0 where
  works : Answer
  fails dies : Left → Answer

-- The recovery directory: recoveryManifest with the backup of the originals.
pub record Journal : Type 0 where
  pub publishing : Bool
  pub before : Entries
  pub after : List Bytes

-- The project's files, its recovery directory, what Git tracks, and the answers to the calls to
-- come; a call beyond the list works.
pub record Project : Type 0 where
  pub files : Files
  pub journal : Option Journal
  pub tracked : List Bytes
  pub answers : List Answer

-- A panic stands for the end of the process, at which nothing more runs.
abbrev pub Outcome : Type 0
Outcome = Result (Unit {0}) × Project

abbrev pub Act : Type 0
Act = Project → Outcome

abbrev pub io_error : Error
io_error = cause failed

abbrev pub done_or : Left → (Project → Project) → (Bytes → Project → Project) → Project → Project
done_or untouched f g p = p
done_or done f g p = f p
done_or (partly s) f g p = g s p

abbrev pub answered : Answer → (Project → Project) → (Bytes → Project → Project) → Project → Outcome
answered works f g p = (ok tt, f p)
answered (fails l) f g p = (err io_error, done_or l f g p)
answered (dies l) f g p = (panic, done_or l f g p)

-- A call: what it does, and what is left of a part of it.
unfoldable pub call : (Project → Project) → (Bytes → Project → Project) → Act
call f g p = elim (p.answers) [
  | [] ↦ (ok tt, f p)
  | a ∷ answers ↦ answered a f g (record p { answers = answers })
]

-- A call that changes nothing that the model has.
abbrev pub check : Act
check = call (λ p. p) (λ s p. p)

abbrev pub next : Act → Outcome → Outcome
next k (ok u, p) = k p
next k (err e, p) = (err e, p)
next k (panic, p) = (panic, p)

infixr 30 ◌⨾◌
abbrev pub ◌⨾◌ : Act → Act → Act
(a ⨾ b) p = next b (a p)

abbrev pub stop : Error → Act
stop e p = (err e, p)

abbrev pub pass : Act
pass p = (ok tt, p)

abbrev pub put_file : Bytes → Option File → Project → Project
put_file name file p = record p { files = put name file p.files }

-- os.Root.WriteFile: an old file keeps its mode, a new one gets what the umask leaves.
abbrev pub mode_of : (ℕ → ℕ) → File → Option File → ℕ
mode_of umask file none = umask file.1
mode_of umask file (some old) = old.1

abbrev pub write_bytes : (ℕ → ℕ) → Bytes → File → Bytes → Project → Project
write_bytes umask name file content p =
    put_file name (some (content, mode_of umask file (p.files name))) p

abbrev pub change_mode : ℕ → Option File → Option File
change_mode mode none = none
change_mode mode (some old) = some (old.0, mode)

abbrev pub chmod : Bytes → ℕ → Act
chmod name mode = call (λ p. put_file name (change_mode mode (p.files name)) p) (λ s p. p)

-- os.Remove: a file that is not there is no error.
abbrev pub remove : Bytes → Act
remove name = call (put_file name none) (λ s p. p)

-- One file of writeProjectFiles: the check of the parents, MkdirAll, Lstat, WriteFile and Chmod.
abbrev pub write_entry : (ℕ → ℕ) → Bytes × File → Act
write_entry umask (name, file) =
    if is_local name
    then check
      ⨾ check
      ⨾ check
      ⨾ call (λ p. write_bytes umask name file file.0 p) (λ s p. write_bytes umask name file s p)
      ⨾ chmod name file.1
    else stop (rejected name)

unfoldable pub write_entries : (ℕ → ℕ) → Entries → Act
write_entries umask [] = pass
write_entries umask (e ∷ es) = write_entry umask e ⨾ write_entries umask es

-- writeProjectFiles: OpenRoot, and the loop.
abbrev pub write_project_files : (ℕ → ℕ) → Entries → Act
write_project_files umask es = check ⨾ write_entries umask es

abbrev pub names : Entries → List Bytes
names entries = map (λ e. e.0) entries

abbrev pub listed : Bytes → List Bytes → Bool
listed name ns = any (same name) ns

-- The removals of replaceProjectFiles; the empty directories that they leave are left out.
unfoldable pub remove_missing : List Bytes → List Bytes → Act
remove_missing after [] = pass
remove_missing after (n ∷ ns) =
    if listed n after then remove_missing after ns else remove n ⨾ remove_missing after ns

unfoldable pub replace_project_files : (ℕ → ℕ) → Entries → Entries → Act
unfolding call write_entries remove_missing
replace_project_files umask before after =
    write_project_files umask after ⨾ remove_missing (names after) (names before)

-- discardProjectRecovery: MkdirTemp, Rename, and RemoveAll of the retired directory, whose error is joined.
abbrev pub no_journal : Project → Project
no_journal p = record p { journal = none }

abbrev pub joined_error : Error → Outcome → Outcome
joined_error e (ok u, p) = (err e, p)
joined_error e (err f, p) = (err (join e f), p)
joined_error e (panic, p) = (panic, p)

abbrev pub after_rename : Outcome → Outcome
after_rename (ok u, p) = check p
after_rename (err e, p) = joined_error e (check p)
after_rename (panic, p) = (panic, p)

abbrev pub has_journal : Act → Act
has_journal k p = elim (p.journal) [ none ↦ (err io_error, p) | some j ↦ k p ]

unfoldable pub discard_project_recovery : Act
unfolding call
discard_project_recovery = check ⨾ λ p. after_rename (has_journal (call no_journal (λ s q. q)) p)

-- readProjectRecovery: the manifest, whose names are checked again.
unfoldable pub valid_names : List Bytes → Bool
unfolding validate_recovery_path
valid_names [] = true
valid_names (n ∷ ns) = validate_recovery_path n && valid_names ns

abbrev pub journal_names : Journal → List Bytes
journal_names j = names j.before ++ j.after

abbrev pub with_journal : (Journal → Act) → Act
with_journal k p = elim (p.journal) [
  | none ↦ (err io_error, p)
  | some j ↦ if valid_names (journal_names j) then k j p else (err (rejected []), p)
]

abbrev pub read_project_recovery : (Journal → Act) → Act
read_project_recovery k = check ⨾ with_journal k

-- activateProjectRecovery: manifest.next is written, and renamed over the manifest.
abbrev pub activated : Journal → Project → Project
activated j p = record p { journal = some (record j { publishing = true }) }

unfoldable pub activate_project_recovery : Act
unfolding call valid_names
activate_project_recovery =
    read_project_recovery (λ j. check ⨾ check ⨾ call (activated j) (λ s p. p))

-- saveProjectRecovery: each original is persisted in a private directory, which is renamed last.
unfoldable pub persist_files : Entries → Act
unfolding call validate_recovery_path
persist_files [] = pass
persist_files (e ∷ es) =
    if validate_recovery_path (e.0) then check ⨾ persist_files es else stop (rejected (e.0))

unfoldable pub check_names : List Bytes → Act
unfolding validate_recovery_path
check_names [] = pass
check_names (n ∷ ns) = if validate_recovery_path n then check_names ns else stop (rejected n)

abbrev pub saved : Entries → List Bytes → Project → Project
saved before after p = record p {
  journal = some (record { publishing = false; before = before; after = after });
}

-- The private directory is removed at the end, and an error of that is joined.
abbrev pub and_clean : Outcome → Outcome
and_clean (ok u, p) = check p
and_clean (err e, p) = joined_error e (check p)
and_clean (panic, p) = (panic, p)

abbrev pub no_journal_yet : Act → Act
no_journal_yet k p = elim (p.journal) [
  | none ↦ k p
  | some j ↦ (err (rejected (codes "recovery backup exists")), p)
]

abbrev pub persist_backup : Entries → List Bytes → Act
persist_backup before after =
    persist_files before ⨾ check_names after ⨾ check ⨾ call (saved before after) (λ s q. q)

abbrev pub staged : Entries → List Bytes → Act
staged before after = check ⨾ λ p. and_clean (persist_backup before after p)

unfoldable pub save_project_recovery : Entries → List Bytes → Act
unfolding persist_files check_names call
save_project_recovery before after = check ⨾ no_journal_yet (staged before after)
