-- ===== src/Forge/Changes.antt =====
-- cmd/forge/resource.go: applyChanges and writeChange, on a file system whose operations may fail.
use go_api_scaffolding.Common.{
  ℕ, Bool, true, false, not, ◌&&◌, Bytes, List, [], ◌∷◌, Option, none, some, same, if◌then◌else◌,
}
use go_api_scaffolding.Errors.{Error, cause, failed, wrap, join_all}

-- A regular file: its bytes and its permissions.
abbrev pub File : Type 0
File = Bytes × ℕ

abbrev pub Files : Type 0
Files = Bytes → Option File

pub record Change : Type 0 where
  pub path : Bytes
  pub content : Bytes
  pub previous : Bytes
  pub mode : ℕ
  pub exists : Bool

-- The files under the project, and which of the operations to come fail: those that write, and
-- those that take a write back. After the end of a list every operation works. Directories and
-- the temporary files are left out, and an operation that
-- fails while a write is taken back leaves the file as it is.
pub record Disk : Type 0 where
  pub files : Files
  pub fails : List Bool
  pub undo_fails : List Bool

abbrev pub put : Bytes → Option File → Files → Files
put path file files p = if same path p then file else files p

abbrev pub works : List Bool → Bool
works [] = true
works (f ∷ fs) = not f

abbrev pub later : List Bool → List Bool
later [] = []
later (f ∷ fs) = fs

-- An operation that writes, an operation that takes a write back, and what follows.
abbrev pub try : {A : Type 0} → Disk → (Bool → Disk → A) → A
try d k = k (works d.fails) (record d { fails = later d.fails })

abbrev pub try_undo : {A : Type 0} → Disk → (Bool → Disk → A) → A
try_undo d k = k (works d.undo_fails) (record d { undo_fails = later d.undo_fails })

-- What a call answers: none is nil.
abbrev pub Answer : Type 0
Answer = Option Error × Disk

abbrev pub io_error : Error
io_error = cause failed

-- The end of writing a new file: a failed write is removed again, if that works.
abbrev pub end_new : Change → Bool → Disk → Answer
end_new c true d = (none, d)
end_new c false d = try_undo d (λ removed e.
    (some io_error, if removed then record e { files = put c.path none e.files } else e))

abbrev pub open_new : Change → Option File → Bool → Disk → Answer
open_new c none true d =
    try (record d { files = put c.path (some (c.content, c.mode)) d.files })
      (λ written e. try e (λ closed f. end_new c (written && closed) f))
open_new c none false d = (some io_error, d)
open_new c (some file) opened d = (some io_error, d)

-- O_EXCL refuses a path that is taken.
abbrev pub write_new : Change → Disk → Answer
write_new c d = try d (λ opened e. open_new c (e.files c.path) opened e)

-- The temporary file is renamed over the old one at the end.
abbrev pub rename : Change → Bool → Disk → Answer
rename c true d = (none, record d { files = put c.path (some (c.content, c.mode)) d.files })
rename c false d = (some io_error, d)

-- The temporary file is made, given its permissions, written and closed before.
abbrev pub replace : Change → Disk → Answer
replace c d = try d (λ created e.
    if not created
    then (some io_error, e)
    else try e (λ changed f.
      if not changed
      then (some io_error, f)
      else try f (λ written g.
        try g (λ closed h. if written && closed then try h (rename c) else (some io_error, h)))))

unfoldable pub write_change : Change → Disk → Answer
write_change c d = try d (λ made e.
    if made then (if c.exists then replace c e else write_new c e) else (some io_error, e))

-- One step of the rollback: an old file is written again with the permissions that it has, a new
-- one is removed.
abbrev pub restored : Change → Option File → Option File
restored c none = some (c.previous, c.mode)
restored c (some file) = some (c.previous, file.1)

abbrev pub undo : Change → Files → Files
undo c files = put c.path (if c.exists then restored c (files c.path) else none) files

-- The rollback, the last change first, with the errors of its steps.
unfoldable pub rollback : List Change → Disk → List Error × Disk
rollback [] d = ([], d)
rollback (c ∷ applied) d = try_undo d (λ done e.
    let (errs, f) = rollback applied (if done then record e { files = undo c e.files } else e) in
    (if done then errs else wrap "rollback" io_error ∷ errs, f))

abbrev pub rolled_back : Error → List Error × Disk → Answer
rolled_back e (errs, d) = (join_all (e ∷ errs), d)

-- The loop; `applied` lists the changes made so far, the last one first.
abbrev pub next_change : List Change → (Disk → Answer) → Answer → Answer
next_change applied rest (none, d) = rest d
next_change applied rest (some e, d) = rolled_back e (rollback applied d)

unfoldable pub apply_from : List Change → List Change → Disk → Answer
unfolding rollback
apply_from applied [] d = (none, d)
apply_from applied (c ∷ changes) d =
    next_change applied (apply_from (c ∷ applied) changes) (write_change c d)

unfoldable pub apply_changes : List Change → Disk → Answer
apply_changes changes d = apply_from [] changes d
