-- ===== src/Reaper/Laws.antt =====
-- A task that fails does not stop the tasks after it.
use go_api_scaffolding.Common.{ℕ, ◌≡◌, refl, ◌∙◌, List, [], ◌∷◌, All}
use go_api_scaffolding.Errors.{Result, ok, err, panic}
use go_api_scaffolding.Db.{Session, caught, continue}
use go_api_scaffolding.Reaper.{Task, run_tasks}

-- A task that answers a number or an error, and does not panic.
abbrev pub IsCalm : Task → Type 0
IsCalm task = (s : Session) → ¬ ((task.run s).0 ≡ panic)

-- The session after every task has run once, in order.
abbrev pub after_all : List Task → Session → Session
after_all [] s = s
after_all (task ∷ tasks) s = after_all tasks (task.run s).1

caught-continue :
    (tasks : List Task) (r : Result ℕ) (s : Session)
    → ¬ (r ≡ panic)
    → continue (λ _. run_tasks tasks) (caught r s).0 (caught r s).1 ≡ run_tasks tasks s
caught-continue tasks (ok n) s calm = refl
caught-continue tasks (err e) s calm = refl
caught-continue tasks panic s calm = absurd (calm refl)

-- A pass over tasks that do not panic runs every one of them, once and in order, whatever errors
-- they answer, and ends without an error.
pub run_tasks-after_all :
    (tasks : List Task) (s : Session)
    → All IsCalm tasks
    → run_tasks tasks s ≡ (ok tt, after_all tasks s)
unfolding run_tasks
run_tasks-after_all [] s calm = refl
run_tasks-after_all (task ∷ tasks) s (quiet, calm) =
    caught-continue tasks (task.run s).0 (task.run s).1 (quiet s)
    ∙ run_tasks-after_all tasks (task.run s).1 calm
