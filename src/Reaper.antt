-- ===== src/Reaper.antt =====
-- internal/maintenance/reaper.go: one pass over the tasks. The log lines are left out, and so is the
-- ticker that runs a pass at the start and after every interval.
pub mod Laws
use go_api_scaffolding.Common.{ℕ, Bytes, List, [], ◌∷◌}
use go_api_scaffolding.Db.{M, pure, attempt, ◌>>◌}

pub record Task : Type 0 where
  pub name : Bytes
  pub run : M ℕ

unfoldable pub run_tasks : List Task → M (Unit {0})
run_tasks [] = pure tt
run_tasks (task ∷ tasks) = attempt task.run >> run_tasks tasks
