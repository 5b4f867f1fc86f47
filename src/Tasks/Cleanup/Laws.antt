-- ===== src/Tasks/Cleanup/Laws.antt =====
-- `cleanup_old_tasks` deletes the old completed and failed tasks and no others.
use packamal.Prelude.{
  ℕ, Bool, List, ◌||◌, ◌≡◌, ◌&&◌, select, not, count_if, ◌-◌, ◌+◌, length, arith, ◌∷◌, [],
}
use packamal.Tasks.Cleanup.{cleanup_old_tasks, older, retention}
use packamal.Models.{AnalysisTask, completed, failed, has_status}

-- The task is completed or failed, and older than the retention.
abbrev pub expired : ℕ → AnalysisTask → Bool
expired now t = (has_status completed t || has_status failed t) && older (now - retention) t

-- What remains is the tasks that are not expired, in their order; the total is the number of rows
-- that are gone, and the sum of the two counts.
pub cleanup_old_tasks_lem :
    (now : ℕ) (ts : List AnalysisTask)
    → let (deleted, rest) = cleanup_old_tasks now ts in
      (rest ≡ select (λ t. not (expired now t)) ts)
      × (deleted.total ≡ count_if (expired now) ts)
      × (deleted.total + length rest ≡ length ts)
      × (deleted.total ≡ deleted.deleted_completed + deleted.deleted_failed)
unfolding cleanup_old_tasks
cleanup_old_tasks_lem now [] = ground arith
cleanup_old_tasks_lem now (t ∷ ts) = ground (arith, cleanup_old_tasks_lem now ts)
