-- ===== src/Tasks/Prepare.antt =====
-- `_check_and_prepare_task`, one transaction on the table.
pub mod Slot
use packamal.Table.{get_row, exclude, save_row}
use packamal.Tasks.Reuse.{mark_task_completed_from_existing, reuse_existing_result}
use packamal.Tasks.Outcome.{
  Response, Celery, Outcome, raise, does_not_exist, max_retries, another_task_is_running, ret,
  already_completed, reused_result, error,
}
use packamal.Orm.{Orm}
use packamal.Prelude.{ℕ, Option, some, none, Bool, List, if◌then◌else◌, any_of, false}
use packamal.Models.{AnalysisTask, Status, running, completed, has_status}

-- Python returns a tuple: two values on two of the paths and three on the path where the task is
-- completed already.
pub data Returned : Type 0 where
  pair : Option AnalysisTask → Option Response → Returned
  triple : Option AnalysisTask → Bool → Response → Returned

-- The task as it is saved when it may run.
abbrev pub started : ℕ → AnalysisTask → AnalysisTask
started now task = record task {
  status = running;
  started_at = some now;
  queue_position = none;
  last_heartbeat = some now;
}

module _ ⦃orm : Orm⦄ ⦃celery : Celery⦄ where
  unfoldable pub prepare_found :
      ℕ → ℕ → ℕ → AnalysisTask → List AnalysisTask → Outcome Returned × List AnalysisTask
  unfolding mark_task_completed_from_existing
  prepare_found task_id retries now task ts =
      if any_of (has_status running) (exclude task_id ts)
      then (raise (celery.raised retries max_retries another_task_is_running), ts)
      else if has_status completed task
      then (ret (triple none false (already_completed task_id)), ts)
      else elim (reuse_existing_result task (some task_id) ts) [
        | some existing ↦ elim (mark_task_completed_from_existing now task existing ts) [
          | none ↦ (raise (error orm.integrity_error none), ts)
          | some ts' ↦ (ret (pair none (some (reused_result task_id))), ts')
        ]
        | none ↦ (ret (pair (some (started now task)) none), save_row (started now task) ts)
      ]

  unfoldable pub check_and_prepare_task :
      ℕ → ℕ → ℕ → List AnalysisTask → Outcome Returned × List AnalysisTask
  unfolding prepare_found
  check_and_prepare_task task_id retries now ts = elim (get_row task_id ts) [
    | none ↦ (raise does_not_exist, ts)
    | some task ↦ prepare_found task_id retries now task ts
  ]
