-- ===== src/Tasks/Jobs.antt =====
-- tasks.py: the handlers that nothing calls yet, those of the reconciliation and of a direct
-- execution.
pub mod Running
use packamal.Models.{AnalysisTask, submitted, running, failed, has_status}
use packamal.Table.{get_row, save_row}
use packamal.Tasks.Outcome.{Exc, Outcome, ret, raise, error, does_not_exist}
use packamal.Prelude.{ℕ, Text, codes, Option, none, some, List, text_eq, if◌then◌else◌}

-- The keys of `status_result` that are read.
pub record JobStatus : Type 0 where
  pub status : Text
  pub started_at : Option ℕ
  pub completed_at : Option ℕ
  pub error : Option Text

-- `status_result.get(key) or default`
abbrev pub or_default {ℓ} : {A : Type ℓ} → A → Option A → A
or_default default none = default
or_default default (some a) = a

abbrev pub job_failed : ℕ → JobStatus → AnalysisTask → AnalysisTask
job_failed now status_result row = record row {
  status = failed;
  completed_at = some (or_default now status_result.completed_at);
  error_message = or_default (codes "Analysis job failed") status_result.error;
  error_category = codes "k8s_job_failed";
}

abbrev pub job_runs : JobStatus → AnalysisTask → AnalysisTask
job_runs status_result row = record row {
  status = running;
  started_at = elim status_result.started_at [ none ↦ row.started_at | some t ↦ some t ];
}

-- `task.refresh_from_db()` and a save if the task is submitted.
unfoldable pub when_submitted :
    (AnalysisTask → AnalysisTask) → ℕ → List AnalysisTask → Outcome (Unit {0}) × List AnalysisTask
when_submitted change task_id ts = elim (get_row task_id ts) [
  | none ↦ (raise does_not_exist, ts)
  | some row ↦ (ret tt, if has_status submitted row then save_row (change row) ts else ts)
]

-- The statistics count one failed task more unless this raises.
unfoldable pub handle_failed_job :
    ℕ → JobStatus → ℕ → List AnalysisTask → Outcome (Unit {0}) × List AnalysisTask
unfolding when_submitted
handle_failed_job now status_result task_id ts =
    when_submitted (job_failed now status_result) task_id ts

unfoldable pub handle_running_job :
    JobStatus → ℕ → List AnalysisTask → Outcome (Unit {0}) × List AnalysisTask
unfolding when_submitted
handle_running_job status_result task_id ts =
    if text_eq status_result.status (codes "running")
    then when_submitted (job_runs status_result) task_id ts
    else (ret tt, ts)

-- `from .views import save_report`, before anything else: views.py has no such name.
abbrev pub import_error : Exc
import_error = error (codes "cannot import name 'save_report' from 'package_analysis.views'") none

unfoldable pub save_task_results : {A : Type 0} → AnalysisTask → Text → Outcome A
save_task_results task results = raise import_error

unfoldable pub handle_succeeded_job : {A : Type 0} → AnalysisTask → JobStatus → Outcome A
handle_succeeded_job task status_result = raise import_error

abbrev pub beat : ℕ → AnalysisTask → AnalysisTask
beat now row = record row { last_heartbeat = some now }

-- `set` is `cache.set(key, results, timeout=...)` on a state C. The exception comes last.
unfoldable pub handle_direct_execution_completion :
    {A C : Type 0} (set : Text → Text → C → C) (now : ℕ)
    → AnalysisTask
    → (results cache_key : Text) → List AnalysisTask
    → C
    → Outcome A × List AnalysisTask × C
unfolding save_task_results
handle_direct_execution_completion set now task results cache_key ts c = elim (get_row task.id ts) [
  | none ↦ (raise does_not_exist, ts, c)
  | some row ↦ (
    save_task_results row results,
    if has_status running row then save_row (beat now row) ts else ts,
    set cache_key results c,
  )
]
