-- ===== src/Tasks/Saves.antt =====
-- `_handle_cached_result`, `_handle_job_submission`, `_mark_task_failed`: what
-- `run_dynamic_analysis` writes after the task was prepared. Each reads the row again
-- (`refresh_from_db`, `get`), since other handlers may have changed it.
pub mod Rows
use packamal.Table.{get_row, save_row}
use packamal.Tasks.Outcome.{
  Exc, Outcome, error, Response, raise, does_not_exist, ret, job_submitted, cached_result, retry,
}
use packamal.Orm.{Orm}
use packamal.Prelude.{ℕ, Text, [], some, List, none, codes, length, leb, if◌then◌else◌}
use packamal.Models.{
  AnalysisTask, completed, submitted, failed, ErrorDetails, exception_details, no_details,
}

abbrev pub cached_task : ℕ → AnalysisTask → AnalysisTask
cached_task now row = record row { status = completed; completed_at = some now }

-- `duration_seconds` and `result`, which the handler also sets, are no columns of the table.
unfoldable pub handle_cached_result :
    ℕ → AnalysisTask → List AnalysisTask → Outcome Response × List AnalysisTask
handle_cached_result now task ts = elim (get_row task.id ts) [
  | none ↦ (raise does_not_exist, ts)
  | some row ↦ (ret (cached_result task.id), save_row (cached_task now row) ts)
]

abbrev pub submitted_task : Text → AnalysisTask → AnalysisTask
submitted_task job row = record row { job_id = some job; status = submitted }

-- `job_id` holds at most 50 characters: the save of a longer name raises `DataError`.
unfoldable pub handle_job_submission :
    ⦃orm : Orm⦄ → AnalysisTask → Text → ℕ → List AnalysisTask → Outcome Response × List AnalysisTask
handle_job_submission ⦃orm⦄ task job task_id ts = elim (get_row task.id ts) [
  | none ↦ (raise does_not_exist, ts)
  | some row ↦
      if leb (length job) 50
      then (ret (job_submitted task_id job), save_row (submitted_task job row) ts)
      else (raise (error orm.data_error none), ts)
]

abbrev pub message_of : Exc → Text
message_of retry = []
message_of (error message details) = message

-- `error_details.get('error_category', 'unknown_error')`
abbrev pub category_of : Exc → Text
category_of (error message (some (some category, rest))) = category
category_of _ = codes "unknown_error"

abbrev pub details_of : Exc → ErrorDetails
details_of (error message (some (category, rest))) = exception_details category rest
details_of _ = no_details

abbrev pub failed_task : ℕ → Exc → AnalysisTask → AnalysisTask
failed_task now e row = record row {
  status = failed;
  completed_at = some now;
  error_message = message_of e;
  error_category = category_of e;
  error_details = details_of e;
  queue_position = none;
}

-- A missing row raises, and the handler logs that.
unfoldable pub mark_task_failed : ℕ → ℕ → Exc → List AnalysisTask → List AnalysisTask
mark_task_failed now task_id e ts = elim (get_row task_id ts) [
  | none ↦ ts
  | some row ↦ save_row (failed_task now e row) ts
]
