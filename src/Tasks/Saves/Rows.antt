-- ===== src/Tasks/Saves/Rows.antt =====
-- The saves of `run_dynamic_analysis` by whether the row is still there.
use packamal.Table.{get_row, save_row}
use packamal.Tasks.Saves.{
  handle_cached_result, mark_task_failed, handle_job_submission, failed_task, cached_task,
  submitted_task,
}
use packamal.Tasks.Outcome.{Exc, error, raise, ret, does_not_exist, cached_result, job_submitted}
use packamal.Orm.{Orm}
use packamal.Prelude.{
  ℕ, Text, List, ◌≡◌, none, some, ◌≤◌, ◌<◌, length, leb, true, false, arith, refl,
}
use packamal.Models.{AnalysisTask}

module _ (now task_id : ℕ) (e : Exc) (ts : List AnalysisTask) where
  pub mark_task_failed-none : get_row task_id ts ≡ none → mark_task_failed now task_id e ts ≡ ts
  unfolding mark_task_failed
  mark_task_failed-none g = rw (g, mark_task_failed)

  pub mark_task_failed-some :
      (row : AnalysisTask)
      → get_row task_id ts ≡ some row
      → mark_task_failed now task_id e ts ≡ save_row (failed_task now e row) ts
  unfolding mark_task_failed
  mark_task_failed-some row g = rw (g, mark_task_failed)

module _ (now : ℕ) (task : AnalysisTask) (ts : List AnalysisTask) where
  pub handle_cached_result-none :
      get_row task.id ts ≡ none → handle_cached_result now task ts ≡ (raise does_not_exist, ts)
  unfolding handle_cached_result
  handle_cached_result-none g = rw (g, handle_cached_result)

  pub handle_cached_result-some :
      (row : AnalysisTask)
      → get_row task.id ts ≡ some row
      → handle_cached_result now task ts
        ≡ (ret (cached_result task.id), save_row (cached_task now row) ts)
  unfolding handle_cached_result
  handle_cached_result-some row g = rw (g, handle_cached_result)

module _ ⦃orm : Orm⦄ (task : AnalysisTask) (job : Text) (task_id : ℕ) (ts : List AnalysisTask) where
  pub handle_job_submission-none :
      get_row task.id ts ≡ none
      → handle_job_submission task job task_id ts ≡ (raise does_not_exist, ts)
  unfolding handle_job_submission
  handle_job_submission-none g = rw (g, handle_job_submission)

  pub handle_job_submission-some :
      (row : AnalysisTask)
      → get_row task.id ts ≡ some row
      → length job ≤ 50
      → handle_job_submission task job task_id ts
        ≡ (ret (job_submitted task_id job), save_row (submitted_task job row) ts)
  unfolding handle_job_submission
  handle_job_submission-some row g short =
      let fits : leb (length job) 50 ≡ true = ground arith in
      rw (g, handle_job_submission) (rw fits refl)

  pub handle_job_submission-long :
      (row : AnalysisTask)
      → get_row task.id ts ≡ some row
      → 50 < length job
      → handle_job_submission task job task_id ts ≡ (raise (error orm.data_error none), ts)
  unfolding handle_job_submission
  handle_job_submission-long row g long =
      let over : leb (length job) 50 ≡ false = ground arith in
      rw (g, handle_job_submission) (rw over refl)
