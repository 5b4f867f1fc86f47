-- ===== src/Tasks/Jobs/Running.antt =====
-- How the handlers of jobs change the number of running tasks.
use packamal.Models.{AnalysisTask, running, submitted, has_status}
use packamal.Table.{get_row}
use packamal.Table.Counts.{count_if-save_row}
use packamal.Table.Ids.{get_row-id}
use packamal.Tasks.Jobs.{
  JobStatus, handle_failed_job, handle_running_job, when_submitted, job_failed, job_runs,
}
use packamal.Prelude.{ℕ, codes, some, List, ◌≡◌, true, text_eq, count_if, ◌+◌, arith, subst, sym}

module _ (now : ℕ) (status_result : JobStatus) (task_id : ℕ) (row : AnalysisTask)
    (ts : List AnalysisTask) (found : get_row task_id ts ≡ some row)
    (waits : has_status submitted row ≡ true) where
  own : row.id ≡ task_id
  own = get_row-id task_id row ts found

  own_row : get_row row.id ts ≡ some row
  own_row = subst (λ i. get_row i ts ≡ some row) (sym own) found

  -- For a task that is submitted, a failed job leaves the number of running tasks as it is, and a job
  -- that runs makes it one more, however many tasks are running.
  pub handle_jobs-running :
      (count_if (has_status running) (handle_failed_job now status_result task_id ts).1
        ≡ count_if (has_status running) ts)
      × (text_eq status_result.status (codes "running") ≡ true
          → count_if (has_status running) (handle_running_job status_result task_id ts).1
            ≡ count_if (has_status running) ts + 1)
  unfolding handle_failed_job handle_running_job
  handle_jobs-running = (
    rw (found, when_submitted)
        (rw waits (
          ground (
            arith,
            count_if-save_row (has_status running) (job_failed now status_result row) row ts
                own_row,
          ))),
    λ e. rw e (
        rw (found, when_submitted)
          (rw waits (
            ground (
              arith,
              count_if-save_row (has_status running) (job_runs status_result row) row ts own_row,
            )))),
  )
