-- ===== src/Tasks/Run/Ends.antt =====
-- How `run_dynamic_analysis` ends: the task is handed to Kubernetes, waits, or is given up.
use packamal.Tasks.Reuse.{reuse_existing_result, get_cache_key}
use packamal.Execution.{RunResult, run_packaml}
use packamal.Tasks.Prepare.Slot.{check-completed, check-busy, check-new}
use packamal.Tasks.Prepare.{Returned, check_and_prepare_task, started}
use packamal.Tasks.Saves.Rows.{
  mark_task_failed-some, handle_job_submission-some, handle_job_submission-long,
}
use packamal.Tasks.Queue.Frame.{process_next-other}
use packamal.Tasks.Saves.{failed_task, message_of, submitted_task, handle_job_submission}
use packamal.Table.{get_row, exclude, save_row}
use packamal.Table.Ids.{UniqueIds, get_row-id, save_row-UniqueIds, get_row-save_row_self}
use packamal.World.{World}
use packamal.Prelude.{
  ℕ, Text, if◌then◌else◌, ltb, Option, ◌≡◌, some, refl, subst, sym, ap, ◌∙◌, any_of, List, false,
  arith, none, true, ◌<◌, ◌≤◌, length,
}
use packamal.Tasks.Run.{
  Env, on_exception, run_dynamic_analysis, on_prepared, job_of, on_hit, analyse, on_run, on_job,
  conclude,
}
use packamal.Tasks.Outcome.{
  Celery, Exc, max_retries, error, raise, Outcome, Response, too_many_values, retry,
  another_task_is_running, ret, job_submitted,
}
use packamal.Orm.{Orm}
use packamal.Models.{AnalysisTask, completed, has_status, running}

module _ ⦃orm : Orm⦄ ⦃celery : Celery⦄ (env : Env) (task_id retries now : ℕ) (w : World) where
  -- The exception that ends the attempt, if it was `e`.
  abbrev pub raised_for : Exc → Exc
  raised_for e = if ltb retries max_retries then celery.raised retries max_retries e else e

  -- An exception fails the task's row, whatever its status, and the queue moves on.
  pub on_exception_lem :
      (message : Text) (details : Option (Option Text × Text)) (row : AnalysisTask) (v : World)
      → UniqueIds v.tasks
      → get_row task_id v.tasks ≡ some row
      → let e = error message details in
        ((on_exception env task_id retries now e v).0 ≡ raise (raised_for e))
        × (get_row task_id (on_exception env task_id retries now e v).1.tasks
            ≡ some (failed_task now e row))
  unfolding on_exception
  on_exception_lem message details row v u g =
      let e = error message details in
      let marked = mark_task_failed-some now task_id e v.tasks row g in
      (
        refl,
        process_next-other env.accepts now _
            (subst UniqueIds (sym marked) (save_row-UniqueIds (failed_task now e row) v.tasks u))
            task_id (failed_task now e row)
            (ap (get_row task_id) marked
              ∙ get_row-save_row_self task_id (failed_task now e row) v.tasks
                  (get_row-id task_id row v.tasks g))
            refl,
      )

  abbrev pub check : Outcome Returned × List AnalysisTask
  check = check_and_prepare_task task_id retries now w.tasks

  abbrev pub run : Outcome (Option Response) × World
  run = run_dynamic_analysis env task_id retries now w

  pub run-of_check :
      (r : Outcome Returned) (ts : List AnalysisTask)
      → check ≡ (r, ts)
      → run ≡ on_prepared env task_id retries now r (record w { tasks = ts })
  unfolding run_dynamic_analysis
  run-of_check r ts e =
      ap
        (λ (c : Outcome Returned × List AnalysisTask).
          on_prepared env task_id retries now c.0 (record w { tasks = c.1 }))
        e

  -- In a table with distinct ids, a task that is delivered once more after it was completed,
  -- while no other task is running, is marked as failed: the three values that
  -- `_check_and_prepare_task` returns for it cannot be unpacked into two, and the exception
  -- handler saves that error over the completed row.
  pub run-completed_fails :
      (row : AnalysisTask)
      → UniqueIds w.tasks
      → get_row task_id w.tasks ≡ some row
      → row.status ≡ completed
      → any_of (has_status running) (exclude task_id w.tasks) ≡ false
      → (run.0 ≡ raise (raised_for too_many_values))
        × (get_row task_id run.1.tasks ≡ some (failed_task now too_many_values row))
  unfolding on_prepared
  run-completed_fails row u g done free =
      let e =
        run-of_check _ _ (check-completed task_id retries now w.tasks row g free (ground arith)) in
      let (outcome, saved) = on_exception_lem (message_of too_many_values) none row w u g in
      (ap (λ r. r.0) e ∙ outcome, ap (λ r. get_row task_id r.1.tasks) e ∙ saved)

  -- While another task is running and retries are left, the task raises `Retry` and changes
  -- nothing.
  pub run-busy_retries :
      (row : AnalysisTask)
      → get_row task_id w.tasks ≡ some row
      → any_of (has_status running) (exclude task_id w.tasks) ≡ true
      → retries < max_retries
      → run ≡ (raise retry, w)
  unfolding on_prepared
  run-busy_retries row g busy left =
      let again = celery.raised-left retries max_retries another_task_is_running left in
      run-of_check _ _ (check-busy task_id retries now w.tasks row g busy)
      ∙ (ap (λ x. on_prepared env task_id retries now (raise x) w) again ∙ refl)

  -- In a table with distinct ids, if another task is still running at the last attempt, the
  -- waiting task is marked as failed although it was never started.
  pub run-busy_fails :
      (row : AnalysisTask)
      → UniqueIds w.tasks
      → get_row task_id w.tasks ≡ some row
      → any_of (has_status running) (exclude task_id w.tasks) ≡ true
      → max_retries ≤ retries
      → (run.0 ≡ raise another_task_is_running)
        × (get_row task_id run.1.tasks ≡ some (failed_task now another_task_is_running row))
  unfolding on_prepared
  run-busy_fails row u g busy spent =
      let over = celery.raised-over retries max_retries another_task_is_running spent in
      let e =
        run-of_check _ _ (check-busy task_id retries now w.tasks row g busy)
        ∙ ap (λ x. on_prepared env task_id retries now (raise x) w) over in
      let (outcome, saved) = on_exception_lem (message_of another_task_is_running) none row w u g in
      let last : ltb retries max_retries ≡ false = ground arith in
      (
        ap (λ r. r.0) e
            ∙ (outcome
                ∙ ap raise (
                    ap
                      (λ b.
                        if b
                        then celery.raised retries max_retries another_task_is_running
                        else another_task_is_running)
                      last)),
        ap (λ r. get_row task_id r.1.tasks) e ∙ saved,
      )

  -- A task that starts a job ends as its job is recorded.
  run-of_job :
      (row row' : AnalysisTask) (results : RunResult) (job : Text)
      → let v = env.meanwhile (record w { tasks = save_row (started now row) w.tasks }) in
        let h = handle_job_submission (started now row) job task_id v.tasks in
        get_row task_id w.tasks ≡ some row
        → any_of (has_status running) (exclude task_id w.tasks) ≡ false
        → has_status completed row ≡ false
        → reuse_existing_result row (some task_id) w.tasks ≡ none
        → env.cached (get_cache_key row) ≡ false
        → run_packaml env.platform row.package_name row.package_version row.ecosystem task_id
          ≡ ret results
        → job_of results ≡ some job
        → get_row task_id v.tasks ≡ some row'
        → (run ≡ conclude env task_id retries now h.0 (record v { tasks = h.1 }))
          × (get_row (started now row).id v.tasks ≡ some row')
  unfolding on_prepared get_cache_key
  run-of_job row row' results job g free fresh unseen miss runs named g' =
      let task = started now row in
      let v = env.meanwhile (record w { tasks = save_row task w.tasks }) in
      (
        run-of_check _ _ (check-new task_id retries now w.tasks row g free fresh unseen)
            ∙ (ap
                  (λ b.
                    if b
                    then on_hit env task_id retries now task
                        (record w { tasks = save_row task w.tasks })
                    else analyse env task_id retries now task
                        (record w { tasks = save_row task w.tasks }))
                  miss
                ∙ (ap (λ r. on_run env task_id retries now task r v) runs
                    ∙ ap (λ j. on_job env task_id retries now task j v) named)),
        ap (λ k. get_row k v.tasks) (get_row-id task_id row w.tasks g) ∙ g',
      )

  pub run-submits :
      (row row' : AnalysisTask) (results : RunResult) (job : Text)
      → let v = env.meanwhile (record w { tasks = save_row (started now row) w.tasks }) in
        get_row task_id w.tasks ≡ some row
        → any_of (has_status running) (exclude task_id w.tasks) ≡ false
        → has_status completed row ≡ false
        → reuse_existing_result row (some task_id) w.tasks ≡ none
        → env.cached (get_cache_key row) ≡ false
        → run_packaml env.platform row.package_name row.package_version row.ecosystem task_id
          ≡ ret results
        → job_of results ≡ some job
        → length job ≤ 50
        → UniqueIds v.tasks
        → get_row task_id v.tasks ≡ some row'
        → (run.0 ≡ ret (some (job_submitted task_id job)))
          × (get_row task_id run.1.tasks ≡ some (submitted_task job row'))
  unfolding on_prepared get_cache_key
  run-submits row row' results job g free fresh unseen miss runs named short u g' =
      let task = started now row in
      let v = env.meanwhile (record w { tasks = save_row task w.tasks }) in
      let (found, here) = run-of_job row row' results job g free fresh unseen miss runs named g' in
      let id' = get_row-id task_id row' v.tasks g' in
      let e =
        found
        ∙ ap
            (λ (h : Outcome Response × List AnalysisTask).
              conclude env task_id retries now h.0 (record v { tasks = h.1 }))
            (handle_job_submission-some task job task_id v.tasks row' here short) in
      (
        ap (λ r. r.0) e,
        ap (λ r. get_row task_id r.1.tasks) e
            ∙ process_next-other env.accepts now _
                (save_row-UniqueIds (submitted_task job row') v.tasks u) task_id
                (submitted_task job row')
                (get_row-save_row_self task_id (submitted_task job row') v.tasks id') refl,
      )

  pub run-unsaved_job :
      (row row' : AnalysisTask) (results : RunResult) (job : Text)
      → let v = env.meanwhile (record w { tasks = save_row (started now row) w.tasks }) in
        let e = error orm.data_error none in
        get_row task_id w.tasks ≡ some row
        → any_of (has_status running) (exclude task_id w.tasks) ≡ false
        → has_status completed row ≡ false
        → reuse_existing_result row (some task_id) w.tasks ≡ none
        → env.cached (get_cache_key row) ≡ false
        → run_packaml env.platform row.package_name row.package_version row.ecosystem task_id
          ≡ ret results
        → job_of results ≡ some job
        → 50 < length job
        → UniqueIds v.tasks
        → get_row task_id v.tasks ≡ some row'
        → (run.0 ≡ raise (raised_for e))
          × (get_row task_id run.1.tasks ≡ some (failed_task now e row'))
  unfolding on_prepared get_cache_key
  run-unsaved_job row row' results job g free fresh unseen miss runs named long u g' =
      let (found, here) = run-of_job row row' results job g free fresh unseen miss runs named g' in
      let v = env.meanwhile (record w { tasks = save_row (started now row) w.tasks }) in
      let e =
        found
        ∙ ap
            (λ (h : Outcome Response × List AnalysisTask).
              conclude env task_id retries now h.0 (record v { tasks = h.1 }))
            (handle_job_submission-long (started now row) job task_id v.tasks row' here long) in
      let (outcome, saved) = on_exception_lem orm.data_error none row' v u g' in
      (ap (λ r. r.0) e ∙ outcome, ap (λ r. get_row task_id r.1.tasks) e ∙ saved)
