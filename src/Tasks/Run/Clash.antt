-- ===== src/Tasks/Run/Clash.antt =====
-- How `run_dynamic_analysis` ends for a task that has a result to reuse.
use packamal.Tasks.Reuse.Clash.{reuse_existing_result-clashes, mark-clashes}
use packamal.Tasks.Saves.{failed_task}
use packamal.Tasks.Run.Ends.{raised_for, run-of_check, on_exception_lem}
use packamal.Tasks.Reuse.{reuse_existing_result, mark_task_completed_from_existing}
use packamal.Table.{get_row, exclude}
use packamal.Table.Ids.{UniqueIds, get_row-id}
use packamal.Models.{AnalysisTask, has_status, running, completed}
use packamal.Tasks.Prepare.{check_and_prepare_task, prepare_found}
use packamal.World.{World}
use packamal.Tasks.Run.{Env, on_prepared, run_dynamic_analysis}
use packamal.Tasks.Outcome.{Celery, error, raise}
use packamal.Orm.{Orm}
use packamal.Prelude.{ℕ, ◌≡◌, some, ◌<◌, any_of, false, none, refl, arith, ap, ◌∙◌}

module _ ⦃orm : Orm⦄ ⦃celery : Celery⦄ (env : Env) (task_id retries now : ℕ) (w : World) where
  check-clash :
      (row e : AnalysisTask)
      → get_row task_id w.tasks ≡ some row
      → any_of (has_status running) (exclude task_id w.tasks) ≡ false
      → has_status completed row ≡ false
      → reuse_existing_result row (some task_id) w.tasks ≡ some e
      → mark_task_completed_from_existing now row e w.tasks ≡ none
      → check_and_prepare_task task_id retries now w.tasks
        ≡ (raise (error orm.integrity_error none), w.tasks)
  unfolding check_and_prepare_task prepare_found
  check-clash row e g free fresh found clash =
      rw (g, check_and_prepare_task)
        (rw (free, prepare_found) (rw fresh (rw found (rw clash refl))))

  -- In a table with distinct ids, a task with an id above zero that may start and has a result
  -- to reuse is marked as failed with the `IntegrityError` of the save: the report of the result
  -- belongs to another row.
  pub run-reuse_fails :
      (row e : AnalysisTask)
      → UniqueIds w.tasks
      → get_row task_id w.tasks ≡ some row
      → 0 < task_id
      → any_of (has_status running) (exclude task_id w.tasks) ≡ false
      → has_status completed row ≡ false
      → reuse_existing_result row (some task_id) w.tasks ≡ some e
      → let failure = error orm.integrity_error none in
        ((run_dynamic_analysis env task_id retries now w).0
          ≡ raise (raised_for env task_id retries now w failure))
        × (get_row task_id (run_dynamic_analysis env task_id retries now w).1.tasks
            ≡ some (failed_task now failure row))
  unfolding on_prepared
  run-reuse_fails row e u g pos free fresh found =
      let same = get_row-id task_id row w.tasks g in
      let clash =
        reuse_existing_result-clashes row e w.tasks (ground arith)
          (ap (λ i. reuse_existing_result row (some i) w.tasks) same ∙ found) in
      let path =
        run-of_check env task_id retries now w _ _
          (check-clash row e g free fresh found (mark-clashes now row e w.tasks clash)) in
      let (outcome, saved) =
        on_exception_lem env task_id retries now w orm.integrity_error none row w u g in
      (ap (λ r. r.0) path ∙ outcome, ap (λ r. get_row task_id r.1.tasks) path ∙ saved)
