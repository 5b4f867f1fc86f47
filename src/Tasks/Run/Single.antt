-- ===== src/Tasks/Run/Single.antt =====
-- `run_dynamic_analysis` keeps at most one task running.
use packamal.Tasks.Reuse.{get_cache_key}
use packamal.Tasks.Saves.Rows.{
  handle_job_submission-none, handle_job_submission-long, mark_task_failed-none,
  handle_cached_result-none, handle_cached_result-some, mark_task_failed-some,
  handle_job_submission-some,
}
use packamal.Table.Ids.{get_row-own}
use packamal.Table.{get_row}
use packamal.Tasks.Prepare.{Returned, triple, pair}
use packamal.Tasks.Queue.Frame.{process_next-UniqueIds, process_next-running}
use packamal.Execution.{RunResult}
use packamal.Tasks.Queue.{process_next_queued_task}
use packamal.Tasks.Saves.{
  mark_task_failed, handle_cached_result, handle_job_submission, failed_task, cached_task,
  submitted_task,
}
use packamal.Tasks.Prepare.Slot.{IsSingle, check_and_prepare_task-IsSingle, save_row-IsSingle}
use packamal.World.{World}
use packamal.Tasks.Run.{
  Env, on_exception, analyse, conclude, on_prepared, run_dynamic_analysis, on_run, on_hit, on_job,
}
use packamal.Tasks.Outcome.{
  Celery, Exc, Outcome, Response, error, ret, raise, retry, too_many_values, no_attribute,
}
use packamal.Orm.{Orm}
use packamal.Prelude.{
  length, arith, ℕ, Bool, List, Text, Option-cases, inl, inr, some, Option, none, refl, if-elim,
}
use native.Mathlib.Decide.{dec_lt}
use packamal.Models.{AnalysisTask}

module _ (now task_id : ℕ) (ts : List AnalysisTask) (s : IsSingle ts) where
  mark_task_failed-IsSingle : (e : Exc) → IsSingle (mark_task_failed now task_id e ts)
  mark_task_failed-IsSingle e = elim (Option-cases (get_row task_id ts)) [
    | inl g ↦ rw (mark_task_failed-none now task_id e ts g) s
    | inr (row, g) ↦
        rw (mark_task_failed-some now task_id e ts row g)
          (save_row-IsSingle (failed_task now e row) row ts (get_row-own task_id row ts g) refl s)
  ]

  handle_cached_result-IsSingle :
      (task : AnalysisTask) → IsSingle (handle_cached_result now task ts).1
  handle_cached_result-IsSingle task = elim (Option-cases (get_row task.id ts)) [
    | inl g ↦ rw (handle_cached_result-none now task ts g) s
    | inr (row, g) ↦
        rw (handle_cached_result-some now task ts row g)
          (save_row-IsSingle (cached_task now row) row ts (get_row-own task.id row ts g) refl s)
  ]

  handle_job_submission-IsSingle :
      ⦃orm : Orm⦄ (task : AnalysisTask) (job : Text)
      → IsSingle (handle_job_submission task job task_id ts).1
  handle_job_submission-IsSingle task job = elim (Option-cases (get_row task.id ts)) [
    | inl g ↦ rw (handle_job_submission-none task job task_id ts g) s
    | inr (row, g) ↦ elim (dec_lt 50 (length job)) [
      | yes long ↦ rw (handle_job_submission-long task job task_id ts row g long) s
      | no short ↦
          rw (handle_job_submission-some task job task_id ts row g (omega (arith, short))) (
            save_row-IsSingle (submitted_task job row) row ts (get_row-own task.id row ts g) refl s)
    ]
  ]

pub process_next-IsSingle :
    ⦃orm : Orm⦄ (accepts : ℕ → Bool) (now : ℕ) (w : World)
    → IsSingle w.tasks
    → IsSingle (process_next_queued_task accepts now w).tasks
process_next-IsSingle accepts now w s = record {
  unique = process_next-UniqueIds accepts now w s.unique;
  single = rw (process_next-running accepts now w s.unique) s.single;
}

module _ ⦃orm : Orm⦄ ⦃celery : Celery⦄ (env : Env) (task_id retries now : ℕ) where
  on_exception-IsSingle :
      (e : Exc) (w : World)
      → IsSingle w.tasks
      → IsSingle (on_exception env task_id retries now e w).1.tasks
  unfolding on_exception
  on_exception-IsSingle retry w s = s
  on_exception-IsSingle (error message details) w s =
      process_next-IsSingle env.accepts now _
        (mark_task_failed-IsSingle now task_id w.tasks s (error message details))

  conclude-IsSingle :
      (r : Outcome Response) (w : World)
      → IsSingle w.tasks
      → IsSingle (conclude env task_id retries now r w).1.tasks
  unfolding conclude
  conclude-IsSingle (ret response) w s = process_next-IsSingle env.accepts now w s
  conclude-IsSingle (raise e) w s = on_exception-IsSingle e w s

  on_job-IsSingle :
      (task : AnalysisTask) (job : Option Text) (w : World)
      → IsSingle w.tasks
      → IsSingle (on_job env task_id retries now task job w).1.tasks
  unfolding on_job
  on_job-IsSingle task none w s = process_next-IsSingle env.accepts now w s
  on_job-IsSingle task (some job) w s =
      conclude-IsSingle _ _ (handle_job_submission-IsSingle now task_id w.tasks s task job)

  on_run-IsSingle :
      (task : AnalysisTask) (r : Outcome RunResult) (w : World)
      → IsSingle w.tasks
      → IsSingle (on_run env task_id retries now task r w).1.tasks
  unfolding on_run
  on_run-IsSingle task (ret results) w s = on_job-IsSingle task _ w s
  on_run-IsSingle task (raise e) w s = on_exception-IsSingle e w s

  on_hit-IsSingle :
      (task : AnalysisTask) (w : World)
      → IsSingle w.tasks
      → IsSingle (on_hit env task_id retries now task w).1.tasks
  unfolding on_hit
  on_hit-IsSingle task w s =
      conclude-IsSingle _ _ (handle_cached_result-IsSingle now task_id w.tasks s task)

  module _ (quiet : (w : World) → IsSingle w.tasks → IsSingle (env.meanwhile w).tasks) where
    analyse-IsSingle :
        (task : AnalysisTask) (w : World)
        → IsSingle w.tasks
        → IsSingle (analyse env task_id retries now task w).1.tasks
    unfolding analyse
    analyse-IsSingle task w s = on_run-IsSingle task _ (env.meanwhile w) (quiet w s)

    on_prepared-IsSingle :
        (r : Outcome Returned) (w : World)
        → IsSingle w.tasks
        → IsSingle (on_prepared env task_id retries now r w).1.tasks
    unfolding on_prepared
    on_prepared-IsSingle (raise e) w s = on_exception-IsSingle e w s
    on_prepared-IsSingle (ret (triple _ _ _)) w s = on_exception-IsSingle too_many_values w s
    on_prepared-IsSingle (ret (pair _ (some early_return))) w s =
        process_next-IsSingle env.accepts now w s
    on_prepared-IsSingle (ret (pair none none)) w s = on_exception-IsSingle no_attribute w s
    on_prepared-IsSingle (ret (pair (some task) none)) w s =
        if-elim (λ (r : Outcome (Option Response) × World). IsSingle r.1.tasks)
          (env.cached (get_cache_key task)) (on_hit-IsSingle task w s) (analyse-IsSingle task w s)

    -- If what other handlers do meanwhile keeps ids distinct and at most one task running, so does
    -- the whole task, whatever it returns or raises.
    pub run_dynamic_analysis-IsSingle :
        (w : World)
        → IsSingle w.tasks
        → IsSingle (run_dynamic_analysis env task_id retries now w).1.tasks
    unfolding run_dynamic_analysis
    run_dynamic_analysis-IsSingle w s =
        on_prepared-IsSingle _ _ (check_and_prepare_task-IsSingle task_id retries now w.tasks s)
