-- ===== src/Tasks/Run.antt =====
-- `run_dynamic_analysis`. While `Helper.run_packaml` runs, other handlers may change the tables:
-- `meanwhile` stands for what they do.
pub mod Single
pub mod Ends
pub mod Clash
use packamal.Tasks.Reuse.{get_cache_key}
use packamal.Tasks.Saves.{handle_job_submission, mark_task_failed, handle_cached_result}
use packamal.Tasks.Prepare.{Returned, check_and_prepare_task, triple, pair}
use packamal.Tasks.Queue.{process_next_queued_task}
use packamal.World.{World}
use packamal.Tasks.Outcome.{
  Celery, Exc, Outcome, Response, raise, ret, error, too_many_values, no_attribute, max_retries,
  retry,
}
use packamal.Prelude.{Option, Text, Bool, some, ℕ, none, ◌∷◌, [], if◌then◌else◌, ltb, truthy}
use packamal.Execution.{Platform, RunResult, run_packaml, job_name, report_dict}
use packamal.Orm.{Orm}
use packamal.Models.{AnalysisTask}

pub record Env : Type 0 where
  pub platform : Platform
  -- the truth value of `cache.get(key)`
  pub cached : Text → Bool
  -- whether Celery's broker takes a message
  pub accepts : ℕ → Bool
  pub meanwhile : World → World

-- `isinstance(results, str)`, or `results.get("job_id")`.
abbrev pub job_of : RunResult → Option Text
job_of (job_name name) = some name
job_of (report_dict _ _ _ _ job) = truthy job

module _ ⦃orm : Orm⦄ ⦃celery : Celery⦄ (env : Env) (task_id retries now : ℕ) where
  abbrev next_task : World → World
  next_task = process_next_queued_task env.accepts now

  -- The outer `except` clauses.
  unfoldable pub on_exception : Exc → World → Outcome (Option Response) × World
  on_exception retry w = (raise retry, w)
  on_exception (error message details) w =
      let e = error message details in
      (
        raise (if ltb retries max_retries then celery.raised retries max_retries e else e),
        next_task (record w { tasks = mark_task_failed now task_id e w.tasks }),
      )

  -- A handler's result is returned after the next task was started.
  unfoldable pub conclude : Outcome Response → World → Outcome (Option Response) × World
  unfolding on_exception
  conclude (ret response) w = (ret (some response), next_task w)
  conclude (raise e) w = on_exception e w

  -- A job was started, or nothing that could be tracked.
  unfoldable pub on_job : AnalysisTask → Option Text → World → Outcome (Option Response) × World
  unfolding conclude
  on_job task (some job) w =
      let (r, ts) = handle_job_submission task job task_id w.tasks in
      conclude r (record w { tasks = ts })
  on_job task none w = (ret none, next_task w)

  unfoldable pub on_run :
      AnalysisTask → Outcome RunResult → World → Outcome (Option Response) × World
  unfolding on_job
  on_run task (ret results) w = on_job task (job_of results) w
  on_run task (raise e) w = on_exception e w

  unfoldable pub analyse : AnalysisTask → World → Outcome (Option Response) × World
  unfolding on_run
  analyse task w =
      on_run task
        (run_packaml env.platform task.package_name task.package_version task.ecosystem task_id)
        (env.meanwhile w)

  unfoldable pub on_hit : AnalysisTask → World → Outcome (Option Response) × World
  unfolding conclude
  on_hit task w =
      let (r, ts) = handle_cached_result now task w.tasks in conclude r (record w { tasks = ts })

  -- `task, early_return = _check_and_prepare_task(task_id, self)` and what follows. Three values
  -- cannot be unpacked into two.
  unfoldable pub on_prepared : Outcome Returned → World → Outcome (Option Response) × World
  unfolding analyse on_hit
  on_prepared (raise e) w = on_exception e w
  on_prepared (ret (triple _ _ _)) w = on_exception too_many_values w
  on_prepared (ret (pair _ (some early_return))) w = (ret (some early_return), next_task w)
  on_prepared (ret (pair none none)) w = on_exception no_attribute w
  on_prepared (ret (pair (some task) none)) w =
      if env.cached (get_cache_key task) then on_hit task w else analyse task w

  unfoldable pub run_dynamic_analysis : World → Outcome (Option Response) × World
  unfolding on_prepared
  run_dynamic_analysis w =
      let (r, ts) = check_and_prepare_task task_id retries now w.tasks in
      on_prepared r (record w { tasks = ts })
