-- ===== src/Execution.antt =====
-- backend/package_analysis/helper.py, services/execution_service.py and services/k8s_service.py:
-- `run_packaml`, the call that starts an analysis. Docker, the uuid generator and the Kubernetes
-- API are parameters.
pub mod Job
pub mod Same
use packamal.Execution.Job.{V1Job, JobEnv, job_of_task}
use packamal.Prelude.{Bool, Text, codes, ◌∷◌, ℕ, Option, if◌then◌else◌, ◌++◌, some, ◌==◌, none, []}
use packamal.Tasks.Outcome.{Exc, Outcome, ret, raise, error}

-- What `run_packaml` returns: the name of a Kubernetes job, or a dictionary, of which the caller
-- reads "job_id".
pub data RunResult : Type 0 where
  job_name : Text → RunResult
  report_dict :
      (package_name package_version ecosystem report : Text) (job_id : Option Text) → RunResult

-- The local analysis runner (analysis_runner.py) around Docker: its result, `TimeoutError`, or
-- another exception.
pub data LocalRun : Type 0 where
  finished : Text → LocalRun
  timed_out : LocalRun
  crashed : Exc → LocalRun

pub record Platform : Type 0 where
  -- `settings.DEBUG`
  pub debug : Bool
  pub local_runner : (package_name package_version ecosystem : Text) (task_id : ℕ) → LocalRun
  -- `str(uuid.uuid4())[:8]`
  pub job_suffix : ℕ → Text
  -- an exception of `K8sService()` or of `create_namespaced_job`
  pub k8s_config : Option Exc
  pub job_env : JobEnv
  pub create_namespaced_job : V1Job → Option Exc

-- `name.replace('_', '-')`
unfoldable pub dashed : Text → Text
dashed [] = []
dashed (c ∷ s) = (if c == b'_' then b'-' else c) ∷ dashed s

-- f"analysis-{package_name.replace('_', '-')}-{job_id}"
unfoldable pub job_name_of : Text → Text → Text
unfolding dashed
job_name_of package_name suffix =
    codes "analysis-" ++ (dashed package_name ++ (codes "-" ++ suffix))

-- `K8sService.run_analysis`
unfoldable pub run_analysis : Platform → Text → Text → Text → ℕ → Outcome RunResult
unfolding job_of_task
run_analysis p package_name package_version ecosystem task_id =
    let name = job_name_of package_name (p.job_suffix task_id) in
    let job = job_of_task p.job_env name ecosystem package_name package_version task_id in
    elim (p.create_namespaced_job job) [ none ↦ ret (job_name name) | some e ↦ raise e ]

-- `ExecutionService.run_packaml`
unfoldable pub run_local : Platform → Text → Text → Text → ℕ → Outcome RunResult
run_local p package_name package_version ecosystem task_id =
    elim (p.local_runner package_name package_version ecosystem task_id) [
      | finished report ↦ ret (report_dict package_name package_version ecosystem report none)
      | timed_out ↦ raise (
          error
            (codes "Analysis timed out for " ++ (package_name ++ (codes "@" ++ package_version)))
            none)
      | crashed e ↦ raise e
    ]

-- `Helper.run_packaml`
unfoldable pub run_packaml : Platform → Text → Text → Text → ℕ → Outcome RunResult
unfolding run_analysis run_local
run_packaml p package_name package_version ecosystem task_id =
    if p.debug
    then run_local p package_name package_version ecosystem task_id
    else elim p.k8s_config [
      | some e ↦ raise e
      | none ↦ run_analysis p package_name package_version ecosystem task_id
    ]
