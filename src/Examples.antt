-- ===== src/Examples.antt =====
-- Small tables, and an ORM, a Celery, a Docker and a platform to run the handlers on.
pub mod Matches
pub mod Registries
pub mod Stores
pub mod Outputs
pub mod Commands
pub mod Queues
pub mod Runs
pub mod Purls
pub mod Clocks
pub mod Endpoints
pub mod Access
pub mod Forms
pub mod Archived
use packamal.Orm.Insertion.{insertion_orm}
use packamal.World.{World}
use packamal.Tasks.Run.{Env}
use packamal.Models.{Status, AnalysisTask, completed, running, no_details}
use packamal.Tasks.Timeouts.{Docker, called_process_error, success}
use packamal.Orm.{Orm}
use packamal.Tasks.Outcome.{Exc, Celery, retry}
use packamal.Execution.{Platform, timed_out}
use packamal.Prelude.{
  ℕ, List, arith, some, if◌then◌else◌, false, true, codes, ltb, [], none, ◌<◌, ◌≤◌, ◌≡◌,
}

abbrev pub row : ℕ → Status → AnalysisTask
row i s = record {
  id = i;
  api_key = some 1;
  purl = codes "pkg:npm/a";
  package_name = codes "a";
  package_version = [];
  ecosystem = codes "npm";
  status = s;
  created_at = 10;
  started_at = none;
  completed_at = none;
  error_message = [];
  error_category = [];
  error_details = no_details;
  report = none;
  download_url = none;
  queue_position = none;
  priority = 0;
  queued_at = some i;
  timeout_minutes = 30;
  container_id = none;
  last_heartbeat = none;
  job_id = none;
}

-- A completed task with a report.
abbrev pub with_report : ℕ → AnalysisTask
with_report i = record (row i completed) { report = some 7; completed_at = some 20 }

-- A running task that started at time zero in a container.
abbrev pub in_container : ℕ → AnalysisTask
in_container i = record (row i running) { started_at = some 0; container_id = some (codes "c") }

abbrev pub world : List AnalysisTask → World
world ts = record { tasks = ts; next_id = 9; reports = []; next_report_id = 9; published = [] }

instance abbrev pub sorting : Orm
sorting = insertion_orm

abbrev pub retried : ℕ → ℕ → Exc → Exc
retried r m e = if ltb r m then retry else e

pub retried-left : (r m : ℕ) (e : Exc) → r < m → retried r m e ≡ retry
retried-left r m e h = ground arith

pub retried-over : (r m : ℕ) (e : Exc) → m ≤ r → retried r m e ≡ e
retried-over r m e h = ground arith

instance abbrev pub celery_once : Celery
celery_once = record { raised = retried; raised-left = retried-left; raised-over = retried-over }

abbrev pub platform : Platform
platform = record {
  debug = false;
  local_runner = λ name version ecosystem task_id. timed_out;
  job_suffix = λ task_id. codes "0a";
  k8s_config = none;
  job_env = record { environ = λ name. none; decimal = λ n. [] };
  create_namespaced_job = λ job. none;
}

abbrev pub env : Env
env = record { platform = platform; cached = λ key. false; accepts = λ i. true; meanwhile = λ w. w }

-- Docker stops no container gracefully and kills each.
abbrev pub docker : Docker
docker = record { stop = λ c. called_process_error; kill = λ c. success }
