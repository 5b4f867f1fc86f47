-- ===== src/Api/Status.antt =====
-- views.py: the endpoints that report the state of a task, of the queue and of the timeouts, the
-- stored reports, the results that the worker leaves. JSON and
-- Celery's broker are parameters.
pub mod Counts
pub mod Task
use packamal.Table.{get_row}
use packamal.Api.Analyze.{shown_position}
use packamal.Tasks.Saves.{message_of}
use packamal.Tasks.Outcome.{Outcome, raise, ret}
use packamal.Models.{
  is_timed_out, get_remaining_time_minutes, AnalysisTask, has_status, queued, running, ErrorDetails,
  completed, no_details,
}
use packamal.Containers.{
  Shell, Command, is_container_running, output, called_process_error, other_error,
}
use packamal.Orm.{Order, Orm, asc}
use packamal.Prelude.{
  ℕ, Text, none, Option, Bool, ◌++◌, truthy, List, codes, if◌then◌else◌, some, ◌∷◌, count_if, map,
  [], select, false, length, is_some, ◌&&◌, is_nonempty,
}
use packamal.Store.{Site, Redis, get_report_from_redis, build_download_path, optional}

-- The answer of an endpoint, without the envelope of errors.
pub data StatusReply (A : Type 0) : Type 0 where
  method_not_allowed not_found : StatusReply A
  internal : Text → StatusReply A
  success : A → StatusReply A

-- `if not report_blob: return HttpResponseNotFound(...)`
unfoldable pub download_professional_report :
    {R : Type 0} → Site → Redis R → Text → Text → Text → R → StatusReply Text
unfolding get_report_from_redis
download_professional_report site redis ecosystem package_name package_version r =
    elim (truthy (get_report_from_redis site redis ecosystem package_name package_version r)) [
      | none ↦ not_found
      | some report_blob ↦ success report_blob
    ]

-- Where the results are read: `os.getenv`, docker, files, `json.loads` and `settings.DEBUG`.
pub record Results : Type 0 where
  pub getenv : Text → Option Text
  pub lower : Text → Text
  pub run : List Text → Command
  -- `open(...).read()`, none on an exception
  pub read_file : Text → Option Text
  -- none on an exception
  pub loads : Text → Option Text
  -- `os.path.join`
  pub join_path : Text → Text → Text
  pub debug : Bool

module _ (env : Results) where
  abbrev pub env_or : Text → Text → Text
  env_or name default = elim (env.getenv name) [ none ↦ default | some text ↦ text ]

  abbrev pub result_file_name : Text → Text
  result_file_name package_name = env.lower package_name ++ codes ".json"

  unfoldable pub read_results_from_docker_volume : Text → Option Text
  read_results_from_docker_volume package_name =
      elim (env.run (
        codes "docker"
        ∷ codes "run"
        ∷ codes "--rm"
        ∷ codes "-v"
        ∷ (env_or (codes "RESULTS_VOLUME") (codes "analysis_results") ++ codes ":/results")
        ∷ codes "alpine"
        ∷ codes "cat"
        ∷ (codes "/results/" ++ result_file_name package_name)
        ∷ [])) [
          | output stdout ↦ env.loads stdout
          | called_process_error e ↦ none
          | other_error e ↦ none
        ]

  unfoldable pub read_results_from_filesystem : Text → Option Text
  read_results_from_filesystem package_name =
      elim (env.read_file (
        env.join_path (env_or (codes "MOUNT_PATH") (codes "/data/results"))
          (result_file_name package_name))) [ none ↦ none | some text ↦ env.loads text ]

  unfoldable pub read_results_from_mount_path : Text → Option Text
  unfolding read_results_from_docker_volume read_results_from_filesystem
  read_results_from_mount_path package_name =
      if env.debug
      then read_results_from_docker_volume package_name
      else read_results_from_filesystem package_name

-- Times are not printed.
pub record TimeoutInfo : Type 0 where
  pub task_id : ℕ
  pub purl : Text
  pub started_at : Option ℕ
  pub timeout_minutes : ℕ
  pub remaining_minutes : Option ℕ
  pub has_timed_out : Bool
  pub container_id : Option Text
  pub container_running : Bool

pub record TimeoutStatus : Type 0 where
  pub running_tasks : ℕ
  pub timed_out : ℕ
  pub tasks : List TimeoutInfo

module _ (shell : Shell) (now : ℕ) where
  unfoldable pub build_timeout_info_for_task : AnalysisTask → TimeoutInfo
  unfolding is_timed_out get_remaining_time_minutes is_container_running
  build_timeout_info_for_task task = record {
    task_id = task.id;
    purl = task.purl;
    started_at = task.started_at;
    timeout_minutes = task.timeout_minutes;
    remaining_minutes = get_remaining_time_minutes task now;
    has_timed_out = is_timed_out task now;
    container_id = task.container_id;
    container_running = elim (truthy task.container_id) [
      | none ↦ false
      | some container ↦ is_container_running shell container
    ];
  }

  unfoldable pub build_timeout_status : List AnalysisTask → TimeoutStatus
  unfolding build_timeout_info_for_task
  build_timeout_status ts =
      let timeout_info = map build_timeout_info_for_task (select (has_status running) ts) in
      record {
        running_tasks = length (select (has_status running) ts);
        timed_out = count_if (λ (t : TimeoutInfo). t.has_timed_out) timeout_info;
        tasks = timeout_info;
      }

  unfoldable pub timeout_status_api : Bool → List AnalysisTask → StatusReply TimeoutStatus
  unfolding build_timeout_status
  timeout_status_api is_get ts =
      if is_get then success (build_timeout_status ts) else method_not_allowed

  -- `check_timeouts.delay()`: the id of the message, or an exception.
  unfoldable pub check_timeouts_api :
      Outcome Text → Bool → List AnalysisTask → StatusReply (Text × TimeoutStatus)
  unfolding build_timeout_status
  check_timeouts_api delay is_post ts =
      if is_post
      then elim delay [
        | raise e ↦ internal (message_of e)
        | ret celery_task_id ↦ success (celery_task_id, build_timeout_status ts)
      ]
      else method_not_allowed

pub record QueuedItem : Type 0 where
  pub task_id : ℕ
  pub purl : Text
  pub queue_position : Option ℕ
  pub priority : ℕ
  pub queued_at : Option ℕ
  pub created_at : ℕ

pub record RunningItem : Type 0 where
  pub task_id : ℕ
  pub purl : Text
  pub started_at : Option ℕ
  pub created_at : ℕ

-- The key "running_tasks" is written twice; the list overwrites the number.
pub record QueueStatus : Type 0 where
  pub queue_length : ℕ
  pub queued_tasks : List QueuedItem
  pub running_tasks : List RunningItem

-- `order_by('queue_position')`
abbrev pub by_position : Order
by_position a b = asc a.queue_position b.queue_position

unfoldable pub queue_status_api : ⦃orm : Orm⦄ → Bool → List AnalysisTask → StatusReply QueueStatus
queue_status_api ⦃orm⦄ is_get ts =
    if is_get
    then success (record {
      queue_length = count_if (has_status queued) ts;
      queued_tasks =
          map
            (λ (t : AnalysisTask). record {
              task_id = t.id;
              purl = t.purl;
              queue_position = t.queue_position;
              priority = t.priority;
              queued_at = t.queued_at;
              created_at = t.created_at;
            })
            (orm.order_by by_position (select (has_status queued) ts));
      running_tasks =
          map
            (λ (t : AnalysisTask). record {
              task_id = t.id;
              purl = t.purl;
              started_at = t.started_at;
              created_at = t.created_at;
            })
            (select (has_status running) ts);
    })
    else method_not_allowed
