-- ===== src/Api/Steps.antt =====
-- views.py: the steps of `analyze_api` as functions of their own, which no endpoint calls yet.
use packamal.Api.Analyze.{
  AnalyzeRequest, Answer, Services, is_active_for, newest, missing_purl, invalid_purl,
  purl_parsing_failed, cached_report, already_active, queued_at_position, failed_to_queue,
}
use packamal.Api.TaskService.{
  create_task, queue_task, calculate_queue_position, get_queue_position_for_status,
  mark_task_as_failed,
}
use packamal.Json.{failing, ◌>>=◌}
use packamal.Models.{AnalysisTask}
use packamal.Orm.{Orm}
use packamal.Purl.{Ecosystem, validate_purl_format, extract_package_info, ok, value_error}
use packamal.Tasks.Outcome.{Outcome, ret, raise}
use packamal.Tasks.Reuse.{latest_completed, has_result}
use packamal.Tasks.Saves.{message_of}
use packamal.World.{World}
use packamal.Prelude.{
  ℕ, Text, codes, Option, none, some, List, ◌∷◌, if◌then◌else◌, head?, select, truthy,
}

-- The error response, or the fields of the request.
pub data PurlData : Type 0 where
  rejected : Answer → PurlData
  accepted : (purl : Text) (priority : ℕ) → Text × Text × Ecosystem → PurlData

module _ (services : Services) where
  abbrev pub checked_purl : Text → ℕ → PurlData
  checked_purl purl priority =
      if validate_purl_format services.unquote purl
      then elim (extract_package_info services.unquote purl) [
        | value_error e ↦ rejected purl_parsing_failed
        | ok info ↦ accepted purl priority info
      ]
      else rejected invalid_purl

  -- `_extract_purl_data`; `json.loads` may raise.
  unfoldable pub extract_purl_data : AnalyzeRequest → Outcome PurlData
  unfolding validate_purl_format extract_package_info
  extract_purl_data request = elim request.body [
    | none ↦ raise (failing services.decode_error)
    | some (purl, priority) ↦ elim (truthy purl) [
      | none ↦ ret (rejected missing_purl)
      | some purl ↦ ret (checked_purl purl priority)
    ]
  ]

  -- `_parse_purl_request`, which returns the fields as one tuple.
  unfoldable pub parse_purl_request : AnalyzeRequest → Outcome PurlData
  unfolding extract_purl_data
  parse_purl_request request = extract_purl_data request

  unfoldable pub build_completed_task_response : AnalysisTask → Outcome Answer
  build_completed_task_response completed_task =
      services.save_professional_report completed_task
      >>= (λ url. ret (cached_report completed_task.id url))

-- A running task has the position 0 here.
unfoldable pub build_active_task_response : AnalysisTask → Answer
unfolding get_queue_position_for_status
build_active_task_response active_task =
    already_active active_task.id active_task.status (get_queue_position_for_status active_task)

module _ ⦃orm : Orm⦄ where
  unfoldable pub find_completed_task_for_purl : Text → List AnalysisTask → Option AnalysisTask
  find_completed_task_for_purl purl ts =
      head? (orm.order_by latest_completed (select (has_result purl) ts))

  unfoldable pub find_active_tasks_for_purl : Text → ℕ → List AnalysisTask → List AnalysisTask
  find_active_tasks_for_purl purl now ts = orm.order_by newest (select (is_active_for purl now) ts)

-- `TaskService` creates and queues the task; if the broker refuses it, it is marked as failed.
unfoldable pub create_and_queue_new_task :
    Services → (now key : ℕ) → Text → ℕ → Text × Text × Ecosystem → World → Answer × World
unfolding create_task queue_task calculate_queue_position mark_task_as_failed
create_and_queue_new_task services now key purl priority info w =
    let (task, created) = create_task now key purl priority info w in
    let (queued_task, queued) = queue_task now task created in
    elim (services.broker task.id) [
      | none ↦ (
        queued_at_position task.id (calculate_queue_position task created.tasks),
        record queued { published = (task.id, task.priority) ∷ queued.published },
      )
      | some e ↦ (
        failed_to_queue (message_of e),
        record queued {
          tasks =
              mark_task_as_failed now (message_of e) (codes "queue_error") queued_task queued.tasks;
        },
      )
    ]
