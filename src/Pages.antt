-- ===== src/Pages.antt =====
-- views.py: the pages with a form, `_create_and_queue_task` behind two of them, the status page of a
-- task and the pages of the stored reports. Django's forms, its templates and Celery's broker are
-- parameters.
pub mod Tools
pub mod Lists
use packamal.Api.Callback.{no_report}
use packamal.Api.TaskService.{calculate_queue_position}
use packamal.Json.{failing, ◌>>=◌}
use packamal.Models.{
  AnalysisTask, ReportRow, Status, has_status, completed, failed, queued, no_details,
}
use packamal.Table.{get_row, save_row}
use packamal.Tasks.Outcome.{Exc, Outcome, ret, raise}
use packamal.Tasks.Saves.{message_of}
use packamal.World.{World}
use packamal.Prelude.{
  ℕ, ◌+◌, ◌==◌, Text, codes, Option, none, some, List, [], ◌∷◌, ◌++◌, if◌then◌else◌, select, head?,
}

-- A request to a page: another method than POST, or the `PackageSubmitForm` of what was posted.
pub data Submission : Type 0 where
  no_post invalid_form : Submission
  valid_form : (package_name package_version ecosystem : Text) → Submission

-- What a page answers: the form in its template, a result under a key, a task, an error with the
-- status 500, and the status 400.
pub data Page (A : Type 0) : Type 0 where
  form_page : (template : Text) → Page A
  json_page : (key : Text) → A → Page A
  pending_page : (task_id : ℕ) → Page A
  error_page : (error : Text) → Page A
  bad_request : Page A

-- `_handle_form_post`; an exception of the analysis is not caught.
unfoldable pub handle_form_post :
    {S A : Type 0} (template : Text)
    → (Text → Text → Text → S → Outcome A × S)
    → (response_key : Text) → Submission
    → S
    → Outcome (Page A) × S
handle_form_post template analysis_function response_key (valid_form name version ecosystem) s =
    let (results, s') = analysis_function name version ecosystem s in
    (results >>= (λ a. ret (json_page response_key a)), s')
handle_form_post template analysis_function response_key no_post s = (ret (form_page template), s)
handle_form_post template analysis_function response_key invalid_form s =
    (ret (form_page template), s)

-- `AnalysisTask.objects.create(...)`: the column `api_key` is NOT NULL.
unfoldable pub insert_task :
    (null_error : Text) → AnalysisTask → World → Outcome AnalysisTask × World
insert_task null_error task w = elim task.api_key [
  | none ↦ (raise (failing null_error), w)
  | some key ↦ (ret task, record w { tasks = w.tasks ++ (task ∷ []); next_id = w.next_id + 1 })
]

-- The row that `_create_and_queue_task` creates: it names no key, purl or priority.
abbrev pub keyless_task : (now i : ℕ) (package_name package_version ecosystem : Text) → AnalysisTask
keyless_task now i package_name package_version ecosystem = record {
  id = i;
  api_key = none;
  purl = [];
  package_name = package_name;
  package_version = package_version;
  ecosystem = ecosystem;
  status = queued;
  created_at = now;
  started_at = none;
  completed_at = none;
  error_message = [];
  error_category = [];
  error_details = no_details;
  report = none;
  download_url = none;
  queue_position = none;
  priority = 0;
  queued_at = some now;
  timeout_minutes = 30;
  container_id = none;
  last_heartbeat = none;
  job_id = none;
}

module _ (null_error : Text) (broker : ℕ → Option Exc) (now : ℕ) where
  unfoldable pub queue_celery_task : AnalysisTask → World → Outcome AnalysisTask × World
  queue_celery_task task w = elim (broker task.id) [
    | some e ↦ (raise e, w)
    | none ↦ (ret task, record w { published = (task.id, task.priority) ∷ w.published })
  ]

  -- The transaction is rolled back if `create` raises.
  abbrev pub when_created : World → Outcome AnalysisTask × World → Outcome AnalysisTask × World
  when_created before (raise e, w) = (raise e, before)
  when_created before (ret task, w) =
      let positioned = record task {
        queue_position = some (calculate_queue_position task w.tasks);
      } in
      queue_celery_task positioned (record w { tasks = save_row positioned w.tasks })

  unfoldable pub create_and_queue_task :
      (package_name package_version ecosystem : Text) → World → Outcome AnalysisTask × World
  unfolding insert_task queue_celery_task
  create_and_queue_task package_name package_version ecosystem w =
      when_created w (
        insert_task null_error (keyless_task now w.next_id package_name package_version ecosystem)
          w)

  abbrev pub or_error : Outcome AnalysisTask × World → Page (Unit {0}) × World
  or_error (ret task, w) = (pending_page task.id, w)
  or_error (raise e, w) = (error_page (message_of e), w)

  unfoldable pub dynamic_analysis : Submission → World → Page (Unit {0}) × World
  unfolding create_and_queue_task
  dynamic_analysis (valid_form name version ecosystem) w =
      or_error (create_and_queue_task name version ecosystem w)
  dynamic_analysis no_post w =
      (form_page (codes "package_analysis/analysis/dynamic_analysis.html"), w)
  dynamic_analysis invalid_form w =
      (form_page (codes "package_analysis/analysis/dynamic_analysis.html"), w)

  abbrev pub pending_of : Outcome AnalysisTask × World → Outcome (Page (Unit {0})) × World
  pending_of (created, w) = (created >>= (λ task. ret (pending_page task.id)), w)

  unfoldable pub submit_sample : Submission → World → Outcome (Page (Unit {0})) × World
  unfolding create_and_queue_task
  submit_sample (valid_form name version ecosystem) w =
      pending_of (create_and_queue_task name version ecosystem w)
  submit_sample invalid_form w = (ret bad_request, w)
  submit_sample no_post w = (ret (form_page (codes "package_analysis/dashboard.html")), w)

-- An attribute that is no column of the model.
unfoldable pub missing_attribute : {A : Type 0} (model name : Text) → Outcome A
missing_attribute model name =
    raise (
      failing
        (codes "'" ++ (model ++ (codes "' object has no attribute '" ++ (name ++ codes "'")))))

abbrev pub task_attribute : {A : Type 0} → Text → Outcome A
task_attribute = missing_attribute (codes "AnalysisTask")

-- What the status page shows of a task; an absent key is none.
pub record TaskPage : Type 0 where
  pub task_id : ℕ
  pub status : Status
  pub package_name : Text
  pub package_version : Text
  pub ecosystem : Text
  pub created_at : ℕ
  pub started_at : Option ℕ
  pub completed_at : Option ℕ
  pub duration_seconds : Option ℕ
  pub worker_id : Option Text
  pub dynamic_analysis_report : Option Text
  pub error_message : Option Text

-- `if task.completed_at: ... if task.duration_seconds: ...`
abbrev pub duration_of : AnalysisTask → Outcome (Option ℕ)
duration_of task = elim task.completed_at [
  | none ↦ ret none
  | some t ↦ task_attribute (codes "duration_seconds")
]

-- `if task.status == STATUS_COMPLETED and task.result`
abbrev pub result_of : AnalysisTask → Outcome (Option Text)
result_of task = if has_status completed task then task_attribute (codes "result") else ret none

unfoldable pub task_page : AnalysisTask → Outcome TaskPage
unfolding missing_attribute
task_page task = do
  duration ← duration_of task
  worker ← task_attribute (codes "worker_id")
  result ← result_of task
  ret (record {
    task_id = task.id;
    status = task.status;
    package_name = task.package_name;
    package_version = task.package_version;
    ecosystem = task.ecosystem;
    created_at = task.created_at;
    started_at = task.started_at;
    completed_at = task.completed_at;
    duration_seconds = duration;
    worker_id = worker;
    dynamic_analysis_report = result;
    error_message = if has_status failed task then some task.error_message else none;
  })

-- None is the answer for a task that does not exist.
unfoldable pub task_status : ℕ → List AnalysisTask → Outcome (Option TaskPage)
unfolding task_page get_row
task_status task_id ts = elim (get_row task_id ts) [
  | none ↦ ret none
  | some task ↦ task_page task >>= (λ page. ret (some page))
]

pub record ReportPage : Type 0 where
  pub package_name : Text
  pub package_version : Text
  pub ecosystem : Text
  pub time : Text
  -- the report itself, on its own page
  pub report_data : Option Text

-- The dictionary of a report, whose class has no `time`.
unfoldable pub report_page : Option Text → ReportRow → Outcome ReportPage
unfolding missing_attribute
report_page report_data row = do
  time ← missing_attribute (codes "ReportDynamicAnalysis") (codes "time")
  ret (record {
    package_name = row.package_name;
    package_version = row.package_version;
    ecosystem = row.ecosystem;
    time = time;
    report_data = report_data;
  })

unfoldable pub get_all_report : List ReportRow → Outcome (List (ℕ × ReportPage))
unfolding report_page
get_all_report [] = ret []
get_all_report (row ∷ rows) =
    let rest = get_all_report rows in
    report_page none row >>= (λ page. rest >>= (λ pages. ret ((row.id, page) ∷ pages)))

-- `ReportDynamicAnalysis.objects.get(pk=report_id)`, whose `DoesNotExist` is not caught.
unfoldable pub get_report : ℕ → List ReportRow → Outcome ReportPage
unfolding report_page
get_report report_id rows = elim (head? (select (λ (r : ReportRow). r.id == report_id) rows)) [
  | none ↦ raise no_report
  | some row ↦ report_page (some row.report) row
]
