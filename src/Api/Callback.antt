-- ===== src/Api/Callback.antt =====
-- views.py `job_completed_api`, and `save_report_to_database` of services/report_service.py. The
-- files that the worker leaves, the report generator and the store of the professional reports are
-- parameters; a task id is a number, and zero and an absent id are both missing.
pub mod Paths
pub mod Ends
pub mod Link
use packamal.Table.{get_row, save_row}
use packamal.Tasks.Reuse.{clashes}
use packamal.Tasks.Saves.{message_of}
use packamal.World.{World}
use packamal.Tasks.Outcome.{Outcome, Exc, error, ret, raise}
use packamal.Models.{
  Status, AnalysisTask, failed, ReportRow, completed, has_status, running, submitted,
}
use packamal.Orm.{Orm}
use packamal.Prelude.{
  length, ℕ, Text, Option, Bool, List, some, none, ◌∷◌, suc, text_eq, codes, if◌then◌else◌, zero,
  leb, any_of, [], ◌&&◌, ◌+◌, ◌||◌, truthy,
}

-- The method and the two places of the task id; `json` is `none` if the body is no JSON object.
pub record Request : Type 0 where
  pub is_post : Bool
  pub json : Option ℕ
  pub form : Option ℕ

pub data Reply : Type 0 where
  method_not_allowed missing_task_id task_not_found no_results_found : Reply
  already : Status → Reply
  job_completed : (download_url : Option Text) (report_id : ℕ) → Reply
  internal_server_error : Text → Reply

pub record Callback : Type 0 where
  -- `read_results_from_mount_path`; `none` for results that are false
  pub results : (package_name : Text) → Option Text
  -- `Report.generate_report` and the payload around it
  pub generate_report : Text → Outcome Text
  -- `ReportService.save_professional_report`: the download URL
  pub save_professional_report : AnalysisTask → Outcome Text

abbrev pub is_package : Text → Text → Text → ReportRow → Bool
is_package name version ecosystem r =
    text_eq r.package_name name
    && (text_eq r.package_version version && text_eq r.ecosystem ecosystem)

-- `update_or_create(package=package, defaults={'report': report})`
unfoldable pub put_report : ℕ → Text → Text → Text → Text → List ReportRow → List ReportRow
put_report next_id name version ecosystem report [] =
    record {
      id = next_id;
      package_name = name;
      package_version = version;
      ecosystem = ecosystem;
      report = report;
    }
    ∷ []
put_report next_id name version ecosystem report (r ∷ rs) =
    if is_package name version ecosystem r
    then record r { report = report } ∷ rs
    else r ∷ put_report next_id name version ecosystem report rs

-- The lengths of the columns are tested before, by `package_fits` in `on_report`.
unfoldable pub save_report_to_database : Text → Text → Text → Text → World → World
unfolding put_report
save_report_to_database name version ecosystem report w = record w {
  reports = put_report w.next_report_id name version ecosystem report w.reports;
  next_report_id =
      if any_of (is_package name version ecosystem) w.reports
      then w.next_report_id
      else w.next_report_id + 1;
}

-- `ReportDynamicAnalysis.objects.latest('id')`, of a first row and the others.
unfoldable pub latest : List ReportRow → Option ReportRow
latest [] = none
latest (r ∷ rs) = elim (latest rs) [
  | none ↦ some r
  | some q ↦ some (if leb r.id q.id then q else r)
]

abbrev pub no_report : Exc
no_report = error (codes "ReportDynamicAnalysis matching query does not exist.") none

-- `if not task_id`
abbrev pub truthy_id : Option ℕ → Option ℕ
truthy_id none = none
truthy_id (some zero) = none
truthy_id (some (suc n)) = some (suc n)

unfoldable pub task_id_of : Request → Option ℕ
task_id_of request = elim (truthy_id request.json) [
  | none ↦ truthy_id request.form
  | some i ↦ some i
]

abbrev pub without_results : ℕ → AnalysisTask → AnalysisTask
without_results now task = record task {
  status = failed;
  error_message = codes "No results found in mount path";
  error_category = codes "results_not_found";
  completed_at = some now;
}

abbrev pub callback_failed : ℕ → Exc → AnalysisTask → AnalysisTask
callback_failed now e task = record task {
  status = failed;
  error_message = message_of e;
  error_category = codes "callback_error";
  completed_at = some now;
}

-- `if download_url: task.download_url = download_url`
abbrev pub completed_by_worker : ℕ → ℕ → Option Text → AnalysisTask → AnalysisTask
completed_by_worker now report download_url task = record task {
  report = some report;
  status = completed;
  completed_at = some now;
  download_url = elim (truthy download_url) [ none ↦ task.download_url | some url ↦ some url ];
  queue_position = none;
}

-- `download_url = None` if the professional report cannot be saved.
abbrev pub url_of : Outcome Text → Option Text
url_of (ret url) = some url
url_of (raise e) = none

-- The columns of a package hold at most 20 characters: a longer text raises `DataError`.
abbrev pub package_fits : AnalysisTask → Bool
package_fits task =
    leb (length task.package_name) 20
    && (leb (length task.package_version) 20 && leb (length task.ecosystem) 20)

module _ ⦃orm : Orm⦄ (env : Callback) (now : ℕ) where
  -- The outer `except Exception`, after the transaction was rolled back.
  unfoldable pub on_callback_error : ℕ → Exc → World → Reply × World
  on_callback_error task_id e w = (
    internal_server_error (message_of e),
    elim (get_row task_id w.tasks) [
      | none ↦ w
      | some task ↦ record w { tasks = save_row (callback_failed now e task) w.tasks }
    ],
  )

  -- The report is linked to the task, which fails if another task has it, and the task completed.
  unfoldable pub link_report : AnalysisTask → ReportRow → World → World → Reply × World
  unfolding on_callback_error
  link_report task report before w =
      let url = url_of (env.save_professional_report (record task { report = some report.id })) in
      if clashes task (some report.id) w.tasks
      then on_callback_error task.id (error orm.integrity_error none) before
      else (
        job_completed url report.id,
        record w { tasks = save_row (completed_by_worker now report.id url task) w.tasks },
      )

  unfoldable pub on_report : AnalysisTask → Outcome Text → World → Reply × World
  unfolding link_report save_report_to_database latest on_callback_error
  on_report task (raise e) w = on_callback_error task.id e w
  on_report task (ret report) w =
      let w' =
        save_report_to_database task.package_name task.package_version task.ecosystem report w in
      if package_fits task
      then elim (latest w'.reports) [
        | none ↦ on_callback_error task.id no_report w
        | some row ↦ link_report task row w w'
      ]
      else on_callback_error task.id (error orm.data_error none) w

  unfoldable pub on_task : AnalysisTask → World → Reply × World
  unfolding on_report
  on_task task w =
      if has_status running task || has_status submitted task
      then elim (env.results task.package_name) [
        | none ↦
            (no_results_found, record w { tasks = save_row (without_results now task) w.tasks })
        | some results ↦ on_report task (env.generate_report results) w
      ]
      else (already task.status, w)

  unfoldable pub job_completed_api : Request → World → Reply × World
  unfolding on_task task_id_of
  job_completed_api request w =
      if request.is_post
      then elim (task_id_of request) [
        | none ↦ (missing_task_id, w)
        | some task_id ↦ elim (get_row task_id w.tasks) [
          | none ↦ (task_not_found, w)
          | some task ↦ on_task task w
        ]
      ]
      else (method_not_allowed, w)
