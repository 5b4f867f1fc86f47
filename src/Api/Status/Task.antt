-- ===== src/Api/Status/Task.antt =====
-- `task_status_api`, but for the metadata of a file under MEDIA_ROOT, and the URL that it predicts.
use packamal.Store.Laws.{saved_url}
use packamal.Api.Analyze.{shown_position}
use packamal.Table.{get_row}
use packamal.Prelude.{
  Text, Option, ℕ, ◌≡◌, if◌then◌else◌, none, Bool, is_some, some, List, ◌&&◌, is_nonempty, true,
  truthy, sym, ap, ◌∙◌, refl,
}
use packamal.Store.{
  save_professional_report, build_download_path, Site, Redis, EnhancedReport, optional,
  save_professional_report,
}
use packamal.Models.{
  AnalysisTask, ErrorDetails, is_timed_out, has_status, get_remaining_time_minutes, completed,
  no_details, running,
}
use packamal.Api.Status.{
  StatusReply, not_found, success, ErrorDetails, Site, build_download_path, AnalysisTask, Option,
  Redis, Text, ℕ, Bool, is_timed_out, get_row, none, List, some, get_remaining_time_minutes,
  has_status, is_some, is_nonempty, completed, shown_position, optional, running, truthy,
}

-- What `task_status_api` answers; an absent key is none.
pub record TaskStatus : Type 0 where
  pub task : AnalysisTask
  pub expected_download_url : Text
  pub queue_position : Option ℕ
  pub started_at : Option ℕ
  pub remaining_time_minutes : Option (Option ℕ)
  pub has_timed_out : Option Bool
  pub completed_at : Option ℕ
  -- the message with its category, and the details unless they are empty
  pub error : Option (Text × Text × Option ErrorDetails)
  pub result_url : Option Text
  pub download_url : Option Text

abbrev pub shown_details : ErrorDetails → Option ErrorDetails
shown_details no_details = none
shown_details details = some details

unfoldable pub get_predicted_download_url : Site → Text → Text → Text → Text
unfolding build_download_path
get_predicted_download_url site package_name package_version ecosystem =
    site.build_absolute_uri (build_download_path site ecosystem package_name package_version)

module _ (site : Site) (get_report_path : ℕ → Text) (now : ℕ) where
  -- `if task.started_at` and `if task.status == STATUS_RUNNING`
  abbrev pub is_shown_running : AnalysisTask → Bool
  is_shown_running task = is_some task.started_at && has_status running task

  -- `if task.status == STATUS_COMPLETED and task.report`
  abbrev pub shown_report : AnalysisTask → Option ℕ
  shown_report task = if has_status completed task then task.report else none

  unfoldable pub task_status_of : AnalysisTask → TaskStatus
  unfolding get_predicted_download_url is_timed_out get_remaining_time_minutes
  task_status_of task = record {
    task = task;
    expected_download_url =
        get_predicted_download_url site task.package_name task.package_version task.ecosystem;
    queue_position = shown_position task;
    started_at = task.started_at;
    remaining_time_minutes =
        if is_shown_running task then some (get_remaining_time_minutes task now) else none;
    has_timed_out = if is_shown_running task then some (is_timed_out task now) else none;
    completed_at = task.completed_at;
    error =
        if is_nonempty task.error_message
        then some (task.error_message, task.error_category, shown_details task.error_details)
        else none;
    result_url = optional (λ i. site.build_absolute_uri (get_report_path i)) (shown_report task);
    download_url = elim (shown_report task) [ none ↦ none | some i ↦ truthy task.download_url ];
  }

  unfoldable pub task_status_api : ℕ → List AnalysisTask → StatusReply TaskStatus
  unfolding task_status_of get_row
  task_status_api task_id ts = elim (get_row task_id ts) [
    | none ↦ not_found
    | some task ↦ success (task_status_of task)
  ]

-- If lowering is idempotent and a report is not encoded as nothing, the URL that is predicted for a
-- task is the one that `save_professional_report` answers for it.
pub get_predicted_download_url-saved :
    {R : Type 0} (site : Site) (redis : Redis R)
    → ((t : Text) → site.lower (site.lower t) ≡ site.lower t)
    → ((e : EnhancedReport) → is_nonempty (redis.encode (site.dumps e)) ≡ true)
    → (now later : ℕ) (task : AnalysisTask) (report : Option Text) (r : R)
    → get_predicted_download_url site task.package_name task.package_version task.ecosystem
      ≡ (save_professional_report site redis now later task report r).0.0
unfolding get_predicted_download_url
get_predicted_download_url-saved site redis twice visible now later task report r =
    ap site.build_absolute_uri lowered
    ∙ sym (saved_url site redis twice visible now later task report r)
  where
    lowered :
        build_download_path site task.ecosystem task.package_name task.package_version
        ≡ build_download_path site
            (site.lower task.ecosystem)
            task.package_name
            task.package_version
    lowered = unfold build_download_path in rw (twice task.ecosystem) refl
