-- ===== src/Tasks/Reuse.antt =====
-- `_reuse_existing_result`, `_mark_task_completed_from_existing`, `_get_cache_key`.
pub mod Laws
pub mod Clash
use packamal.Prelude.{
  ℕ, zero, suc, Bool, false, not, ◌&&◌, Option, none, some, List, ◌++◌, Text, codes, text_eq,
  is_nonempty, is_some, head?, select, ◌==◌, if◌then◌else◌, any_of,
}
use packamal.Models.{AnalysisTask, completed, has_status}
use packamal.Table.{save_row, exclude}
use packamal.Orm.{Order, Orm, desc}

-- `if exclude_task_id: query.exclude(id=exclude_task_id)`; zero is false as `None` is.
abbrev pub excluded : Option ℕ → AnalysisTask → Bool
excluded none t = false
excluded (some zero) t = false
excluded (some (suc n)) t = t.id == suc n

-- `purl=..., status='completed', report__isnull=False`
abbrev pub has_result : Text → AnalysisTask → Bool
has_result purl t = text_eq t.purl purl && (has_status completed t && is_some t.report)

-- `-completed_at`
abbrev pub latest_completed : Order
latest_completed a b = desc a.completed_at b.completed_at

unfoldable pub reuse_existing_result :
    ⦃orm : Orm⦄ → AnalysisTask → Option ℕ → List AnalysisTask → Option AnalysisTask
reuse_existing_result ⦃orm⦄ task exclude_task_id ts =
    if is_nonempty task.purl
    then head? (
        orm.order_by latest_completed
          (select (λ t. not (excluded exclude_task_id t)) (select (has_result task.purl) ts)))
    else none

-- The task as it is saved.
abbrev pub completed_from : ℕ → AnalysisTask → AnalysisTask → AnalysisTask
completed_from now task existing = record task {
  status = completed;
  completed_at = some now;
  report = existing.report;
  download_url = existing.download_url;
  queue_position = none;
}

-- `report` is a `OneToOneField`, so its column is unique, NULL apart.
abbrev pub same_report : Option ℕ → Option ℕ → Bool
same_report none r = false
same_report (some x) none = false
same_report (some x) (some y) = x == y

-- Another row than `task` has the report.
abbrev pub clashes : AnalysisTask → Option ℕ → List AnalysisTask → Bool
clashes task report ts = any_of (λ t. same_report report t.report) (exclude task.id ts)

-- `none`: the save raises `IntegrityError`.
unfoldable pub mark_task_completed_from_existing :
    ℕ → AnalysisTask → AnalysisTask → List AnalysisTask → Option (List AnalysisTask)
mark_task_completed_from_existing now task existing ts =
    if clashes task existing.report ts
    then none
    else some (save_row (completed_from now task existing) ts)

unfoldable pub get_cache_key : AnalysisTask → Text
get_cache_key task =
    codes "analysis_"
    ++ (task.ecosystem ++ (codes "_" ++ (task.package_name ++ (codes "_" ++ task.package_version))))
