-- ===== src/Api/TaskService.antt =====
-- services/task_service.py `TaskService`, and views.py `task_queue_position_api`.
pub mod Inline
use packamal.Api.Listing.{owned_by}
use packamal.Tasks.Reuse.{latest_completed, has_result}
use packamal.Table.{save_row, exclude}
use packamal.Api.Analyze.{newest, new_task, race_window, is_active_for}
use packamal.World.{World}
use packamal.Purl.{Ecosystem}
use packamal.Api.Status.{by_position}
use packamal.Orm.{Orm, Order}
use packamal.Models.{AnalysisTask, Status, has_status, queued, running, pending, failed, submitted}
use packamal.Prelude.{
  ℕ, Bool, Text, leb, List, text_eq, Option, head?, ◌&&◌, ◌++◌, if◌then◌else◌, count_if, ◌||◌, some,
  select, ◌-◌, ◌∷◌, [], ◌+◌, none, ◌==◌,
}

-- `.first()` of an unordered query orders by the primary key.
abbrev pub by_id : Order
by_id a b = leb a.id b.id

-- `purl=purl, created_at__gte=...`
abbrev pub is_recent_for : Text → ℕ → AnalysisTask → Bool
is_recent_for purl now t = text_eq t.purl purl && leb (now - race_window) t.created_at

module _ ⦃orm : Orm⦄ where
  unfoldable pub find_completed_task_by_purl : Text → List AnalysisTask → Option AnalysisTask
  find_completed_task_by_purl purl ts =
      head? (orm.order_by latest_completed (select (has_result purl) ts))

  unfoldable pub find_active_tasks_by_purl : Text → ℕ → List AnalysisTask → List AnalysisTask
  find_active_tasks_by_purl purl now ts = orm.order_by newest (select (is_active_for purl now) ts)

  unfoldable pub find_recent_task_by_purl : Text → ℕ → List AnalysisTask → Option AnalysisTask
  find_recent_task_by_purl purl now ts =
      head? (orm.order_by by_id (select (is_recent_for purl now) ts))

-- The row that `create` inserts.
abbrev pub pending_task : ℕ → ℕ → ℕ → Text → ℕ → Text × Text × Ecosystem → AnalysisTask
pending_task now i key purl priority info = record (new_task now i key purl priority info 0) {
  status = pending;
  queue_position = none;
  queued_at = none;
}

unfoldable pub create_task :
    ℕ → ℕ → Text → ℕ → Text × Text × Ecosystem → World → AnalysisTask × World
create_task now key purl priority info w =
    let task = pending_task now w.next_id key purl priority info in
    (task, record w { tasks = w.tasks ++ (task ∷ []); next_id = w.next_id + 1 })

unfoldable pub calculate_queue_position : AnalysisTask → List AnalysisTask → ℕ
calculate_queue_position task ts = count_if (has_status queued) (exclude task.id ts) + 1

unfoldable pub queue_task : ℕ → AnalysisTask → World → AnalysisTask × World
unfolding calculate_queue_position
queue_task now task w =
    let queued_task = record task {
      status = queued;
      queued_at = some now;
      queue_position = some (calculate_queue_position task w.tasks);
    } in
    (queued_task, record w { tasks = save_row queued_task w.tasks })

unfoldable pub get_queue_position_for_status : AnalysisTask → Option ℕ
get_queue_position_for_status task =
    if has_status queued task
    then task.queue_position
    else if has_status running task
    then some 0
    else none

unfoldable pub mark_task_as_failed :
    ℕ → Text → Text → AnalysisTask → List AnalysisTask → List AnalysisTask
mark_task_as_failed now error_message error_category task ts =
    save_row
      (record task {
        status = failed;
        error_message = error_message;
        error_category = error_category;
        completed_at = some now;
      })
      ts

unfoldable pub can_update_task_status : AnalysisTask → Bool
can_update_task_status task = has_status running task || has_status submitted task

unfoldable pub get_all_queued_tasks : ⦃orm : Orm⦄ → List AnalysisTask → List AnalysisTask
get_all_queued_tasks ⦃orm⦄ ts = orm.order_by by_position (select (has_status queued) ts)

unfoldable pub get_all_running_tasks : List AnalysisTask → List AnalysisTask
get_all_running_tasks ts = select (has_status running) ts

-- The answer of `task_queue_position_api`: the status and the position.
pub data Position : Type 0 where
  get_only not_found_or_denied : Position
  position_of : (task_id : ℕ) (status : Status) (queue_position : Option ℕ) → Position

-- `AnalysisTask.objects.get(id=task_id, api_key=request.api_key)`
unfoldable pub task_queue_position_api : Bool → ℕ → ℕ → List AnalysisTask → Position
task_queue_position_api is_get key task_id ts =
    if is_get
    then elim (head? (select (λ t. (t.id == task_id) && owned_by key t) ts)) [
      | none ↦ not_found_or_denied
      | some task ↦ position_of task_id task.status (
          if has_status queued task
          then task.queue_position
          else if has_status running task
          then some 0
          else none)
    ]
    else get_only
