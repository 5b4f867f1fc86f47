-- ===== src/Tasks/Timeouts.antt =====
-- `check_timeouts`, `_handle_timed_out_task` and `ContainerManager.stop_container`. What Docker
-- does with a container id is a parameter.
pub mod Laws
pub mod Ends
use packamal.Tasks.Queue.{process_next_queued_task}
use packamal.Table.{save_row}
use packamal.World.{World}
use packamal.Orm.{Orm}
use packamal.Prelude.{
  Option, Text, ℕ, Bool, codes, List, some, ◌++◌, select, true, none, ◌∷◌, false, [], length,
  truthy,
}
use packamal.Models.{AnalysisTask, failed, running, has_status, timeout_details, is_timed_out}

-- How a `docker` command ends: exit status 0, `CalledProcessError`, another exception.
pub data Exit : Type 0 where
  success called_process_error other_error : Exit

pub record Docker : Type 0 where
  pub stop : Text → Exit
  pub kill : Text → Exit

-- `ContainerManager.stop_container`: a graceful stop, then a kill. An exception of the kill that is
-- no `CalledProcessError` is not caught: `none`.
unfoldable pub stop_container : Docker → Text → Option Bool
stop_container docker container_id = elim (docker.stop container_id) [
  | success ↦ some true
  | called_process_error ↦ elim (docker.kill container_id) [
    | success ↦ some true
    | called_process_error ↦ some false
    | other_error ↦ none
  ]
  | other_error ↦ some false
]

-- f"Task timed out after {task.timeout_minutes} minutes"; `decimal` prints a number.
abbrev pub timeout_message : (ℕ → Text) → ℕ → Text
timeout_message decimal minutes =
    codes "Task timed out after " ++ (decimal minutes ++ codes " minutes")

-- The task as it is saved. `if task.container_id` is false for the empty text too.
abbrev pub timed_out_task : (ℕ → Text) → ℕ → Option Bool → AnalysisTask → AnalysisTask
timed_out_task decimal now container_stopped task = record task {
  status = failed;
  error_message = timeout_message decimal task.timeout_minutes;
  error_category = codes "timeout_error";
  error_details =
      timeout_details task.timeout_minutes task.started_at now task.container_id container_stopped;
  completed_at = some now;
  queue_position = none;
}

abbrev pub container_of : AnalysisTask → Option Text
container_of task = truthy task.container_id

-- `none`: an exception leaves the handler.
unfoldable pub handle_timed_out_task :
    Docker → (ℕ → Text) → ℕ → AnalysisTask → List AnalysisTask → Option (List AnalysisTask)
handle_timed_out_task docker decimal now task ts = elim (container_of task) [
  | none ↦ some (save_row (timed_out_task decimal now none task) ts)
  | some container ↦ elim (stop_container docker container) [
    | none ↦ none
    | some stopped ↦ some (save_row (timed_out_task decimal now (some stopped) task) ts)
  ]
]

-- `for task in timed_out_tasks: _handle_timed_out_task(task)`
unfoldable pub handle_timed_out_tasks :
    Docker → (ℕ → Text) → ℕ → List AnalysisTask → List AnalysisTask → Option (List AnalysisTask)
handle_timed_out_tasks docker decimal now [] ts = some ts
handle_timed_out_tasks docker decimal now (task ∷ rest) ts =
    elim (handle_timed_out_task docker decimal now task ts) [
      | none ↦ none
      | some ts' ↦ handle_timed_out_tasks docker decimal now rest ts'
    ]

-- `[task for task in ...filter(status='running') if task.is_timed_out()]`
abbrev pub timed_out_tasks : ℕ → List AnalysisTask → List AnalysisTask
timed_out_tasks now ts = select (λ t. is_timed_out t now) (select (has_status running) ts)

-- The "timed_out_count" of the result, or `none` for a result with an "error": an exception rolls
-- the transaction back.
unfoldable pub on_timed_out :
    ⦃orm : Orm⦄
    → Docker
    → (ℕ → Text)
    → (ℕ → Bool)
    → ℕ
    → List AnalysisTask
    → World
    → Option ℕ × World
on_timed_out docker decimal accepts now [] w = (some 0, w)
on_timed_out docker decimal accepts now (task ∷ rest) w =
    elim (handle_timed_out_tasks docker decimal now (task ∷ rest) w.tasks) [
      | none ↦ (none, w)
      | some ts ↦ (
        some (length (task ∷ rest)),
        process_next_queued_task accepts now (record w { tasks = ts }),
      )
    ]

unfoldable pub check_timeouts :
    ⦃orm : Orm⦄ → Docker → (ℕ → Text) → (ℕ → Bool) → ℕ → World → Option ℕ × World
unfolding on_timed_out
check_timeouts docker decimal accepts now w =
    on_timed_out docker decimal accepts now (timed_out_tasks now w.tasks) w
