-- ===== src/Api/TaskService/Inline.antt =====
-- `analyze_api` repeats what `TaskService` does: the two agree.
use packamal.Table.Counts.{save_row-append, count_if-exclude_new}
use packamal.Orm.Rows.{head-IsRow}
use packamal.Api.Listing.{owned_by}
use packamal.Table.Ids.{IsRow, select-IsRow}
use packamal.Api.Analyze.Laws.{place}
use packamal.Api.Analyze.{new_task}
use packamal.Api.TaskService.{
  create_task, calculate_queue_position, queue_task, pending_task, task_queue_position_api,
  get_queue_position_for_status, position_of,
}
use packamal.World.{World}
use packamal.Purl.{Ecosystem}
use packamal.Models.{AnalysisTask, has_status, queued, Status}
use packamal.Prelude.{
  ℕ, Text, List, Bool, All, ◌≡◌, ◌<◌, ◌++◌, ◌∷◌, [], ap, refl, arith, ◌+◌, Option, true,
  Option-cases, head?, select, ◌==◌, ◌&&◌, inl, inr,
}

module _ (now key priority : ℕ) (purl : Text) (info : Text × Text × Ecosystem) (w : World) where
  abbrev pub creation : AnalysisTask × World
  creation = create_task now key purl priority info w

  abbrev pub task : AnalysisTask
  task = pending_task now w.next_id key purl priority info

  pub position_lem :
      All (λ r. r.id < w.next_id) w.tasks
      → calculate_queue_position task (w.tasks ++ (task ∷ [])) ≡ place w
  unfolding calculate_queue_position
  position_lem fresh = ap (λ n. n + 1) (count_if-exclude_new (has_status queued) task w.tasks fresh)

  -- If ids are below the next one, creating a task and queueing it by `TaskService` adds the row
  -- that `analyze_api` adds, at the end of the table, with the next id and the last place in the
  -- queue, and changes no other row.
  pub queue_task-create_task :
      All (λ r. r.id < w.next_id) w.tasks
      → (queue_task now creation.0 creation.1).1.tasks
        ≡ w.tasks ++ (new_task now w.next_id key purl priority info (place w) ∷ [])
  unfolding queue_task create_task
  queue_task-create_task fresh = rw (position_lem fresh) (save_row-append task _ w.tasks refl fresh)

-- A position that `task_queue_position_api` answers is that of a row with the id and the caller's
-- key, and the one that `get_queue_position_for_status` computes for it.
pub task_queue_position_api-position :
    (is_get : Bool) (key task_id i : ℕ) (s : Status) (p : Option ℕ) (ts : List AnalysisTask)
    → task_queue_position_api is_get key task_id ts ≡ position_of i s p
    → (row : AnalysisTask) × IsRow row ts
      × (row.id ≡ task_id)
      × (owned_by key row ≡ true)
      × (row.status ≡ s)
      × (get_queue_position_for_status row ≡ p)
unfolding task_queue_position_api get_queue_position_for_status
task_queue_position_api-position is_get key task_id i s p ts h =
    elim (Option-cases (head? (select (λ t. (t.id == task_id) && owned_by key t) ts))) [
      | inl e ↦ absurd (ground arith)
      | inr (row, e) ↦
          let (here, passes) =
            select-IsRow (λ t. (t.id == task_id) && owned_by key t) row ts (head-IsRow row _ e) in
          (row, here, ground arith, ground arith, ground arith, ground arith)
    ]
