-- ===== src/Tasks/Queue.antt =====
-- `_process_next_queued_task` and `_update_queue_positions`.
pub mod Positions
pub mod Rounds
pub mod Frame
pub mod Sending
pub mod Stuck
use packamal.Prelude.{
  ℕ, zero, suc, ◌+◌, Bool, true, false, Option, none, some, List, [], ◌∷◌, any_of, count_if, head?,
  select, ltb, ◌==◌, if◌then◌else◌,
}
use packamal.Models.{AnalysisTask, queued, running, has_status}
use packamal.Table.{save_row}
use packamal.Orm.{Order, Orm, asc}
use packamal.World.{World}
use packamal.Tasks.Reuse.{
  reuse_existing_result, mark_task_completed_from_existing, clashes, completed_from,
}

-- `order_by('-priority', 'queued_at')`
abbrev pub queue_order : Order
queue_order a b =
    if ltb b.priority a.priority
    then true
    else if a.priority == b.priority
    then asc a.queued_at b.queued_at
    else false

-- `filter(status='queued').order_by('-priority', 'queued_at')`
abbrev pub queue : ⦃orm : Orm⦄ → List AnalysisTask → List AnalysisTask
queue ⦃orm⦄ ts = orm.order_by queue_order (select (has_status queued) ts)

-- `for index, task in enumerate(queued_tasks, index): task.queue_position = index; task.save()`
unfoldable pub renumber : ℕ → List AnalysisTask → List AnalysisTask → List AnalysisTask
renumber index [] ts = ts
renumber index (t ∷ rest) ts =
    renumber (index + 1) rest (save_row (record t { queue_position = some index }) ts)

unfoldable pub update_queue_positions : ⦃orm : Orm⦄ → List AnalysisTask → List AnalysisTask
update_queue_positions ts = renumber 1 (queue ts) ts

-- What one round of `_process_next_queued_task` finds to do. On `IntegrityError` the transaction
-- is rolled back and the error logged.
pub data Round : Type 0 where
  idle : Round
  not_unique : Round
  reuse : (next existing : AnalysisTask) → Round
  send : (next : AnalysisTask) → Round

unfoldable pub next_round : ⦃orm : Orm⦄ → List AnalysisTask → Round
next_round ts = if any_of (has_status running) ts then idle else elim (head? (queue ts)) [
  | none ↦ idle
  | some next ↦ elim (reuse_existing_result next (some next.id) ts) [
    | none ↦ send next
    | some existing ↦ if clashes next existing.report ts then not_unique else reuse next existing
  ]
]

-- The tables after a round that reuses a result, which `_mark_task_completed_from_existing` saves.
unfoldable pub after_reuse : ⦃orm : Orm⦄ → ℕ → AnalysisTask → AnalysisTask → World → World
unfolding update_queue_positions
after_reuse now next existing w = record w {
  tasks = update_queue_positions (save_row (completed_from now next existing) w.tasks);
}

-- `run_dynamic_analysis.apply_async(...)`; `accepts` says whether Celery's broker takes the
-- message. A refusal raises, and `except Exception` logs it.
unfoldable pub apply_async : (ℕ → Bool) → AnalysisTask → World → World
apply_async accepts task w =
    if accepts task.id then record w { published = (task.id, task.priority) ∷ w.published } else w

-- The function calls itself after a reuse; on fuel, which `Tasks.Queue.Rounds` shows to suffice.
unfoldable pub process_rounds : ⦃orm : Orm⦄ → ℕ → (ℕ → Bool) → ℕ → World → World
process_rounds zero accepts now w = w
process_rounds (suc fuel) accepts now w = elim (next_round w.tasks) [
  | idle ↦ w
  | not_unique ↦ w
  | reuse next existing ↦ process_rounds fuel accepts now (after_reuse now next existing w)
  | send next ↦ apply_async accepts next w
]

unfoldable pub process_next_queued_task : ⦃orm : Orm⦄ → (ℕ → Bool) → ℕ → World → World
process_next_queued_task accepts now w =
    process_rounds (suc (count_if (has_status queued) w.tasks)) accepts now w
