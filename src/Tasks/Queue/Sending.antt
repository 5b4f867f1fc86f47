-- ===== src/Tasks/Queue/Sending.antt =====
-- What `_process_next_queued_task` sends to Celery.
use packamal.Orm.Rows.{first-IsRow, first-before}
use packamal.Tasks.Reuse.Laws.{reusable, reuse_existing_result-none}
use packamal.Table.Ids.{IsRow}
use packamal.Tasks.Queue.{next_round, send, queue_order}
use packamal.Models.{AnalysisTask, queued, has_status, running}
use packamal.Prelude.{List, ◌≡◌, count_if, true, is_nonempty, some, false, arith, ◌≤◌}
use packamal.Orm.{Orm, asc}
use packamal.Tasks.Queue.Rounds.{head_of_send, queue_order-IsOrder, none_running}

queue_order_lem :
    (a b : AnalysisTask)
    → queue_order a b ≡ true
    → (b.priority ≤ a.priority) × (b.priority ≡ a.priority → asc a.queued_at b.queued_at ≡ true)
queue_order_lem a b h = (ground arith, λ e. ground arith)

module _ ⦃orm : Orm⦄ (ts : List AnalysisTask) (next : AnalysisTask)
    (sent : next_round ts ≡ send next) where
  -- When the handler of the queue, `_process_next_queued_task`, sends a task to Celery, the task is
  -- a queued row, no task is running, no queued row comes before it by priority and queued_at, and,
  -- if its purl is not empty, no other row is a completed task with its purl and a report. This says
  -- nothing of the new tasks that `analyze_api` sends.
  pub next_round-send :
      IsRow next ts
      × (next.status ≡ queued)
      × (count_if (has_status running) ts ≡ 0)
      × ((r : AnalysisTask)
          → IsRow r ts
          → has_status queued r ≡ true
          → (r.priority ≤ next.priority)
            × (r.priority ≡ next.priority → asc next.queued_at r.queued_at ≡ true))
      × ((r : AnalysisTask)
          → IsRow r ts
          → is_nonempty next.purl ≡ true
          → reusable next (some next.id) r ≡ false)
  next_round-send =
      let (first, none_runs, no_result) = head_of_send ts next sent in
      let (row, passes) =
        first-IsRow queue_order queue_order-IsOrder (has_status queued) ts next first in
      (
        row,
        ground arith,
        none_running ts none_runs,
        λ r m q.
            queue_order_lem next r (
              first-before queue_order queue_order-IsOrder (has_status queued) ts next first r m q),
        λ r m e. reuse_existing_result-none next (some next.id) ts no_result e r m,
      )
