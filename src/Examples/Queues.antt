-- ===== src/Examples/Queues.antt =====
-- Runs of the queue and of the tables.
use packamal.Tasks.Queue.Stuck.{process_next-stuck}
use packamal.Tasks.Queue.Sending.{next_round-send}
use packamal.Orm.{asc}
use packamal.Tasks.Reuse.Laws.{reusable}
use packamal.Table.Ids.{IsRow}
use packamal.Examples.{row, with_report, env, world}
use packamal.Models.{AnalysisTask, has_status, running, queued}
use packamal.Orm.Insertion.{sort}
use packamal.Tasks.Queue.Positions.{IsNumbered, unplaced, update_queue_positions_lem}
use packamal.Tasks.Queue.{process_next_queued_task, queue, update_queue_positions, next_round, send}
use packamal.Tasks.Reuse.{reuse_existing_result}
use packamal.Examples.{sorting}
use packamal.Prelude.{
  List, count_if, map, ◌∷◌, some, [], ◌≡◌, false, arith, true, refl, is_nonempty, ◌≤◌,
}

abbrev busy_queue : List AnalysisTask
busy_queue = row 1 queued ∷ record (row 2 queued) { priority = 5 } ∷ []

abbrev cached_queue : List AnalysisTask
cached_queue = row 1 queued ∷ with_report 2 ∷ []

update_queue_positions_example :
    IsNumbered 1 (queue busy_queue) (update_queue_positions busy_queue)
    × (map unplaced (update_queue_positions busy_queue) ≡ map unplaced busy_queue)
update_queue_positions_example = update_queue_positions_lem busy_queue (ground arith)

busy_queue_sends : next_round busy_queue ≡ send (record (row 2 queued) { priority = 5 })
unfolding next_round reuse_existing_result sort
busy_queue_sends = refl

next_round-send_example :
    let next = record (row 2 queued) { priority = 5 } in
    IsRow next busy_queue
    × (queued ≡ queued)
    × (count_if (has_status running) busy_queue ≡ 0)
    × ((r : AnalysisTask)
        → IsRow r busy_queue
        → has_status queued r ≡ true
        → (r.priority ≤ next.priority)
          × (r.priority ≡ next.priority → asc next.queued_at r.queued_at ≡ true))
    × ((r : AnalysisTask)
        → IsRow r busy_queue
        → is_nonempty next.purl ≡ true
        → reusable next (some next.id) r ≡ false)
next_round-send_example =
    next_round-send busy_queue (record (row 2 queued) { priority = 5 }) busy_queue_sends

process_next-stuck_example :
    process_next_queued_task env.accepts 40 (world cached_queue) ≡ world cached_queue
unfolding reuse_existing_result sort
process_next-stuck_example =
    process_next-stuck env.accepts 40 (world cached_queue) (row 1 queued) (with_report 2)
      (ground arith) refl refl (ground arith) refl
