-- ===== src/Tasks/Queue/Stuck.antt =====
-- What a task with a reusable result does to the queue that it heads.
use packamal.Tasks.Reuse.Clash.{reuse_existing_result-clashes}
use packamal.Tasks.Queue.Rounds.{process_next_queued_task_lem, continue}
use packamal.Tasks.Reuse.{reuse_existing_result, clashes}
use packamal.Table.Ids.{UniqueIds}
use packamal.Models.{AnalysisTask, has_status, running}
use packamal.World.{World}
use packamal.Tasks.Queue.{next_round, queue, process_next_queued_task, not_unique, reuse}
use packamal.Orm.{Orm}
use packamal.Prelude.{
  ℕ, Bool, List, any_of, ◌≡◌, false, head?, some, ◌<◌, true, ◌∙◌, ap, refl, Bool-cases, inl, arith,
  inr, Option-cases,
}

module _ ⦃orm : Orm⦄ where
  round_of_reuse :
      (ts : List AnalysisTask) (next e : AnalysisTask)
      → any_of (has_status running) ts ≡ false
      → head? (queue ts) ≡ some next
      → reuse_existing_result next (some next.id) ts ≡ some e
      → clashes next e.report ts ≡ true
      → next_round ts ≡ not_unique
  unfolding next_round
  round_of_reuse ts next e free first found clash =
      rw (free, next_round) (rw first (rw found (rw clash refl)))

  -- In a table with distinct ids where no task is running and the first of the queue has an id
  -- above zero and a result to reuse, `_process_next_queued_task` changes nothing and sends
  -- nothing, so that the queue stays where it is: the report of that result belongs to another
  -- row, and the save fails.
  pub process_next-stuck :
      (accepts : ℕ → Bool) (now : ℕ) (w : World) (next e : AnalysisTask)
      → UniqueIds w.tasks
      → any_of (has_status running) w.tasks ≡ false
      → head? (queue w.tasks) ≡ some next
      → 0 < next.id
      → reuse_existing_result next (some next.id) w.tasks ≡ some e
      → process_next_queued_task accepts now w ≡ w
  process_next-stuck accepts now w next e u free first pos found =
      process_next_queued_task_lem accepts now w u
      ∙ ap (continue (process_next_queued_task accepts now) accepts now w) (
          round_of_reuse w.tasks next e free first found
            (reuse_existing_result-clashes next e w.tasks pos found))

  pub reuse-clashes :
      (ts : List AnalysisTask) (next e : AnalysisTask)
      → next_round ts ≡ reuse next e
      → clashes next e.report ts ≡ false
  unfolding next_round
  reuse-clashes ts next e h = elim (Bool-cases (any_of (has_status running) ts)) [
    | inl a ↦ absurd (ground arith)
    | inr a ↦ elim (Option-cases (head? (queue ts))) [
      | inl b ↦ absurd (ground arith)
      | inr (x, b) ↦ elim (Option-cases (reuse_existing_result x (some x.id) ts)) [
        | inl c ↦ absurd (ground arith)
        | inr (y, c) ↦ elim (Bool-cases (clashes x y.report ts)) [
          | inl d ↦ absurd (ground arith)
          | inr d ↦ ground arith
        ]
      ]
    ]
  ]
