-- ===== src/Tasks/Queue/Frame.antt =====
-- What `_process_next_queued_task` leaves alone.
use packamal.Tasks.Reuse.{completed_from}
use packamal.Tasks.Queue.Positions.{update_queue_positions-other}
use packamal.Table.{get_row}
use packamal.Table.Ids.{UniqueIds, get_row-of_mem, save_row-UniqueIds, get_row-save_row}
use packamal.World.{World}
use packamal.Models.{AnalysisTask, has_status, queued, running}
use packamal.Tasks.Queue.{
  process_next_queued_task, next_round, reuse, after_reuse, process_rounds, apply_async, idle, send,
  not_unique,
}
use mathlib.Core.Bool.{false≢true}
use packamal.Prelude.{
  ℕ, Bool, List, ◌≡◌, suc, inl, inr, count_if, zero, some, arith, false, refl, Bool-cases, ◌==◌,
  sym, ◌∙◌, ap, eq_of_some, ==_iff,
}
use packamal.Orm.{Orm}
use packamal.Tasks.Queue.Rounds.{
  Round-cases, rounds_step, after_reuse-UniqueIds, count_if-after_reuse, reused-IsRow,
}

tasks-apply_async :
    (accepts : ℕ → Bool) (next : AnalysisTask) (w : World)
    → (apply_async accepts next w).tasks ≡ w.tasks
unfolding apply_async
tasks-apply_async accepts next w = ground arith

after_reuse-other :
    ⦃orm : Orm⦄ (now : ℕ) (next existing : AnalysisTask) (w : World)
    → UniqueIds w.tasks
    → next_round w.tasks ≡ reuse next existing
    → (i : ℕ) (t : AnalysisTask) → get_row i w.tasks ≡ some t
    → has_status queued t ≡ false
    → get_row i (after_reuse now next existing w).tasks ≡ some t
unfolding after_reuse
after_reuse-other now next existing w u e i t h other =
    let (row, is_queued) = reused-IsRow w.tasks next existing e in
    let found = get_row-of_mem next w.tasks u row in
    update_queue_positions-other _ (save_row-UniqueIds (completed_from now next existing) w.tasks u)
      i t
      (elim (Bool-cases (next.id == i)) [
        | inl same ↦ absurd (
            false≢true (
              sym other
              ∙ (ap (has_status queued) (
                    eq_of_some (
                      sym h
                      ∙ (ap (λ k. get_row k w.tasks) (sym ((==_iff next.id i).0 same)) ∙ found)))
                  ∙ is_queued)))
        | inr apart ↦ rw (get_row-save_row i (completed_from now next existing) w.tasks, apart) h
      ])
      other

module _ ⦃orm : Orm⦄ (accepts : ℕ → Bool) (now : ℕ) where
  -- An invariant rule: what each reuse keeps holds of the tables afterwards.
  pub process_next-keeps :
      (P : List AnalysisTask → Type 0)
      → ((next existing : AnalysisTask) (w : World)
          → UniqueIds w.tasks
          → next_round w.tasks ≡ reuse next existing
          → P w.tasks
          → P (after_reuse now next existing w).tasks)
      → (w : World) → UniqueIds w.tasks
      → P w.tasks
      → P (process_next_queued_task accepts now w).tasks
  unfolding process_next_queued_task
  process_next-keeps P keep w u h = loop (suc (count_if (has_status queued) w.tasks)) w u h
    where
      loop :
          (f : ℕ) (v : World)
          → UniqueIds v.tasks
          → P v.tasks
          → P (process_rounds f accepts now v).tasks
      loop zero v u p = unfold process_rounds in p
      loop (suc f) v u p = elim (Round-cases (next_round v.tasks)) [
        | inl e ↦ rw (rounds_step f accepts now v idle e) p
        | inr (inl (next, existing, e)) ↦ rw (rounds_step f accepts now v (reuse next existing) e) (
            loop f (after_reuse now next existing v) (after_reuse-UniqueIds now next existing v u)
              (keep next existing v u e p))
        | inr (inr (inl (next, e))) ↦
            rw (rounds_step f accepts now v (send next) e, tasks-apply_async accepts next v) p
        | inr (inr (inr e)) ↦ rw (rounds_step f accepts now v not_unique e) p
      ]

  module _ (w : World) (u : UniqueIds w.tasks) where
    pub process_next-UniqueIds : UniqueIds (process_next_queued_task accepts now w).tasks
    process_next-UniqueIds =
        process_next-keeps UniqueIds
          (λ next existing v k e p. after_reuse-UniqueIds now next existing v k) w u u

    -- In a table with distinct ids, the number of running tasks stays as it is.
    pub process_next-running :
        count_if (has_status running) (process_next_queued_task accepts now w).tasks
        ≡ count_if (has_status running) w.tasks
    process_next-running =
        process_next-keeps
          (λ ts. count_if (has_status running) ts ≡ count_if (has_status running) w.tasks)
          (λ next existing v k e p. ground (
            arith,
            count_if-after_reuse running now next existing v k e,
            (reused-IsRow v.tasks next existing e).1,
          ))
          w u refl

    -- A row that is not queued stays as it is.
    pub process_next-other :
        (i : ℕ) (t : AnalysisTask)
        → get_row i w.tasks ≡ some t
        → has_status queued t ≡ false
        → get_row i (process_next_queued_task accepts now w).tasks ≡ some t
    process_next-other i t h other =
        process_next-keeps (λ ts. get_row i ts ≡ some t)
          (λ next existing v k e p. after_reuse-other now next existing v k e i t p other) w u h
