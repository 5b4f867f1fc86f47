-- ===== src/Tasks/Queue/Rounds.antt =====
-- The rounds of `_process_next_queued_task` end, and where they end.
use packamal.Table.Counts.{count_if-save_row, indicator}
use packamal.Orm.Rows.{query-IsRow, head-IsRow}
use packamal.Tasks.Queue.Positions.{
  update_queue_positions-UniqueIds, count_if-update_queue_positions,
}
use packamal.Table.Ids.{UniqueIds, save_row-UniqueIds, get_row-of_mem, IsRow}
use packamal.World.{World}
use packamal.Tasks.Queue.{
  queue_order, after_reuse, next_round, reuse, send, queue, process_rounds, Round, apply_async,
  process_next_queued_task, idle, not_unique,
}
use packamal.Tasks.Reuse.{completed_from, reuse_existing_result}
use packamal.Orm.{Orm, IsOrder}
use packamal.Prelude.{
  List, ℕ, any_of, ◌≡◌, arith, false, head?, count_if, ◌∷◌, ◌+◌, some, [], none, refl, Bool, ◌<◌,
  suc, inl, ◌⊎◌, inr, ◌∙◌, sym, zero, true,
}
use packamal.Models.{AnalysisTask, queued, running, has_status, Status}

pub queue_order-IsOrder : IsOrder queue_order
queue_order-IsOrder = record { total = λ a b. ground arith; trans = λ a b c h k. ground arith }

pub none_running :
    (ts : List AnalysisTask)
    → any_of (has_status running) ts ≡ false
    → count_if (has_status running) ts ≡ 0
none_running [] h = refl
none_running (t ∷ ts) h = ground (arith, none_running ts)

pub Round-cases :
    (r : Round)
    → (r ≡ idle)
      ⊎ ((next : AnalysisTask) × (existing : AnalysisTask) × (r ≡ reuse next existing))
      ⊎ ((next : AnalysisTask) × (r ≡ send next))
      ⊎ (r ≡ not_unique)
Round-cases idle = inl refl
Round-cases (reuse next existing) = inr (inl (next, existing, refl))
Round-cases (send next) = inr (inr (inl (next, refl)))
Round-cases not_unique = inr (inr (inr refl))

-- The body after its first look at the tables, over the function that it calls again.
abbrev pub continue : ⦃orm : Orm⦄ → (World → World) → (ℕ → Bool) → ℕ → World → Round → World
continue again accepts now w idle = w
continue again accepts now w not_unique = w
continue again accepts now w (reuse next existing) = again (after_reuse now next existing w)
continue again accepts now w (send next) = apply_async accepts next w

module _ ⦃orm : Orm⦄ where
  pub head_of_reuse :
      (ts : List AnalysisTask) (next existing : AnalysisTask)
      → next_round ts ≡ reuse next existing
      → head? (queue ts) ≡ some next
  unfolding next_round
  head_of_reuse ts next existing h = ground arith

  pub head_of_send :
      (ts : List AnalysisTask) (next : AnalysisTask)
      → next_round ts ≡ send next
      → (head? (queue ts) ≡ some next)
        × (any_of (has_status running) ts ≡ false)
        × (reuse_existing_result next (some next.id) ts ≡ none)
  unfolding next_round
  head_of_send ts next h = ground arith

  pub after_reuse-UniqueIds :
      (now : ℕ) (next existing : AnalysisTask) (w : World)
      → UniqueIds w.tasks
      → UniqueIds (after_reuse now next existing w).tasks
  unfolding after_reuse
  after_reuse-UniqueIds now next existing w u =
      update_queue_positions-UniqueIds _
        (save_row-UniqueIds (completed_from now next existing) w.tasks u)

  -- The row that a reuse completes was in the table, and queued.
  pub reused-IsRow :
      (ts : List AnalysisTask) (next existing : AnalysisTask)
      → next_round ts ≡ reuse next existing
      → IsRow next ts × (has_status queued next ≡ true)
  reused-IsRow ts next existing h =
      query-IsRow queue_order (has_status queued) ts next
        (head-IsRow next _ (head_of_reuse ts next existing h))

  pub count_if-after_reuse :
      (s : Status) (now : ℕ) (next existing : AnalysisTask) (w : World)
      → UniqueIds w.tasks
      → next_round w.tasks ≡ reuse next existing
      → count_if (has_status s) (after_reuse now next existing w).tasks
          + indicator (has_status s next)
        ≡ count_if (has_status s) w.tasks
          + indicator (has_status s (completed_from now next existing))
  unfolding after_reuse
  count_if-after_reuse s now next existing w u h =
      let row = get_row-of_mem next w.tasks u (reused-IsRow w.tasks next existing h).0 in
      rw
        (count_if-update_queue_positions _
          (save_row-UniqueIds (completed_from now next existing) w.tasks u) s)
        (count_if-save_row (has_status s) (completed_from now next existing) next w.tasks row)

  -- A round that reuses a result takes one task off the queue.
  fewer_queued :
      (now : ℕ) (next existing : AnalysisTask) (w : World)
      → UniqueIds w.tasks
      → next_round w.tasks ≡ reuse next existing
      → count_if (has_status queued) (after_reuse now next existing w).tasks + 1
        ≡ count_if (has_status queued) w.tasks
  fewer_queued now next existing w u h = ground (
    arith,
    count_if-after_reuse queued now next existing w u h,
    (reused-IsRow w.tasks next existing h).1,
  )

  pub rounds_step :
      (f : ℕ) (accepts : ℕ → Bool) (now : ℕ) (w : World) (r : Round)
      → next_round w.tasks ≡ r
      → process_rounds (suc f) accepts now w
        ≡ continue (process_rounds f accepts now) accepts now w r
  unfolding process_rounds
  rounds_step f accepts now w idle e = rw (e, process_rounds)
  rounds_step f accepts now w not_unique e = rw (e, process_rounds)
  rounds_step f accepts now w (reuse next existing) e = rw (e, process_rounds)
  rounds_step f accepts now w (send next) e = rw (e, process_rounds)

  -- Fuel beyond the number of queued tasks changes nothing.
  rounds_fuel :
      (f g : ℕ) (accepts : ℕ → Bool) (now : ℕ) (w : World)
      → UniqueIds w.tasks
      → count_if (has_status queued) w.tasks < f
      → count_if (has_status queued) w.tasks < g
      → process_rounds f accepts now w ≡ process_rounds g accepts now w
  rounds_fuel zero g accepts now w u hf hg = absurd (omega arith)
  rounds_fuel (suc f) zero accepts now w u hf hg = absurd (omega arith)
  rounds_fuel (suc f) (suc g) accepts now w u hf hg = elim (Round-cases (next_round w.tasks)) [
    | inl e ↦ rw (rounds_step f accepts now w idle e, rounds_step g accepts now w idle e)
    | inr (inl (next, existing, e)) ↦
        let fewer = fewer_queued now next existing w u e in
        let same =
          rounds_fuel f g accepts now (after_reuse now next existing w)
            (after_reuse-UniqueIds now next existing w u) (omega arith) (omega arith) in
        rounds_step f accepts now w (reuse next existing) e
        ∙ (same ∙ sym (rounds_step g accepts now w (reuse next existing) e))
    | inr (inr (inl (next, e))) ↦
        rw (rounds_step f accepts now w (send next) e, rounds_step g accepts now w (send next) e)
    | inr (inr (inr e)) ↦
        rw (rounds_step f accepts now w not_unique e, rounds_step g accepts now w not_unique e)
  ]

  -- In a table with distinct ids, whatever the number of rounds, `_process_next_queued_task` does
  -- what its body does, where the call in the body is the function itself: it never runs out of
  -- fuel. It stops if a task runs, none is queued or the save of a reused result is refused, it
  -- sends the first of the queue if there is no result to reuse, and else it completes that one and
  -- goes on.
  pub process_next_queued_task_lem :
      (accepts : ℕ → Bool) (now : ℕ) (w : World)
      → UniqueIds w.tasks
      → process_next_queued_task accepts now w
        ≡ continue (process_next_queued_task accepts now) accepts now w (next_round w.tasks)
  unfolding process_next_queued_task
  process_next_queued_task_lem accepts now w u = elim (Round-cases (next_round w.tasks)) [
    | inl e ↦ rw e (rounds_step _ accepts now w idle e)
    | inr (inl (next, existing, e)) ↦
        let fewer = fewer_queued now next existing w u e in
        rw e (
          rounds_step _ accepts now w (reuse next existing) e
          ∙ rounds_fuel _ _ accepts now (after_reuse now next existing w)
              (after_reuse-UniqueIds now next existing w u) (omega arith) (omega arith))
    | inr (inr (inl (next, e))) ↦ rw e (rounds_step _ accepts now w (send next) e)
    | inr (inr (inr e)) ↦ rw e (rounds_step _ accepts now w not_unique e)
  ]
