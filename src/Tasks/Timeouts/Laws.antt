-- ===== src/Tasks/Timeouts/Laws.antt =====
-- What `check_timeouts` does to the running tasks.
use packamal.Tasks.Queue.Frame.{process_next-other}
use packamal.Tasks.Queue.{process_next_queued_task}
use packamal.World.{World}
use packamal.Orm.{Orm}
use packamal.Table.{get_row, save_row}
use packamal.Table.Ids.{
  UniqueIds, save_row-UniqueIds, get_row-save_row_self, get_row-save_row_ne, select-UniqueIds,
}
use packamal.Prelude.{
  ℕ, Text, List, All, Option, ◌≡◌, ◌≢◌, Bool, some, subst, ◌∷◌, Option-cases, ap, eq_of_some, inl,
  sym, arith, none, inr, ◌∙◌, [], refl, length, false, All-map,
}
use packamal.Tasks.Timeouts.{
  Docker, handle_timed_out_tasks, handle_timed_out_task, timed_out_task, container_of,
  stop_container, check_timeouts, on_timed_out, timed_out_tasks,
}
use packamal.Models.{AnalysisTask, queued, has_status}

module _ (docker : Docker) (decimal : ℕ → Text) (now : ℕ) where
  pub handle_one :
      (task : AnalysisTask) (ts ts' : List AnalysisTask)
      → handle_timed_out_task docker decimal now task ts ≡ some ts'
      → (stopped : Option Bool) × (save_row (timed_out_task decimal now stopped task) ts ≡ ts')
  unfolding handle_timed_out_task
  handle_one task ts ts' h = elim (Option-cases (container_of task)) [
    | inl c ↦ (none, ground arith)
    | inr (container, c) ↦ elim (Option-cases (stop_container docker container)) [
      | inl s ↦ absurd (ground arith)
      | inr (stopped, s) ↦ (some stopped, ground arith)
    ]
  ]

  -- The row with the id of `r` is `r` as a timeout saves it.
  abbrev pub IsTimedOut : List AnalysisTask → AnalysisTask → Type 0
  IsTimedOut ts r =
      (stopped : Option Bool) × (get_row r.id ts ≡ some (timed_out_task decimal now stopped r))

  handle_others :
      (i : ℕ) (rows ts ts' : List AnalysisTask)
      → All (λ r. i ≢ r.id) rows
      → handle_timed_out_tasks docker decimal now rows ts ≡ some ts'
      → get_row i ts' ≡ get_row i ts
  unfolding handle_timed_out_tasks
  handle_others i [] ts ts' a h = ap (get_row i) (sym (eq_of_some h))
  handle_others i (r ∷ rows) ts ts' a h =
      elim (Option-cases (handle_timed_out_task docker decimal now r ts)) [
        | inl e ↦ absurd (ground arith)
        | inr (ts₁, e) ↦
            let (stopped, saved) = handle_one r ts ts₁ e in
            handle_others i rows ts₁ ts' a.1 (ground arith)
            ∙ (ap (get_row i) (sym saved)
                ∙ get_row-save_row_ne i (timed_out_task decimal now stopped r) ts
                    (λ x. a.0 (sym x)))
      ]

  handle-All :
      (rows ts ts' : List AnalysisTask)
      → UniqueIds rows
      → handle_timed_out_tasks docker decimal now rows ts ≡ some ts'
      → All (IsTimedOut ts') rows
  unfolding handle_timed_out_tasks
  handle-All [] ts ts' u h = tt
  handle-All (r ∷ rows) ts ts' u h =
      elim (Option-cases (handle_timed_out_task docker decimal now r ts)) [
        | inl e ↦ absurd (ground arith)
        | inr (ts₁, e) ↦
            let (stopped, saved) = handle_one r ts ts₁ e in
            let rest : handle_timed_out_tasks docker decimal now rows ts₁ ≡ some ts' =
              ground arith in
            (
              (
                stopped,
                handle_others r.id rows ts₁ ts' u.0 rest
                    ∙ (ap (get_row r.id) (sym saved)
                        ∙ get_row-save_row_self r.id (timed_out_task decimal now stopped r) ts
                            refl),
              ),
              handle-All rows ts₁ ts' u.1 rest,
            )
      ]

  handle-UniqueIds :
      (rows ts ts' : List AnalysisTask)
      → UniqueIds ts
      → handle_timed_out_tasks docker decimal now rows ts ≡ some ts'
      → UniqueIds ts'
  unfolding handle_timed_out_tasks
  handle-UniqueIds [] ts ts' u h = subst UniqueIds (eq_of_some h) u
  handle-UniqueIds (r ∷ rows) ts ts' u h =
      elim (Option-cases (handle_timed_out_task docker decimal now r ts)) [
        | inl e ↦ absurd (ground arith)
        | inr (ts₁, e) ↦
            let (stopped, saved) = handle_one r ts ts₁ e in
            handle-UniqueIds rows ts₁ ts'
              (subst UniqueIds saved
                (save_row-UniqueIds (timed_out_task decimal now stopped r) ts u))
              (ground arith)
      ]

  IsTimedOut-process_next :
      ⦃orm : Orm⦄ (accepts : ℕ → Bool) (rows : List AnalysisTask) (w : World)
      → UniqueIds w.tasks
      → All (IsTimedOut w.tasks) rows
      → All (IsTimedOut (process_next_queued_task accepts now w).tasks) rows
  IsTimedOut-process_next accepts rows w u =
      All-map
        (λ r (stopped, found). (
          stopped,
          process_next-other accepts now w u r.id (timed_out_task decimal now stopped r) found refl,
        ))
        rows

  -- `n` counts `rows`, each of them is failed in the tables `ts'`, and every other row that is not
  -- queued is there as it was in `ts`.
  abbrev pub TimesOut : ℕ → (rows ts ts' : List AnalysisTask) → Type 0
  TimesOut n rows ts ts' =
      (n ≡ length rows)
      × All (IsTimedOut ts') rows
      × ((i : ℕ) (t : AnalysisTask)
          → get_row i ts ≡ some t
          → has_status queued t ≡ false
          → All (λ r. i ≢ r.id) rows
          → get_row i ts' ≡ some t)

  pub on_timed_out-some :
      ⦃orm : Orm⦄ (accepts : ℕ → Bool) (r : AnalysisTask) (rows : List AnalysisTask) (w : World)
      (ts : List AnalysisTask)
      → handle_timed_out_tasks docker decimal now (r ∷ rows) w.tasks ≡ some ts
      → on_timed_out docker decimal accepts now (r ∷ rows) w
        ≡ (some (length (r ∷ rows)), process_next_queued_task accepts now (record w { tasks = ts }))
  unfolding on_timed_out
  on_timed_out-some accepts r rows w ts e = rw (e, on_timed_out)

  pub on_timed_out-none :
      ⦃orm : Orm⦄ (accepts : ℕ → Bool) (r : AnalysisTask) (rows : List AnalysisTask) (w : World)
      → handle_timed_out_tasks docker decimal now (r ∷ rows) w.tasks ≡ none
      → on_timed_out docker decimal accepts now (r ∷ rows) w ≡ (none, w)
  unfolding on_timed_out
  on_timed_out-none accepts r rows w e = rw (e, on_timed_out)

  on_timed_out_lem :
      ⦃orm : Orm⦄ (accepts : ℕ → Bool) (rows : List AnalysisTask) (w : World) (n : ℕ)
      → UniqueIds w.tasks
      → UniqueIds rows
      → (on_timed_out docker decimal accepts now rows w).0 ≡ some n
      → TimesOut n rows w.tasks (on_timed_out docker decimal accepts now rows w).1.tasks
  on_timed_out_lem accepts [] w n u v h =
      unfold on_timed_out in (sym (eq_of_some h), tt, λ i t g other a. g)
  on_timed_out_lem accepts (r ∷ rows) w n u v h =
      elim (Option-cases (handle_timed_out_tasks docker decimal now (r ∷ rows) w.tasks)) [
        | inl e ↦ let failed_check = on_timed_out-none accepts r rows w e in absurd (cc)
        | inr (ts, e) ↦
            let u' = handle-UniqueIds (r ∷ rows) w.tasks ts u e in
            let result = on_timed_out-some accepts r rows w ts e in
            subst (λ (c : Option ℕ × World). c.0 ≡ some n → TimesOut n (r ∷ rows) w.tasks c.1.tasks)
              (sym result)
              (λ k. (
                sym (eq_of_some k),
                IsTimedOut-process_next accepts (r ∷ rows) (record w { tasks = ts }) u'
                    (handle-All (r ∷ rows) w.tasks ts v e),
                λ i t g other a.
                    process_next-other accepts now (record w { tasks = ts }) u' i t
                      (handle_others i (r ∷ rows) w.tasks ts a e ∙ g) other,
              ))
              h
      ]

  pub check_timeouts_lem :
      ⦃orm : Orm⦄ (accepts : ℕ → Bool) (w : World) (n : ℕ)
      → UniqueIds w.tasks
      → (check_timeouts docker decimal accepts now w).0 ≡ some n
      → TimesOut n
          (timed_out_tasks now w.tasks)
          w.tasks
          (check_timeouts docker decimal accepts now w).1.tasks
  unfolding check_timeouts
  check_timeouts_lem accepts w n u h =
      on_timed_out_lem accepts (timed_out_tasks now w.tasks) w n u
        (select-UniqueIds _ _ (select-UniqueIds _ w.tasks u)) h
