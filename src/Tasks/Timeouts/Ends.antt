-- ===== src/Tasks/Timeouts/Ends.antt =====
-- How `check_timeouts` ends: with a count, or with the tables as they were.
use packamal.World.{World}
use packamal.Models.{AnalysisTask}
use packamal.Orm.{Orm}
use packamal.Tasks.Timeouts.{
  Docker, Exit, stop_container, handle_timed_out_tasks, handle_timed_out_task, success, other_error,
  check_timeouts, called_process_error, on_timed_out, container_of, timed_out_tasks,
}
use packamal.Prelude.{
  ℕ, ◌≡◌, Text, ◌≢◌, Bool, ◌⊎◌, List, is_some, inl, true, ◌∷◌, arith, Option-cases, none, some, inr,
  [], length, refl,
}

Exit-cases : (x : Exit) → (x ≡ success) ⊎ ((x ≡ called_process_error) ⊎ (x ≡ other_error))
Exit-cases success = inl refl
Exit-cases called_process_error = inr (inl refl)
Exit-cases other_error = inr (inr refl)

stop_container-some :
    (docker : Docker) (c : Text)
    → docker.kill c ≢ other_error
    → is_some (stop_container docker c) ≡ true
unfolding stop_container
stop_container-some docker c calm = elim (Exit-cases (docker.stop c)) [
  | inl e ↦ ground arith
  | inr (inl e) ↦ ground arith
  | inr (inr e) ↦ ground arith
]

module _ (docker : Docker) (decimal : ℕ → Text) (now : ℕ) where
  handle_one-some :
      (calm : (c : Text) → docker.kill c ≢ other_error) (t : AnalysisTask) (ts : List AnalysisTask)
      → is_some (handle_timed_out_task docker decimal now t ts) ≡ true
  unfolding handle_timed_out_task
  handle_one-some calm t ts = elim (Option-cases (container_of t)) [
    | inl e ↦ ground arith
    | inr (c, e) ↦ ground (arith, stop_container-some docker c (calm c))
  ]

  handle-some :
      (calm : (c : Text) → docker.kill c ≢ other_error) (rows ts : List AnalysisTask)
      → is_some (handle_timed_out_tasks docker decimal now rows ts) ≡ true
  unfolding handle_timed_out_tasks
  handle-some calm [] ts = refl
  handle-some calm (t ∷ rows) ts =
      elim (Option-cases (handle_timed_out_task docker decimal now t ts)) [
        | inl e ↦ absurd (ground (arith, handle_one-some calm t ts))
        | inr (ts', e) ↦ ground (arith, handle-some calm rows ts')
      ]

  module _ ⦃orm : Orm⦄ (accepts : ℕ → Bool) where
    on_timed_out-count :
        (calm : (c : Text) → docker.kill c ≢ other_error) (rows : List AnalysisTask) (w : World)
        → (on_timed_out docker decimal accepts now rows w).0 ≡ some (length rows)
    unfolding on_timed_out
    on_timed_out-count calm [] w = refl
    on_timed_out-count calm (r ∷ rows) w =
        elim (Option-cases (handle_timed_out_tasks docker decimal now (r ∷ rows) w.tasks)) [
          | inl e ↦ absurd (ground (arith, handle-some calm (r ∷ rows) w.tasks))
          | inr (ts, e) ↦ rw (e, on_timed_out) refl
        ]

    on_timed_out-rollback :
        (rows : List AnalysisTask) (w : World)
        → (on_timed_out docker decimal accepts now rows w).0 ≡ none
        → (on_timed_out docker decimal accepts now rows w).1 ≡ w
    unfolding on_timed_out
    on_timed_out-rollback [] w h = refl
    on_timed_out-rollback (r ∷ rows) w h =
        elim (Option-cases (handle_timed_out_tasks docker decimal now (r ∷ rows) w.tasks)) [
          | inl e ↦ rw (e, on_timed_out) refl
          | inr (ts, e) ↦ absurd (ground arith)
        ]

    -- If no kill of a container raises anything but `CalledProcessError`, `check_timeouts` returns
    -- the number of the running tasks that have timed out; if it ends with an error, the tables and
    -- what was sent are as before.
    pub check_timeouts-ends :
        (w : World)
        → (((c : Text) → docker.kill c ≢ other_error)
            → (check_timeouts docker decimal accepts now w).0
              ≡ some (length (timed_out_tasks now w.tasks)))
          × ((check_timeouts docker decimal accepts now w).0 ≡ none
              → (check_timeouts docker decimal accepts now w).1 ≡ w)
    unfolding check_timeouts
    check_timeouts-ends w = (
      λ calm. on_timed_out-count calm (timed_out_tasks now w.tasks) w,
      on_timed_out-rollback (timed_out_tasks now w.tasks) w,
    )
