-- ===== src/Api/Callback/Ends.antt =====
-- What `job_completed_api` leaves of the task, and what a second call does.
use packamal.Table.Ids.{get_row-id, get_row-save_row_self}
use packamal.Table.{get_row, save_row}
use packamal.Api.Callback.Paths.{
  saved, is_active, callback_of_task, callback_path, left_alone, unseen, broken,
  on_callback_error_lem, linked,
}
use packamal.World.{World}
use packamal.Models.{AnalysisTask, Status, completed, failed}
use packamal.Orm.{Orm}
use packamal.Api.Callback.{
  save_report_to_database, Callback, Request, task_id_of, Reply, job_completed_api, on_task,
  already, without_results, callback_failed, completed_by_worker,
}
use packamal.Prelude.{
  ℕ, ◌≡◌, refl, true, some, ap, is_some, ◌⊎◌, ◌∙◌, arith, inr, inl, false, Bool-cases,
}

module _ ⦃orm : Orm⦄ (env : Callback) (now : ℕ) (request : Request) (task_id : ℕ)
    (task : AnalysisTask) (w : World) (post : request.is_post ≡ true)
    (named : task_id_of request ≡ some task_id) (g : get_row task_id w.tasks ≡ some task) where
  abbrev after : World
  after = (job_completed_api env now request w).1

  own : task.id ≡ task_id
  own = get_row-id task_id task w.tasks g

  after-of_task : (reply : Reply) (v : World) → on_task env now task w ≡ (reply, v) → after ≡ v
  after-of_task reply v e =
      ap (λ (x : Reply × World). x.1)
        (callback_of_task env now request task_id task w post named g ∙ e)

  -- The row after a save of `t`.
  row-after :
      (t : AnalysisTask) (reply : Reply) (v : World)
      → t.id ≡ task_id
      → on_task env now task w ≡ (reply, record v { tasks = save_row t w.tasks })
      → get_row task_id after.tasks ≡ some t
  row-after t reply v same e =
      ap (λ (x : World). get_row task_id x.tasks) (after-of_task reply _ e)
      ∙ get_row-save_row_self task_id t w.tasks same

  -- A callback for a task that is running or submitted always settles it: afterwards the task is
  -- completed and has a report, or it is failed, whatever the worker left and whatever raises.
  pub job_completed_api-settles :
      is_active task ≡ true
      → (row : AnalysisTask) × (get_row task_id after.tasks ≡ some row)
        × (((row.status ≡ completed) × (is_some row.report ≡ true)) ⊎ (row.status ≡ failed))
  unfolding save_report_to_database
  job_completed_api-settles active = elim (callback_path env now task w) [
    | left_alone a e ↦ absurd (ground arith)
    | unseen a e ↦ (without_results now task, row-after _ _ w own e, inr refl)
    | broken x a e ↦ (
      callback_failed now x task,
      row-after _ _ w own (e ∙ on_callback_error_lem env now request task_id task w x g),
      inr refl,
    )
    | linked report row url a l c e ↦ (
      completed_by_worker now row.id url task,
      row-after _ _ (saved task report w) own e,
      inl (refl, refl),
    )
  ]

  left_as_it_is :
      (env' : Callback) (later : ℕ) (row : AnalysisTask) (v : World)
      → get_row task_id v.tasks ≡ some row
      → is_active row ≡ false
      → job_completed_api env' later request v ≡ (already row.status, v)
  unfolding on_task
  left_as_it_is env' later row v h a =
      callback_of_task env' later request task_id row v post named h ∙ rw (a, on_task) refl

  -- A second callback for a task leaves the tables as they are: it is answered with the status
  -- that the first one left, whatever the worker left meanwhile.
  pub job_completed_api-twice :
      (env' : Callback) (later : ℕ)
      → (status : Status) × (job_completed_api env' later request after ≡ (already status, after))
  job_completed_api-twice env' later = elim (Bool-cases (is_active task)) [
    | inl a ↦
        let (row, found, ended) = job_completed_api-settles a in
        (row.status, left_as_it_is env' later row after found (settled row ended))
    | inr a ↦
        let same = ap (λ (x : Reply × World). x.1) (left_as_it_is env now task w g a) in
        (
          task.status,
          left_as_it_is env' later task after (ap (λ (x : World). get_row task_id x.tasks) same ∙ g)
              a,
        )
  ]
    where
      settled :
          (row : AnalysisTask)
          → (((row.status ≡ completed) × (is_some row.report ≡ true)) ⊎ (row.status ≡ failed))
          → is_active row ≡ false
      settled row (inl (e, r)) = ground arith
      settled row (inr e) = ground arith
