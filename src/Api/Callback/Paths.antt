-- ===== src/Api/Callback/Paths.antt =====
-- The paths of `job_completed_api`, and what they leave of the tasks.
use packamal.Table.Ids.{get_row-own}
use packamal.Tasks.Saves.{message_of}
use packamal.Tasks.Reuse.{clashes}
use packamal.Tasks.Outcome.{Outcome-cases, Exc, error}
use packamal.Table.{save_row, get_row}
use packamal.World.{World}
use packamal.Orm.{Orm}
use packamal.Models.{AnalysisTask, has_status, running, submitted, ReportRow}
use packamal.Api.Callback.{
  Callback, on_task, on_report, already, link_report, no_results_found, without_results,
  save_report_to_database, on_callback_error, latest, no_report, job_completed, completed_by_worker,
  Request, url_of, job_completed_api, task_id_of, internal_server_error, callback_failed,
  package_fits,
}
use packamal.Prelude.{
  ℕ, Bool, ◌≡◌, false, ◌||◌, true, Bool-cases, inr, inl, Option-cases, Text, Option, some, none,
  refl,
}

abbrev pub is_active : AnalysisTask → Bool
is_active task = has_status running task || has_status submitted task

-- The world with the task's report.
abbrev pub saved : AnalysisTask → Text → World → World
saved task report w =
    save_report_to_database task.package_name task.package_version task.ecosystem report w

module _ (env : Callback) (now : ℕ) where
  -- The paths for a task that was found.
  pub data CallbackPath ⦃orm : Orm⦄ (task : AnalysisTask) (w : World) : Type 0 where
    left_alone :
        is_active task ≡ false
        → on_task env now task w ≡ (already task.status, w)
        → CallbackPath task w
    unseen :
        is_active task ≡ true
        → on_task env now task w
          ≡ (no_results_found, record w { tasks = save_row (without_results now task) w.tasks })
        → CallbackPath task w
    broken :
        (e : Exc)
        → is_active task ≡ true
        → on_task env now task w ≡ on_callback_error env now task.id e w
        → CallbackPath task w
    linked :
        (report : Text) (row : ReportRow) (url : Option Text)
        → is_active task ≡ true
        → latest (saved task report w).reports ≡ some row
        → clashes task (some row.id) (saved task report w).tasks ≡ false
        → on_task env now task w ≡ (
          job_completed url row.id,
          record (saved task report w) {
            tasks = save_row (completed_by_worker now row.id url task) (saved task report w).tasks;
          },
        )
        → CallbackPath task w

  module _ ⦃orm : Orm⦄ (task : AnalysisTask) (w : World) where
    pub callback_path : CallbackPath task w
    unfolding on_task on_report link_report
    callback_path = elim (Bool-cases (is_active task)) [
      | inr a ↦ left_alone a (rw (a, on_task))
      | inl a ↦ elim (Option-cases (env.results task.package_name)) [
        | inl r ↦ unseen a (rw (a, on_task) (rw r))
        | inr (results, r) ↦ elim (Outcome-cases (env.generate_report results)) [
          | inr (e, g) ↦ broken e a (rw (a, on_task) (rw r (rw g)))
          | inl (report, g) ↦
              let w' = saved task report w in
              elim (Bool-cases (package_fits task)) [
                | inr p ↦
                    broken (error orm.data_error none) a
                      (rw (a, on_task) (rw r (rw (g, on_report) (rw (p, on_report) refl))))
                | inl p ↦ elim (Option-cases (latest w'.reports)) [
                  | inl l ↦
                      broken no_report a
                        (rw (a, on_task) (rw r (rw (g, on_report) (rw (p, on_report) (rw l)))))
                  | inr (row, l) ↦ elim (Bool-cases (clashes task (some row.id) w'.tasks)) [
                    | inl c ↦ broken (error orm.integrity_error none) a (
                        rw (a, on_task)
                          (rw r
                            (rw (g, on_report) (rw (p, on_report) (rw (l, link_report) (rw c))))))
                    | inr c ↦
                        linked report row
                          (url_of
                            (env.save_professional_report (record task { report = some row.id })))
                          a l c
                          (rw (a, on_task)
                            (rw r
                              (rw (g, on_report) (rw (p, on_report) (rw (l, link_report) (rw c))))))
                  ]
                ]
              ]
        ]
      ]
    ]

  module _ ⦃orm : Orm⦄ (request : Request) (task_id : ℕ) (task : AnalysisTask) (w : World) where
    pub callback_of_task :
        request.is_post ≡ true
        → task_id_of request ≡ some task_id
        → get_row task_id w.tasks ≡ some task
        → job_completed_api env now request w ≡ on_task env now task w
    unfolding job_completed_api
    callback_of_task post named g = rw (post, job_completed_api) (rw named (rw g refl))

    pub on_callback_error_lem :
        (e : Exc)
        → get_row task_id w.tasks ≡ some task
        → on_callback_error env now task.id e w ≡ (
          internal_server_error (message_of e),
          record w { tasks = save_row (callback_failed now e task) w.tasks },
        )
    unfolding on_callback_error
    on_callback_error_lem e g = rw (get_row-own task_id task w.tasks g, on_callback_error) refl
