-- ===== src/Examples/Runs.antt =====
-- Runs of `run_dynamic_analysis` and of the periodic tasks.
use packamal.Tasks.Saves.{submitted_task, failed_task}
use packamal.Tasks.Run.Ends.{run-submits, run-unsaved_job, raised_for}
use packamal.Execution.{run_packaml, run_analysis, job_name_of, dashed, job_name}
use packamal.Orm.Insertion.{sort}
use packamal.Models.{queued, running, has_status, AnalysisTask}
use packamal.Tasks.Outcome.{ret, job_submitted, raise, error}
use packamal.Tasks.Run.Single.{run_dynamic_analysis-IsSingle}
use packamal.Tasks.Reuse.{reuse_existing_result}
use packamal.Tasks.Run.{run_dynamic_analysis}
use packamal.Table.{get_row, save_row}
use packamal.World.{World}
use packamal.Tasks.Prepare.Slot.{IsSingle, check_and_prepare_task-start}
use packamal.Tasks.Prepare.{check_and_prepare_task, prepare_found, started}
use packamal.Examples.{sorting, celery_once, env, world, row, in_container}
use packamal.Prelude.{Text, codes, arith, ◌≡◌, ◌∷◌, [], some, count_if, refl, none}

abbrev waiting : World
waiting = world (row 1 queued ∷ in_container 2 ∷ [])

abbrev pub ready : World
ready = world (row 1 queued ∷ row 2 queued ∷ [])

quiet : (w : World) → IsSingle w.tasks → IsSingle (env.meanwhile w).tasks
quiet w s = s

ready-IsSingle : IsSingle ready.tasks
ready-IsSingle = record { unique = ground arith; single = ground arith }

run_dynamic_analysis-IsSingle_example : IsSingle (run_dynamic_analysis env 1 0 40 ready).1.tasks
run_dynamic_analysis-IsSingle_example =
    run_dynamic_analysis-IsSingle env 1 0 40 quiet ready ready-IsSingle

abbrev job : Text
job = codes "analysis-a-0a"

run-submits_example :
    ((run_dynamic_analysis env 1 0 40 ready).0 ≡ ret (some (job_submitted 1 job)))
    × (get_row 1 (run_dynamic_analysis env 1 0 40 ready).1.tasks
        ≡ some (submitted_task job (started 40 (row 1 queued))))
unfolding get_row save_row reuse_existing_result sort run_packaml run_analysis job_name_of dashed
run-submits_example =
    run-submits env 1 0 40 ready (row 1 queued) (started 40 (row 1 queued)) (job_name job) job refl
      refl refl refl refl refl refl (omega arith) (ground arith) refl

abbrev long_named : AnalysisTask
long_named = record (row 1 queued) {
  package_name = codes "a-package-whose-name-is-longer-than-its-job";
}

abbrev long_job : Text
long_job = codes "analysis-a-package-whose-name-is-longer-than-its-job-0a"

run-unsaved_job_example :
    ((run_dynamic_analysis env 1 0 40 (world (long_named ∷ []))).0
      ≡ raise (raised_for env 1 0 40 (world (long_named ∷ [])) (error sorting.data_error none)))
    × (get_row 1 (run_dynamic_analysis env 1 0 40 (world (long_named ∷ []))).1.tasks
        ≡ some (failed_task 40 (error sorting.data_error none) (started 40 long_named)))
unfolding get_row save_row reuse_existing_result sort run_packaml run_analysis job_name_of dashed
run-unsaved_job_example =
    run-unsaved_job env 1 0 40 (world (long_named ∷ [])) long_named (started 40 long_named)
      (job_name long_job) long_job refl refl refl refl refl refl refl (omega arith) (ground arith)
      refl

check_and_prepare_task-start_example :
    (get_row 1 (check_and_prepare_task 1 0 40 ready.tasks).1 ≡ some (started 40 (row 1 queued)))
    × (running ≡ running)
    × (count_if (has_status running) (check_and_prepare_task 1 0 40 ready.tasks).1 ≡ 1)
unfolding check_and_prepare_task prepare_found get_row reuse_existing_result sort
check_and_prepare_task-start_example =
    check_and_prepare_task-start 1 0 40 ready.tasks (started 40 (row 1 queued)) (ground arith) refl
