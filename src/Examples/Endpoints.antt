-- ===== src/Examples/Endpoints.antt =====
-- Runs of the endpoints on small tables.
use packamal.Api.Callback.Link.{known, max_id, job_completed-link}
use packamal.Purl.{
  validate_purl_format, extract_package_info, parse_purl, parse_parts, parse_rest, take_qualifiers,
  take_version, take_namespace, build, supported, info_of, maven_name,
}
use packamal.Orm.Insertion.{sort}
use packamal.Tasks.Reuse.{has_result, clashes}
use packamal.Table.Ids.{IsRow}
use packamal.Api.Callback.Ends.{job_completed_api-twice, job_completed_api-settles}
use packamal.Api.Analyze.Laws.{analyze_api-again, analyze_api-queued}
use packamal.Api.Analyze.Paths.{purl_of, is_new}
use packamal.Table.{get_row, save_row}
use packamal.Models.{
  AnalysisTask, Status, submitted, completed, queued, failed, ReportRow, running, has_status,
}
use packamal.Tasks.Outcome.{ret}
use packamal.World.{World}
use packamal.Api.Listing.{ListRequest, item_of, clamped}
use packamal.Api.Analyze.{
  AnalyzeRequest, Services, analyze_api, on_purl, on_package, after_completed, after_active,
  create_and_queue, is_active_for, queued_at_position, race_window,
}
use packamal.Api.Listing.Pages.{first_pages, rows, list_tasks_api-pages}
use packamal.Api.Callback.{
  Request, on_task, Callback, task_id_of, on_report, link_report, job_completed_api, already,
  save_report_to_database, put_report, latest, completed_by_worker,
}
use packamal.Examples.{sorting, world, row}
use packamal.Prelude.{
  ℕ, Text, some, ◌≡◌, true, codes, none, map, arith, [], ◌∷◌, is_some, take, ◌*◌, refl, ◌⊎◌, false,
  All, ◌<◌, ◌≢◌, inl, inr, count_if, ◌+◌, ◌-◌,
}

abbrev callback : Callback
callback = record {
  results = λ name. some (codes "r");
  generate_report = λ results. ret results;
  save_professional_report = λ task. ret (codes "u");
}

abbrev posted : Request
posted = record { is_post = true; json = some 1; form = none }

abbrev pub submitted_world : World
submitted_world = world (row 1 submitted ∷ [])

job_completed_api-settles_example :
    (r : AnalysisTask) × (get_row 1 (job_completed_api callback 50 posted submitted_world).1.tasks
      ≡ some r)
    × (((r.status ≡ completed) × (is_some r.report ≡ true)) ⊎ (r.status ≡ failed))
unfolding task_id_of get_row
job_completed_api-settles_example =
    job_completed_api-settles callback 50 posted 1 (row 1 submitted) submitted_world refl refl refl
      refl

job_completed_api-twice_example :
    (status : Status) × (job_completed_api callback 60 posted
        (job_completed_api callback 50 posted submitted_world).1
      ≡ (already status, (job_completed_api callback 50 posted submitted_world).1))
unfolding task_id_of get_row
job_completed_api-twice_example =
    job_completed_api-twice callback 50 posted 1 (row 1 submitted) submitted_world refl refl refl
      callback 60

abbrev first_id : ℕ
first_id = 1

abbrev report_id : ℕ
report_id = 9

abbrev linked_task : AnalysisTask
linked_task = completed_by_worker 50 report_id (some (codes "u")) (row 1 submitted)

job_completed-link_example :
    (get_row 1 (on_task callback 50 (row 1 submitted) submitted_world).1.tasks ≡ some linked_task)
    × (linked_task.report ≡ some report_id)
    × (linked_task.status ≡ completed)
    × ((j : ℕ)
        → j ≢ 1
        → get_row j (on_task callback 50 (row 1 submitted) submitted_world).1.tasks
          ≡ get_row j submitted_world.tasks)
    × (clashes (row 1 submitted) (some report_id) submitted_world.tasks ≡ false)
    × (known callback 50 (row 1 submitted) submitted_world ≡ false
        → All (λ (q : ReportRow). q.id < 9) []
        → report_id ≡ 9)
    × (known callback 50 (row 1 submitted) submitted_world ≡ true → max_id [] ≡ some report_id)
unfolding on_task on_report link_report save_report_to_database put_report latest
job_completed-link_example =
    job_completed-link callback 50 (row 1 submitted) submitted_world (some (codes "u")) report_id
      refl

abbrev pub services : Services
services = record {
  unquote = λ s. s;
  save_professional_report = λ task. ret (codes "u");
  broker = λ i. none;
  meanwhile = λ w. w;
  decode_error = [];
}

abbrev pub asked : AnalyzeRequest
asked = record { is_post = true; body = some (some (codes "pkg:gem/a"), 0); api_key = 1 }

asked_once : (analyze_api services 50 asked submitted_world).0 ≡ queued_at_position 9 1
unfolding analyze_api on_purl on_package after_completed after_active create_and_queue sort save_row
    validate_purl_format extract_package_info parse_purl parse_parts parse_rest take_qualifiers
    take_version take_namespace build supported info_of maven_name
asked_once = refl

abbrev busy : AnalysisTask
busy = record (row 1 running) { purl = codes "pkg:gem/a" }

analyze_api-again_example :
    ((analyze_api services 60 asked (world (busy ∷ []))).1 ≡ world (busy ∷ []))
    × (is_new (analyze_api services 60 asked (world (busy ∷ []))).0 ≡ false)
analyze_api-again_example =
    analyze_api-again services 60 asked (world (busy ∷ [])) (codes "pkg:gem/a") 0 busy refl
      (inl refl) refl (inr (inr refl)) (omega arith)

analyze_api-queued_example :
    (purl : Text) × (priority : ℕ) × (r : AnalysisTask) × (purl_of asked ≡ some (purl, priority))
    × (1 ≡ count_if (has_status queued) submitted_world.tasks + 1)
    × (get_row 9 (analyze_api services 50 asked submitted_world).1.tasks ≡ some r)
    × ((r.status ≡ queued) × (r.purl ≡ purl) × (r.queue_position ≡ some 1))
    × ((j : ℕ) (q : AnalysisTask)
        → get_row j submitted_world.tasks ≡ some q
        → get_row j (analyze_api services 50 asked submitted_world).1.tasks ≡ some q)
    × ((analyze_api services 50 asked submitted_world).1.published ≡ (9, priority) ∷ [])
    × ((q : AnalysisTask)
        → IsRow q submitted_world.tasks
        → (has_result purl q ≡ false) × (is_active_for purl 50 q ≡ false))
    × ((q : AnalysisTask)
        → IsRow q submitted_world.tasks
        → is_active_for purl 50 q ≡ true
        → q.created_at < 50 - race_window)
analyze_api-queued_example =
    analyze_api-queued services 50 asked submitted_world 9 1 (ground arith) asked_once

abbrev listing : ListRequest
listing = record { is_get = true; page = none; page_size = some 2; status = none; api_key = 1 }

list_tasks_api-pages_example :
    first_pages listing submitted_world.tasks 1
    ≡ map item_of (take (1 * clamped 2) (rows listing submitted_world.tasks))
list_tasks_api-pages_example = list_tasks_api-pages listing submitted_world.tasks 1 2 refl refl
