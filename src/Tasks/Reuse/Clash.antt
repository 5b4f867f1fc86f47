-- ===== src/Tasks/Reuse/Clash.antt =====
-- A result that is found for reuse has a report that another row holds: `report` is a
-- `OneToOneField`.
use packamal.Table.Links.{any_of-exclude}
use packamal.Tasks.Reuse.Laws.{reuse_existing_result-some}
use packamal.Tasks.Reuse.{
  mark_task_completed_from_existing, clashes, reuse_existing_result, same_report, excluded,
}
use packamal.Orm.{Orm}
use packamal.Models.{AnalysisTask}
use packamal.Prelude.{
  ℕ, Option, is_some, List, ◌<◌, ◌≡◌, true, ◌≢◌, some, none, arith, false, suc, zero,
}

same_report_self : (r : Option ℕ) → is_some r ≡ true → same_report r r ≡ true
same_report_self none h = absurd (ground arith)
same_report_self (some x) h = ground arith

-- The id of the task is not zero, as `excluded` reads it.
pub reuse_existing_result-clashes :
    ⦃orm : Orm⦄ (task e : AnalysisTask) (ts : List AnalysisTask)
    → 0 < task.id
    → reuse_existing_result task (some task.id) ts ≡ some e
    → clashes task e.report ts ≡ true
reuse_existing_result-clashes task e ts pos h =
    let (row, purl, done, has, other, last) =
      reuse_existing_result-some task (some task.id) ts e h in
    any_of-exclude (λ t. same_report e.report t.report) task.id e ts row
      (λ same. differs task.id e pos other same) (same_report_self e.report has)
  where
    differs : (i : ℕ) (e : AnalysisTask) → 0 < i → excluded (some i) e ≡ false → e.id ≢ i
    differs zero e p x = absurd (ground arith)
    differs (suc n) e p x = λ same. ground arith

pub mark-clashes :
    (now : ℕ) (task e : AnalysisTask) (ts : List AnalysisTask)
    → clashes task e.report ts ≡ true
    → mark_task_completed_from_existing now task e ts ≡ none
unfolding mark_task_completed_from_existing
mark-clashes now task e ts h = ground arith
