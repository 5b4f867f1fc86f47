-- ===== src/World.antt =====
-- The state that the program's handlers share: the tables and what has been sent to Celery.
use packamal.Prelude.{ℕ, List}
use packamal.Models.{AnalysisTask, ReportRow}

pub record World : Type 0 where
  -- `AnalysisTask.objects`, and the id that the next INSERT of a task gets
  pub tasks : List AnalysisTask
  pub next_id : ℕ
  -- `ReportDynamicAnalysis.objects`
  pub reports : List ReportRow
  -- the id that the next INSERT of a report gets
  pub next_report_id : ℕ
  -- the ids that `run_dynamic_analysis.apply_async` has sent to the queue "analysis", with their
  -- priorities, the last one first
  pub published : List (ℕ × ℕ)
