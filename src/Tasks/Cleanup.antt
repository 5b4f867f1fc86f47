-- ===== src/Tasks/Cleanup.antt =====
-- `cleanup_old_tasks`.
pub mod Laws
use packamal.Prelude.{
  ℕ, Bool, ◌*◌, List, ◌&&◌, count_if, ◌-◌, ◌+◌, select, not, none, false, some, ltb,
}
use packamal.Models.{AnalysisTask, Status, completed, failed, has_status, minute}

-- `timedelta(days=TASK_CLEANUP_DAYS)`
abbrev pub retention : ℕ
retention = 7 * 24 * 60 * minute

-- `completed_at__lt=cutoff`; NULL is not less.
abbrev pub older : ℕ → AnalysisTask → Bool
older cutoff t = elim t.completed_at [ none ↦ false | some at ↦ ltb at cutoff ]

abbrev pub doomed : Status → ℕ → AnalysisTask → Bool
doomed s cutoff t = has_status s t && older cutoff t

-- `.filter(status=s, completed_at__lt=cutoff).delete()[0]`: the number of deleted rows, and the
-- rest.
unfoldable pub delete_old : Status → ℕ → List AnalysisTask → ℕ × List AnalysisTask
delete_old s cutoff ts = (count_if (doomed s cutoff) ts, select (λ t. not (doomed s cutoff t)) ts)

pub record Deleted : Type 0 where
  pub deleted_completed : ℕ
  pub deleted_failed : ℕ
  pub total : ℕ

unfoldable pub cleanup_old_tasks : ℕ → List AnalysisTask → Deleted × List AnalysisTask
unfolding delete_old
cleanup_old_tasks now ts =
    let (deleted_completed, ts') = delete_old completed (now - retention) ts in
    let (deleted_failed, ts'') = delete_old failed (now - retention) ts' in
    (
      record {
        deleted_completed = deleted_completed;
        deleted_failed = deleted_failed;
        total = deleted_completed + deleted_failed;
      },
      ts'',
    )
