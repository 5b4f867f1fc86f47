-- ===== src/Api/Status/Counts.antt =====
-- The timeouts that are shown, and those that `check_timeouts` handles.
use packamal.Tasks.Timeouts.Laws.{on_timed_out-some}
use packamal.World.{World}
use packamal.Models.{AnalysisTask, is_timed_out, has_status, running}
use packamal.Orm.{Orm}
use packamal.Prelude.{
  ℕ, List, Text, count_if, map, Bool, ◌≡◌, length, some, ◌≤◌, select, eq_of_some, ◌∷◌, Option-cases,
  arith, inl, [], inr, refl, ◌∙◌, length-select, count_if-le,
}
use packamal.Containers.{Shell}
use packamal.Api.Status.{build_timeout_status, TimeoutInfo, build_timeout_info_for_task}
use packamal.Tasks.Timeouts.{
  check_timeouts, on_timed_out, timed_out_tasks, handle_timed_out_tasks, Docker,
}

module _ (shell : Shell) (now : ℕ) where
  count-infos :
      (ts : List AnalysisTask)
      → count_if
          (λ (t : TimeoutInfo). t.has_timed_out)
          (map (build_timeout_info_for_task shell now) ts)
        ≡ length (select (λ t. is_timed_out t now) ts)
  unfolding build_timeout_info_for_task
  count-infos [] = refl
  count-infos (t ∷ ts) = ground (arith, count-infos ts)

  -- If `check_timeouts` returns a number, then `_build_timeout_status` showed, for the same time and
  -- tables, this number of timed out tasks, at most as many as are running.
  pub check_timeouts-build_timeout_status :
      ⦃orm : Orm⦄ (docker : Docker) (decimal : ℕ → Text) (accepts : ℕ → Bool) (w : World) (n : ℕ)
      → (check_timeouts docker decimal accepts now w).0 ≡ some n
      → ((build_timeout_status shell now w.tasks).timed_out ≡ n)
        × (n ≤ (build_timeout_status shell now w.tasks).running_tasks)
  unfolding build_timeout_status check_timeouts
  check_timeouts-build_timeout_status docker decimal accepts w n h =
      let late = select (has_status running) w.tasks in
      let shown = count-infos late in
      let same = returned_count (timed_out_tasks now w.tasks) h in
      (
        shown ∙ same,
        omega (
          arith,
          same,
          length-select (λ t. is_timed_out t now) late,
          count_if-le (λ t. is_timed_out t now) late,
        ),
      )
    where
      returned_count :
          (rows : List AnalysisTask)
          → (on_timed_out docker decimal accepts now rows w).0 ≡ some n
          → length rows ≡ n
      returned_count [] k = eq_of_some (unfold on_timed_out in k)
      returned_count (r ∷ rows) k =
          elim (Option-cases (handle_timed_out_tasks docker decimal now (r ∷ rows) w.tasks)) [
            | inl e ↦ absurd (ground arith)
            | inr (ts, e) ↦
                eq_of_some (rw (on_timed_out-some docker decimal now accepts r rows w ts e) at k)
          ]
