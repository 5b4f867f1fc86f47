-- ===== src/Tasks/Prepare/Slot.antt =====
-- At most one task has the status "running" after `_check_and_prepare_task`.
use packamal.Tasks.Reuse.{
  reuse_existing_result, completed_from, mark_task_completed_from_existing, clashes,
}
use packamal.Tasks.Prepare.{started, check_and_prepare_task, pair, prepare_found, Returned, triple}
use packamal.Table.Counts.{indicator, count_if-save_row}
use packamal.Tasks.Outcome.{
  Celery, ret, raise, Outcome, does_not_exist, max_retries, another_task_is_running,
  already_completed, reused_result, error,
}
use packamal.Table.{get_row, exclude, save_row}
use packamal.Table.Ids.{
  UniqueIds, save_row-UniqueIds, get_row-id, get_row-own, get_row-save_row_self,
}
use packamal.Prelude.{
  Bool, List, ℕ, count_if, ◌≡◌, any_of, some, ◌≤◌, false, All, ◌≢◌, arith, ◌∷◌, Bool-cases, [],
  ◌==◌, refl, inl, ==_iff, inr, Option-cases, none, ap, sym, ◌∙◌, true,
}
use packamal.Orm.{Orm}
use packamal.Models.{AnalysisTask, running, has_status, completed}

-- Distinct ids, and at most one running task.
pub record IsSingle (ts : List AnalysisTask) : Type 0 where
  pub unique : UniqueIds ts
  pub single : count_if (has_status running) ts ≤ 1

module _ (p : AnalysisTask → Bool) where
  none_of_avoiding :
      (i : ℕ) (ts : List AnalysisTask)
      → any_of p (exclude i ts) ≡ false
      → All (λ r. i ≢ r.id) ts
      → count_if p ts ≡ 0
  none_of_avoiding i [] h a = refl
  none_of_avoiding i (t ∷ ts) h a = ground (arith, none_of_avoiding i ts, a.0)

  -- If no other row passes the test, only the row with the id can.
  pub count_if-exclude :
      (i : ℕ) (t : AnalysisTask) (ts : List AnalysisTask)
      → UniqueIds ts
      → any_of p (exclude i ts) ≡ false
      → get_row i ts ≡ some t
      → count_if p ts ≡ indicator (p t)
  unfolding get_row
  count_if-exclude i t [] u h g = absurd (ground arith)
  count_if-exclude i t (r ∷ rs) u h g = elim (Bool-cases (r.id == i)) [
    | inl e ↦
        let same = (==_iff r.id i).0 e in
        ground (arith, none_of_avoiding r.id rs (ground arith) u.0)
    | inr e ↦ ground (arith, count_if-exclude i t rs u.1)
  ]

-- A save that does not make a second task run.
pub save_row-IsSingle :
    (t old : AnalysisTask) (ts : List AnalysisTask)
    → get_row t.id ts ≡ some old
    → has_status running t ≡ false
    → IsSingle ts
    → IsSingle (save_row t ts)
save_row-IsSingle t old ts g h s = record {
  unique = save_row-UniqueIds t ts s.unique;
  single = ground (arith, count_if-save_row (has_status running) t old ts g);
}

marked :
    (now : ℕ) (task existing : AnalysisTask) (ts ts' : List AnalysisTask)
    → mark_task_completed_from_existing now task existing ts ≡ some ts'
    → ts' ≡ save_row (completed_from now task existing) ts
unfolding mark_task_completed_from_existing
marked now task existing ts ts' m = elim (Bool-cases (clashes task existing.report ts)) [
  | inl e ↦ absurd (ground arith)
  | inr e ↦ ground arith
]

marked-clashes :
    (now : ℕ) (task existing : AnalysisTask) (ts ts' : List AnalysisTask)
    → mark_task_completed_from_existing now task existing ts ≡ some ts'
    → clashes task existing.report ts ≡ false
unfolding mark_task_completed_from_existing
marked-clashes now task existing ts ts' m = ground arith

module _ ⦃orm : Orm⦄ ⦃celery : Celery⦄ (task_id retries now : ℕ) where
  start-IsSingle :
      (task : AnalysisTask) (ts : List AnalysisTask)
      → get_row task_id ts ≡ some task
      → any_of (has_status running) (exclude task_id ts) ≡ false
      → IsSingle ts
      → IsSingle (save_row (started now task) ts)
  start-IsSingle task ts g h s = record {
    unique = save_row-UniqueIds (started now task) ts s.unique;
    single = ground (
      arith,
      count_if-exclude (has_status running) task_id task ts s.unique h g,
      count_if-save_row (has_status running) (started now task) task ts
          (get_row-own task_id task ts g),
    );
  }

  abbrev pub check : List AnalysisTask → Outcome Returned × List AnalysisTask
  check = check_and_prepare_task task_id retries now

  -- The paths of the function.
  pub data PreparePath (ts : List AnalysisTask) : Type 0 where
    absent : get_row task_id ts ≡ none → check ts ≡ (raise does_not_exist, ts) → PreparePath ts
    busy :
        check ts ≡ (raise (celery.raised retries max_retries another_task_is_running), ts)
        → PreparePath ts
    done : check ts ≡ (ret (triple none false (already_completed task_id)), ts) → PreparePath ts
    old :
        (task existing : AnalysisTask)
        → get_row task_id ts ≡ some task
        → clashes task existing.report ts ≡ false
        → check ts ≡ (
          ret (pair none (some (reused_result task_id))),
          save_row (completed_from now task existing) ts,
        )
        → PreparePath ts
    not_unique : check ts ≡ (raise (error orm.integrity_error none), ts) → PreparePath ts
    new :
        (task : AnalysisTask)
        → get_row task_id ts ≡ some task
        → any_of (has_status running) (exclude task_id ts) ≡ false
        → check ts ≡ (ret (pair (some (started now task)) none), save_row (started now task) ts)
        → PreparePath ts

  pub prepare_path : (ts : List AnalysisTask) → PreparePath ts
  unfolding check_and_prepare_task
  prepare_path ts = elim (Option-cases (get_row task_id ts)) [
    | inl e ↦ absent e (rw (e, check_and_prepare_task))
    | inr (task, e) ↦ elim (Bool-cases (any_of (has_status running) (exclude task_id ts))) [
      | inl b ↦ busy (rw (e, check_and_prepare_task) (rw (b, prepare_found)))
      | inr b ↦ elim (Bool-cases (has_status completed task)) [
        | inl c ↦ done (rw (e, check_and_prepare_task) (rw (b, prepare_found) (rw c)))
        | inr c ↦ elim (Option-cases (reuse_existing_result task (some task_id) ts)) [
          | inl r ↦
              new task e b (rw (e, check_and_prepare_task) (rw (b, prepare_found) (rw c (rw r))))
          | inr (existing, r) ↦
              elim (Option-cases (mark_task_completed_from_existing now task existing ts)) [
                | inl m ↦
                    not_unique
                      (rw (e, check_and_prepare_task) (rw (b, prepare_found) (rw c (rw r (rw m)))))
                | inr (ts', m) ↦ old task existing e (marked-clashes now task existing ts ts' m) (
                    rw (e, check_and_prepare_task) (rw (b, prepare_found) (rw c (rw r (rw m))))
                    ∙ ap (λ x. (ret (pair none (some (reused_result task_id))), x))
                        (marked now task existing ts ts' m))
              ]
        ]
      ]
    ]
  ]

  -- Whatever it returns or raises, distinct ids stay distinct and at most one task is running.
  pub check_and_prepare_task-IsSingle :
      (ts : List AnalysisTask) → IsSingle ts → IsSingle (check ts).1
  check_and_prepare_task-IsSingle ts s = elim (prepare_path ts) [
    | absent _ e ↦ rw e s
    | busy e ↦ rw e s
    | done e ↦ rw e s
    | not_unique e ↦ rw e s
    | old task existing g c e ↦ rw e (
        save_row-IsSingle (completed_from now task existing) task ts (get_row-own task_id task ts g)
          refl s)
    | new task g free e ↦ rw e (start-IsSingle task ts g free s)
  ]

  -- In a table with distinct ids, a task is handed out only if it is in the table and no other
  -- task is running; then it is the only running task, and its row says so.
  pub check_and_prepare_task-start :
      (ts : List AnalysisTask) (task : AnalysisTask)
      → UniqueIds ts
      → (check ts).0 ≡ ret (pair (some task) none)
      → (get_row task_id (check ts).1 ≡ some task)
        × (task.status ≡ running)
        × (count_if (has_status running) (check ts).1 ≡ 1)
  check_and_prepare_task-start ts task u h = elim (prepare_path ts) [
    | absent _ e ↦ absurd (cc)
    | busy e ↦ absurd (cc)
    | done e ↦ absurd (cc)
    | not_unique e ↦ absurd (cc)
    | old row existing g c e ↦ absurd (cc)
    | new row g free e ↦
        let same : started now row ≡ task = cc in
        rw e (
          get_row-save_row_self task_id (started now row) ts (get_row-id task_id row ts g)
              ∙ ap some same,
          ap (λ t. t.status) (sym same),
          ground (
            arith,
            count_if-exclude (has_status running) task_id row ts u free g,
            count_if-save_row (has_status running) (started now row) row ts
                (get_row-own task_id row ts g),
          ),
        )
  ]

  -- The paths on which the task cannot start.
  pub check-busy :
      (ts : List AnalysisTask) (task : AnalysisTask)
      → get_row task_id ts ≡ some task
      → any_of (has_status running) (exclude task_id ts) ≡ true
      → check ts ≡ (raise (celery.raised retries max_retries another_task_is_running), ts)
  unfolding check_and_prepare_task
  check-busy ts task g b = rw (g, check_and_prepare_task) (rw (b, prepare_found))

  pub check-completed :
      (ts : List AnalysisTask) (task : AnalysisTask)
      → get_row task_id ts ≡ some task
      → any_of (has_status running) (exclude task_id ts) ≡ false
      → has_status completed task ≡ true
      → check ts ≡ (ret (triple none false (already_completed task_id)), ts)
  unfolding check_and_prepare_task
  check-completed ts task g b c = rw (g, check_and_prepare_task) (rw (b, prepare_found) (rw c))

  pub check-new :
      (ts : List AnalysisTask) (task : AnalysisTask)
      → get_row task_id ts ≡ some task
      → any_of (has_status running) (exclude task_id ts) ≡ false
      → has_status completed task ≡ false
      → reuse_existing_result task (some task_id) ts ≡ none
      → check ts ≡ (ret (pair (some (started now task)) none), save_row (started now task) ts)
  unfolding check_and_prepare_task
  check-new ts task g b c r = rw (g, check_and_prepare_task) (rw (b, prepare_found) (rw c (rw r)))
