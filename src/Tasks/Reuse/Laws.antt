-- ===== src/Tasks/Reuse/Laws.antt =====
-- Which row `_reuse_existing_result` returns.
use packamal.Orm.Rows.{first-none, first-IsRow, first-before}
use packamal.Table.Ids.{IsRow}
use packamal.Tasks.Reuse.{latest_completed, has_result, reuse_existing_result, excluded}
use packamal.Orm.{Orm, IsOrder, desc}
use packamal.Models.{AnalysisTask, completed}
use packamal.Prelude.{
  ℕ, Bool, Option, arith, List, select, ◌&&◌, ◌≡◌, not, some, ◌∷◌, is_nonempty, none, true, [],
  head?, refl, false, is_some, text_eq→eq,
}

latest_completed-IsOrder : IsOrder latest_completed
latest_completed-IsOrder = record { total = λ a b. ground arith; trans = λ a b c h k. ground arith }

-- The rows that `_reuse_existing_result` looks among.
abbrev pub reusable : AnalysisTask → Option ℕ → AnalysisTask → Bool
reusable task exclude_task_id t = has_result task.purl t && not (excluded exclude_task_id t)

select-select :
    (p q : AnalysisTask → Bool) (ts : List AnalysisTask)
    → select q (select p ts) ≡ select (λ t. p t && q t) ts
select-select p q [] = refl
select-select p q (t ∷ ts) = ground (arith, select-select p q ts)

module _ ⦃orm : Orm⦄ (task : AnalysisTask) (ex : Option ℕ) (ts : List AnalysisTask) where
  first_of_reuse :
      (found : Option AnalysisTask)
      → reuse_existing_result task ex ts ≡ found
      → is_nonempty task.purl ≡ true
      → head? (orm.order_by latest_completed (select (reusable task ex) ts)) ≡ found
  unfolding reuse_existing_result
  first_of_reuse found h e =
      rw (← select-select (has_result task.purl) (λ t. not (excluded ex t)) ts) (rw e at h)

  nonempty_of_reuse :
      (e : AnalysisTask) → reuse_existing_result task ex ts ≡ some e → is_nonempty task.purl ≡ true
  unfolding reuse_existing_result
  nonempty_of_reuse e h = ground arith

  -- A result that is reused is a row of the table that is completed, has the task's non-empty purl
  -- and a report, and is not the excluded one; no such row was completed later.
  pub reuse_existing_result-some :
      (e : AnalysisTask)
      → reuse_existing_result task ex ts ≡ some e
      → IsRow e ts
        × (e.purl ≡ task.purl)
        × (e.status ≡ completed)
        × (is_some e.report ≡ true)
        × (excluded ex e ≡ false)
        × ((r : AnalysisTask)
            → IsRow r ts
            → reusable task ex r ≡ true
            → desc e.completed_at r.completed_at ≡ true)
  reuse_existing_result-some e h =
      let first = first_of_reuse (some e) h (nonempty_of_reuse e h) in
      let (row, passes) =
        first-IsRow latest_completed latest_completed-IsOrder (reusable task ex) ts e first in
      (
        row,
        ground (arith, text_eq→eq e.purl task.purl),
        ground arith,
        ground arith,
        ground arith,
        first-before latest_completed latest_completed-IsOrder (reusable task ex) ts e first,
      )

  -- Nothing is reused only if the purl is empty or no row of the table is such a result.
  pub reuse_existing_result-none :
      reuse_existing_result task ex ts ≡ none
      → is_nonempty task.purl ≡ true
      → (r : AnalysisTask) → IsRow r ts
      → reusable task ex r ≡ false
  reuse_existing_result-none h e =
      first-none latest_completed (reusable task ex) ts (first_of_reuse none h e)
