-- ===== src/Table.antt =====
-- The `AnalysisTask` table as the list of its rows in the order of their ids, with what the
-- program does to it through `AnalysisTask.objects` and `task.save()`.
pub mod Counts
pub mod Ids
pub mod Links
use packamal.Prelude.{ℕ, Bool, not, Option, none, some, List, [], ◌∷◌, ◌==◌, if◌then◌else◌, select}
use packamal.Models.{AnalysisTask}

-- `AnalysisTask.objects.get(id=i)`; `none` is `DoesNotExist`.
unfoldable pub get_row : ℕ → List AnalysisTask → Option AnalysisTask
get_row i [] = none
get_row i (t ∷ ts) = if t.id == i then some t else get_row i ts

-- `task.save()`: an UPDATE of the row with the task's id, an INSERT if there is none.
unfoldable pub save_row : AnalysisTask → List AnalysisTask → List AnalysisTask
save_row t [] = t ∷ []
save_row t (r ∷ rs) = if r.id == t.id then t ∷ rs else r ∷ save_row t rs

-- `.exclude(id=i)`
abbrev pub exclude : ℕ → List AnalysisTask → List AnalysisTask
exclude i = select (λ t. not (t.id == i))
