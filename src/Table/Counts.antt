-- ===== src/Table/Counts.antt =====
-- How many rows satisfy a test, before and after a row is saved.
use packamal.Prelude.{
  ℕ, ◌+◌, ◌≡◌, Bool, none, some, List, [], ◌∷◌, arith, if◌then◌else◌, count_if, All, ◌<◌, ◌++◌,
}
use packamal.Models.{AnalysisTask}
use packamal.Table.{get_row, save_row, exclude}

abbrev pub indicator : Bool → ℕ
indicator b = if b then 1 else 0

module _ (p : AnalysisTask → Bool) where
  -- The saved row takes the place of the one that was found.
  pub count_if-save_row :
      (t old : AnalysisTask) (ts : List AnalysisTask)
      → get_row t.id ts ≡ some old
      → count_if p (save_row t ts) + indicator (p old) ≡ count_if p ts + indicator (p t)
  unfolding get_row save_row
  count_if-save_row t old [] h = absurd (ground arith)
  count_if-save_row t old (r ∷ rs) h = ground (arith, count_if-save_row t old rs)

  pub count_if-save_row_new :
      (t : AnalysisTask) (ts : List AnalysisTask)
      → get_row t.id ts ≡ none
      → count_if p (save_row t ts) ≡ count_if p ts + indicator (p t)
  unfolding get_row save_row
  count_if-save_row_new t [] h = ground arith
  count_if-save_row_new t (r ∷ rs) h = ground (arith, count_if-save_row_new t rs)

-- A save of the row that was appended last, and the count of the others.
pub save_row-append :
    (t t' : AnalysisTask) (ts : List AnalysisTask)
    → t.id ≡ t'.id
    → All (λ r. r.id < t.id) ts
    → save_row t' (ts ++ (t ∷ [])) ≡ ts ++ (t' ∷ [])
unfolding save_row
save_row-append t t' [] e h = ground arith
save_row-append t t' (r ∷ rs) e h = ground (arith, save_row-append t t' rs e h.1)

pub count_if-exclude_new :
    (p : AnalysisTask → Bool) (t : AnalysisTask) (ts : List AnalysisTask)
    → All (λ r. r.id < t.id) ts
    → count_if p (exclude t.id (ts ++ (t ∷ []))) ≡ count_if p ts
count_if-exclude_new p t [] h = ground arith
count_if-exclude_new p t (r ∷ rs) h = ground (arith, count_if-exclude_new p t rs h.1)
