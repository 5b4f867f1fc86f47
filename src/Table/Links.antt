-- ===== src/Table/Links.antt =====
-- Tests on tables, and tables that differ in the places in the queue alone.
use packamal.Table.{exclude}
use packamal.Table.Ids.{IsRow}
use packamal.Models.{AnalysisTask}
use packamal.Prelude.{
  ℕ, Bool, List, count_if, ◌≢◌, select, ◌≤◌, ◌≡◌, true, arith, ◌∷◌, any_of, [], inl, inr, All, refl,
}

pub any_of-exclude :
    (p : AnalysisTask → Bool) (i : ℕ) (s : AnalysisTask) (ts : List AnalysisTask)
    → IsRow s ts
    → s.id ≢ i
    → p s ≡ true
    → any_of p (exclude i ts) ≡ true
any_of-exclude p i s [] m other h = absurd m
any_of-exclude p i s (r ∷ rs) (inl e) other h = rw e (ground arith)
any_of-exclude p i s (r ∷ rs) (inr m) other h = ground (arith, any_of-exclude p i s rs m other h)

pub count_if-select :
    (p q : AnalysisTask → Bool) (ts : List AnalysisTask) → count_if p (select q ts) ≤ count_if p ts
count_if-select p q [] = omega arith
count_if-select p q (t ∷ ts) = ground (arith, count_if-select p q ts)

pub All-of_IsRow :
    (P : AnalysisTask → Type 0) (ts : List AnalysisTask)
    → ((r : AnalysisTask) → IsRow r ts → P r)
    → All P ts
All-of_IsRow P [] h = tt
All-of_IsRow P (t ∷ ts) h = (h t (inl refl), All-of_IsRow P ts (λ r m. h r (inr m)))
