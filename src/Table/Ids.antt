-- ===== src/Table/Ids.antt =====
-- Ids name rows: what is read back after a save, and tables whose ids are distinct.
use packamal.Prelude.{
  ℕ, ◌≡◌, ◌≢◌, Bool, true, some, List, [], ◌∷◌, arith, refl, ◌==◌, if◌then◌else◌, All, All-map,
  select, Bool-cases, inl, inr, ◌⊎◌, All-select_of, ap, ◌∙◌,
}
use packamal.Models.{AnalysisTask}
use packamal.Table.{get_row, save_row}

pub get_row-id :
    (i : ℕ) (t : AnalysisTask) (ts : List AnalysisTask) → get_row i ts ≡ some t → t.id ≡ i
unfolding get_row
get_row-id i t [] h = absurd (ground arith)
get_row-id i t (r ∷ rs) h = ground (arith, get_row-id i t rs)

pub get_row-own :
    (i : ℕ) (t : AnalysisTask) (ts : List AnalysisTask)
    → get_row i ts ≡ some t
    → get_row t.id ts ≡ some t
get_row-own i t ts h = ap (λ k. get_row k ts) (get_row-id i t ts h) ∙ h

pub get_row-save_row :
    (i : ℕ) (t : AnalysisTask) (ts : List AnalysisTask)
    → get_row i (save_row t ts) ≡ (if t.id == i then some t else get_row i ts)
unfolding get_row save_row
get_row-save_row i t [] = refl
get_row-save_row i t (r ∷ rs) = ground (arith, get_row-save_row i t rs)

pub get_row-save_row_self :
    (i : ℕ) (t : AnalysisTask) (ts : List AnalysisTask)
    → t.id ≡ i
    → get_row i (save_row t ts) ≡ some t
get_row-save_row_self i t ts e = ground (arith, get_row-save_row i t ts)

pub get_row-save_row_ne :
    (i : ℕ) (t : AnalysisTask) (ts : List AnalysisTask)
    → t.id ≢ i
    → get_row i (save_row t ts) ≡ get_row i ts
get_row-save_row_ne i t ts e = ground (arith, get_row-save_row i t ts)

-- Distinct ids, as the primary key of the table enforces.
abbrev pub UniqueIds : List AnalysisTask → Type 0
UniqueIds [] = Unit
UniqueIds (t ∷ ts) = All (λ r. t.id ≢ r.id) ts × UniqueIds ts

-- `t` is a row of the table.
abbrev pub IsRow : AnalysisTask → List AnalysisTask → Type 0
IsRow t [] = ⊥
IsRow t (r ∷ rs) = (r ≡ t) ⊎ IsRow t rs

pub All-at :
    (P : AnalysisTask → Type 0) (t : AnalysisTask) (ts : List AnalysisTask)
    → All P ts
    → IsRow t ts
    → P t
All-at P t [] h m = absurd m
All-at P t (r ∷ rs) h (inl e) = rw (← e) h.0
All-at P t (r ∷ rs) h (inr m) = All-at P t rs h.1 m

pub select-IsRow :
    (p : AnalysisTask → Bool) (t : AnalysisTask) (ts : List AnalysisTask)
    → IsRow t (select p ts)
    → IsRow t ts × (p t ≡ true)
select-IsRow p t [] m = absurd m
select-IsRow p t (r ∷ rs) m = ground (arith, select-IsRow p t rs)

pub save_row-All :
    (P : AnalysisTask → Type 0) (t : AnalysisTask) (ts : List AnalysisTask)
    → P t
    → All P ts
    → All P (save_row t ts)
unfolding save_row
save_row-All P t [] p h = (p, tt)
save_row-All P t (r ∷ rs) p h = elim (Bool-cases (r.id == t.id)) [
  | inl e ↦ rw e (p, h.1)
  | inr e ↦ rw e (h.0, save_row-All P t rs p h.1)
]

pub save_row-UniqueIds :
    (t : AnalysisTask) (ts : List AnalysisTask) → UniqueIds ts → UniqueIds (save_row t ts)
unfolding save_row
save_row-UniqueIds t [] u = (tt, tt)
save_row-UniqueIds t (r ∷ rs) u = elim (Bool-cases (r.id == t.id)) [
  | inl e ↦ rw e (All-map (λ x (h : r.id ≢ x.id). ground arith) rs u.0, u.1)
  | inr e ↦
      rw e (save_row-All (λ x. r.id ≢ x.id) t rs (ground arith) u.0, save_row-UniqueIds t rs u.1)
]

pub select-UniqueIds :
    (p : AnalysisTask → Bool) (ts : List AnalysisTask) → UniqueIds ts → UniqueIds (select p ts)
select-UniqueIds p [] u = tt
select-UniqueIds p (t ∷ ts) u = elim (Bool-cases (p t)) [
  | inl e ↦ rw e (All-select_of (λ r. t.id ≢ r.id) p ts u.0, select-UniqueIds p ts u.1)
  | inr e ↦ rw e (select-UniqueIds p ts u.1)
]

-- Where ids are distinct, a row is found by its id.
pub get_row-of_mem :
    (t : AnalysisTask) (ts : List AnalysisTask)
    → UniqueIds ts
    → IsRow t ts
    → get_row t.id ts ≡ some t
unfolding get_row
get_row-of_mem t [] u m = absurd m
get_row-of_mem t (r ∷ rs) u (inl e) = ground arith
get_row-of_mem t (r ∷ rs) u (inr m) =
    ground (arith, get_row-of_mem t rs u.1 m, All-at (λ x. r.id ≢ x.id) t rs u.0 m)

pub IsRow-of_get_row :
    (i : ℕ) (t : AnalysisTask) (ts : List AnalysisTask) → get_row i ts ≡ some t → IsRow t ts
unfolding get_row
IsRow-of_get_row i t [] h = absurd (ground arith)
IsRow-of_get_row i t (r ∷ rs) h = ground (arith, IsRow-of_get_row i t rs)
