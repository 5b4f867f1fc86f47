-- ===== src/Orm.antt =====
-- What the program relies on of Django's query sets and does not implement: `.order_by(...)`.
-- The rows come rearranged, in the asked order; rows that the order does not separate may come in
-- any order.
pub mod Insertion
pub mod Rows
use mathlib.Core.List.{Permᴰ}
use packamal.Prelude.{
  Bool, true, false, ◌≡◌, ◌||◌, List, [], ◌∷◌, All, Option, none, some, leb, ℕ, ◌⊎◌, Text,
}
use packamal.Models.{AnalysisTask}

-- `before a b`: the query may return `a` before `b`.
abbrev pub Order : Type 0
Order = AnalysisTask → AnalysisTask → Bool

pub record IsOrder (before : Order) : Type 0 where
  pub total : (a b : AnalysisTask) → (before a b ≡ true) ⊎ (before b a ≡ true)
  pub trans : (a b c : AnalysisTask) → before a b ≡ true → before b c ≡ true → before a c ≡ true

abbrev pub IsSorted : Order → List AnalysisTask → Type 0
IsSorted before [] = Unit
IsSorted before (t ∷ ts) = All (λ r. before t r ≡ true) ts × IsSorted before ts

pub record Orm : Type 0 where
  -- `str(error)` of the `IntegrityError` of a unique column
  pub integrity_error : Text
  -- `str(error)` of the `DataError` of a text that is too long for its column
  pub data_error : Text
  pub order_by : Order → List AnalysisTask → List AnalysisTask
  pub order_by-perm : (before : Order) (ts : List AnalysisTask) → Permᴰ (order_by before ts) ts
  pub order_by-IsSorted :
      (before : Order)
      → IsOrder before
      → (ts : List AnalysisTask) → IsSorted before (order_by before ts)

-- Ascending, with NULL last, as PostgreSQL orders.
abbrev pub asc : Option ℕ → Option ℕ → Bool
asc none none = true
asc none (some y) = false
asc (some x) none = true
asc (some x) (some y) = leb x y

-- Descending, with NULL first.
abbrev pub desc : Option ℕ → Option ℕ → Bool
desc x y = asc y x
