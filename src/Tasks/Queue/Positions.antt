-- ===== src/Tasks/Queue/Positions.antt =====
-- `_update_queue_positions` numbers the queue 1, 2, 3, ... in its order and changes nothing else.
use packamal.Prelude.{
  ℕ, ◌+◌, ◌≡◌, refl, ap, ◌∙◌, none, some, List, [], ◌∷◌, map, arith, All, inl, inr, ◌==◌,
  Bool-cases, subst, sym, eq_of_some, ==-self, count_if, ◌≢◌, false, true,
}
use packamal.Models.{AnalysisTask, Status, queued, has_status}
use packamal.Table.{get_row, save_row}
use packamal.Table.Ids.{IsRow, UniqueIds, get_row-of_mem, save_row-UniqueIds, get_row-save_row}
use packamal.Orm.{Orm}
use packamal.Orm.Rows.{query-IsRow, query-UniqueIds}
use packamal.Tasks.Queue.{queue_order, queue, renumber, update_queue_positions}

-- A row without its place in the queue.
abbrev pub unplaced : AnalysisTask → AnalysisTask
unplaced t = record t { queue_position = none }

map-save_row :
    (t old : AnalysisTask) (ts : List AnalysisTask)
    → get_row t.id ts ≡ some old
    → unplaced old ≡ unplaced t
    → map unplaced (save_row t ts) ≡ map unplaced ts
unfolding get_row save_row
map-save_row t old [] h e = absurd (ground arith)
map-save_row t old (r ∷ rs) h e = elim (Bool-cases (r.id == t.id)) [
  | inl same ↦ rw same (ap (λ x. x ∷ map unplaced rs) (ground arith))
  | inr other ↦ rw other (ap (λ xs. unplaced r ∷ xs) (map-save_row t old rs (rw other at h) e))
]

pub get_row-unplaced :
    (i : ℕ) (t : AnalysisTask) (ts : List AnalysisTask)
    → get_row i (map unplaced ts) ≡ some (unplaced t)
    → (old : AnalysisTask) × (get_row i ts ≡ some old) × (unplaced old ≡ unplaced t)
unfolding get_row
get_row-unplaced i t [] h = absurd (ground arith)
get_row-unplaced i t (r ∷ rs) h = elim (Bool-cases (r.id == i)) [
  | inl e ↦ (r, rw e, eq_of_some (rw e at h))
  | inr e ↦ let (old, found, same) = get_row-unplaced i t rs (rw e at h) in (old, rw e found, same)
]

pub unplaced-get_row :
    (i : ℕ) (t : AnalysisTask) (ts : List AnalysisTask)
    → get_row i ts ≡ some t
    → get_row i (map unplaced ts) ≡ some (unplaced t)
unfolding get_row
unplaced-get_row i t [] h = absurd (ground arith)
unplaced-get_row i t (r ∷ rs) h = elim (Bool-cases (r.id == i)) [
  | inl e ↦ rw e (ap (λ x. some (unplaced x)) (eq_of_some (rw e at h)))
  | inr e ↦ rw e (unplaced-get_row i t rs (rw e at h))
]

-- Each row of the snapshot is in the table, up to its place in the queue.
abbrev Stands : List AnalysisTask → AnalysisTask → Type 0
Stands ts t = get_row t.id (map unplaced ts) ≡ some (unplaced t)

renumber-unplaced :
    (index : ℕ) (rows ts : List AnalysisTask)
    → All (Stands ts) rows
    → map unplaced (renumber index rows ts) ≡ map unplaced ts
unfolding renumber
renumber-unplaced index [] ts h = refl
renumber-unplaced index (t ∷ rows) ts h =
    let placed = record t { queue_position = some index } in
    let (old, found, same) = get_row-unplaced t.id t ts h.0 in
    let step = map-save_row placed old ts found same in
    renumber-unplaced (index + 1) rows (save_row placed ts)
      (subst (λ l. All (λ r. get_row r.id l ≡ some (unplaced r)) rows) (sym step) h.1)
    ∙ step

-- The rows of the queue are in the table.
rows-Stand :
    (rows ts : List AnalysisTask)
    → UniqueIds ts
    → ((t : AnalysisTask) → IsRow t rows → IsRow t ts)
    → All (Stands ts) rows
rows-Stand [] ts u h = tt
rows-Stand (t ∷ rows) ts u h = (
  unplaced-get_row t.id t ts (get_row-of_mem t ts u (h t (inl refl))),
  rows-Stand rows ts u (λ r m. h r (inr m)),
)

module _ ⦃orm : Orm⦄ where
  -- Apart from `queue_position`, no row changes, no row is added and none is removed.
  pub update_queue_positions-unplaced :
      (ts : List AnalysisTask)
      → UniqueIds ts
      → map unplaced (update_queue_positions ts) ≡ map unplaced ts
  unfolding update_queue_positions
  update_queue_positions-unplaced ts u =
      renumber-unplaced 1 (queue ts) ts
        (rows-Stand (queue ts) ts u (λ t m. (query-IsRow queue_order (has_status queued) ts t m).0))

-- The rows read from the table at the ids of `rows` are `rows` with the places `index`, `index +
-- 1`, ...
abbrev pub IsNumbered : ℕ → List AnalysisTask → List AnalysisTask → Type 0
IsNumbered index [] ts = Unit
IsNumbered index (t ∷ rows) ts =
    (get_row t.id ts ≡ some (record t { queue_position = some index }))
    × IsNumbered (index + 1) rows ts

renumber-other :
    (i index : ℕ) (rows ts : List AnalysisTask)
    → All (λ r. i ≢ r.id) rows
    → get_row i (renumber index rows ts) ≡ get_row i ts
unfolding renumber
renumber-other i index [] ts h = refl
renumber-other i index (t ∷ rows) ts h =
    let placed = record t { queue_position = some index } in
    ground (
      arith,
      renumber-other i (index + 1) rows (save_row placed ts) h.1,
      get_row-save_row i placed ts,
    )

renumber-IsNumbered :
    (index : ℕ) (rows ts : List AnalysisTask)
    → UniqueIds rows
    → IsNumbered index rows (renumber index rows ts)
unfolding renumber
renumber-IsNumbered index [] ts u = tt
renumber-IsNumbered index (t ∷ rows) ts u =
    let placed = record t { queue_position = some index } in
    (
      renumber-other t.id (index + 1) rows (save_row placed ts) u.0
          ∙ rw (get_row-save_row t.id placed ts, ==-self t.id),
      renumber-IsNumbered (index + 1) rows (save_row placed ts) u.1,
    )

renumber-UniqueIds :
    (index : ℕ) (rows ts : List AnalysisTask) → UniqueIds ts → UniqueIds (renumber index rows ts)
unfolding renumber
renumber-UniqueIds index [] ts u = u
renumber-UniqueIds index (t ∷ rows) ts u =
    renumber-UniqueIds (index + 1) rows _
      (save_row-UniqueIds (record t { queue_position = some index }) ts u)

count_if-unplaced :
    (s : Status) (ts : List AnalysisTask)
    → count_if (has_status s) (map unplaced ts) ≡ count_if (has_status s) ts
count_if-unplaced s [] = refl
count_if-unplaced s (t ∷ ts) = rw (count_if-unplaced s ts)

module _ ⦃orm : Orm⦄ (ts : List AnalysisTask) (u : UniqueIds ts) where
  pub update_queue_positions-UniqueIds : UniqueIds (update_queue_positions ts)
  unfolding update_queue_positions
  update_queue_positions-UniqueIds = renumber-UniqueIds 1 (queue ts) ts u

  pub count_if-update_queue_positions :
      (s : Status)
      → count_if (has_status s) (update_queue_positions ts) ≡ count_if (has_status s) ts
  count_if-update_queue_positions s =
      sym (count_if-unplaced s (update_queue_positions ts))
      ∙ (ap (count_if (has_status s)) (update_queue_positions-unplaced ts u)
          ∙ count_if-unplaced s ts)

  -- In a table with distinct ids, the queued rows in their order get the places 1, 2, 3, ...; apart
  -- from `queue_position` no row changes, none is added and none is removed.
  pub update_queue_positions_lem :
      IsNumbered 1 (queue ts) (update_queue_positions ts)
      × (map unplaced (update_queue_positions ts) ≡ map unplaced ts)
  unfolding update_queue_positions
  update_queue_positions_lem = (
    renumber-IsNumbered 1 (queue ts) ts (query-UniqueIds queue_order (has_status queued) ts u),
    update_queue_positions-unplaced ts u,
  )

  not_in_queue :
      (i : ℕ) (t : AnalysisTask) (rows : List AnalysisTask)
      → get_row i ts ≡ some t
      → has_status queued t ≡ false
      → ((r : AnalysisTask) → IsRow r rows → IsRow r ts × (has_status queued r ≡ true))
      → All (λ r. i ≢ r.id) rows
  not_in_queue i t [] h other rows_in = tt
  not_in_queue i t (r ∷ rows) h other rows_in = (
    (λ e.
        let (row, is_queued) = rows_in r (inl refl) in
        let same = eq_of_some (sym h ∙ (ap (λ k. get_row k ts) e ∙ get_row-of_mem r ts u row)) in
        cc (sym other, ap (has_status queued) same, is_queued)),
    not_in_queue i t rows h other (λ x m. rows_in x (inr m)),
  )

  -- A row that is not queued stays as it is.
  pub update_queue_positions-other :
      (i : ℕ) (t : AnalysisTask)
      → get_row i ts ≡ some t
      → has_status queued t ≡ false
      → get_row i (update_queue_positions ts) ≡ some t
  unfolding update_queue_positions
  update_queue_positions-other i t h other =
      renumber-other i 1 (queue ts) ts
        (not_in_queue i t (queue ts) h other (query-IsRow queue_order (has_status queued) ts))
      ∙ h
