-- ===== src/Orm/Insertion.antt =====
-- Insertion sort: a query set that keeps what `Orm` asks.
use mathlib.Core.List.{Permᴰ}
use packamal.Prelude.{
  true, false, ◌≡◌, refl, List, [], ◌∷◌, All, All-map, inl, inr, Bool-cases, if◌then◌else◌, arith,
  codes,
}
use packamal.Models.{AnalysisTask}
use packamal.Orm.{Order, IsOrder, IsSorted, Orm}

insert : Order → AnalysisTask → List AnalysisTask → List AnalysisTask
insert before t [] = t ∷ []
insert before t (r ∷ rs) = if before t r then t ∷ r ∷ rs else r ∷ insert before t rs

unfoldable pub sort : Order → List AnalysisTask → List AnalysisTask
unfolding insert
sort before [] = []
sort before (t ∷ ts) = insert before t (sort before ts)

Permᴰ-refl : (ts : List AnalysisTask) → Permᴰ ts ts
Permᴰ-refl [] = Permᴰ.nil
Permᴰ-refl (t ∷ ts) = Permᴰ.cons refl (Permᴰ-refl ts)

insert-perm :
    (before : Order) (t : AnalysisTask) (ts : List AnalysisTask)
    → Permᴰ (insert before t ts) (t ∷ ts)
unfolding insert
insert-perm before t [] = Permᴰ-refl (t ∷ [])
insert-perm before t (r ∷ rs) = elim (Bool-cases (before t r)) [
  | inl e ↦ rw e (Permᴰ-refl (t ∷ r ∷ rs))
  | inr e ↦ rw e (Permᴰ.trans (Permᴰ.cons refl (insert-perm before t rs)) (Permᴰ.swap refl refl))
]

pub sort-perm : (before : Order) (ts : List AnalysisTask) → Permᴰ (sort before ts) ts
unfolding sort
sort-perm before [] = Permᴰ.nil
sort-perm before (t ∷ ts) =
    Permᴰ.trans (insert-perm before t (sort before ts)) (Permᴰ.cons refl (sort-perm before ts))

module _ (before : Order) (o : IsOrder before) where
  insert-All :
      (a t : AnalysisTask) (ts : List AnalysisTask)
      → before a t ≡ true
      → All (λ r. before a r ≡ true) ts
      → All (λ r. before a r ≡ true) (insert before t ts)
  unfolding insert
  insert-All a t [] h k = (h, tt)
  insert-All a t (r ∷ rs) h k = elim (Bool-cases (before t r)) [
    | inl e ↦ rw e (h, k)
    | inr e ↦ rw e (k.0, insert-All a t rs h k.1)
  ]

  insert-IsSorted :
      (t : AnalysisTask) (ts : List AnalysisTask)
      → IsSorted before ts
      → IsSorted before (insert before t ts)
  unfolding insert
  insert-IsSorted t [] s = (tt, tt)
  insert-IsSorted t (r ∷ rs) s = elim (Bool-cases (before t r)) [
    | inl e ↦ rw e ((e, All-map (λ x h. o.trans t r x e h) rs s.0), s)
    | inr e ↦ rw e (insert-All r t rs (after e) s.0, insert-IsSorted t rs s.1)
  ]
    where
      after : before t r ≡ false → before r t ≡ true
      after e = elim (o.total t r) [ inl h ↦ absurd (ground arith) | inr h ↦ h ]

  pub sort-IsSorted : (ts : List AnalysisTask) → IsSorted before (sort before ts)
  unfolding sort
  sort-IsSorted [] = tt
  sort-IsSorted (t ∷ ts) = insert-IsSorted t (sort before ts) (sort-IsSorted ts)

abbrev pub insertion_orm : Orm
insertion_orm = record {
  integrity_error = codes "UNIQUE constraint failed";
  data_error = codes "value too long for type character varying";
  order_by = sort;
  order_by-perm = sort-perm;
  order_by-IsSorted = sort-IsSorted;
}
