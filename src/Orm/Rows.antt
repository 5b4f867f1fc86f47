-- ===== src/Orm/Rows.antt =====
-- A query set in another order has the same rows, and still distinct ids.
use mathlib.Core.List.{Permᴰ, head?, ◌∷◌}
use packamal.Prelude.{
  ◌≡◌, ◌≢◌, sym, inl, inr, Bool, true, List, All, select, arith, ◌∙◌, ap, subst, length, suc,
  Bool-cases, eq_of_some, [], refl, none, false,
}
use packamal.Models.{AnalysisTask}
use packamal.Table.Ids.{IsRow, UniqueIds, select-IsRow, select-UniqueIds, All-at}
use packamal.Orm.{Order, Orm, IsOrder, some, IsSorted}

pub Permᴰ-IsRow :
    (t : AnalysisTask) {xs ys : List AnalysisTask} → Permᴰ xs ys → IsRow t xs → IsRow t ys
Permᴰ-IsRow t Permᴰ.nil m = m
Permᴰ-IsRow t (Permᴰ.cons e p) (inl h) = inl (sym e ∙ h)
Permᴰ-IsRow t (Permᴰ.cons e p) (inr m) = inr (Permᴰ-IsRow t p m)
Permᴰ-IsRow t (Permᴰ.swap e f) (inl h) = inr (inl (sym e ∙ h))
Permᴰ-IsRow t (Permᴰ.swap e f) (inr (inl h)) = inl (sym f ∙ h)
Permᴰ-IsRow t (Permᴰ.swap e f) (inr (inr m)) = inr (inr m)
Permᴰ-IsRow t (Permᴰ.trans p q) m = Permᴰ-IsRow t q (Permᴰ-IsRow t p m)

pub Permᴰ-All :
    (P : AnalysisTask → Type 0) {xs ys : List AnalysisTask} → Permᴰ xs ys → All P ys → All P xs
Permᴰ-All P Permᴰ.nil h = tt
Permᴰ-All P (Permᴰ.cons e p) h = (rw e h.0, Permᴰ-All P p h.1)
Permᴰ-All P (Permᴰ.swap e f) h = (rw e h.1.0, (rw f h.0, h.1.1))
Permᴰ-All P (Permᴰ.trans p q) h = Permᴰ-All P p (Permᴰ-All P q h)

pub Permᴰ-UniqueIds : {xs ys : List AnalysisTask} → Permᴰ xs ys → UniqueIds ys → UniqueIds xs
Permᴰ-UniqueIds Permᴰ.nil u = tt
Permᴰ-UniqueIds (Permᴰ.cons {a = a} e p) u =
    (Permᴰ-All (λ r. a.id ≢ r.id) p (rw e u.0), Permᴰ-UniqueIds p u.1)
Permᴰ-UniqueIds (Permᴰ.swap {l = l} e f) u = (
  ((λ h. u.0.0 (ap (λ x. x.id) (sym f) ∙ (sym h ∙ ap (λ x. x.id) e))), avoids (sym e) u.1.0),
  (avoids (sym f) u.0.1, u.1.1),
)
  where
    avoids : {x y : AnalysisTask} → x ≡ y → All (λ r. x.id ≢ r.id) l → All (λ r. y.id ≢ r.id) l
    avoids h = subst (λ x. All (λ r. x.id ≢ r.id) l) h
Permᴰ-UniqueIds (Permᴰ.trans p q) u = Permᴰ-UniqueIds p (Permᴰ-UniqueIds q u)

pub Permᴰ-length : {xs ys : List AnalysisTask} → Permᴰ xs ys → length xs ≡ length ys
Permᴰ-length Permᴰ.nil = omega arith
Permᴰ-length (Permᴰ.cons e p) = ap suc (Permᴰ-length p)
Permᴰ-length (Permᴰ.swap e f) = omega arith
Permᴰ-length (Permᴰ.trans p q) = Permᴰ-length p ∙ Permᴰ-length q

-- `.filter(p).order_by(before)`
module _ ⦃orm : Orm⦄ (before : Order) (p : AnalysisTask → Bool) (ts : List AnalysisTask) where
  abbrev query : List AnalysisTask
  query = orm.order_by before (select p ts)

  pub query-IsRow : (t : AnalysisTask) → IsRow t query → IsRow t ts × (p t ≡ true)
  query-IsRow t m = select-IsRow p t ts (Permᴰ-IsRow t (orm.order_by-perm before (select p ts)) m)

  pub query-UniqueIds : UniqueIds ts → UniqueIds query
  query-UniqueIds u =
      Permᴰ-UniqueIds (orm.order_by-perm before (select p ts)) (select-UniqueIds p ts u)

Permᴰ-IsRow_back :
    (t : AnalysisTask) {xs ys : List AnalysisTask} → Permᴰ xs ys → IsRow t ys → IsRow t xs
Permᴰ-IsRow_back t Permᴰ.nil m = m
Permᴰ-IsRow_back t (Permᴰ.cons e p) (inl h) = inl (e ∙ h)
Permᴰ-IsRow_back t (Permᴰ.cons e p) (inr m) = inr (Permᴰ-IsRow_back t p m)
Permᴰ-IsRow_back t (Permᴰ.swap e f) (inl h) = inr (inl (f ∙ h))
Permᴰ-IsRow_back t (Permᴰ.swap e f) (inr (inl h)) = inl (e ∙ h)
Permᴰ-IsRow_back t (Permᴰ.swap e f) (inr (inr m)) = inr (inr m)
Permᴰ-IsRow_back t (Permᴰ.trans p q) m = Permᴰ-IsRow_back t p (Permᴰ-IsRow_back t q m)

pub IsRow-select :
    (p : AnalysisTask → Bool) (t : AnalysisTask) (ts : List AnalysisTask)
    → IsRow t ts
    → p t ≡ true
    → IsRow t (select p ts)
IsRow-select p t [] m h = absurd m
IsRow-select p t (r ∷ rs) (inl e) h = rw (e, h) (inl refl)
IsRow-select p t (r ∷ rs) (inr m) h = elim (Bool-cases (p r)) [
  | inl e ↦ rw e (inr (IsRow-select p t rs m h))
  | inr e ↦ rw e (IsRow-select p t rs m h)
]

pub head-IsRow : (t : AnalysisTask) (ts : List AnalysisTask) → head? ts ≡ some t → IsRow t ts
head-IsRow t [] h = cc
head-IsRow t (r ∷ rs) h = inl (eq_of_some h)

-- The head of a sorted list may stand before every row of it.
pub head-before :
    (before : Order) (o : IsOrder before) (t r : AnalysisTask) (ts : List AnalysisTask)
    → IsSorted before ts
    → head? ts ≡ some t
    → IsRow r ts
    → before t r ≡ true
head-before before o t r (x ∷ xs) s h (inl e) =
    let same = sym (eq_of_some h) ∙ e in
    elim (o.total r r) [
      | inl k ↦ subst (λ y. before y r ≡ true) (sym same) k
      | inr k ↦ subst (λ y. before y r ≡ true) (sym same) k
    ]
head-before before o t r (x ∷ xs) s h (inr m) =
    subst (λ y. before y r ≡ true) (eq_of_some h) (All-at (λ y. before x y ≡ true) r xs s.0 m)
head-before before o t r [] s h m = absurd m

-- `.filter(p).order_by(before).first()` is a row that passes the test, and none that passes it has
-- to stand before it.
module _ ⦃orm : Orm⦄ (before : Order) (o : IsOrder before) (p : AnalysisTask → Bool)
    (ts : List AnalysisTask) (t : AnalysisTask)
    (first : head? (orm.order_by before (select p ts)) ≡ some t) where
  pub first-IsRow : IsRow t ts × (p t ≡ true)
  first-IsRow = query-IsRow before p ts t (head-IsRow t _ first)

  pub first-before : (r : AnalysisTask) → IsRow r ts → p r ≡ true → before t r ≡ true
  first-before r m h =
      head-before before o t r _ (orm.order_by-IsSorted before o (select p ts)) first
        (Permᴰ-IsRow_back r (orm.order_by-perm before (select p ts)) (IsRow-select p r ts m h))

-- `.first()` of a query is `none` only if no row passes the test.
empty_of_head : (ts : List AnalysisTask) → head? ts ≡ none → ts ≡ []
empty_of_head [] h = refl
empty_of_head (t ∷ ts) h = cc

pub first-none :
    ⦃orm : Orm⦄ (before : Order) (p : AnalysisTask → Bool) (ts : List AnalysisTask)
    → head? (orm.order_by before (select p ts)) ≡ none
    → (r : AnalysisTask) → IsRow r ts
    → p r ≡ false
first-none ⦃orm⦄ before p ts h r m = elim (Bool-cases (p r)) [
  | inl e ↦ absurd (
      subst (IsRow r) (empty_of_head _ h)
        (Permᴰ-IsRow_back r (orm.order_by-perm before (select p ts)) (IsRow-select p r ts m e)))
  | inr e ↦ e
]
