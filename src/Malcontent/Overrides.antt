-- ===== src/Malcontent/Overrides.antt =====
-- What `handle_overrides` leaves, and that density is monotone.
use packamal.Malcontent.{Level}
use packamal.Prelude.{
  List, Text, All, ℕ, ◌∷◌, if-elim, text_eq, All-select_of, ◌≤◌, [], ◌≡◌, false, true, arith,
  All-map2, ltb, Bool, ◌/◌, if◌then◌else◌, All-map, ◌&&◌, leb→le, All-select, refl, not, leb,
}
use packamal.Malcontent.Risk.{
  is_dense, handle_overrides, Behavior, apply_overrides, apply_override, set_risk, set_risks,
  rank_of, behavior_map,
}

or_later :
    (c d x y : Bool)
    → (c ≡ true → d ≡ true)
    → (x ≡ true → y ≡ true)
    → (if c then true else x) ≡ true
    → (if d then true else y) ≡ true
or_later true d x y h k e = rw (h refl) refl
or_later false true x y h k e = refl
or_later false false x y h k e = k e

-- A bound on the size and one on the number of findings.
both_bounds :
    (a b m n h k : ℕ) → b ≤ a → h ≤ k → (ltb a m && ltb n h) ≡ true → (ltb b m && ltb n k) ≡ true
both_bounds a b m n h k l e x = ground arith

-- A dense file is dense with more high findings and for a smaller size.
pub is_dense-le : (h k s t : ℕ) → h ≤ k → t ≤ s → is_dense h s ≡ true → is_dense k t ≡ true
unfolding is_dense
is_dense-le h k s t l m e =
    or_later _ _ _ _ (both_bounds s t 1024 1 h k m l)
      (or_later _ _ _ _ (both_bounds (mb s) (mb t) 2 2 h k smaller l) (
        or_later _ _ _ _ (both_bounds (mb s) (mb t) 4 3 h k smaller l) (
          or_later _ _ _ _ (both_bounds (mb s) (mb t) 10 4 h k smaller l) (
            or_later _ _ _ _ (both_bounds (mb s) (mb t) 20 5 h k smaller l)
              (λ x. ground (arith, l))))))
      e
  where
    mb : ℕ → ℕ
    mb x = x / 1024 / 1024

    smaller : mb t ≤ mb s
    smaller = omega (arith, m)

abbrev HasName : (Text → Type 0) → List Behavior → Type 0
HasName P bs = All (λ (b : Behavior). P b.rule_name) bs

module _ (P : Text → Type 0) where
  set_risk-HasName :
      (risk : Level) (name : Text) (bs : List Behavior)
      → HasName P bs
      → HasName P (set_risk risk name bs)
  set_risk-HasName risk name [] h = tt
  set_risk-HasName risk name (b ∷ bs) h = (
    if-elim (λ (x : Behavior). P x.rule_name) (text_eq b.rule_name name) h.0 h.0,
    set_risk-HasName risk name bs h.1,
  )

  set_risks-HasName :
      (risk : Level) (names : List Text) (bs : List Behavior)
      → HasName P bs
      → HasName P (set_risks risk names bs)
  set_risks-HasName risk [] bs h = h
  set_risks-HasName risk (n ∷ ns) bs h =
      set_risks-HasName risk ns (set_risk risk n bs) (set_risk-HasName risk n bs h)

  apply_overrides-HasName :
      (os bs : List Behavior) → HasName P bs → HasName P (apply_overrides os bs)
  unfolding apply_overrides apply_override
  apply_overrides-HasName [] bs h = h
  apply_overrides-HasName (o ∷ os) bs h = apply_overrides-HasName os (apply_override o bs) (
      All-select_of (λ (b : Behavior). P b.rule_name) _ _
        (set_risks-HasName o.risk o.overridden bs h))

-- The name is of none of the overrides.
abbrev pub IsKept : List Behavior → Text → Type 0
IsKept os name = All (λ (o : Behavior). text_eq name o.rule_name ≡ false) os

apply_overrides-IsKept : (os bs : List Behavior) → HasName (IsKept os) (apply_overrides os bs)
unfolding apply_overrides apply_override
apply_overrides-IsKept [] bs = All-of_always bs
  where
    All-of_always : (xs : List Behavior) → HasName (λ name. Unit) xs
    All-of_always [] = tt
    All-of_always (x ∷ xs) = (tt, All-of_always xs)
apply_overrides-IsKept (o ∷ os) bs =
    All-map2 (λ b x y. (x, y)) (apply_overrides os (apply_override o bs))
      (apply_overrides-HasName (λ name. text_eq name o.rule_name ≡ false) os (apply_override o bs)
        (All-map (λ (b : Behavior) h. ground arith) _
          (All-select (λ (b : Behavior). not (text_eq b.rule_name o.rule_name)) _)))
      (apply_overrides-IsKept os (apply_override o bs))

-- What `handle_overrides` returns has at least the minimal score and the name of no override.
pub handle_overrides_lem :
    (original override : List Behavior) (min_rank : ℕ)
    → All
        (λ (b : Behavior). (min_rank ≤ rank_of b.risk) × IsKept override b.rule_name)
        (handle_overrides original override min_rank)
unfolding handle_overrides
handle_overrides_lem original override min_rank =
    All-map2 (λ (b : Behavior) x y. (leb→le min_rank (rank_of b.risk) x, y)) _
      (All-select (λ (b : Behavior). leb min_rank (rank_of b.risk)) _)
      (All-select_of (λ (b : Behavior). IsKept override b.rule_name) _ _
        (apply_overrides-IsKept override (behavior_map original [])))
