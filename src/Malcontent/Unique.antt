-- ===== src/Malcontent/Unique.antt =====
-- What `longest_unique` keeps, whatever the order in which it picks.
use packamal.Prelude.{
  Text, occurs, strip_prefix, ◌≡◌, true, some, [], ◌∷◌, arith, refl, Bool, List, any_of, All,
  Bool-cases, is_nonempty, text_eq, length, inl, leb, false, if-elim, ◌++◌, subst, inr, text_eq→eq,
  sym,
}
use packamal.Malcontent.{by_length, insert_by_length, pick, is_skipped}

strip_prefix_self : (s : Text) → strip_prefix s s ≡ some []
strip_prefix_self [] = refl
strip_prefix_self (c ∷ s) = ground (arith, strip_prefix_self s)

occurs_self : (s : Text) → occurs s s ≡ true
occurs_self [] = refl
occurs_self (c ∷ s) = rw (strip_prefix_self (c ∷ s), occurs) refl

module _ (q : Text → Bool) where
  any_of-append_left : (xs ys : List Text) → any_of q xs ≡ true → any_of q (xs ++ ys) ≡ true
  any_of-append_left [] ys h = absurd (ground arith)
  any_of-append_left (x ∷ xs) ys h = ground (arith, any_of-append_left xs ys)

  any_of-append_last : (xs : List Text) (s : Text) → q s ≡ true → any_of q (xs ++ (s ∷ [])) ≡ true
  any_of-append_last [] s h = ground arith
  any_of-append_last (x ∷ xs) s h = ground (arith, any_of-append_last xs s h)

  -- What was picked stays picked.
  pick-keeps : (ss ls : List Text) → any_of q ls ≡ true → any_of q (pick ss ls) ≡ true
  unfolding pick
  pick-keeps [] ls h = h
  pick-keeps (s ∷ ss) ls h =
      if-elim (λ (r : List Text). any_of q r ≡ true) (is_skipped s ls) (pick-keeps ss ls h)
        (pick-keeps ss (ls ++ (s ∷ [])) (any_of-append_left ls (s ∷ []) h))

occurs-equal :
    (s : Text) (ls : List Text) → any_of (text_eq s) ls ≡ true → any_of (occurs s) ls ≡ true
occurs-equal s [] h = absurd (ground arith)
occurs-equal s (l ∷ ls) h = elim (Bool-cases (text_eq s l)) [
  | inl e ↦ rw (subst (λ (x : Text). occurs s x ≡ true) (text_eq→eq s l e) (occurs_self s)) refl
  | inr e ↦ if-elim (λ b. b ≡ true) (occurs s l) refl (occurs-equal s ls (rw e at h))
]

-- The text is a part of one of the list, if it is not empty.
abbrev pub IsCovered : List Text → Text → Type 0
IsCovered ls s = is_nonempty s ≡ true → any_of (occurs s) ls ≡ true

-- No text of the list is a part of one before it.
abbrev pub IsApart : List Text → Type 0
IsApart [] = Unit
IsApart (l ∷ ls) = All (λ s. occurs s l ≡ false) ls × IsApart ls

skipped-IsCovered :
    (s : Text) (ss ls : List Text) → is_skipped s ls ≡ true → IsCovered (pick ss ls) s
skipped-IsCovered s ss ls h n = elim (Bool-cases (any_of (text_eq s) ls)) [
  | inl e ↦ pick-keeps (occurs s) ss ls (occurs-equal s ls e)
  | inr e ↦ pick-keeps (occurs s) ss ls (ground arith)
]

pick-skipped :
    (s : Text) (ss ls : List Text) → is_skipped s ls ≡ true → pick (s ∷ ss) ls ≡ pick ss ls
unfolding pick
pick-skipped s ss ls e = rw (e, pick) refl

pick-picked :
    (s : Text) (ss ls : List Text)
    → is_skipped s ls ≡ false
    → pick (s ∷ ss) ls ≡ pick ss (ls ++ (s ∷ []))
unfolding pick
pick-picked s ss ls e = rw (e, pick) refl

pub pick-IsCovered : (ss ls : List Text) → All (IsCovered (pick ss ls)) ss
pick-IsCovered [] ls = tt
pick-IsCovered (s ∷ ss) ls = elim (Bool-cases (is_skipped s ls)) [
  | inl e ↦
      subst (λ (r : List Text). All (IsCovered r) (s ∷ ss)) (sym (pick-skipped s ss ls e))
        (skipped-IsCovered s ss ls e, pick-IsCovered ss ls)
  | inr e ↦
      subst (λ (r : List Text). All (IsCovered r) (s ∷ ss)) (sym (pick-picked s ss ls e))
        (
          λ n.
              pick-keeps (occurs s) ss (ls ++ (s ∷ []))
                (any_of-append_last (occurs s) ls s (occurs_self s)),
          pick-IsCovered ss (ls ++ (s ∷ [])),
        )
]

IsApart-append :
    (ls : List Text) (s : Text)
    → IsApart ls
    → any_of (occurs s) ls ≡ false
    → IsApart (ls ++ (s ∷ []))
IsApart-append [] s h k = (tt, tt)
IsApart-append (l ∷ ls) s h k = elim (Bool-cases (occurs s l)) [
  | inl e ↦ absurd (ground arith)
  | inr e ↦ (last ls h.0 e, IsApart-append ls s h.1 (rw e at k))
]
  where
    last :
        (xs : List Text)
        → All (λ x. occurs x l ≡ false) xs
        → occurs s l ≡ false
        → All (λ x. occurs x l ≡ false) (xs ++ (s ∷ []))
    last [] a e = (e, tt)
    last (x ∷ xs) a e = (a.0, last xs a.1 e)

pub pick-IsApart : (ss ls : List Text) → IsApart ls → IsApart (pick ss ls)
unfolding pick
pick-IsApart [] ls h = h
pick-IsApart (s ∷ ss) ls h = elim (Bool-cases (is_skipped s ls)) [
  | inl e ↦ rw (e, pick) (pick-IsApart ss ls h)
  | inr e ↦ rw (e, pick) (pick-IsApart ss (ls ++ (s ∷ [])) (IsApart-append ls s h (ground arith)))
]

module _ (P : Text → Type 0) where
  All-append_last : (ls : List Text) (s : Text) → All P ls → P s → All P (ls ++ (s ∷ []))
  All-append_last [] s h p = (p, tt)
  All-append_last (l ∷ ls) s h p = (h.0, All-append_last ls s h.1 p)

  pub pick-All : (ss ls : List Text) → All P ss → All P ls → All P (pick ss ls)
  unfolding pick
  pick-All [] ls h k = k
  pick-All (s ∷ ss) ls h k =
      if-elim (All P) (is_skipped s ls) (pick-All ss ls h.1 k)
        (pick-All ss (ls ++ (s ∷ [])) h.1 (All-append_last ls s k h.0))

  pub insert_by_length-All :
      (t : Text) (ts : List Text) → P t → All P ts → All P (insert_by_length t ts)
  unfolding insert_by_length
  insert_by_length-All t [] p h = (p, tt)
  insert_by_length-All t (s ∷ ss) p h =
      if-elim (All P) (leb (length s) (length t)) (p, h) (h.0, insert_by_length-All t ss p h.1)

  insert_by_length-of_All :
      (t : Text) (ts : List Text) → All P (insert_by_length t ts) → P t × All P ts
  unfolding insert_by_length
  insert_by_length-of_All t [] h = h
  insert_by_length-of_All t (s ∷ ss) h = elim (Bool-cases (leb (length s) (length t))) [
    | inl e ↦ rw (e, insert_by_length) at h
    | inr e ↦
        let k = rw (e, insert_by_length) at h in
        let (p, rest) = insert_by_length-of_All t ss k.1 in (p, (k.0, rest))
  ]

  pub by_length-All : (ts : List Text) → All P ts → All P (by_length ts)
  unfolding by_length
  by_length-All [] h = tt
  by_length-All (t ∷ ts) h = insert_by_length-All t (by_length ts) h.0 (by_length-All ts h.1)

  pub by_length-of_All : (ts : List Text) → All P (by_length ts) → All P ts
  unfolding by_length
  by_length-of_All [] h = tt
  by_length-of_All (t ∷ ts) h =
      let (p, rest) = insert_by_length-of_All t (by_length ts) h in (p, by_length-of_All ts rest)
