-- ===== src/Malcontent/Longest.antt =====
-- The kept texts: the longest first, and none a part of another.
use packamal.Malcontent.Unique.{
  IsApart, IsCovered, pick-IsApart, pick-IsCovered, pick-All, by_length-All, by_length-of_All,
  insert_by_length-All,
}
use packamal.Malcontent.{by_length, longest_unique, insert_by_length, pick, is_skipped}
use packamal.Prelude.{
  Text, occurs, strip_prefix, ◌≡◌, true, some, [], ◌∷◌, arith, refl, List, All, ◌<◌, ◌≤◌, ℕ, ◌+◌,
  Bool-cases, length, inl, leb, false, ◌++◌, subst, inr, sym, Option-cases,
}
use mathlib.Core.List.{append-nil, append_assoc}

-- The longest text first.
abbrev pub IsDescending : List Text → Type 0
IsDescending [] = Unit
IsDescending (l ∷ ls) = All (λ s. length s ≤ length l) ls × IsDescending ls

-- No text is a part of another one of the list.
abbrev pub AreApart : List Text → Type 0
AreApart [] = Unit
AreApart (l ∷ ls) = All (λ s. (occurs s l ≡ false) × (occurs l s ≡ false)) ls × AreApart ls

-- A part is no longer than the text, and is the text if it is as long.
strip_prefix-le :
    (p s rest : Text) → strip_prefix p s ≡ some rest → length s ≡ length p + length rest
strip_prefix-le [] s rest h = ground arith
strip_prefix-le (c ∷ p) [] rest h = absurd (ground arith)
strip_prefix-le (c ∷ p) (d ∷ s) rest h = ground (arith, strip_prefix-le p s rest)

strip_prefix-same : (p s : Text) → strip_prefix p s ≡ some [] → p ≡ s
strip_prefix-same [] s h = ground arith
strip_prefix-same (c ∷ p) [] h = absurd (ground arith)
strip_prefix-same (c ∷ p) (d ∷ s) h = ground (arith, strip_prefix-same p s)

occurs-le : (p s : Text) → occurs p s ≡ true → length p ≤ length s
occurs-le [] s h = omega arith
occurs-le (c ∷ p) [] h = absurd (ground arith)
occurs-le (c ∷ p) (d ∷ s) h = elim (Option-cases (strip_prefix (c ∷ p) (d ∷ s))) [
  | inl e ↦ omega (arith, occurs-le (c ∷ p) s (rw (e, occurs) at h))
  | inr (rest, e) ↦ omega (arith, strip_prefix-le (c ∷ p) (d ∷ s) rest e)
]

occurs-same : (p s : Text) → occurs p s ≡ true → length s ≤ length p → p ≡ s
occurs-same [] [] h l = refl
occurs-same (c ∷ p) [] h l = absurd (ground arith)
occurs-same [] (d ∷ s) h l = absurd (omega arith)
occurs-same (c ∷ p) (d ∷ s) h l = elim (Option-cases (strip_prefix (c ∷ p) (d ∷ s))) [
  | inl e ↦ absurd (omega (arith, occurs-le (c ∷ p) s (rw (e, occurs) at h)))
  | inr (rest, e) ↦
      strip_prefix-same (c ∷ p) (d ∷ s)
        (empty rest e (omega (arith, strip_prefix-le (c ∷ p) (d ∷ s) rest e)))
]
  where
    empty :
        (rest : Text)
        → strip_prefix (c ∷ p) (d ∷ s) ≡ some rest
        → length rest ≡ 0
        → strip_prefix (c ∷ p) (d ∷ s) ≡ some []
    empty [] e z = e
    empty (x ∷ rest) e z = absurd (omega (arith, z))

-- The longer of two texts is a part of the shorter only if they are the same.
shorter-apart : (l s : Text) → length s ≤ length l → occurs s l ≡ false → occurs l s ≡ false
shorter-apart l s short h = elim (Bool-cases (occurs l s)) [
  | inr e ↦ e
  | inl e ↦
      let same : l ≡ s = occurs-same l s e short in
      absurd (
        cc (
          subst (λ (x : Text). occurs x l ≡ true) same
              (subst (λ (x : Text). occurs l x ≡ true) (sym same) e),
          h,
        ))
]

AreApart-of : (ls : List Text) → IsDescending ls → IsApart ls → AreApart ls
AreApart-of [] d a = tt
AreApart-of (l ∷ ls) d a = (each ls d.0 a.0, AreApart-of ls d.1 a.1)
  where
    each :
        (xs : List Text)
        → All (λ s. length s ≤ length l) xs
        → All (λ s. occurs s l ≡ false) xs
        → All (λ s. (occurs s l ≡ false) × (occurs l s ≡ false)) xs
    each [] d a = tt
    each (x ∷ xs) d a = ((a.0, shorter-apart l x d.0 a.0), each xs d.1 a.1)

All-le :
    (n m : ℕ) (ls : List Text) → n ≤ m → All (λ s. length s ≤ n) ls → All (λ s. length s ≤ m) ls
All-le n m [] l h = tt
All-le n m (x ∷ xs) l h = (omega (arith, l, h.0), All-le n m xs l h.1)

insert_by_length-IsDescending :
    (t : Text) (ts : List Text) → IsDescending ts → IsDescending (insert_by_length t ts)
unfolding insert_by_length
insert_by_length-IsDescending t [] h = (tt, tt)
insert_by_length-IsDescending t (s ∷ ss) h = elim (Bool-cases (leb (length s) (length t))) [
  | inl e ↦
      let le : length s ≤ length t = ground arith in
      rw (e, insert_by_length) ((le, All-le (length s) (length t) ss le h.0), h)
  | inr e ↦
      rw (e, insert_by_length)
        (
          insert_by_length-All (λ x. length x ≤ length s) t ss (ground arith) h.0,
          insert_by_length-IsDescending t ss h.1,
        )
]

by_length-IsDescending : (ts : List Text) → IsDescending (by_length ts)
unfolding by_length
by_length-IsDescending [] = tt
by_length-IsDescending (t ∷ ts) =
    insert_by_length-IsDescending t (by_length ts) (by_length-IsDescending ts)

All-remove :
    (P : Text → Type 0) (ls ss : List Text) (s : Text) → All P (ls ++ (s ∷ ss)) → All P (ls ++ ss)
All-remove P [] ss s h = h.1
All-remove P (l ∷ ls) ss s h = (h.0, All-remove P ls ss s h.1)

IsDescending-remove :
    (ls ss : List Text) (s : Text) → IsDescending (ls ++ (s ∷ ss)) → IsDescending (ls ++ ss)
IsDescending-remove [] ss s h = h.1
IsDescending-remove (l ∷ ls) ss s h =
    (All-remove (λ x. length x ≤ length l) ls ss s h.0, IsDescending-remove ls ss s h.1)

pick-IsDescending : (ss ls : List Text) → IsDescending (ls ++ ss) → IsDescending (pick ss ls)
unfolding pick
pick-IsDescending [] ls h = subst IsDescending (append-nil ls) h
pick-IsDescending (s ∷ ss) ls h = elim (Bool-cases (is_skipped s ls)) [
  | inl e ↦ rw (e, pick) (pick-IsDescending ss ls (IsDescending-remove ls ss s h))
  | inr e ↦
      rw (e, pick)
        (pick-IsDescending ss (ls ++ (s ∷ []))
          (subst IsDescending (sym (append_assoc ls (s ∷ []) ss)) h))
]

-- Of two or more texts, `longest_unique` keeps, the longest first, texts of which none is a part of
-- another, such that every text that is not empty is a part of one that is kept; what holds of all
-- texts holds of those that are kept.
pub longest_unique_lem :
    (raw : List Text)
    → 1 < length raw
    → IsDescending (longest_unique raw)
      × AreApart (longest_unique raw)
      × All (IsCovered (longest_unique raw)) raw
      × ((P : Text → Type 0) → All P raw → All P (longest_unique raw))
unfolding longest_unique
longest_unique_lem raw l =
    let many : leb (length raw) 1 ≡ false = ground arith in
    let down = pick-IsDescending (by_length raw) [] (by_length-IsDescending raw) in
    (
      rw (many, longest_unique) down,
      rw (many, longest_unique) (AreApart-of _ down (pick-IsApart (by_length raw) [] tt)),
      rw (many, longest_unique) (by_length-of_All _ raw (pick-IsCovered (by_length raw) [])),
      λ P h. rw (many, longest_unique) (pick-All P (by_length raw) [] (by_length-All P raw h) tt),
    )
