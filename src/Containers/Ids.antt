-- ===== src/Containers/Ids.antt =====
-- What `extract_container_id` finds.
use packamal.Prelude.{
  Text, ℕ, ◌≡◌, Option, length, All, some, ◌∷◌, true, Option-cases, inl, zero, inr, [], refl, subst,
  eq_of_some, Bool-cases, strip_prefix, Bool, ◌++◌, ◌⊎◌, arith, codes, ◌≤◌, skip_spaces, ap, ◌∙◌,
  sym,
}
use mathlib.Core.List.{append_assoc}
use packamal.Containers.{
  is_hex, hex_run, after_prefix, search, after_name, extract_container_id, suc, none, after_spaces,
}

-- Twelve hexadecimal digits.
abbrev pub IsShortId : Text → Type 0
IsShortId t = (length t ≡ 12) × All (λ c. is_hex c ≡ true) t

-- The text stands somewhere in the other.
abbrev pub StandsIn : Text → Text → Type 0
StandsIn t s = (a : Text) × (b : Text) × (s ≡ a ++ (t ++ b))

StandsIn-after : (a s t : Text) → StandsIn t s → StandsIn t (a ++ s)
StandsIn-after a s t (u, v, e) = (a ++ u, v, ap (λ r. a ++ r) e ∙ sym (append_assoc a u (t ++ v)))

-- Twelve digits that stand in the text.
abbrev pub IsIdIn : Text → Text → Type 0
IsIdIn s t = IsShortId t × StandsIn t s

IsIdIn-after : (a s t : Text) → IsIdIn s t → IsIdIn (a ++ s) t
IsIdIn-after a s t (short, stands) = (short, StandsIn-after a s t stands)

hex_run-digits :
    (n : ℕ) (s t : Text)
    → hex_run n s ≡ some t
    → ((length t ≡ n) × All (λ c. is_hex c ≡ true) t) × ((rest : Text) × (s ≡ t ++ rest))
hex_run-digits zero s [] h = ((refl, tt), (s, refl))
hex_run-digits zero s (c ∷ t) h = absurd cc
hex_run-digits (suc n) [] t h = absurd cc
hex_run-digits (suc n) (c ∷ s) t h = elim (Bool-cases (is_hex c)) [
  | inr e ↦ absurd (ground arith)
  | inl e ↦ elim (Option-cases (hex_run n s)) [
    | inl k ↦ absurd (ground arith)
    | inr (r, k) ↦
        let ((len, all), (rest, at_start)) = hex_run-digits n s r k in
        let same : c ∷ r ≡ t = eq_of_some (rw (e, hex_run) at (rw k at h)) in
        subst
          (λ (x : Text).
            ((length x ≡ suc n) × All (λ d. is_hex d ≡ true) x)
            × ((rest : Text) × (c ∷ s ≡ x ++ rest)))
          same ((omega (arith, len), (e, all)), (rest, ap (λ x. c ∷ x) at_start))
  ]
]

hex_run-IsIdIn : (s t : Text) → hex_run 12 s ≡ some t → IsIdIn s t
hex_run-IsIdIn s t h = let (short, (rest, e)) = hex_run-digits 12 s t h in (short, ([], rest, e))

-- What is found somewhere was matched somewhere.
search-found :
    (p : Text → Option Text) (s t : Text)
    → ((u v : Text) → p u ≡ some v → IsIdIn u v)
    → search p s ≡ some t
    → IsIdIn s t
unfolding search
search-found p [] t h e = h [] t e
search-found p (c ∷ s) t h e = elim (Option-cases (p (c ∷ s))) [
  | inl k ↦ IsIdIn-after (c ∷ []) s t (search-found p s t h (rw (k, search) at e))
  | inr (v, k) ↦ subst (IsIdIn (c ∷ s)) (eq_of_some (rw (k, search) at e)) (h (c ∷ s) v k)
]

search-none : (p : Text → Option Text) (a b : Text) → search p (a ++ b) ≡ none → p b ≡ none
unfolding search
search-none p [] [] e = e
search-none p [] (c ∷ s) e = elim (Option-cases (p (c ∷ s))) [
  | inl k ↦ k
  | inr (v, k) ↦ absurd (ground arith)
]
search-none p (c ∷ a) b e = elim (Option-cases (p (c ∷ (a ++ b)))) [
  | inl k ↦ search-none p a b (rw (k, search) at e)
  | inr (v, k) ↦ absurd (ground arith)
]

-- A pattern that matches nowhere if another one does not.
search-implied :
    (p q : Text → Option Text) (s : Text)
    → ((u : Text) → p u ≡ none → q u ≡ none)
    → search p s ≡ none
    → search q s ≡ none
unfolding search
search-implied p q [] h e = h [] e
search-implied p q (c ∷ s) h e = elim (Option-cases (p (c ∷ s))) [
  | inl k ↦ rw (h (c ∷ s) k, search) (search-implied p q s h (rw (k, search) at e))
  | inr (v, k) ↦ absurd (ground arith)
]

hex_run-more : (n k : ℕ) (s : Text) → n ≤ k → hex_run n s ≡ none → hex_run k s ≡ none
hex_run-more zero k s l h = absurd cc
hex_run-more (suc n) zero s l h = absurd (omega (arith, l))
hex_run-more (suc n) (suc k) [] l h = refl
hex_run-more (suc n) (suc k) (c ∷ s) l h = ground (arith, hex_run-more n k s (omega (arith, l)))

strip_prefix-split : (p s rest : Text) → strip_prefix p s ≡ some rest → s ≡ p ++ rest
strip_prefix-split [] s rest h = ground arith
strip_prefix-split (c ∷ p) [] rest h = absurd (ground arith)
strip_prefix-split (c ∷ p) (d ∷ s) rest h = ground (arith, strip_prefix-split p s rest)

after_prefix-digits : (prefix s t : Text) → after_prefix prefix 12 s ≡ some t → IsIdIn s t
after_prefix-digits prefix s t h = elim (Option-cases (strip_prefix prefix s)) [
  | inl e ↦ absurd (ground arith)
  | inr (rest, e) ↦
      subst (λ (x : Text). IsIdIn x t) (sym (strip_prefix-split prefix s rest e))
        (IsIdIn-after prefix rest t (hex_run-IsIdIn rest t (rw (e, after_prefix) at h)))
]

after_prefix-more :
    (prefix s : Text) → after_prefix prefix 12 s ≡ none → after_prefix prefix 64 s ≡ none
after_prefix-more prefix s h = elim (Option-cases (strip_prefix prefix s)) [
  | inl e ↦ rw (e, after_prefix) refl
  | inr (rest, e) ↦
      rw (e, after_prefix) (hex_run-more 12 64 rest (omega arith) (rw (e, after_prefix) at h))
]

module _ (is_space : ℕ → Bool) where
  skip_spaces-split : (s : Text) → (spaces : Text) × (s ≡ spaces ++ skip_spaces is_space s)
  skip_spaces-split [] = ([], refl)
  skip_spaces-split (c ∷ s) = elim (Bool-cases (is_space c)) [
    | inl e ↦ let (spaces, k) = skip_spaces-split s in (c ∷ spaces, rw e (ap (λ x. c ∷ x) k))
    | inr e ↦ ([], rw e refl)
  ]

  after_spaces-digits : (s t : Text) → after_spaces is_space s ≡ some t → IsIdIn s t
  after_spaces-digits [] t h = absurd cc
  after_spaces-digits (c ∷ s) t h = elim (Bool-cases (is_space c)) [
    | inl e ↦
        let (spaces, k) = skip_spaces-split s in
        IsIdIn-after (c ∷ []) s t (
          subst (λ (x : Text). IsIdIn x t) (sym k)
            (IsIdIn-after spaces (skip_spaces is_space s) t
              (hex_run-IsIdIn (skip_spaces is_space s) t (rw e at h))))
    | inr e ↦ absurd (ground arith)
  ]

  after_name-digits : (s t : Text) → after_name is_space s ≡ some t → IsIdIn s t
  after_name-digits s t h = elim (Option-cases (strip_prefix (codes "--name") s)) [
    | inl e ↦ absurd (ground arith)
    | inr (rest, e) ↦
        subst (λ (x : Text). IsIdIn x t) (sym (strip_prefix-split (codes "--name") s rest e))
          (IsIdIn-after (codes "--name") rest t (after_spaces-digits rest t (rw e at h)))
  ]

  pub extract_container_id_lem :
      (command : Text)
      → ((t : Text) × (extract_container_id is_space command ≡ some t) × IsIdIn command t)
        ⊎ ((extract_container_id is_space command ≡ none)
            × ((a b : Text) → command ≡ a ++ b → hex_run 12 b ≡ none))
  unfolding extract_container_id
  extract_container_id_lem command =
      let by_id = after_prefix (codes "container_id=") 12 in
      elim (Option-cases (search by_id command)) [
        | inr (t, e) ↦ inl (
          t,
          rw e refl,
          search-found by_id command t (after_prefix-digits (codes "container_id=")) e,
        )
        | inl e ↦
            let full =
              search-implied by_id (after_prefix (codes "container_id=") 64) command
                (after_prefix-more (codes "container_id=")) e in
            elim (Option-cases (search (after_name is_space) command)) [
              | inr (t, k) ↦ inl (
                t,
                rw (e, full, k) refl,
                search-found (after_name is_space) command t after_name-digits k,
              )
              | inl k ↦ elim (Option-cases (search (hex_run 12) command)) [
                | inr (t, m) ↦ inl (
                  t,
                  rw (e, full, k, m) refl,
                  search-found (hex_run 12) command t hex_run-IsIdIn m,
                )
                | inl m ↦ inr (
                  rw (e, full, k, m) refl,
                  λ a b h.
                      search-none (hex_run 12) a b (subst (λ x. search (hex_run 12) x ≡ none) h m),
                )
              ]
            ]
      ]
