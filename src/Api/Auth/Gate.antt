-- ===== src/Api/Auth/Gate.antt =====
-- Who passes `require_api_key` and `require_internal_api_token`.
use packamal.Purl.{get_or_empty}
use packamal.Models.{ApiKey}
use packamal.Api.Auth.{
  get_active_key, Cache, Headers, require_internal_api_token, require_api_key, passed,
  get_api_key_from_request, check_rate_limit, granted, count_of, cache_key, key_in,
}
use packamal.Prelude.{
  ℕ, Text, List, strip_prefix, ◌≡◌, codes, some, true, ◌++◌, text_eq, Option-cases, eq_of_some, inl,
  arith, ◌∷◌, [], inr, Bool-cases, ◌&&◌, ◌∙◌, sym, ap, ◌<◌, subst, text_eq→eq, leb,
  strip_prefix-append, text_eq_self, refl,
}

strip_prefix-some : (p s r : Text) → strip_prefix p s ≡ some r → s ≡ p ++ r
strip_prefix-some [] s r h = eq_of_some h
strip_prefix-some (x ∷ p) [] r h = absurd (ground arith)
strip_prefix-some (x ∷ p) (c ∷ s) r h = ground (arith, strip_prefix-some p s r)

get_active_key-active :
    (key : Text) (ks : List ApiKey) (k : ApiKey)
    → get_active_key key ks ≡ some k
    → (k.is_active ≡ true) × (text_eq k.key key ≡ true)
unfolding get_active_key
get_active_key-active key [] k h = absurd (ground arith)
get_active_key-active key (q ∷ qs) k h = elim (Bool-cases (text_eq q.key key && q.is_active)) [
  | inl e ↦
      subst (λ (x : ApiKey). (x.is_active ≡ true) × (text_eq x.key key ≡ true))
        (eq_of_some {a = q} (sym (rw (e, get_active_key) refl) ∙ h)) (ground arith)
  | inr e ↦ get_active_key-active key qs k (ground arith)
]

module _ (expected : Text) (headers : Headers) where
  -- A request passes exactly if its Authorization header, or the empty text for a missing one, is
  -- "Bearer " and the expected token.
  pub require_internal_api_token-passed :
      (require_internal_api_token expected headers ≡ passed
        → get_or_empty headers.authorization ≡ codes "Bearer " ++ expected)
      × (get_or_empty headers.authorization ≡ codes "Bearer " ++ expected
          → require_internal_api_token expected headers ≡ passed)
  unfolding require_internal_api_token
  require_internal_api_token-passed = (
    λ h. elim (Option-cases (strip_prefix (codes "Bearer ") (get_or_empty headers.authorization))) [
      | inl e ↦ absurd (ground arith)
      | inr (token, e) ↦ elim (Bool-cases (text_eq token expected)) [
        | inl t ↦
            strip_prefix-some (codes "Bearer ") _ token e
            ∙ ap (λ x. codes "Bearer " ++ x) (text_eq→eq token expected t)
        | inr t ↦ absurd (ground arith)
      ]
    ],
    λ h.
        rw
          (
            ap (strip_prefix (codes "Bearer ")) h ∙ strip_prefix-append (codes "Bearer ") expected,
            require_internal_api_token,
          )
          (rw (text_eq_self expected) refl),
  )

module _ {Store : Type 0} (cache : Cache Store) (headers : Headers) (now : ℕ) (s : Store)
    (keys : List ApiKey) where
  -- Access is granted only to the active key that `get_api_key_from_request` finds for the same
  -- request, with its last use set, and only if fewer requests than its limit are counted.
  pub require_api_key-granted :
      (k' : ApiKey)
      → (require_api_key cache headers now s keys).0 ≡ granted k'
      → (k : ApiKey) × (get_api_key_from_request headers keys ≡ some k)
        × (k.is_active ≡ true)
        × (k' ≡ record k { last_used = some now })
        × (count_of (cache.get (cache_key k.key) now s) < k.rate_limit_per_hour)
  unfolding require_api_key get_api_key_from_request check_rate_limit
  require_api_key-granted k' h = elim (Option-cases (key_in headers)) [
    | inl e ↦ absurd (ground arith)
    | inr (key, e) ↦ elim (Option-cases (get_active_key key keys)) [
      | inl f ↦ absurd (ground arith)
      | inr (k, f) ↦
          elim (Bool-cases
            (leb k.rate_limit_per_hour (count_of (cache.get (cache_key k.key) now s)))) [
              | inl l ↦ absurd (ground arith)
              | inr l ↦ (
                k,
                rw (e, get_api_key_from_request) f,
                (get_active_key-active key keys k f).0,
                ground arith,
                ground arith,
              )
            ]
    ]
  ]
