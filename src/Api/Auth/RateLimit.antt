-- ===== src/Api/Auth/RateLimit.antt =====
-- How many requests `check_rate_limit` lets through, and until when it stops the others.
use packamal.Models.{ApiKey}
use packamal.Api.Auth.{Cache, check_rate_limit, cache_key, count_of, hour}
use packamal.Prelude.{
  ℕ, List, ◌∷◌, Bool, ◌<◌, ◌+◌, [], false, length, ◌≡◌, ◌||◌, ◌≤◌, leb, some, none, ◌∙◌, true,
  arith, refl, ap,
}

-- Each time is less than an hour after the one before.
abbrev pub Spaced : ℕ → List ℕ → Type 0
Spaced last [] = Unit
Spaced last (t ∷ ts) = (t < last + hour) × Spaced t ts

abbrev pub last_of : ℕ → List ℕ → ℕ
last_of last [] = last
last_of last (t ∷ ts) = last_of t ts

module _ {Store : Type 0} (cache : Cache Store) (k : ApiKey) where
  -- `n` requests are counted, the last one at `last`.
  abbrev pub Counted : ℕ → ℕ → Store → Type 0
  Counted last n s =
      (later : ℕ) → later < last + hour → cache.get (cache_key k.key) later s ≡ some n

  -- The cache after requests at the times, and whether one was stopped.
  abbrev pub requests : List ℕ → Store → Bool × Store
  requests [] s = (false, s)
  requests (t ∷ ts) s =
      let (stopped, s') = check_rate_limit cache k t s in
      let (any_stopped, s'') = requests ts s' in (stopped || any_stopped, s'')

  allowed :
      (t n : ℕ) (s : Store)
      → count_of (cache.get (cache_key k.key) t s) ≡ n
      → n < k.rate_limit_per_hour
      → check_rate_limit cache k t s ≡ (false, cache.set (cache_key k.key) (n + 1) hour t s)
  unfolding check_rate_limit
  allowed t n s c h =
      let under : leb k.rate_limit_per_hour n ≡ false = ground arith in
      rw (c, check_rate_limit) (rw under refl)

  stopped :
      (t n : ℕ) (s : Store)
      → cache.get (cache_key k.key) t s ≡ some n
      → k.rate_limit_per_hour ≤ n
      → check_rate_limit cache k t s ≡ (true, s)
  unfolding check_rate_limit
  stopped t n s c h =
      let over : leb k.rate_limit_per_hour n ≡ true = ground arith in
      rw (c, check_rate_limit) (rw over refl)

  counted :
      (ts : List ℕ) (last n : ℕ) (s : Store)
      → Counted last n s
      → Spaced last ts
      → n + length ts ≤ k.rate_limit_per_hour
      → ((requests ts s).0 ≡ false) × Counted (last_of last ts) (n + length ts) (requests ts s).1
  counted [] last n s c sp h = (refl, λ later l. c later l ∙ ap some (omega arith))
  counted (t ∷ ts) last n s c sp h =
      let first = allowed t n s (ap count_of (c t sp.0)) (omega arith) in
      let (none_stopped, then) =
        counted ts t (n + 1) (cache.set (cache_key k.key) (n + 1) hour t s)
          (λ later l. cache.get-set (cache_key k.key) (n + 1) hour t later s l) sp.1
          (omega arith) in
      rw first (none_stopped, λ later l. then later l ∙ ap some (omega arith))

  -- The first requests of a key, as many as its limit and each less than an hour after the one
  -- before, are let through, however long they take together; each request in the hour after the
  -- last one is stopped and leaves the cache as it is.
  pub check_rate_limit-exceeded :
      (t : ℕ) (ts : List ℕ) (s : Store) (later : ℕ)
      → cache.get (cache_key k.key) t s ≡ none
      → Spaced t ts
      → k.rate_limit_per_hour ≡ length (t ∷ ts)
      → later < last_of t ts + hour
      → ((requests (t ∷ ts) s).0 ≡ false)
        × (check_rate_limit cache k later (requests (t ∷ ts) s).1 ≡ (true, (requests (t ∷ ts) s).1))
  check_rate_limit-exceeded t ts s later fresh sp limit l =
      let first = allowed t 0 s (ap count_of fresh) (omega arith) in
      let s' = cache.set (cache_key k.key) 1 hour t s in
      let (none_stopped, then) =
        counted ts t 1 s' (λ r h. cache.get-set (cache_key k.key) 1 hour t r s h) sp
          (omega arith) in
      rw first (none_stopped, stopped later _ (requests ts s').1 (then later l) (omega arith))
