-- ===== src/Examples/Access.antt =====
-- Requests with keys and tokens, and a cache that holds one entry per key.
use packamal.Api.Auth.Gate.{require_api_key-granted}
use packamal.Api.Auth.RateLimit.{requests, check_rate_limit-exceeded}
use packamal.Models.{ApiKey}
use packamal.Api.Auth.{
  require_api_key, Cache, Headers, key_in, get_active_key, check_rate_limit,
  get_api_key_from_request, count_of, cache_key,
}
use packamal.Prelude.{
  ℕ, Text, Option, ◌∷◌, some, codes, ◌<◌, [], ◌≡◌, if◌then◌else◌, none, ◌+◌, true, arith, false,
  text_eq, ◌&&◌, text_eq_self, ltb, refl,
}

-- The last key that was set, its value and when it expires.
abbrev Entry : Type 0
Entry = Option (Text × ℕ × ℕ)

abbrev entry_at : Text → ℕ → Entry → Option ℕ
entry_at k now none = none
entry_at k now (some (j, v, until)) = if text_eq j k && ltb now until then some v else none

entry_at_set :
    (k : Text) (v timeout now later : ℕ) (s : Entry)
    → later < now + timeout
    → entry_at k later (some (k, v, now + timeout)) ≡ some v
entry_at_set k v timeout now later s h = ground (arith, text_eq_self k)

abbrev one_entry : Cache Entry
one_entry = record {
  get = entry_at;
  set = λ k v timeout now s. some (k, v, now + timeout);
  get-set = entry_at_set;
}

abbrev small_key : ApiKey
small_key = record {
  id = 1;
  name = [];
  key = codes "k";
  is_active = true;
  rate_limit_per_hour = 2;
  last_used = none;
}

check_rate_limit-exceeded_example :
    ((requests one_entry small_key (0 ∷ 3500 ∷ []) none).0 ≡ false)
    × (check_rate_limit one_entry small_key 7000
          (requests one_entry small_key (0 ∷ 3500 ∷ []) none).1
        ≡ (true, (requests one_entry small_key (0 ∷ 3500 ∷ []) none).1))
check_rate_limit-exceeded_example =
    check_rate_limit-exceeded one_entry small_key 0 (3500 ∷ []) none 7000 refl (ground arith) refl
      (ground arith)

abbrev with_key : Headers
with_key = record { authorization = some (codes "Bearer k"); x_api_key = none }

require_api_key-granted_example :
    (k : ApiKey) × (get_api_key_from_request with_key (small_key ∷ []) ≡ some k)
    × (k.is_active ≡ true)
    × (record small_key { last_used = some 5 } ≡ record k { last_used = some 5 })
    × (count_of (entry_at (cache_key k.key) 5 none) < k.rate_limit_per_hour)
unfolding require_api_key key_in get_active_key check_rate_limit
require_api_key-granted_example =
    require_api_key-granted one_entry with_key 5 none (small_key ∷ [])
      (record small_key { last_used = some 5 }) refl
