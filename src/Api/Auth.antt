-- ===== src/Api/Auth.antt =====
-- backend/package_analysis/auth.py. Times are seconds. Django's cache is a parameter: an entry is
-- found until its timeout, unless it is set again.
pub mod RateLimit
pub mod Gate
use packamal.Purl.{get_or_empty}
use packamal.Models.{ApiKey}
use packamal.Prelude.{
  ℕ, List, Text, Option, codes, ◌∷◌, strip_prefix, Bool, ◌<◌, some, none, ◌+◌, if◌then◌else◌, ◌++◌,
  leb, ◌==◌, text_eq, ◌≡◌, [], ◌&&◌, true, false, truthy,
}

pub record Cache (Store : Type 0) : Type 0 where
  pub get : Text → ℕ → Store → Option ℕ
  pub set : Text → ℕ → (timeout now : ℕ) → Store → Store
  pub get-set :
      (k : Text) (v timeout now later : ℕ) (s : Store)
      → later < now + timeout
      → get k later (set k v timeout now s) ≡ some v

pub record Headers : Type 0 where
  pub authorization : Option Text
  pub x_api_key : Option Text

pub data Access : Type 0 where
  api_key_required invalid_api_key : Access
  rate_limit_exceeded : ℕ → Access
  granted : ApiKey → Access

pub data TokenAccess : Type 0 where
  authentication_required invalid_token passed : TokenAccess

-- `APIKey.objects.get(key=..., is_active=True)`.
unfoldable pub get_active_key : Text → List ApiKey → Option ApiKey
get_active_key key [] = none
get_active_key key (k ∷ ks) =
    if text_eq k.key key && k.is_active then some k else get_active_key key ks

-- `save(update_fields=['last_used'])`
unfoldable pub save_last_used : ℕ → ℕ → List ApiKey → List ApiKey
save_last_used i now [] = []
save_last_used i now (k ∷ ks) =
    if k.id == i then record k { last_used = some now } ∷ ks else k ∷ save_last_used i now ks

-- `request.META.get('HTTP_AUTHORIZATION', '')` without "Bearer ", or X-API-Key.
unfoldable pub key_in : Headers → Option Text
key_in headers = elim (strip_prefix (codes "Bearer ") (get_or_empty headers.authorization)) [
  | some key ↦ truthy (some key)
  | none ↦ truthy headers.x_api_key
]

abbrev pub cache_key : Text → Text
cache_key key = codes "api_rate_limit_" ++ key

abbrev pub hour : ℕ
hour = 3600

abbrev pub count_of : Option ℕ → ℕ
count_of none = 0
count_of (some n) = n

unfoldable pub get_api_key_from_request : Headers → List ApiKey → Option ApiKey
unfolding key_in get_active_key
get_api_key_from_request headers keys = elim (key_in headers) [
  | none ↦ none
  | some key ↦ get_active_key key keys
]

-- Whether the token in the header is the expected one.
unfoldable pub require_internal_api_token : Text → Headers → TokenAccess
require_internal_api_token expected headers =
    elim (strip_prefix (codes "Bearer ") (get_or_empty headers.authorization)) [
      | none ↦ authentication_required
      | some token ↦ if text_eq token expected then passed else invalid_token
    ]

module _ {Store : Type 0} (cache : Cache Store) where
  unfoldable pub check_rate_limit : ApiKey → ℕ → Store → Bool × Store
  check_rate_limit k now s =
      let current_count = count_of (cache.get (cache_key k.key) now s) in
      if leb k.rate_limit_per_hour current_count
      then (true, s)
      else (false, cache.set (cache_key k.key) (current_count + 1) hour now s)

  -- What is found, and the cache and the keys afterwards.
  unfoldable pub require_api_key : Headers → ℕ → Store → List ApiKey → Access × Store × List ApiKey
  unfolding check_rate_limit key_in get_active_key save_last_used
  require_api_key headers now s keys = elim (key_in headers) [
    | none ↦ (api_key_required, s, keys)
    | some key ↦ elim (get_active_key key keys) [
      | none ↦ (invalid_api_key, s, keys)
      | some k ↦
          let (exceeded, s') = check_rate_limit k now s in
          if exceeded
          then (rate_limit_exceeded k.rate_limit_per_hour, s', keys)
          else (granted (record k { last_used = some now }), s', save_last_used k.id now keys)
    ]
  ]
