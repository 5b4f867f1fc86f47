-- ===== src/Envelope.antt =====
-- backend/package_analysis/api_utils.py: the JSON envelope of the answers and the decorator
-- `api_handler`. The headers of Django's `JsonResponse` are parameters; a dictionary that is `None`
-- is written [], since the code only tests it.
use packamal.Prelude.{
  Text, Option, Bool, List, ℕ, codes, ◌∷◌, [], ◌++◌, true, false, none, truthy, if◌then◌else◌, some,
  text_eq,
}

-- What a body holds: V are the values inside `data` and `fields`.
pub data Value (V : Type 0) : Type 0 where
  json_bool : Bool → Value V
  json_text : Text → Value V
  json_dict : List (Text × V) → Value V

-- `dict.get(key)`
unfoldable pub get_key {ℓ} : {A : Type ℓ} → Text → List (Text × A) → Option A
get_key key [] = none
get_key key ((k, v) ∷ rest) =
    let later = get_key key rest in if text_eq k key then some v else later

-- `payload.setdefault(key, value)`
unfoldable pub setdefault {ℓ} : {A : Type ℓ} → Text → A → List (Text × A) → List (Text × A)
unfolding get_key
setdefault key value payload = elim (get_key key payload) [
  | none ↦ payload ++ ((key, value) ∷ [])
  | some v ↦ payload
]

pub record HttpRequest : Type 0 where
  -- `request.META.get('HTTP_X_REQUEST_ID')`
  pub http_x_request_id : Option Text
  -- what `str(uuid.uuid4())` returns
  pub fresh_uuid : Text

pub record JsonResponse (V H : Type 0) : Type 0 where
  pub body : List (Text × Value V)
  pub status : ℕ
  pub headers : H

-- How a view ends: with an answer, a `json.JSONDecodeError`, or another exception with its text.
pub data Viewed (V H : Type 0) : Type 0 where
  returned : JsonResponse V H → Viewed V H
  json_decode_error : Viewed V H
  raised : Text → Viewed V H

unfoldable pub request_id : HttpRequest → Text
request_id request = elim (truthy request.http_x_request_id) [
  | none ↦ request.fresh_uuid
  | some id ↦ id
]

unfoldable pub with_request_id :
    {V : Type 0} → List (Text × Value V) → HttpRequest → List (Text × Value V)
unfolding request_id setdefault
with_request_id payload request =
    setdefault (codes "request_id") (json_text (request_id request)) payload

-- `if code: body['code'] = code`
abbrev pub add_code : {V : Type 0} → Option Text → List (Text × Value V)
add_code code = elim (truthy code) [ none ↦ [] | some c ↦ (codes "code", json_text c) ∷ [] ]

-- `if fields: body['fields'] = fields`
abbrev pub add_fields : {V : Type 0} → List (Text × V) → List (Text × Value V)
add_fields [] = []
add_fields (f ∷ fs) = (codes "fields", json_dict (f ∷ fs)) ∷ []

-- `for key, value in headers.items(): response[key] = value`
unfoldable pub set_headers : {H : Type 0} → (Text → Text → H → H) → List (Text × Text) → H → H
set_headers set_header [] h = h
set_headers set_header ((key, value) ∷ rest) h =
    set_headers set_header rest (set_header key value h)

module _ {V H : Type 0} (no_headers : H) (set_header : Text → Text → H → H) where
  unfoldable pub json_success :
      HttpRequest → List (Text × V) → ℕ → List (Text × Text) → JsonResponse V H
  unfolding with_request_id set_headers
  json_success request payload status headers = record {
    body =
        with_request_id ((codes "success", json_bool true) ∷ (codes "data", json_dict payload) ∷ [])
          request;
    status = status;
    headers = set_headers set_header headers no_headers;
  }

  unfoldable pub json_error :
      HttpRequest
      → Text
      → Text
      → ℕ
      → Option Text
      → List (Text × V)
      → List (Text × Text)
      → JsonResponse V H
  unfolding with_request_id set_headers
  json_error request error message status code fields headers = record {
    body =
        with_request_id
          ((codes "success", json_bool false)
            ∷ (codes "error", json_text error)
            ∷ (codes "message", json_text message)
            ∷ (add_code code ++ add_fields fields))
          request;
    status = status;
    headers = set_headers set_header headers no_headers;
  }

  unfoldable pub handle : HttpRequest → Viewed V H → JsonResponse V H
  unfolding json_error
  handle request (returned response) = response
  handle request json_decode_error =
      json_error request (codes "Invalid JSON") (codes "Request body must be valid JSON") 400 none
        [] []
  handle request (raised exc) =
      json_error request (codes "Internal server error") exc 500 none [] []

  unfoldable pub api_handler : (HttpRequest → Viewed V H) → HttpRequest → JsonResponse V H
  unfolding handle
  api_handler view_func request = handle request (view_func request)
