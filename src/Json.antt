-- ===== src/Json.antt =====
-- The values that `response.json()` and `json.load` return, read as the clients of the registries
-- read them: `data[key]`, `data.get(key)` and `for x in data`. Numbers are not read, and an object
-- holds a key once.
use packamal.Prelude.{
  Text, Option, List, codes, none, some, [], ◌∷◌, map, if◌then◌else◌, text_eq, Bool, false, true,
  is_nonempty, ◌≡◌, refl,
}
use packamal.Tasks.Outcome.{Outcome, Exc, ret, raise, error}

mutual
  pub data Json : Type 0 where
    null number : Json
    str : Text → Json
    array : Items → Json
    object : Fields → Json

  pub data Items : Type 0 where
    no_items : Items
    item : Json → Items → Items

  pub data Fields : Type 0 where
    no_fields : Fields
    field : Text → Json → Fields → Fields

abbrev pub failing : Text → Exc
failing message = error message none

-- A step of a function that may raise.
infixl 5 ◌>>=◌
abbrev pub ◌>>=◌ {ℓ κ} : {A : Type ℓ} {B : Type κ} → Outcome A → (A → Outcome B) → Outcome B
ret a >>= f = f a
raise e >>= f = raise e

-- A step that returned, and what the next one returned on its value.
pub ret_of_bind {ℓ κ} :
    {A : Type ℓ} {B : Type κ} (m : Outcome A) (f : A → Outcome B) {b : B}
    → (m >>= f) ≡ ret b
    → (a : A) × (m ≡ ret a) × (f a ≡ ret b)
ret_of_bind (ret a) f h = (a, refl, h)
ret_of_bind (raise e) f h = cc

pub eq_of_ret {ℓ} : {A : Type ℓ} {a b : A} → ret a ≡ ret b → a ≡ b
eq_of_ret h = cc

abbrev pub items : Items → List Json
items no_items = []
items (item v vs) = v ∷ items vs

abbrev pub fields : Fields → List (Text × Json)
fields no_fields = []
fields (field k v vs) = (k, v) ∷ fields vs

abbrev pub member : Text → Fields → Option Json
member key no_fields = none
member key (field k v vs) = let later = member key vs in if text_eq k key then some v else later

abbrev pub not_subscriptable : Exc
not_subscriptable = failing (codes "TypeError")

-- `data[key]`
abbrev pub subscript : Text → Json → Outcome Json
subscript key (object fs) = elim (member key fs) [ none ↦ raise (failing key) | some v ↦ ret v ]
subscript key _ = raise not_subscriptable

-- `data.get(key)`, where None is no value
abbrev pub get_member : Text → Json → Outcome (Option Json)
get_member key (object fs) =
    ret (elim (member key fs) [ none ↦ none | some null ↦ none | some v ↦ some v ])
get_member key _ = raise (failing (codes "AttributeError"))

-- `data.get(key, {})`
abbrev pub get_or_object : Text → Json → Outcome Json
get_or_object key (object fs) = elim (member key fs) [
  | none ↦ ret (object no_fields)
  | some v ↦ ret v
]
get_or_object key _ = raise (failing (codes "AttributeError"))

-- `for x in data`
abbrev pub iterate : Json → Outcome (List Json)
iterate (array vs) = ret (items vs)
iterate (object fs) = ret (map (λ kv. str kv.0) (fields fs))
iterate (str s) = ret (map (λ c. str (c ∷ [])) s)
iterate null = raise not_subscriptable
iterate number = raise not_subscriptable

-- `data.keys()`
abbrev pub keys : Json → Outcome (List Text)
keys (object fs) = ret (map (λ kv. kv.0) (fields fs))
keys _ = raise (failing (codes "AttributeError"))

-- `data[0]`
abbrev pub first_item : Json → Outcome Json
first_item (array (item v vs)) = ret v
first_item (array no_items) = raise (failing (codes "list index out of range"))
first_item _ = raise not_subscriptable

-- `value == text`
abbrev pub is_text : Text → Json → Bool
is_text t (str s) = text_eq s t
is_text t _ = false

-- Python's truth value of what `json.load` returns; a number is taken as nonzero.
abbrev pub is_true : Json → Bool
is_true null = false
is_true number = true
is_true (str s) = is_nonempty s
is_true (array no_items) = false
is_true (array (item v vs)) = true
is_true (object no_fields) = false
is_true (object (field k v vs)) = true

-- A method of `str` called on the value, or an AttributeError.
abbrev pub as_text : Json → Outcome Text
as_text (str s) = ret s
as_text _ = raise (failing (codes "AttributeError"))
