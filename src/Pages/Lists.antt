-- ===== src/Pages/Lists.antt =====
-- views.py: the pages that answer with the packages of an ecosystem, by helper.py. Each list is
-- kept in memory once it was returned, which the state of a page holds.
use packamal.Json.{Json, object, array, field, no_fields, failing, ◌>>=◌}
use packamal.Repository.Crates.{get_rust_packages, get_maven_packages}
use packamal.Repository.Lists.{
  Disk, memoized, json_texts, get_pypi_packages, get_npm_packages, get_rubygems_packages,
  get_packagist_packages, get_wolfi_packages,
}
use packamal.Tasks.Outcome.{Outcome, ret, raise}
use packamal.Prelude.{Text, Option, List, codes}

-- `JsonResponse(data)`: what is no dictionary raises a TypeError.
unfoldable pub json_response : Json → Outcome Json
json_response (object fs) = ret (object fs)
json_response _ = raise (failing (codes "In order to allow non-dict objects to be serialized"))

-- `{"packages": packages}`
abbrev pub packages_object : Json → Json
packages_object packages = object (field (codes "packages") packages no_fields)

abbrev pub respond :
    {S A : Type 0} → (A → Json) → Outcome A × (Option A × S) → Outcome Json × (Option A × S)
respond data_of (result, s) = (result >>= (λ a. json_response (data_of a)), s)

module _ {S : Type 0} (disk : Disk S) where
  abbrev pub names_page :
      (S → Outcome (List Text) × S)
      → Option (List Text) × S
      → Outcome Json × (Option (List Text) × S)
  names_page names s = respond (λ ts. packages_object (array (json_texts ts))) (memoized names s)

  abbrev pub values_page :
      (S → Outcome Json × S) → Option Json × S → Outcome Json × (Option Json × S)
  values_page values s = respond packages_object (memoized values s)

  unfoldable pub pypi_page : Option (List Text) × S → Outcome Json × (Option (List Text) × S)
  unfolding json_response memoized get_pypi_packages
  pypi_page = names_page (get_pypi_packages disk)

  unfoldable pub rubygems_page : Option (List Text) × S → Outcome Json × (Option (List Text) × S)
  unfolding json_response memoized get_rubygems_packages
  rubygems_page = names_page (get_rubygems_packages disk)

  unfoldable pub npm_page : Option Json × S → Outcome Json × (Option Json × S)
  unfolding json_response memoized get_npm_packages
  npm_page = values_page (get_npm_packages disk)

  unfoldable pub packagist_page : Option Json × S → Outcome Json × (Option Json × S)
  unfolding json_response memoized get_packagist_packages
  packagist_page = values_page (get_packagist_packages disk)

  unfoldable pub wolfi_page : Option Json × S → Outcome Json × (Option Json × S)
  unfolding json_response memoized get_wolfi_packages
  wolfi_page = values_page (get_wolfi_packages disk)

  -- These two hold the dictionary itself.
  unfoldable pub rust_page : Option Json × S → Outcome Json × (Option Json × S)
  unfolding json_response memoized get_rust_packages
  rust_page s = respond (λ v. v) (memoized (get_rust_packages disk) s)

  unfoldable pub maven_page : Option Json × S → Outcome Json × (Option Json × S)
  unfolding json_response memoized get_maven_packages
  maven_page s = respond (λ v. v) (memoized (λ t. (ret (get_maven_packages disk t), t)) s)
