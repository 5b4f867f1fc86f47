-- ===== src/Versions.antt =====
-- backend/package_analysis/services/package_version_service.py, and the endpoints of views.py that
-- answer with a list of versions. `requests` is the parameter of services/repository_service.py.
pub mod Laws
use packamal.Tasks.Outcome.{Outcome, ret, raise}
use packamal.Json.{Json, subscript, str, ◌>>=◌, object, iterate, member, keys, failing}
use packamal.Repository.{Internet, get_list}
use packamal.Prelude.{
  List, Text, map, Option, [], truthy, none, if◌then◌else◌, text_eq, ◌==◌, ◌∷◌, codes, some, ◌++◌,
}

-- `[x[key] for x in data]`
unfoldable pub each : Text → List Json → Outcome (List Json)
each key [] = ret []
each key (v ∷ vs) =
    let rest = each key vs in subscript key v >>= (λ x. rest >>= (λ xs. ret (x ∷ xs)))

abbrev pub text_values : List Text → List Json
text_values = map (λ t. str t)

-- `data['packages'].get(package_name, [])`
abbrev pub in_packages : Text → Json → Outcome (List Json)
in_packages package_name document =
    subscript (codes "packages") document >>= get_list package_name >>= iterate

-- `list(data.get('versions', {}).keys())`
abbrev pub version_keys : Json → Outcome (List Json)
version_keys (object fs) = elim (member (codes "versions") fs) [
  | none ↦ ret []
  | some versions ↦ keys versions >>= (λ ks. ret (text_values ks))
]
version_keys _ = raise (failing (codes "AttributeError"))

module _ (net : Internet) (lower : Text → Text) where
  -- `if response.status_code == 200: ...`, else another answer.
  abbrev pub when_ok {ℓ} : {A : Type ℓ} → A → (Json → Outcome A) → Text → Outcome A
  when_ok other read url =
      net.get url
      >>= (λ response. if response.status_code == 200 then response.json >>= read else ret other)

  unfoldable pub get_rubygems_versions : Text → Outcome (List Json)
  unfolding each
  get_rubygems_versions package_name =
      when_ok [] (λ document. iterate document >>= each (codes "number"))
        (codes "https://rubygems.org/api/v1/versions/" ++ (package_name ++ codes ".json"))

  unfoldable pub get_packagist_versions : Text → Outcome (List Json)
  unfolding each
  get_packagist_versions package_name =
      when_ok [] (λ document. in_packages package_name document >>= each (codes "version"))
        (codes "https://repo.packagist.org/p2/" ++ (package_name ++ codes ".json"))

  unfoldable pub get_npm_versions : Text → Outcome (Option (List Json))
  get_npm_versions package_name =
      when_ok none (λ document. version_keys document >>= (λ versions. ret (some versions)))
        (codes "https://registry.npmjs.org/" ++ package_name)

  unfoldable pub get_pypi_versions : Text → Outcome (List Json)
  get_pypi_versions package_name =
      when_ok []
        (λ document.
          subscript (codes "releases") document >>= keys >>= (λ ks. ret (text_values ks)))
        (codes "https://pypi.org/pypi/" ++ (package_name ++ codes "/json"))

  abbrev pub or_empty : Outcome (Option (List Json)) → Outcome (List Json)
  or_empty o = o >>= (λ versions. elim versions [ none ↦ ret [] | some vs ↦ ret vs ])

  unfoldable pub fetcher : Text → Option (Text → Outcome (List Json))
  unfolding get_rubygems_versions get_packagist_versions get_npm_versions get_pypi_versions
  fetcher key =
      if text_eq key (codes "rubygems")
      then some get_rubygems_versions
      else if text_eq key (codes "packagist")
      then some get_packagist_versions
      else if text_eq key (codes "npm")
      then some (λ name. or_empty (get_npm_versions name))
      else if text_eq key (codes "pypi")
      then some get_pypi_versions
      else none

  unfoldable pub get_versions_for_ecosystem : Text → Text → Outcome (List Json)
  unfolding fetcher
  get_versions_for_ecosystem ecosystem package_name = elim (fetcher (lower ecosystem)) [
    | none ↦ ret []
    | some fetch ↦ fetch package_name
  ]

  -- `_validate_package_name` on the parameter package_name of the request, and the answer with the
  -- versions: none is the status 400.
  unfoldable pub versions_page {ℓ} :
      {A : Type ℓ} → (Text → Outcome A) → Option Text → Outcome (Option A)
  versions_page fetch package_name = elim (truthy package_name) [
    | none ↦ ret none
    | some name ↦ fetch name >>= (λ versions. ret (some versions))
  ]
