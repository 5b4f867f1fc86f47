-- ===== src/Versions/Laws.antt =====
-- Where the versions that `get_versions_for_ecosystem` returns come from.
use packamal.Json.{
  Json, Fields, object, subscript, member, iterate, keys, ret_of_bind, eq_of_ret, ◌>>=◌,
}
use packamal.Repository.{Internet, HttpAnswer, get_list}
use packamal.Tasks.Outcome.{Outcome, ret}
use packamal.Versions.{
  each, text_values, in_packages, version_keys, when_ok, get_rubygems_versions,
  get_packagist_versions, get_npm_versions, get_pypi_versions, or_empty, fetcher,
  get_versions_for_ecosystem,
}
use packamal.Prelude.{
  List, Text, some, none, [], ◌∷◌, ◌++◌, codes, text_eq, text_eq→eq, ◌==◌, true, ◌≡◌, ◌≢◌, refl,
  Bool-cases, Option-cases, inl, inr, ◌⊎◌, sym, ◌∙◌, ap, subst,
}

-- The values are those under the key in the entries, in their order.
abbrev pub Picks : Text → List Json → List Json → Type 0
Picks key [] vs = vs ≡ []
Picks key (x ∷ xs) vs =
    (v : Json) × (rest : List Json) × (subscript key x ≡ ret v)
    × (vs ≡ v ∷ rest)
    × Picks key xs rest

-- How a registry's document lists the versions: in entries, or as the keys of an object.
pub data Lists (name : Text) : (ecosystem url : Text) → Json → List Json → Type 0 where
  gems :
      {url : Text} {document : Json} {vs : List Json} (entries : List Json)
      → url ≡ codes "https://rubygems.org/api/v1/versions/" ++ (name ++ codes ".json")
      → iterate document ≡ ret entries
      → Picks (codes "number") entries vs
      → Lists name (codes "rubygems") url document vs
  composer :
      {url : Text} {document : Json} {vs : List Json} (packages found : Json) (entries : List Json)
      → url ≡ codes "https://repo.packagist.org/p2/" ++ (name ++ codes ".json")
      → subscript (codes "packages") document ≡ ret packages
      → get_list name packages ≡ ret found
      → iterate found ≡ ret entries
      → Picks (codes "version") entries vs
      → Lists name (codes "packagist") url document vs
  npm :
      {url : Text} {document : Json} {vs : List Json} (fs : Fields) (versions : Json)
      (ks : List Text)
      → url ≡ codes "https://registry.npmjs.org/" ++ name
      → document ≡ object fs
      → member (codes "versions") fs ≡ some versions
      → keys versions ≡ ret ks
      → vs ≡ text_values ks
      → Lists name (codes "npm") url document vs
  pypi :
      {url : Text} {document : Json} {vs : List Json} (releases : Json) (ks : List Text)
      → url ≡ codes "https://pypi.org/pypi/" ++ (name ++ codes "/json")
      → subscript (codes "releases") document ≡ ret releases
      → keys releases ≡ ret ks
      → vs ≡ text_values ks
      → Lists name (codes "pypi") url document vs

each-Picks : (key : Text) (xs vs : List Json) → each key xs ≡ ret vs → Picks key xs vs
unfolding each
each-Picks key [] vs h = sym (eq_of_ret h)
each-Picks key (x ∷ xs) vs h =
    let (v, s, k) = ret_of_bind (subscript key x) _ h in
    let (rest, r, l) = ret_of_bind (each key xs) _ k in
    (v, rest, s, sym (eq_of_ret l), each-Picks key xs rest r)

module _ (net : Internet) (lower : Text → Text) where
  -- The registry answered a request for the package with the status 200 and a document that lists
  -- the versions.
  abbrev pub IsListed : Text → Text → List Json → Type 0
  IsListed ecosystem name vs =
      (url : Text) × (response : HttpAnswer) × (document : Json) × (net.get url ≡ ret response)
      × ((response.status_code == 200) ≡ true)
      × (response.json ≡ ret document)
      × Lists name ecosystem url document vs

  when_ok_lem {ℓ} :
      {A : Type ℓ} (other : A) (read : Json → Outcome A) (url : Text) (a : A)
      → when_ok net lower other read url ≡ ret a
      → (a ≡ other)
        ⊎ ((response : HttpAnswer) × (document : Json) × (net.get url ≡ ret response)
            × ((response.status_code == 200) ≡ true)
            × (response.json ≡ ret document)
            × (read document ≡ ret a))
  when_ok_lem other read url a h =
      let (response, g, k) = ret_of_bind (net.get url) _ h in
      elim (Bool-cases (response.status_code == 200)) [
        | inr e ↦ inl (sym (eq_of_ret (rw e at k)))
        | inl e ↦
            let (document, j, r) = ret_of_bind response.json read (rw e at k) in
            inr (response, document, g, e, j, r)
      ]

  rubygems-IsListed :
      (name : Text) (vs : List Json)
      → get_rubygems_versions net lower name ≡ ret vs
      → vs ≢ []
      → IsListed (codes "rubygems") name vs
  unfolding get_rubygems_versions
  rubygems-IsListed name vs h some_version =
      elim (when_ok_lem [] (λ document. iterate document >>= each (codes "number")) _ vs h) [
        | inl e ↦ absurd (some_version e)
        | inr (response, document, g, e, j, r) ↦
            let (entries, i, p) = ret_of_bind (iterate document) _ r in
            (_, response, document, g, e, j, gems entries refl i (each-Picks _ entries vs p))
      ]

  packagist-IsListed :
      (name : Text) (vs : List Json)
      → get_packagist_versions net lower name ≡ ret vs
      → vs ≢ []
      → IsListed (codes "packagist") name vs
  unfolding get_packagist_versions
  packagist-IsListed name vs h some_version =
      elim (when_ok_lem [] (λ document. in_packages name document >>= each (codes "version")) _ vs
        h) [
          | inl e ↦ absurd (some_version e)
          | inr (response, document, g, e, j, r) ↦
              let (entries, i, p) = ret_of_bind (in_packages name document) _ r in
              let (found, k, l) =
                ret_of_bind (subscript (codes "packages") document >>= get_list name) iterate i in
              let (packages, m, n) = ret_of_bind (subscript (codes "packages") document) _ k in
              (
                _,
                response,
                document,
                g,
                e,
                j,
                composer packages found entries refl m n l (each-Picks _ entries vs p),
              )
        ]

  npm-IsListed :
      (name : Text) (vs : List Json)
      → or_empty net lower (get_npm_versions net lower name) ≡ ret vs
      → vs ≢ []
      → IsListed (codes "npm") name vs
  unfolding get_npm_versions
  npm-IsListed name vs h some_version =
      let (o, k, l) = ret_of_bind (get_npm_versions net lower name) _ h in
      elim (when_ok_lem none
        (λ document. version_keys document >>= (λ versions. ret (some versions))) _ o k) [
          | inl e ↦ absurd (some_version (sym (eq_of_ret (rw e at l))))
          | inr (response, document, g, e, j, r) ↦
              let (ws, v, n) = ret_of_bind (version_keys document) _ r in
              let same : ws ≡ vs = eq_of_ret (rw (sym (eq_of_ret n)) at l) in
              let (fs, versions, ks, d, m, q, w) =
                named document vs (v ∙ ap ret same) some_version in
              (_, response, document, g, e, j, npm fs versions ks refl d m q w)
        ]
    where
      named :
          (document : Json) (us : List Json)
          → version_keys document ≡ ret us
          → us ≢ []
          → (fs : Fields) × (versions : Json) × (ks : List Text) × (document ≡ object fs)
            × (member (codes "versions") fs ≡ some versions)
            × (keys versions ≡ ret ks)
            × (us ≡ text_values ks)
      named (object fs) us v nonempty = elim (Option-cases (member (codes "versions") fs)) [
        | inl e ↦ absurd (nonempty (sym (eq_of_ret (rw (e, version_keys) at v))))
        | inr (versions, e) ↦
            let (ks, q, w) = ret_of_bind (keys versions) _ (rw (e, version_keys) at v) in
            (fs, versions, ks, refl, e, q, sym (eq_of_ret w))
      ]
      named _ us v nonempty = absurd cc

  pypi-IsListed :
      (name : Text) (vs : List Json)
      → get_pypi_versions net lower name ≡ ret vs
      → vs ≢ []
      → IsListed (codes "pypi") name vs
  unfolding get_pypi_versions
  pypi-IsListed name vs h some_version =
      elim (when_ok_lem []
        (λ document.
          subscript (codes "releases") document >>= keys >>= (λ ks. ret (text_values ks)))
        _ vs h) [
          | inl e ↦ absurd (some_version e)
          | inr (response, document, g, e, j, r) ↦
              let (ks, k, w) = ret_of_bind (subscript (codes "releases") document >>= keys) _ r in
              let (releases, m, q) = ret_of_bind (subscript (codes "releases") document) keys k in
              (_, response, document, g, e, j, pypi releases ks refl m q (sym (eq_of_ret w)))
        ]

  -- If get_versions_for_ecosystem returns a version, the registry of the ecosystem in lower case
  -- answered a request for the package with the status 200, and what is returned are the versions
  -- that its document lists, in their order: the numbers of RubyGems' entries, the versions of
  -- Packagist's, or the keys of npm's versions or of PyPI's releases.
  pub get_versions_for_ecosystem-IsListed :
      (ecosystem name : Text) (vs : List Json)
      → get_versions_for_ecosystem net lower ecosystem name ≡ ret vs
      → vs ≢ []
      → IsListed (lower ecosystem) name vs
  unfolding get_versions_for_ecosystem fetcher
  get_versions_for_ecosystem-IsListed ecosystem name vs h some_version = by_key (lower ecosystem) h
    where
      by_key :
          (key : Text)
          → (elim (fetcher net lower key) [ none ↦ ret [] | some fetch ↦ fetch name ]) ≡ ret vs
          → IsListed key name vs
      by_key key k = elim (Bool-cases (text_eq key (codes "rubygems"))) [
        | inl e ↦
            subst (λ t. IsListed t name vs) (sym (text_eq→eq key _ e))
              (rubygems-IsListed name vs (rw e at k) some_version)
        | inr e ↦ elim (Bool-cases (text_eq key (codes "packagist"))) [
          | inl f ↦
              subst (λ t. IsListed t name vs) (sym (text_eq→eq key _ f))
                (packagist-IsListed name vs (rw (e, f) at k) some_version)
          | inr f ↦ elim (Bool-cases (text_eq key (codes "npm"))) [
            | inl g ↦
                subst (λ t. IsListed t name vs) (sym (text_eq→eq key _ g))
                  (npm-IsListed name vs (rw (e, f, g) at k) some_version)
            | inr g ↦ elim (Bool-cases (text_eq key (codes "pypi"))) [
              | inl i ↦
                  subst (λ t. IsListed t name vs) (sym (text_eq→eq key _ i))
                    (pypi-IsListed name vs (rw (e, f, g, i) at k) some_version)
              | inr i ↦ absurd (some_version (sym (eq_of_ret (rw (e, f, g, i) at k))))
            ]
          ]
        ]
      ]
