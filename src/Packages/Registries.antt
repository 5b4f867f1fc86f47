-- ===== src/Packages/Registries.antt =====
-- src/internal/pkgmanager: the managers of npm, pypi, maven, rubygems, packagist and crates.io.
-- A version that is no text raises where the source returns it as it is.
use packamal.Json.{
  ◌>>=◌, Json, failing, as_text, str, subscript, keys, first_item, is_text, iterate, null,
}
use packamal.Packages.{PkgPlatform, replace, Json, failing, ◌>>=◌, truthy, Bool, ltb, instant}
use packamal.Prelude.{
  Text, List, Option, codes, ◌++◌, [], ◌∷◌, none, some, split, if◌then◌else◌, truthy, Bool, ltb,
}
use packamal.Tasks.Outcome.{Outcome, ret, raise}

abbrev pub parse_coordinates : List Text → Text × Text
parse_coordinates (group_id ∷ (artifact_id ∷ [])) = (group_id, artifact_id)
parse_coordinates _ = ([], [])

unfoldable pub parse_maven_package : Text → Text × Text
unfolding split
parse_maven_package pkg = parse_coordinates (split b':' pkg)

abbrev pub maven_directory : Text × Text → Text
maven_directory (group_id, artifact_id) =
    codes "https://repo1.maven.org/maven2/"
    ++ (replace (codes ".") (codes "/") group_id ++ (codes "/" ++ artifact_id))

unfoldable pub get_maven_archive_filename : Text → Text → Text
unfolding parse_maven_package
get_maven_archive_filename pkg_name version =
    (parse_maven_package pkg_name).1 ++ (codes "-" ++ (version ++ codes ".jar"))

unfoldable pub get_maven_archive_url : Text → Text → Text
unfolding parse_maven_package replace
get_maven_archive_url pkg_name version =
    maven_directory (parse_maven_package pkg_name)
    ++ (codes "/"
        ++ (version
            ++ (codes "/"
                ++ ((parse_maven_package pkg_name).1 ++ (codes "-" ++ (version ++ codes ".jar"))))))

unfoldable pub get_npm_archive_filename : Text → Text → Text
unfolding replace
get_npm_archive_filename pkg_name version =
    replace (codes "/") (codes "-") pkg_name ++ (codes "-" ++ (version ++ codes ".tgz"))

unfoldable pub get_crates_archive_url : Text → Text → Text
get_crates_archive_url pkg_name version =
    codes "https://crates.io/api/v1/crates/"
    ++ (pkg_name ++ (codes "/" ++ (version ++ codes "/download")))

-- `' '.join([pkg_name, "-", version, ".tar.gz"])`
unfoldable pub get_crates_archive_filename : Text → Text → Text
get_crates_archive_filename pkg_name version =
    pkg_name ++ (codes " - " ++ (version ++ codes " .tar.gz"))

unfoldable pub get_rubygems_archive_url : Text → Text → Text
get_rubygems_archive_url pkg_name version =
    codes "https://rubygems.org/gems/" ++ (pkg_name ++ (codes "-" ++ (version ++ codes ".gem")))

-- `pkg[0]` and `pkg[1]` of the parts around "/".
unfoldable pub get_packagist_archive_filename : Text → Text → Outcome Text
unfolding split
get_packagist_archive_filename pkg_name version = elim (split b'/' pkg_name) [
  | vendor ∷ (project ∷ rest) ↦
      ret (vendor ++ (codes "-" ++ (project ++ (codes "-" ++ (version ++ codes ".zip")))))
  | _ ↦ raise (failing (codes "list index out of range"))
]

-- A URL in a document: a value that is neither a text nor null makes the request for it fail.
abbrev pub url_value : Json → Outcome (Option Text)
url_value null = ret none
url_value v = as_text v >>= (λ t. ret (some t))

-- `for url in data['urls']: if url['packagetype'] == "sdist": return url['url']`
unfoldable pub first_sdist : List Json → Outcome (Option Text)
first_sdist [] = ret none
first_sdist (url ∷ urls) =
    let rest = first_sdist urls in
    subscript (codes "packagetype") url >>= (λ kind.
      if is_text (codes "sdist") kind then subscript (codes "url") url >>= url_value else rest)

-- The inner loop of `get_packagist_archive_url`.
unfoldable pub dist_of : Text → List Json → Outcome (Option Text)
dist_of version [] = ret none
dist_of version (v ∷ vs) =
    let rest = dist_of version vs in
    subscript (codes "version") v >>= (λ found.
      if is_text version found
      then subscript (codes "dist") v >>= subscript (codes "url") >>= url_value
      else rest)

-- The outer loop: `for versions in data['packages'].keys()`.
unfoldable pub dist_in : Text → Json → List Text → Outcome (Option Text)
unfolding dist_of
dist_in version packages [] = ret none
dist_in version packages (name ∷ names) =
    let rest = dist_in version packages names in
    subscript name packages
    >>= iterate
    >>= dist_of version
    >>= (λ found. elim found [ none ↦ rest | some url ↦ ret (some url) ])

module _ {S : Type 0} (platform : PkgPlatform S) where
  unfoldable pub get_npm_latest : Text → Outcome Text
  get_npm_latest pkg_name =
      platform.fetch_json (codes "https://registry.npmjs.org/" ++ pkg_name)
      >>= subscript (codes "dist-tags")
      >>= subscript (codes "latest")
      >>= as_text

  unfoldable pub get_npm_archive_url : Text → Text → Outcome (Option Text)
  get_npm_archive_url pkg_name version =
      platform.fetch_json
        (codes "https://registry.npmjs.org/" ++ (pkg_name ++ (codes "/" ++ version)))
      >>= subscript (codes "dist")
      >>= subscript (codes "tarball")
      >>= url_value

  unfoldable pub get_pypi_latest : Text → Outcome Text
  get_pypi_latest pkg_name =
      platform.fetch_json (codes "https://pypi.org/pypi/" ++ (pkg_name ++ codes "/json"))
      >>= subscript (codes "info")
      >>= subscript (codes "version")
      >>= as_text

  unfoldable pub get_pypi_archive_url : Text → Text → Outcome (Option Text)
  unfolding first_sdist
  get_pypi_archive_url pkg_name version =
      platform.fetch_json
        (codes "https://pypi.org/pypi/" ++ (pkg_name ++ (codes "/" ++ (version ++ codes "/json"))))
      >>= subscript (codes "urls")
      >>= iterate
      >>= first_sdist

  unfoldable pub get_crates_latest : Text → Outcome Text
  get_crates_latest pkg_name =
      platform.fetch_json
        (codes "https://crates.io/api/v1/crates/" ++ (pkg_name ++ codes "/versions"))
      >>= subscript (codes "versions")
      >>= first_item
      >>= subscript (codes "num")
      >>= as_text

  unfoldable pub get_rubygems_latest : Text → Outcome Text
  get_rubygems_latest pkg_name =
      platform.fetch_json (codes "https://rubygems.org/api/v1/gems/" ++ (pkg_name ++ codes ".json"))
      >>= subscript (codes "version")
      >>= as_text

  unfoldable pub get_maven_latest : Text → Outcome Text
  unfolding parse_maven_package replace
  get_maven_latest pkg_name =
      platform.fetch_xml
        (maven_directory (parse_maven_package pkg_name) ++ codes "/maven-metadata.xml")
        (codes "versioning/latest")
      >>= (λ latest. elim (truthy latest) [
        | none ↦
            raise (failing (codes "Could not find the latest version for package: " ++ pkg_name))
        | some version ↦ ret version
      ])

  abbrev pub packagist_document : Text → Outcome Json
  packagist_document pkg_name =
      platform.fetch_json (codes "https://repo.packagist.org/p2/" ++ (pkg_name ++ codes ".json"))
      >>= subscript (codes "packages")

  unfoldable pub get_packagist_archive_url : Text → Text → Outcome (Option Text)
  unfolding dist_in
  get_packagist_archive_url pkg_name version =
      packagist_document pkg_name >>= (λ packages. keys packages >>= dist_in version packages)

  -- `str(value)`
  abbrev pub text_of : Json → Text
  text_of (str s) = s
  text_of v = platform.repr v

  -- Whether the entry is later, from the texts of both times.
  unfoldable pub is_later : Json → Json → Outcome Bool
  unfolding instant
  is_later time last_time =
      instant platform.fromisoformat time
      >>= (λ current. instant platform.fromisoformat last_time >>= (λ last. ret (ltb last current)))

  -- One round of the inner loop of `get_packagist_latest`: `last_time` starts as null.
  unfoldable pub newest_step : Json → Json × Json → Outcome (Json × Json)
  unfolding is_later
  newest_step v (null, version) =
      subscript (codes "time") v
      >>= (λ time. subscript (codes "version") v >>= (λ found. ret (time, found)))
  newest_step v (last_time, version) = subscript (codes "time") v >>= (λ time.
      is_later time last_time >>= (λ later.
        if later
        then subscript (codes "version") v
          >>= (λ found. ret (str (text_of time), str (text_of found)))
        else ret (last_time, version)))

  unfoldable pub newest_of : List Json → Json × Json → Outcome (Json × Json)
  unfolding newest_step
  newest_of [] best = ret best
  newest_of (v ∷ vs) best = newest_step v best >>= newest_of vs

  -- The outer loop.
  unfoldable pub newest_in : Json → List Text → Json × Json → Outcome (Json × Json)
  unfolding newest_of
  newest_in packages [] best = ret best
  newest_in packages (name ∷ names) best =
      subscript name packages >>= iterate >>= (λ vs. newest_of vs best) >>= newest_in packages names

  unfoldable pub get_packagist_latest : Text → Outcome Text
  unfolding newest_in
  get_packagist_latest pkg_name =
      packagist_document pkg_name
      >>= (λ packages. keys packages >>= (λ names. newest_in packages names (null, str [])))
      >>= (λ best. as_text best.1)
