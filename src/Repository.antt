-- ===== src/Repository.antt =====
-- backend/package_analysis/services/repository_service.py: the latest version by deps.dev and the
-- lists of package names. `requests`, BeautifulSoup, git and the files are parameters; log lines
-- are left out.
pub mod Latest
pub mod Lists
pub mod Crates
pub mod Caches
use packamal.Reports.{null}
use packamal.Json.{
  Json, subscript, ◌>>=◌, null, object, get_member, str, is_text, member, iterate, is_true, failing,
  not_subscriptable, array, no_items,
}
use packamal.Packages.{instant}
use packamal.Prelude.{
  Text, List, Option, codes, ◌++◌, [], ◌∷◌, none, some, if◌then◌else◌, ℕ, Bool, ◌==◌, ltb,
}
use packamal.Tasks.Outcome.{Outcome, Exc, ret, raise}

pub record HttpAnswer : Type 0 where
  pub status_code : ℕ
  pub json : Outcome Json
  pub text : Text

-- What the service calls; S is the state of the files.
pub record Internet : Type 0 where
  -- `requests.get(url, timeout=...)`
  pub get : Text → Outcome HttpAnswer
  pub fromisoformat : Text → Outcome ℕ
  -- `str` of a value that is no text
  pub repr : Json → Text

-- `data.get(key, [])`
abbrev pub get_list : Text → Json → Outcome Json
get_list key (object fs) = elim (member key fs) [ none ↦ ret (array no_items) | some v ↦ ret v ]
get_list key _ = raise (failing (codes "AttributeError"))

module _ (net : Internet) where
  -- `datetime.fromisoformat(latest_version.get("publishedAt").replace("Z", "+00:00"))`
  abbrev pub kept_time : Option Json → Outcome ℕ
  kept_time none = raise (failing (codes "AttributeError"))
  kept_time (some ts) = instant net.fromisoformat ts

  -- `if ts: ... datetime.fromisoformat(ts)`, none without a time
  abbrev pub own_time : Option Json → Outcome (Option ℕ)
  own_time none = ret none
  own_time (some ts) =
      if is_true ts then instant net.fromisoformat ts >>= (λ at. ret (some at)) else ret none

  unfoldable pub published_at : Json → Outcome ℕ
  unfolding instant
  published_at version = get_member (codes "publishedAt") version >>= kept_time

  unfoldable pub released : Json → Outcome (Option ℕ)
  unfolding instant
  released version = get_member (codes "publishedAt") version >>= own_time

  unfoldable pub later_of : Json → ℕ → Option Json → Outcome (Option Json)
  unfolding published_at
  later_of version current_date none = ret (some version)
  later_of version current_date (some latest_version) =
      published_at latest_version
      >>= (λ last. ret (some (if ltb last current_date then version else latest_version)))

  abbrev pub on_time : Json → Option Json → Option ℕ → Outcome (Option Json)
  on_time version latest_version none = ret latest_version
  on_time version latest_version (some current_date) = later_of version current_date latest_version

  -- One round of the loop over the versions.
  unfoldable pub consider : Json → Option Json → Outcome (Option Json)
  unfolding released later_of
  consider version latest_version = released version >>= on_time version latest_version

  unfoldable pub scan : List Json → Option Json → Outcome (Option Json)
  unfolding consider
  scan [] latest_version = ret latest_version
  scan (version ∷ versions) latest_version = consider version latest_version >>= scan versions

  abbrev pub version_key : Json → Outcome Json
  version_key version = subscript (codes "versionKey") version >>= subscript (codes "version")

  -- `if latest_version and "versionKey" in latest_version`, where null stands for None
  abbrev pub version_of : Option Json → Outcome Json
  version_of none = ret null
  version_of (some (object fs)) = elim (member (codes "versionKey") fs) [
    | none ↦ ret null
    | some key ↦ subscript (codes "version") key
  ]
  version_of (some version) = raise not_subscriptable

  abbrev pub versions_of : Json → Outcome (List Json)
  versions_of document = get_list (codes "versions") document >>= iterate

  abbrev pub latest_in : Json → Outcome Json
  latest_in document = versions_of document >>= (λ versions. scan versions none) >>= version_of

  -- `except Exception`: None
  abbrev pub or_null : Outcome Json → Json
  or_null (ret v) = v
  or_null (raise e) = null

  -- The body of an answer with the status 200, else None.
  abbrev pub of_ok : (Json → Outcome Json) → HttpAnswer → Outcome Json
  of_ok read answer = if answer.status_code == 200 then answer.json >>= read else ret null

  abbrev pub package_url : Text → Text → Text
  package_url package_name ecosystem =
      codes "https://api.deps.dev/v3/systems/"
      ++ (ecosystem ++ (codes "/packages/" ++ package_name))

  unfoldable pub get_latest_package_version : Text → Text → Json
  unfolding scan
  get_latest_package_version package_name ecosystem =
      or_null (net.get (package_url package_name ecosystem) >>= of_ok latest_in)

  -- `for link in data.get("links", []): if link.get("label") == "SOURCE_REPO": return link["url"]`
  unfoldable pub source_link : List Json → Outcome Json
  source_link [] = ret null
  source_link (link ∷ links) =
      let rest = source_link links in
      get_member (codes "label") link >>= (λ label. elim label [
        | none ↦ rest
        | some l ↦ if is_text (codes "SOURCE_REPO") l then subscript (codes "url") link else rest
      ])

  abbrev pub text_of_json : Json → Text
  text_of_json (str s) = s
  text_of_json v = net.repr v

  abbrev pub version_url : Text → Text → Json → Text
  version_url package_name ecosystem version =
      codes "https://api.deps.dev/v3alpha/systems/"
      ++ (ecosystem
          ++ (codes "/packages/" ++ (package_name ++ (codes "/versions/" ++ text_of_json version))))

  unfoldable pub source_of : Text → Text → Json → Json
  unfolding source_link
  source_of package_name ecosystem null = null
  source_of package_name ecosystem version = or_null (
      net.get (version_url package_name ecosystem version)
      >>= of_ok (λ document. get_list (codes "links") document >>= iterate >>= source_link))

  unfoldable pub get_source_url : Text → Text → Json
  unfolding get_latest_package_version source_of
  get_source_url package_name ecosystem =
      source_of package_name ecosystem (get_latest_package_version package_name ecosystem)
